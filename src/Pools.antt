-- ===== src/Pools.antt =====
-- internal/storagepool: storage pools.
pub mod Schedule
pub mod Raid
pub mod Store
pub mod Update
