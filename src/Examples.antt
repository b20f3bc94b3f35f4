-- ===== src/Examples.antt =====
-- Runs of the development's definitions at concrete inputs.
mod Schedules
mod PoolTable
mod JobTable
mod Listings
mod SessionTable
mod FileTree
mod UploadStore
