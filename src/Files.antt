-- ===== src/Files.antt =====
-- internal/files: the files of a storage, as the handlers of the server read and change them.
pub mod Disk
pub mod Paths
pub mod Targets
pub mod Operations
pub mod Folders
pub mod Trash
pub mod Pages
pub mod Uploads
