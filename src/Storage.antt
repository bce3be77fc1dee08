-- ===== src/Storage.antt =====
-- The storage service, crates/storage/src/storage_service.rs.
pub mod Paths
pub mod World
pub mod Access
pub mod Tables
pub mod Save
pub mod Folders
pub mod Reading
pub mod Trash
pub mod Delete
pub mod Restore
pub mod Rename
pub mod Purge
pub mod Listing
pub mod Isolation
pub mod Sample
mod Tests
pub mod Effects
