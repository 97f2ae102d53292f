-- ===== src/WantDb.antt =====
-- The database of blobs and stores: src/internal/wantdb.
pub mod Tables
pub mod Blobs
pub mod DbStore
pub mod Links
pub mod Counted
pub mod Histories
pub mod Reads
pub mod Deletes
pub mod Copies
pub mod JobTables
pub mod Jobs
pub mod JobCreate
pub mod JobResults
pub mod JobCache
pub mod Inspect
pub mod TxStore
pub mod Artifacts
