-- ===== src/Api/Indexing.antt =====
-- frvt/api/indexing: indexes of translations, whose mappings are made beforehand by a worker.
pub mod Rows
pub mod Registry
pub mod Invalidation
pub mod Worker
pub mod Builder
pub mod Sound
pub mod Changes
pub mod Claim
pub mod Steps
pub mod Requests
pub mod Work
pub mod Invariant
pub mod Known
pub mod Stored
pub mod Grown
pub mod Orphans
pub mod Races
pub mod Drain
pub mod Retarget
pub mod Locks
pub mod Keys
pub mod Chunks
pub mod Deletion
pub mod Deleted
pub mod Purged
