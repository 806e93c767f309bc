-- ===== src/Lid.antt =====
-- store/sqlstore/lidmap.go: the two-way map between LIDs and phone numbers, an SQL table behind two
-- caches.
mod Tables
mod Methods
pub mod Unique
pub mod Coherence
pub mod Batch
pub mod Rollback
pub mod Refinement
pub mod Writes
pub mod Refresh
pub mod Remember
pub mod Many
pub mod Answered
unfoldable pub use Tables.*
unfoldable pub use Methods.*
