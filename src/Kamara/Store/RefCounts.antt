-- ===== src/Kamara/Store/RefCounts.antt =====
-- The reference counts of repos.go: what a chunk's row counts, and what a statement owes it.
pub mod Rows
pub mod Owed
pub mod Decrement
pub mod Reclaim
