-- ===== src/Compaction.antt =====
-- compaction: merging tables of similar size.
pub mod Merge
pub mod Compact
pub mod Group
mod Tests
