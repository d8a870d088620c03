-- ===== src/Sstable.antt =====
-- sstable: the tables on disk.
pub mod Block
pub mod Index
pub mod Sort
pub mod Table
pub mod Iterator
pub mod Disk
mod Tests
