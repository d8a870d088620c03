-- ===== src/Wal.antt =====
-- wal: the write-ahead log, its records, the writes through a buffered writer, and the replay.
pub mod Record
pub mod Replay
pub mod Log
mod Tests
