-- ===== src/Base.antt =====
-- internal/base: internal keys, their order and their encoding, and the watermark of snapshots.
pub mod Key
pub mod Watermark
mod Tests
