-- ===== src/Storage.antt =====
-- crates/storage/src: segments, the index, the engine over both, and the write-ahead log.
pub mod Segment
pub mod BLinkTree
pub mod Engine
pub mod Wal
pub mod ClickHouse
