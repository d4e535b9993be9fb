-- ===== src/Engine.antt =====
-- crates/hatp-engine: the storage engine.
pub mod Types
pub mod Version
pub mod Crc32c
pub mod Wal
pub mod Memtable
pub mod Merge
pub mod Bloom
pub mod Recovery
pub mod KeyIndex
pub mod Snapshots
pub mod Commit
pub mod Compaction
pub mod VersionSet
pub mod Manifest
