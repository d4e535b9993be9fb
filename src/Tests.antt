-- ===== src/Tests.antt =====
-- Runs at concrete inputs, and each theorem with hypotheses at an input that meets them.
mod Tx
mod Wal
mod Version
mod Memtable
mod Codec
mod Bloom
mod Manifest
mod Merge
mod Snapshots
mod KeyIndex
mod Recovery
mod Commit
mod Compaction
