-- ===== src/Lib.antt =====
-- Verification of HatP, a hybrid transactional and analytical store written in Rust.
--
-- The parts and how they interact. A client begins transactions through crates/hatp. Their
-- mutations reach the engine (crates/hatp-engine), which writes them as frames to the
-- write-ahead log (wal.rs, with checksums of crc32c.rs), installs them at one commit timestamp
-- in the version chains (version.rs) of the memtable (memtable.rs), and reads them at snapshots.
-- Before a commit the engine calls a hook; crates/hatp-tx implements it with the transaction
-- manager, which validates serializable snapshot isolation, and after the commit the hook
-- records the write-set.
--
-- Rows are filed under keys that crates/hatp-types/src/codec.rs encodes, so that the byte order of
-- the memtable is the order of the values.
--
-- Which file models which part:
--   Codec            codec.rs: `encode_pk_value`, `scalar_to_index_be`, `fnv1a`, `djb2`, and
--                    `build_pk_key` and `assemble_table_key` of crates/hatp-engine/src/lib.rs.
--                    Signed, Float, Escape: the order of one encoding. Pk: that of all types.
--                    Keys: whole keys. Index: mixed widths. Hash: the unrolled loops.
--   Engine/Types     Mutation and EngineError of crates/hatp-engine/src/lib.rs
--   Engine/Version   VersionChain of version.rs: `insert` with its fast path and its place from
--                    the partition point, `get`, `garbage_collect`. Splice: the insertion as one
--                    walk. Visible: what readers see. Collect: what collection keeps.
--   Engine/Crc32c    the software path of crc32c.rs, its table, and the Hasher. Laws: chunks and
--                    streaming. Bitwise: the division bit by bit.
--   Engine/Wal       records and frames of wal.rs: `encode_batch`, `encode_mutations`,
--                    `decode_frame`, `decode_all`. Frames, Decode and Torn: one frame, whole and
--                    cut. Log and Recovery: whole logs. Progress: the end of the loop.
--   Engine/Memtable  BTreeMapTable of memtable.rs, its methods and the defaults of the trait.
--                    Prefix: the bound of a prefix. Scan: scans and erasure by prefix. Apply:
--                    batches. Collect: garbage collection.
--   Engine/Bloom     BloomFilter of bloom.rs. Members: no false negatives. File: the sidecar file.
--   Engine/Recovery  the replay loop of `open_with_crash_test_and_hook` in lib.rs of the engine.
--                    Replay: what it makes of a log of transactions. Crash: of a cut log, with
--                    `recover_records_with_truncation` of wal.rs.
--   Engine/Merge     `insert_newest`, the loop of `scan_all` and `dedup_superseded` of lib.rs of
--                    the engine. Newest: the newest write among rows. Superseded: what the
--                    merge of compaction keeps.
--   Engine/Snapshots `begin_read`, `pin_snapshot`, `unpin_snapshot`, `watermark` and the counters
--                    of lib.rs of the engine. Pins: the count of guards. Watermark: the steps of
--                    readers and commits.
--   Engine/Commit    `commit_single`, `flush_pending_batch` and `write_with_tx` of lib.rs of the
--                    engine, with the appending methods of wal.rs. EngineHook and LogFile are
--                    interfaces. Frames: what an append writes. Replies: the messages and the
--                    errors. Durable: group commits against recovery. Single: one commit.
--   Engine/Compaction  the pickers of compaction.rs. Hull: the files between two keys. Inputs: what
--                    a job reads. Ratio and Choice: the file that a level gives up.
--   Engine/KeyIndex  key_index.rs: the bytes of an index and the binary search. Entries: one
--                    entry. Search: `get`. File: `from_bytes`.
--   Engine/VersionSet  VersionEdit and VersionSet of manifest.rs. Candidates: the files for a key.
--                    Tidy: the shape that edits keep. Rewrite and Snapshot: `to_edits`.
--   Engine/Manifest  the edit log of manifest.rs. Frames, Payload and Log: whole frames. Torn: a
--                    cut log. Handle: `open`, `append_batch`, `rewrite`.
--   Tx/Types         transactions, contexts, entries and errors of crates/hatp-tx
--   Tx/Conflict      `check_conflict` of manager.rs, one transaction against one committed write-set
--   Tx/Cahill        `validate_cahill`: the search for a cycle of read-write edges
--   Tx/Manager       every other method of TxManager, as a map from a manager to a result and the
--                    manager that is left
--   Tx/Hook          TxManagerHook of hook.rs
--   Prelude          lists, maps, orders, results and fixed-width bytes that the parts share
--   Tests            runs at concrete inputs, and each theorem at an input that meets its hypotheses
--
-- Conventions. Machine integers are natural numbers with their bounds written out; usize has 64
-- bits. Signed integers are ℤ over them, floats their bits. Byte strings are lists of numbers. A
-- BTreeMap is an association list in key order, a HashSet a list without repetitions whose order
-- stands for the iteration order. A method is one step; where a method of the transaction manager
-- releases one lock before it takes another, what other threads do in between is not modelled. An
-- operation that panics returns `none` where the code can reach the panic (`range` with its bounds
-- out of order).
--
-- Fuel. The cycle search of Tx/Cahill has one round for each edge between the contexts and a last
-- one; the loop of `decode_all` of the log has one round for each byte of the buffer and a last
-- one. For these two a theorem says that the fuel is not used up, whatever the input. The binary
-- search of the key index has one round for each entry and a last one, and the loop of the
-- manifest's `decode_all` one for each byte and a last one. For these the theorems on results show
-- that the fuel is not used up on an index that was built from rows, and on a manifest that was
-- written whole or is cut in its last frame; other buffers are left open.
--
-- Not modelled: the SkipMap backend of the memtable (it rests on other crates), files, the SSE4.2
-- path of the checksum (hardware intrinsics), the reading of Arrow arrays, SST files, the queue of
-- pending requests, the point read and the flush of the engine, the SQL front end and the glue of
-- crates/hatp.
mod Prelude
pub mod Codec
pub mod Engine
pub mod Tx
pub mod Tests
