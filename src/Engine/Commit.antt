-- ===== src/Engine/Commit.antt =====
-- The commit path of the engine (crates/hatp-engine/src/lib.rs) with the appending methods of the
-- log (crates/hatp-engine/src/wal.rs). Whoever calls holds the write guard, so that a commit is one
-- step. The hook and the file are interfaces: the hook is any `EngineHook`, and NoopHook is one
-- that accepts everything and does nothing. Counters of the metrics are left out. The laws are in
-- the modules below.
pub mod Frames
pub mod Durable
pub mod Replies
pub mod Single
use hat_p.Prelude.{
  ℕ, zero, suc, ◌+◌, ◌-◌, ◌*◌, ◌/◌, ◌%◌, ◌^◌, ◌≤◌, ◌<◌, compare, Ordering, ◌≡◌, refl, sym, ap, ◌∙◌,
  subst, fun_ext, ◌≢◌, ◌↔◌, ◌⊎◌, inl, inr, Bool, true, false, not, ◌&&◌, ◌||◌, Option, none, some,
  List, [], ◌∷◌, ◌++◌, map, arith, Ord, Bytes, ltb, leb, ◌==◌, if◌then◌else◌, ltb→lt, lt→ltb,
  leb→le, ==_iff, Bool-cases, Option-cases, length, take, drop, get_elem?, any, All, Any,
  length-append, bytes_eq, in_range, contains, set_insert,
}
use hat_p.Prelude.Result.{ok, err, ◌>>=◌, answer}
use hat_p.Engine.Types.{
  EngineResult, Mutation, put, delete, corrupt_message, empty_batch, corrupt, throttled,
}
use hat_p.Engine.Wal.{encode_batch, encode_mutations}
use hat_p.Engine.Memtable.{BTreeMapTable, records_of, apply_mutations_batch}
use hat_p.Engine.Snapshots.{Snapshots, next_commit_ts, cover_tx_id}

-- `EngineHook`. The result `none` of on_pre_commit, and the result `false` of the others, is a
-- panic, which the engine catches.
pub record EngineHook {ℓ} (H : Type ℓ) : Type ℓ where
  pub on_pre_commit : ℕ → List Mutation → H → Option (EngineResult (Unit {0})) × H
  pub on_put : Bytes → Bytes → ℕ → H → Bool × H
  pub on_delete : Bytes → ℕ → H → Bool × H
  pub on_tx_commit : ℕ → ℕ → H → H

-- `write_all` and `sync_data` of the file: the result, and the content afterwards.
pub record LogFile : Type 0 where
  pub write_all : Bytes → Bytes → EngineResult (Unit {0}) × Bytes
  pub sync_data : Bytes → EngineResult (Unit {0})

-- `ThrottleLevel` of crates/hatp-engine/src/pressure.rs
pub data ThrottleLevel : Type 0 where
  no_throttle soft hard : ThrottleLevel

pub data SyncMode : Type 0 where
  full : SyncMode
  group : ℕ → SyncMode

-- `published` is what the watcher was told: the transactions and their timestamps. Subscribers are
-- given the mutations with them.
pub record Engine {ℓ} (H : Type ℓ) : Type ℓ where
  pub wal : Bytes
  pub snapshots : Snapshots
  pub memtable : BTreeMapTable
  pub hook : H
  pub published : List (ℕ × ℕ)

-- `result_tx` is the number of the channel.
pub record PendingWrite : Type 0 where
  pub tx_id : ℕ
  pub mutations : List Mutation
  pub result_tx : ℕ

abbrev pub writes_of : PendingWrite → ℕ × List Mutation
writes_of req = (req.tx_id, req.mutations)

-- What was sent, and on which channel.
abbrev pub Messages : Type 0
Messages = List (ℕ × EngineResult ℕ)

-- The loop of append_multi_mutations.
unfoldable pub encode_each : Bytes → List (ℕ × List Mutation) → EngineResult Bytes
unfolding encode_mutations
encode_each out [] = ok out
encode_each out ((tx_id, []) ∷ batches) = encode_each out batches
encode_each out ((tx_id, m ∷ mutations) ∷ batches) = do
  out ← encode_mutations out tx_id (m ∷ mutations)
  encode_each out batches

-- `file.write_all(&buffer)?; Ok(bytes)`
unfoldable pub written_bytes : ℕ → EngineResult (Unit {0}) × Bytes → EngineResult ℕ × Bytes
written_bytes bytes (err e, wal) = (err e, wal)
written_bytes bytes (ok done, wal) = (ok bytes, wal)

unfoldable pub write_buffer : LogFile → Bytes → Bytes → EngineResult ℕ × Bytes
unfolding written_bytes
write_buffer log_file buffer wal = written_bytes (length buffer) (log_file.write_all buffer wal)

-- An empty buffer is not written.
unfoldable pub write_encoded : LogFile → EngineResult Bytes → Bytes → EngineResult ℕ × Bytes
unfolding write_buffer
write_encoded log_file (err e) wal = (err e, wal)
write_encoded log_file (ok []) wal = (ok 0, wal)
write_encoded log_file (ok (b ∷ buffer)) wal = write_buffer log_file (b ∷ buffer) wal

unfoldable pub append_multi_mutations :
    LogFile → List (ℕ × List Mutation) → Bytes → EngineResult ℕ × Bytes
unfolding encode_each write_encoded
append_multi_mutations log_file [] wal = (ok 0, wal)
append_multi_mutations log_file (b ∷ batches) wal =
    write_encoded log_file (encode_each [] (b ∷ batches)) wal

-- `sync_data()?`
unfoldable pub synced_bytes : EngineResult (Unit {0}) → ℕ → Bytes → EngineResult ℕ × Bytes
synced_bytes (err e) bytes wal = (err e, wal)
synced_bytes (ok done) bytes wal = (ok bytes, wal)

-- `if bytes > 0 { self.file.lock().sync_data()?; } Ok(bytes)`
unfoldable pub synced : LogFile → EngineResult ℕ × Bytes → EngineResult ℕ × Bytes
unfolding synced_bytes
synced log_file (err e, wal) = (err e, wal)
synced log_file (ok bytes, wal) =
    if ltb 0 bytes then synced_bytes (log_file.sync_data wal) bytes wal else (ok bytes, wal)

unfoldable pub append_multi_mutations_commit_and_sync :
    LogFile → List (ℕ × List Mutation) → Bytes → EngineResult ℕ × Bytes
unfolding append_multi_mutations synced
append_multi_mutations_commit_and_sync log_file batches wal =
    synced log_file (append_multi_mutations log_file batches wal)

-- The two modes write the same bytes; `full` waits for the disk.
unfoldable pub append_batch :
    LogFile → SyncMode → List (ℕ × List Mutation) → Bytes → EngineResult ℕ × Bytes
unfolding append_multi_mutations append_multi_mutations_commit_and_sync
append_batch log_file full batches wal = append_multi_mutations_commit_and_sync log_file batches wal
append_batch log_file (group interval_us) batches wal = append_multi_mutations log_file batches wal

-- `file.write_all(&buffer)?; file.sync_data()?; Ok(bytes)`
unfoldable pub sync_written : LogFile → EngineResult ℕ × Bytes → EngineResult ℕ × Bytes
unfolding synced_bytes
sync_written log_file (err e, wal) = (err e, wal)
sync_written log_file (ok bytes, wal) = synced_bytes (log_file.sync_data wal) bytes wal

unfoldable pub write_and_sync : LogFile → EngineResult Bytes → Bytes → EngineResult ℕ × Bytes
unfolding write_buffer sync_written
write_and_sync log_file (err e) wal = (err e, wal)
write_and_sync log_file (ok buffer) wal = sync_written log_file (write_buffer log_file buffer wal)

unfoldable pub append_mutations_commit_and_sync :
    LogFile → ℕ → List Mutation → Bytes → EngineResult ℕ × Bytes
unfolding encode_mutations write_and_sync
append_mutations_commit_and_sync log_file tx_id [] wal = (ok 0, wal)
append_mutations_commit_and_sync log_file tx_id (m ∷ mutations) wal =
    write_and_sync log_file (encode_mutations [] tx_id (m ∷ mutations)) wal

-- append_multi_batch of one transaction, whose records build_wal_records makes.
unfoldable pub append_records : LogFile → ℕ → List Mutation → Bytes → EngineResult ℕ × Bytes
unfolding encode_batch write_encoded records_of
append_records log_file tx_id [] wal = (ok 0, wal)
append_records log_file tx_id (m ∷ mutations) wal =
    write_encoded log_file (encode_batch [] (records_of tx_id (m ∷ mutations)) tx_id) wal

unfoldable pub append_one : LogFile → SyncMode → ℕ → List Mutation → Bytes → EngineResult ℕ × Bytes
unfolding append_mutations_commit_and_sync append_records
append_one log_file full tx_id mutations wal =
    append_mutations_commit_and_sync log_file tx_id mutations wal
append_one log_file (group interval_us) tx_id mutations wal =
    append_records log_file tx_id mutations wal

-- `catch_unwind` around on_pre_commit
unfoldable pub caught {ℓ} :
    {H : Type ℓ} → Option (EngineResult (Unit {0})) × H → EngineResult (Unit {0}) × H
caught (none, h) = (err corrupt_message, h)
caught (some result, h) = (result, h)

module _ {ℓ} {H : Type ℓ} (hook : EngineHook H) where
  unfoldable pub pre_commit : ℕ → List Mutation → H → EngineResult (Unit {0}) × H
  unfolding caught
  pre_commit tx_id mutations h = caught (hook.on_pre_commit tx_id mutations h)

  -- The calls behind a commit. A panic ends them, and is caught.
  unfoldable pub notify : ℕ → ℕ → List Mutation → H → H
  notify tx_id commit_ts [] h = hook.on_tx_commit tx_id commit_ts h
  notify tx_id commit_ts (put key value ∷ mutations) h =
      let (done, h) = hook.on_put key value tx_id h in
      elim done [ false ↦ h | true ↦ notify tx_id commit_ts mutations h ]
  notify tx_id commit_ts (delete key ∷ mutations) h =
      let (done, h) = hook.on_delete key tx_id h in
      elim done [ false ↦ h | true ↦ notify tx_id commit_ts mutations h ]

  -- What follows the append of a transaction: its timestamp, the memtable, the hook, the watcher.
  unfoldable pub apply_commit : ℕ → List Mutation → Engine H → EngineResult ℕ × Engine H
  unfolding notify next_commit_ts apply_mutations_batch
  apply_commit tx_id mutations engine =
      let (commit_ts, snapshots) = next_commit_ts engine.snapshots in
      answer (apply_mutations_batch tx_id mutations commit_ts engine.memtable)
        (λ e memtable. (err e, record engine { snapshots = snapshots; memtable = memtable }))
        (λ done memtable. (
          ok commit_ts,
          record engine {
            snapshots = snapshots;
            memtable = memtable;
            hook = notify tx_id commit_ts mutations engine.hook;
            published = engine.published ++ (tx_id, commit_ts) ∷ [];
          },
        ))

  unfoldable pub commit_single :
      LogFile → SyncMode → ℕ → List Mutation → Engine H → EngineResult ℕ × Engine H
  unfolding pre_commit append_one apply_commit
  commit_single log_file sync_mode tx_id mutations engine =
      answer (pre_commit tx_id mutations engine.hook) (λ e h. (err e, record engine { hook = h }))
        (λ done h.
          answer (append_one log_file sync_mode tx_id mutations engine.wal)
            (λ e wal. (err e, record engine { hook = h; wal = wal }))
            (λ bytes wal. apply_commit tx_id mutations (record engine { hook = h; wal = wal })))

  -- The first loop of flush_pending_batch. The swaps and the truncation keep the requests that
  -- passed, in their order; the others are told their error.
  unfoldable pub check_batch : List PendingWrite → H → List PendingWrite × Messages × H
  unfolding pre_commit
  check_batch [] h = ([], [], h)
  check_batch (req ∷ batch) h =
      answer (pre_commit req.tx_id req.mutations h)
        (λ e h.
          let (passed, sent, h) = check_batch batch h in (passed, (req.result_tx, err e) ∷ sent, h))
        (λ done h. let (passed, sent, h) = check_batch batch h in (req ∷ passed, sent, h))

  -- The loop behind the append. An error is told to the requests that remain, too.
  unfoldable pub apply_each :
      List PendingWrite → Engine H → EngineResult (Unit {0}) × Messages × Engine H
  unfolding apply_commit
  apply_each [] engine = (ok tt, [], engine)
  apply_each (req ∷ batch) engine =
      answer (apply_commit req.tx_id req.mutations engine)
        (λ e engine. (err e, map (λ r. (r.result_tx, err corrupt_message)) (req ∷ batch), engine))
        (λ commit_ts engine.
          let (result, sent, engine) = apply_each batch engine in
          (result, (req.result_tx, ok commit_ts) ∷ sent, engine))

  -- What follows the first loop, for the requests that passed.
  unfoldable pub flush_passed :
      LogFile
      → SyncMode
      → List PendingWrite
      → Engine H
      → EngineResult (Unit {0}) × Messages × Engine H
  unfolding append_batch apply_each
  flush_passed log_file sync_mode [] engine = (ok tt, [], engine)
  flush_passed log_file sync_mode (req ∷ passed) engine =
      answer (append_batch log_file sync_mode (map writes_of (req ∷ passed)) engine.wal)
        (λ e wal. (
          err e,
          map (λ r. (r.result_tx, err corrupt_message)) (req ∷ passed),
          record engine { wal = wal },
        ))
        (λ bytes wal. apply_each (req ∷ passed) (record engine { wal = wal }))

  unfoldable pub flush_pending_batch :
      LogFile
      → SyncMode
      → List PendingWrite
      → Engine H
      → EngineResult (Unit {0}) × Messages × Engine H
  unfolding check_batch flush_passed
  flush_pending_batch log_file sync_mode batch engine =
      let (passed, rejected, h) = check_batch batch engine.hook in
      let (result, sent, engine) =
        flush_passed log_file sync_mode passed (record engine { hook = h }) in
      (result, rejected ++ sent, engine)

  -- The caller finds no pending requests. A soft throttle only sleeps.
  unfoldable pub write_with_tx :
      LogFile → SyncMode → ThrottleLevel → ℕ → List Mutation → Engine H → EngineResult ℕ × Engine H
  unfolding commit_single cover_tx_id
  write_with_tx log_file sync_mode level tx_id [] engine = (err empty_batch, engine)
  write_with_tx log_file sync_mode level tx_id (m ∷ mutations) engine =
      let covered : Engine H = record engine { snapshots = cover_tx_id tx_id engine.snapshots } in
      if tx_id == 0
      then (err (corrupt "tx_id 0 is reserved as sentinel"), engine)
      else (elim level [
        | hard ↦ (err throttled, covered)
        | soft ↦ commit_single log_file sync_mode tx_id (m ∷ mutations) covered
        | no_throttle ↦ commit_single log_file sync_mode tx_id (m ∷ mutations) covered
      ])
