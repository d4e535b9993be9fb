-- ===== src/Engine/Commit/Replies.antt =====
-- What the requests of a group commit are told, and what an error leaves of the engine.
use hat_p.Prelude.{
  ℕ, ◌+◌, ◌≡◌, refl, ap, ◌⊎◌, inl, inr, List, [], ◌∷◌, ◌++◌, map, arith, Bytes, ◌==◌, if◌then◌else◌,
}
use hat_p.Engine.Commit.{
  full, group, synced, writes_of, append_multi_mutations, append_multi_mutations_commit_and_sync,
  EngineHook, LogFile, SyncMode, Engine, PendingWrite, Messages, append_batch, apply_commit, notify,
  pre_commit, check_batch, apply_each, flush_passed, flush_pending_batch,
}
use hat_p.Prelude.Result.{ok, err, Result-cases}
use hat_p.Engine.Types.{EngineResult, EngineError, Mutation, corrupt_message}
use hat_p.Engine.Memtable.{apply_mutations}
use hat_p.Engine.Memtable.Apply.{batch_mutations}
use hat_p.Engine.Snapshots.{next_commit_ts}

-- The messages on a channel, and the requests that wait at it.
unfoldable pub count_on : ℕ → Messages → ℕ
count_on channel [] = 0
count_on channel ((to, message) ∷ sent) = (if to == channel then 1 else 0) + count_on channel sent

unfoldable pub waiting_on : ℕ → List PendingWrite → ℕ
waiting_on channel [] = 0
waiting_on channel (req ∷ batch) =
    (if req.result_tx == channel then 1 else 0) + waiting_on channel batch

count_on-append :
    (channel : ℕ) (xs ys : Messages)
    → count_on channel (xs ++ ys) ≡ count_on channel xs + count_on channel ys
unfolding count_on
count_on-append channel [] ys = omega arith
count_on-append channel ((to, message) ∷ xs) ys = omega (arith, count_on-append channel xs ys)

count_on-failed :
    (channel : ℕ) (batch : List PendingWrite)
    → count_on channel (map (λ r. (r.result_tx, err corrupt_message)) batch)
      ≡ waiting_on channel batch
unfolding count_on waiting_on
count_on-failed channel [] = refl
count_on-failed channel (req ∷ batch) = omega (arith, count_on-failed channel batch)

module _ {ℓ} {H : Type ℓ} (hook : EngineHook H) where
  -- The memtable takes every batch, so a commit always succeeds at the next timestamp.
  abbrev pub after_apply : ℕ → List Mutation → Engine H → Engine H
  after_apply tx_id mutations engine =
      let commit_ts = engine.snapshots.commit_seq in
      record engine {
        snapshots = (next_commit_ts engine.snapshots).1;
        memtable = apply_mutations tx_id mutations commit_ts engine.memtable;
        hook = notify hook tx_id commit_ts mutations engine.hook;
        published = engine.published ++ (tx_id, commit_ts) ∷ [];
      }

  pub apply_commit-ok :
      (tx_id : ℕ) (mutations : List Mutation) (engine : Engine H)
      → apply_commit hook tx_id mutations engine
        ≡ (ok engine.snapshots.commit_seq, after_apply tx_id mutations engine)
  unfolding apply_commit next_commit_ts
  apply_commit-ok tx_id mutations engine =
      rw (batch_mutations tx_id mutations engine.snapshots.commit_seq engine.memtable) refl

  -- Every request of the loop is told its timestamp.
  unfoldable pub committed : List PendingWrite → Engine H → Messages
  committed [] engine = []
  committed (req ∷ batch) engine =
      (req.result_tx, ok engine.snapshots.commit_seq)
      ∷ committed batch (after_apply req.tx_id req.mutations engine)

  abbrev pub after_each : List PendingWrite → Engine H → Engine H
  after_each [] engine = engine
  after_each (req ∷ batch) engine = after_each batch (after_apply req.tx_id req.mutations engine)

  pub apply_each-ok :
      (batch : List PendingWrite) (engine : Engine H)
      → apply_each hook batch engine ≡ (ok tt, committed batch engine, after_each batch engine)
  unfolding apply_each committed
  apply_each-ok [] engine = refl
  apply_each-ok (req ∷ batch) engine =
      rw
        (
          apply_commit-ok req.tx_id req.mutations engine,
          apply_each-ok batch (after_apply req.tx_id req.mutations engine),
        )
        refl

  count_on-committed :
      (channel : ℕ) (batch : List PendingWrite) (engine : Engine H)
      → count_on channel (committed batch engine) ≡ waiting_on channel batch
  unfolding count_on waiting_on committed
  count_on-committed channel [] engine = refl
  count_on-committed channel (req ∷ batch) engine =
      omega (arith, count_on-committed channel batch (after_apply req.tx_id req.mutations engine))

  count_on-check_batch :
      (channel : ℕ) (batch : List PendingWrite) (h : H)
      → count_on channel (check_batch hook batch h).1
          + waiting_on channel (check_batch hook batch h).0
        ≡ waiting_on channel batch
  unfolding check_batch count_on waiting_on
  count_on-check_batch channel [] h = refl
  count_on-check_batch channel (req ∷ batch) h =
      elim (Result-cases (pre_commit hook req.tx_id req.mutations h)) [
        | inl (done, h, e) ↦ rw (e) (omega (arith, count_on-check_batch channel batch h))
        | inr (f, h, e) ↦ rw (e) (omega (arith, count_on-check_batch channel batch h))
      ]

  -- The two ends of a batch whose requests passed.
  abbrev pub failed :
      EngineError
      → List PendingWrite
      → Bytes
      → Engine H
      → EngineResult (Unit {0}) × Messages × Engine H
  failed e passed wal engine =
      (err e, map (λ r. (r.result_tx, err corrupt_message)) passed, record engine { wal = wal })

  abbrev pub flushed :
      List PendingWrite → Bytes → Engine H → EngineResult (Unit {0}) × Messages × Engine H
  flushed passed wal engine =
      let written : Engine H = record engine { wal = wal } in
      (ok tt, committed passed written, after_each passed written)

  pub flush_passed-cases :
      (log_file : LogFile) (sync_mode : SyncMode) (passed : List PendingWrite) (engine : Engine H)
      → ((e : EngineError) × (wal : Bytes) × (flush_passed hook log_file sync_mode passed engine
            ≡ failed e passed wal engine))
        ⊎ ((bytes : ℕ) × (wal : Bytes) × (append_batch log_file sync_mode
                (map writes_of passed)
                engine.wal
              ≡ (ok bytes, wal))
            × (flush_passed hook log_file sync_mode passed engine ≡ flushed passed wal engine))
  unfolding flush_passed append_batch append_multi_mutations append_multi_mutations_commit_and_sync
      synced committed
  flush_passed-cases log_file full [] engine = inr (0, engine.wal, refl, refl)
  flush_passed-cases log_file (group i) [] engine = inr (0, engine.wal, refl, refl)
  flush_passed-cases log_file sync_mode (req ∷ passed) engine =
      elim (Result-cases
        (append_batch log_file sync_mode (map writes_of (req ∷ passed)) engine.wal)) [
          | inl (bytes, wal, e) ↦
              inr
                (bytes, wal, e, rw (e) (apply_each-ok (req ∷ passed) (record engine { wal = wal })))
          | inr (f, wal, e) ↦ inl (f, wal, rw (e) refl)
        ]

  count_on-flush_passed :
      (channel : ℕ) (log_file : LogFile) (sync_mode : SyncMode) (passed : List PendingWrite)
      (engine : Engine H)
      → count_on channel (flush_passed hook log_file sync_mode passed engine).1
        ≡ waiting_on channel passed
  count_on-flush_passed channel log_file sync_mode passed engine =
      elim (flush_passed-cases log_file sync_mode passed engine) [
        | inl (f, wal, e) ↦ rw (e) (count_on-failed channel passed)
        | inr (bytes, wal, w, e) ↦
            rw (e) (count_on-committed channel passed (record engine { wal = wal }))
      ]

  -- A group commit sends on every channel as many messages as requests of the batch wait there,
  -- whatever the hook, the encoding, the write and the sync answer.
  pub every_request_is_answered :
      (channel : ℕ) (log_file : LogFile) (sync_mode : SyncMode) (batch : List PendingWrite)
      (engine : Engine H)
      → count_on channel (flush_pending_batch hook log_file sync_mode batch engine).1
        ≡ waiting_on channel batch
  unfolding flush_pending_batch
  every_request_is_answered channel log_file sync_mode batch engine =
      let checked = check_batch hook batch engine.hook in
      let hooked : Engine H = record engine { hook = checked.2 } in
      omega (
        arith,
        count_on-append channel checked.1 (flush_passed hook log_file sync_mode checked.0 hooked).1,
        count_on-flush_passed channel log_file sync_mode checked.0 hooked,
        count_on-check_batch channel batch engine.hook,
      )

  -- When a group commit returns an error, the memtable, the counters and what the watcher was
  -- told are as before.
  pub flush_pending_batch-err :
      (log_file : LogFile) (sync_mode : SyncMode) (batch : List PendingWrite) (engine : Engine H)
      (f : EngineError)
      → (flush_pending_batch hook log_file sync_mode batch engine).0 ≡ err f
      → ((flush_pending_batch hook log_file sync_mode batch engine).2.memtable ≡ engine.memtable)
        × ((flush_pending_batch hook log_file sync_mode batch engine).2.snapshots
            ≡ engine.snapshots)
        × ((flush_pending_batch hook log_file sync_mode batch engine).2.published
            ≡ engine.published)
  unfolding flush_pending_batch
  flush_pending_batch-err log_file sync_mode batch engine f h =
      let checked = check_batch hook batch engine.hook in
      let hooked : Engine H = record engine { hook = checked.2 } in
      elim (flush_passed-cases log_file sync_mode checked.0 hooked) [
        | inl (g, wal, e) ↦
            (ap (λ r. r.2.memtable) e, ap (λ r. r.2.snapshots) e, ap (λ r. r.2.published) e)
        | inr (bytes, wal, w, e) ↦ absurd (cc (ap (λ r. r.0) e, h))
      ]
