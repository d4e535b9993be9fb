-- ===== src/Engine/Commit/Single.antt =====
-- The commit of one transaction, `commit_single`, against its log.
use hat_p.Prelude.{
  ℕ, ◌+◌, ◌^◌, ◌≤◌, ◌<◌, ◌≡◌, refl, sym, ap, ◌∙◌, subst, ◌⊎◌, inl, inr, List, [], ◌∷◌, ◌++◌, arith,
  Bytes, length, All, append_nil,
}
use hat_p.Prelude.Result.{ok, err, Result-cases}
use hat_p.Engine.Types.{Mutation, EngineError}
use hat_p.Engine.Wal.Log.{IsRecord, frames, encode_batch-frames}
use hat_p.Engine.Memtable.{records_of}
use hat_p.Engine.Recovery.{Recovered}
use hat_p.Engine.Recovery.Replay.{log_of}
use hat_p.Engine.Commit.{
  write_and_sync, EngineHook, LogFile, SyncMode, full, group, Engine, PendingWrite, write_encoded,
  append_mutations_commit_and_sync, append_records, append_one, pre_commit, commit_single,
}
use hat_p.Engine.Commit.Frames.{
  write_and_sync-Appends, logged_one, Appends, write_encoded-Appends, encode_mutations-encode_batch,
}
use hat_p.Engine.Commit.Replies.{apply_commit-ok, after_apply}
use hat_p.Engine.Commit.Durable.{IsDurable, flushed-IsDurable}

append_one-frames :
    (log_file : LogFile) (sync_mode : SyncMode) (tx_id : ℕ) (mutations : List Mutation)
    (wal after : Bytes) (n : ℕ)
    → Appends log_file
    → tx_id < 2 ^ 64
    → All IsRecord (records_of tx_id mutations)
    → append_one log_file sync_mode tx_id mutations wal ≡ (ok n, after)
    → after ≡ wal ++ frames (log_of (logged_one tx_id mutations))
unfolding append_one append_mutations_commit_and_sync append_records
append_one-frames log_file full tx_id [] wal after n a t r h =
    sym (ap (λ r. r.1) h) ∙ sym (append_nil wal)
append_one-frames log_file full tx_id (m ∷ mutations) wal after n a t r h =
    write_and_sync-Appends log_file (frames (log_of (logged_one tx_id (m ∷ mutations)))) wal after n
      a
      (ap (λ r. write_and_sync log_file r wal)
          (sym (
            encode_mutations-encode_batch [] tx_id (m ∷ mutations)
            ∙ encode_batch-frames [] (records_of tx_id (m ∷ mutations)) tx_id r t))
        ∙ h)
append_one-frames log_file (group interval_us) tx_id [] wal after n a t r h =
    sym (ap (λ r. r.1) h) ∙ sym (append_nil wal)
append_one-frames log_file (group interval_us) tx_id (m ∷ mutations) wal after n a t r h =
    write_encoded-Appends log_file (frames (log_of (logged_one tx_id (m ∷ mutations)))) wal after n
      a
      (ap (λ r. write_encoded log_file r wal)
          (sym (encode_batch-frames [] (records_of tx_id (m ∷ mutations)) tx_id r t))
        ∙ h)

commit_single-cases {ℓ} :
    {H : Type ℓ} (hook : EngineHook H) (log_file : LogFile) (sync_mode : SyncMode) (tx_id : ℕ)
    (mutations : List Mutation) (engine : Engine H)
    → ((e : EngineError) × ((commit_single hook log_file sync_mode tx_id mutations engine).0
          ≡ err e))
      ⊎ ((bytes : ℕ) × (wal : Bytes) × (h : H) × (append_one log_file sync_mode tx_id mutations
              engine.wal
            ≡ (ok bytes, wal))
          × (commit_single hook log_file sync_mode tx_id mutations engine ≡ (
            ok engine.snapshots.commit_seq,
            after_apply hook tx_id mutations (record engine { hook = h; wal = wal }),
          )))
unfolding commit_single
commit_single-cases hook log_file sync_mode tx_id mutations engine =
    elim (Result-cases (pre_commit hook tx_id mutations engine.hook)) [
      | inr (f, h1, e) ↦ inl (f, rw (e) refl)
      | inl (done, h1, e) ↦
          elim (Result-cases (append_one log_file sync_mode tx_id mutations engine.wal)) [
            | inr (f, wal, w) ↦ inl (f, rw (e, w) refl)
            | inl (bytes, wal, w) ↦ inr (
              bytes,
              wal,
              h1,
              w,
              rw (e, w)
                  (apply_commit-ok hook tx_id mutations (record engine { hook = h1; wal = wal })),
            )
          ]
    ]

-- A commit of one transaction that returns Ok returns the commit sequence, and keeps the
-- invariant of the log. Writes append to the file, the mutations are not empty and their fields
-- fit in their types, and the commit sequence stays below 2^64.
pub commit_single-IsDurable {ℓ} :
    {H : Type ℓ} (hook : EngineHook H) (log_file : LogFile) (sync_mode : SyncMode) (tx_id : ℕ)
    (mutations : List Mutation) (start : Recovered) (engine : Engine H) (commit_ts : ℕ)
    → Appends log_file
    → 1 ≤ length mutations
    → tx_id < 2 ^ 64
    → All IsRecord (records_of tx_id mutations)
    → engine.snapshots.commit_seq + 1 < 2 ^ 64
    → IsDurable start engine
    → (commit_single hook log_file sync_mode tx_id mutations engine).0 ≡ ok commit_ts
    → (commit_ts ≡ engine.snapshots.commit_seq)
      × IsDurable start (commit_single hook log_file sync_mode tx_id mutations engine).1
commit_single-IsDurable hook log_file sync_mode tx_id mutations start engine commit_ts a n t r b d
      h =
    elim (commit_single-cases hook log_file sync_mode tx_id mutations engine) [
      | inl (f, e) ↦ absurd (cc (e, h))
      | inr (bytes, wal, h1, w, e) ↦
          let req : PendingWrite = record { tx_id = tx_id; mutations = mutations; result_tx = 0 } in
          let wal_is =
            append_one-frames log_file sync_mode tx_id mutations engine.wal wal bytes a t r w in
          (
            cc (ap (λ r. r.0) e, h),
            subst (λ r. IsDurable start r.1) (sym e)
                (flushed-IsDurable hook (req ∷ []) start (record engine { hook = h1 }) wal
                  ((n, t, r), tt) (omega arith)
                  (record {
                    txns = d.txns;
                    content = d.content;
                    fits = d.fits;
                    agree = record { table = d.agree.table; next_ts = d.agree.next_ts };
                  })
                  (subst (λ txns. wal ≡ engine.wal ++ frames (log_of txns))
                    (sym (append_nil (logged_one tx_id mutations))) wal_is)),
          )
    ]
