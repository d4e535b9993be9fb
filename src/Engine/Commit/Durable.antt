-- ===== src/Engine/Commit/Durable.antt =====
-- The log of the engine against its memtable: what recovery makes of the file after group commits.
use hat_p.Prelude.{
  ℕ, ◌+◌, ◌^◌, ◌≤◌, ◌<◌, ◌≡◌, refl, sym, ap, ◌∙◌, subst, ◌⊎◌, inl, inr, some, List, [], ◌∷◌, ◌++◌,
  arith, Bytes, length, take, All, All-append, append_nil,
}
use hat_p.Engine.Snapshots.{next_commit_ts}
use hat_p.Engine.Recovery.Crash.{recover, recover_decoded, recover_records-decode_all}
use hat_p.Engine.Wal.Recovery.{decode_all-frames}
use hat_p.Engine.Commit.Frames.{
  logged_one, logged, log_of-append, replayed-append, IsLoggable, Appends, append_batch-frames,
}
use hat_p.Engine.Wal.Decode.{IsBuffer}
use hat_p.Engine.Wal.{magic_wal1, frame_body, WalRecord, commit_record}
use hat_p.Engine.Recovery.{replay, Recovered}
use hat_p.Engine.Recovery.Replay.{replay-log_of, Logged, log_of, replayed}
use hat_p.Engine.Wal.Log.{commit_record-IsRecord, IsRecord, frames, frames-append}
use hat_p.Engine.Commit.{
  EngineHook, pre_commit, check_batch, flush_pending_batch, next_commit_ts, LogFile, SyncMode,
  Engine, PendingWrite,
}
use hat_p.Prelude.Result.{ok, Result-cases}
use hat_p.Engine.Types.{Mutation}
use hat_p.Engine.Memtable.{records_of}
use hat_p.Engine.Commit.Replies.{after_apply, after_each, flush_passed-cases}

-- The memtable and the commit sequence of the engine are those that replay makes.
pub record Agree {ℓ} {H : Type ℓ} (s : Recovered) (engine : Engine H) : Type 0 where
  pub table : s.memtable ≡ engine.memtable
  pub next_ts : s.next_commit_ts ≡ engine.snapshots.commit_seq

module _ {ℓ} {H : Type ℓ} (hook : EngineHook H) where
  Agree-one :
      (tx_id : ℕ) (mutations : List Mutation) (s : Recovered) (engine : Engine H)
      → 1 ≤ length mutations
      → engine.snapshots.commit_seq + 1 < 2 ^ 64
      → Agree s engine
      → Agree (replayed (logged_one tx_id mutations) s) (after_apply hook tx_id mutations engine)
  unfolding next_commit_ts
  Agree-one tx_id [] s engine n b h = absurd (omega arith)
  Agree-one tx_id (m ∷ mutations) s engine n b h = record {
    table = rw (h.table, h.next_ts) refl;
    next_ts = omega (arith, h.next_ts);
  }

  Agree-each :
      (batch : List PendingWrite) (s : Recovered) (engine : Engine H)
      → All IsLoggable batch
      → engine.snapshots.commit_seq + length batch < 2 ^ 64
      → Agree s engine
      → Agree (replayed (logged batch) s) (after_each hook batch engine)
  unfolding next_commit_ts
  Agree-each [] s engine l b h = h
  Agree-each (req ∷ batch) s engine ((n, t, r), l) b h =
      let one = logged_one req.tx_id req.mutations in
      subst (λ u. Agree u (after_each hook (req ∷ batch) engine))
        (sym (replayed-append one (logged batch) s))
        (Agree-each batch (replayed one s) (after_apply hook req.tx_id req.mutations engine) l
          (omega arith) (Agree-one req.tx_id req.mutations s engine n (omega arith) h))

-- The records of the log are those that fit.
logged_one-IsRecord :
    (tx_id : ℕ) (mutations : List Mutation)
    → tx_id < 2 ^ 64
    → All IsRecord (records_of tx_id mutations)
    → All IsRecord (log_of (logged_one tx_id mutations))
logged_one-IsRecord tx_id [] t h = tt
logged_one-IsRecord tx_id (m ∷ mutations) t h =
    All-append IsRecord (records_of tx_id (m ∷ mutations)) (commit_record tx_id ∷ []) h
      (commit_record-IsRecord tx_id t, tt)

log_of-IsRecord :
    (xs ys : List Logged)
    → All IsRecord (log_of xs)
    → All IsRecord (log_of ys)
    → All IsRecord (log_of (xs ++ ys))
log_of-IsRecord xs ys h k =
    subst (All IsRecord) (sym (log_of-append xs ys))
      (All-append IsRecord (log_of xs) (log_of ys) h k)

logged-IsRecord :
    (batch : List PendingWrite) → All IsLoggable batch → All IsRecord (log_of (logged batch))
logged-IsRecord [] l = tt
logged-IsRecord (req ∷ batch) ((n, t, r), l) =
    log_of-IsRecord (logged_one req.tx_id req.mutations) (logged batch)
      (logged_one-IsRecord req.tx_id req.mutations t r) (logged-IsRecord batch l)

-- The log holds the frames of some committed transactions, and the memtable and the commit
-- sequence of the engine are those that the transactions make of the start.
pub record IsDurable {ℓ} {H : Type ℓ} (start : Recovered) (engine : Engine H) : Type 0 where
  pub txns : List Logged
  pub content : engine.wal ≡ frames (log_of txns)
  pub fits : All IsRecord (log_of txns)
  pub agree : Agree (replayed txns start) engine

frames_start :
    (records : List WalRecord) → (frames records ≡ []) ⊎ (take 4 (frames records) ≡ magic_wal1)
unfolding frame_body
frames_start [] = inl refl
frames_start (r ∷ records) = inr refl

recover-frames :
    (txns : List Logged) (start : Recovered)
    → All IsRecord (log_of txns)
    → IsBuffer (frames (log_of txns))
    → start.pending ≡ []
    → recover (frames (log_of txns)) start ≡ some (ok (replayed txns start))
unfolding records_of
recover-frames txns start h b p =
    recover_decoded (frames (log_of txns)) start (log_of txns) (length (frames (log_of txns))) (
      recover_records-decode_all (frames (log_of txns)) (frames_start (log_of txns))
      ∙ decode_all-frames (log_of txns) h b)
    ∙ ap some (
        ap (λ records. replay records start) (sym (append_nil (log_of txns)))
        ∙ replay-log_of txns 0 [] start p)

-- Recovery of the log of an engine with the invariant, from the start of the invariant with
-- nothing pending and a log of less than 2^63 bytes, gives its memtable and its commit sequence.
pub recover-IsDurable {ℓ} :
    {H : Type ℓ} (start : Recovered) (engine : Engine H)
    → start.pending ≡ []
    → IsBuffer engine.wal
    → IsDurable start engine
    → (s : Recovered) × (recover engine.wal start ≡ some (ok s))
      × (s.memtable ≡ engine.memtable)
      × (s.next_commit_ts ≡ engine.snapshots.commit_seq)
recover-IsDurable start engine p b d = (
  replayed d.txns start,
  ap (λ wal. recover wal start) d.content
      ∙ recover-frames d.txns start d.fits (subst IsBuffer d.content b) p,
  d.agree.table,
  d.agree.next_ts,
)

module _ {ℓ} {H : Type ℓ} (hook : EngineHook H) where
  check_batch-IsLoggable :
      (batch : List PendingWrite) (h : H)
      → All IsLoggable batch
      → All IsLoggable (check_batch hook batch h).0
        × (length (check_batch hook batch h).0 ≤ length batch)
  unfolding check_batch
  check_batch-IsLoggable [] h l = (tt, omega arith)
  check_batch-IsLoggable (req ∷ batch) h (r, l) =
      elim (Result-cases (pre_commit hook req.tx_id req.mutations h)) [
        | inl (done, h1, e) ↦
            let more = check_batch-IsLoggable batch h1 l in
            rw (e) ((r, more.0), omega (arith, more.1))
        | inr (f, h1, e) ↦
            let more = check_batch-IsLoggable batch h1 l in rw (e) (more.0, omega (arith, more.1))
      ]

  after_each-wal :
      (batch : List PendingWrite) (engine : Engine H)
      → (after_each hook batch engine).wal ≡ engine.wal
  after_each-wal [] engine = refl
  after_each-wal (req ∷ batch) engine =
      after_each-wal batch (after_apply hook req.tx_id req.mutations engine)

  pub flushed-IsDurable :
      (passed : List PendingWrite) (start : Recovered) (engine : Engine H) (after : Bytes)
      → All IsLoggable passed
      → engine.snapshots.commit_seq + length passed < 2 ^ 64
      → IsDurable start engine
      → after ≡ engine.wal ++ frames (log_of (logged passed))
      → IsDurable start (after_each hook passed (record engine { wal = after }))
  flushed-IsDurable passed start engine after l b d w =
      let written : Engine H = record engine { wal = after } in
      record {
        txns = d.txns ++ logged passed;
        content =
            after_each-wal passed written
            ∙ (w
                ∙ (ap (λ bytes. bytes ++ frames (log_of (logged passed))) d.content
                    ∙ (sym (frames-append (log_of d.txns) (log_of (logged passed)))
                        ∙ ap frames (sym (log_of-append d.txns (logged passed))))));
        fits = log_of-IsRecord d.txns (logged passed) d.fits (logged-IsRecord passed l);
        agree =
            subst (λ s. Agree s (after_each hook passed written))
              (sym (replayed-append d.txns (logged passed) start))
              (Agree-each hook passed (replayed d.txns start) written l b
                (record { table = d.agree.table; next_ts = d.agree.next_ts }));
      }

  -- A group commit that returns Ok keeps the invariant: its log holds the frames of committed
  -- transactions that lead from the start to its memtable and its commit sequence. Writes append
  -- to the file, the requests are not empty and their fields fit in their types, and the commit
  -- sequence stays below 2^64.
  pub flush_pending_batch-IsDurable :
      (log_file : LogFile) (sync_mode : SyncMode) (batch : List PendingWrite) (start : Recovered)
      (engine : Engine H)
      → Appends log_file
      → All IsLoggable batch
      → engine.snapshots.commit_seq + length batch < 2 ^ 64
      → IsDurable start engine
      → (flush_pending_batch hook log_file sync_mode batch engine).0 ≡ ok tt
      → IsDurable start (flush_pending_batch hook log_file sync_mode batch engine).2
  unfolding flush_pending_batch
  flush_pending_batch-IsDurable log_file sync_mode batch start engine a l b d h =
      let checked = check_batch hook batch engine.hook in
      let hooked : Engine H = record engine { hook = checked.2 } in
      let kept = check_batch-IsLoggable batch engine.hook l in
      elim (flush_passed-cases hook log_file sync_mode checked.0 hooked) [
        | inl (g, wal, e) ↦ absurd (cc (ap (λ r. r.0) e, h))
        | inr (bytes, wal, w, e) ↦
            subst (λ r. IsDurable start r.2) (sym e)
              (flushed-IsDurable checked.0 start hooked wal kept.0 (omega (arith, kept.1))
                (record {
                  txns = d.txns;
                  content = d.content;
                  fits = d.fits;
                  agree = record { table = d.agree.table; next_ts = d.agree.next_ts };
                })
                (append_batch-frames log_file sync_mode checked.0 engine.wal wal bytes a kept.0 w))
      ]
