-- ===== src/Engine/Commit/Frames.antt =====
-- What a successful append of a batch writes: the frames of its transactions.
use hat_p.Prelude.{
  ℕ, ◌^◌, ◌≤◌, ◌<◌, ◌≡◌, refl, sym, ap, ◌∙◌, fun_ext, Bool, true, false, none, some, List, [], ◌∷◌,
  ◌++◌, map, Bytes, ltb, if◌then◌else◌, length, All, append_nil, append_assoc,
}
use hat_p.Engine.Commit.{
  sync_written, write_and_sync, written_bytes, synced_bytes, LogFile, SyncMode, PendingWrite,
  writes_of, encode_each, write_buffer, write_encoded, append_multi_mutations, synced,
  append_multi_mutations_commit_and_sync, append_batch, full, group,
}
use hat_p.Engine.Wal.{
  delete_op, commit_op, put_op, commit_record, encode_frame, encode_records, encode_batch,
  encode_mutation_frames, encode_mutations,
}
use hat_p.Engine.Recovery.Replay.{after_commit, Logged, log_of, replayed}
use hat_p.Prelude.Result.{ok, err, ◌>>=◌}
use hat_p.Engine.Types.{EngineResult, Mutation, put, delete}
use hat_p.Engine.Wal.Log.{IsRecord, frames, frames-append, encode_batch-frames}
use hat_p.Engine.Memtable.{records_of}
use hat_p.Engine.Recovery.{Recovered}

-- `encode_mutations` writes what `encode_batch` writes for the records of the mutations.
encode_mutation_frames-records :
    (out : Bytes) (tx_id : ℕ) (mutations : List Mutation)
    → encode_mutation_frames out tx_id mutations ≡ encode_records out (records_of tx_id mutations)
unfolding encode_mutation_frames encode_records records_of
encode_mutation_frames-records out tx_id [] = refl
encode_mutation_frames-records out tx_id (put key value ∷ mutations) =
    ap (λ f. encode_frame out tx_id put_op key (some value) >>= f)
      (fun_ext (λ out. encode_mutation_frames-records out tx_id mutations))
encode_mutation_frames-records out tx_id (delete key ∷ mutations) =
    ap (λ f. encode_frame out tx_id delete_op key none >>= f)
      (fun_ext (λ out. encode_mutation_frames-records out tx_id mutations))

pub encode_mutations-encode_batch :
    (out : Bytes) (tx_id : ℕ) (mutations : List Mutation)
    → encode_mutations out tx_id mutations ≡ encode_batch out (records_of tx_id mutations) tx_id
unfolding encode_mutations encode_batch
encode_mutations-encode_batch out tx_id mutations =
    ap (λ r. r >>= λ out. encode_frame out tx_id commit_op [] none)
      (encode_mutation_frames-records out tx_id mutations)

-- The transactions that a batch leaves in the log.
abbrev pub logged_one : ℕ → List Mutation → List Logged
logged_one tx_id [] = []
logged_one tx_id (m ∷ mutations) = (tx_id, m, mutations) ∷ []

abbrev pub logged : List PendingWrite → List Logged
logged [] = []
logged (req ∷ batch) = logged_one req.tx_id req.mutations ++ logged batch

pub log_of-append : (xs ys : List Logged) → log_of (xs ++ ys) ≡ log_of xs ++ log_of ys
log_of-append [] ys = refl
log_of-append ((tx_id, m, mutations) ∷ xs) ys =
    ap (λ rest. records_of tx_id (m ∷ mutations) ++ commit_record tx_id ∷ rest)
      (log_of-append xs ys)
    ∙ sym (
        append_assoc (records_of tx_id (m ∷ mutations)) (commit_record tx_id ∷ log_of xs)
          (log_of ys))

pub replayed-append :
    (xs ys : List Logged) (s : Recovered) → replayed (xs ++ ys) s ≡ replayed ys (replayed xs s)
replayed-append [] ys s = refl
replayed-append ((tx_id, m, mutations) ∷ xs) ys s =
    replayed-append xs ys (after_commit tx_id (m ∷ mutations) s)

-- What a request must be for its frames: not empty, with fields that fit.
abbrev pub IsLoggable : PendingWrite → Type 0
IsLoggable req =
    (1 ≤ length req.mutations)
    × (req.tx_id < 2 ^ 64)
    × All IsRecord (records_of req.tx_id req.mutations)

encode_each-one :
    (out : Bytes) (tx_id : ℕ) (mutations : List Mutation) (batches : List (ℕ × List Mutation))
    → tx_id < 2 ^ 64
    → All IsRecord (records_of tx_id mutations)
    → encode_each out ((tx_id, mutations) ∷ batches)
      ≡ encode_each (out ++ frames (log_of (logged_one tx_id mutations))) batches
unfolding encode_each
encode_each-one out tx_id [] batches t h = ap (λ o. encode_each o batches) (sym (append_nil out))
encode_each-one out tx_id (m ∷ mutations) batches t h =
    ap (λ r. r >>= λ out. encode_each out batches)
      (encode_mutations-encode_batch out tx_id (m ∷ mutations)
        ∙ encode_batch-frames out (records_of tx_id (m ∷ mutations)) tx_id h t)

encode_each-frames :
    (out : Bytes) (batch : List PendingWrite)
    → All IsLoggable batch
    → encode_each out (map writes_of batch) ≡ ok (out ++ frames (log_of (logged batch)))
unfolding encode_each
encode_each-frames out [] h = ap ok (sym (append_nil out))
encode_each-frames out (req ∷ batch) ((n, t, r), h) =
    let one = logged_one req.tx_id req.mutations in
    encode_each-one out req.tx_id req.mutations (map writes_of batch) t r
    ∙ (encode_each-frames (out ++ frames (log_of one)) batch h
        ∙ ap ok (
            append_assoc out (frames (log_of one)) (frames (log_of (logged batch)))
            ∙ ap (λ bytes. out ++ bytes)
                (sym (frames-append (log_of one) (log_of (logged batch)))
                  ∙ ap frames (sym (log_of-append one (logged batch))))))

-- A file whose writes append: what `O_APPEND` and `write_all` promise.
abbrev pub Appends : LogFile → Type 0
Appends log_file =
    (buffer wal after : Bytes)
    → log_file.write_all buffer wal ≡ (ok tt, after)
    → after ≡ wal ++ buffer

written_bytes-ok :
    (r : EngineResult (Unit {0}) × Bytes) (len n : ℕ) (after : Bytes)
    → written_bytes len r ≡ (ok n, after)
    → r ≡ (ok tt, after)
unfolding written_bytes
written_bytes-ok (ok done, wal) len n after h = ap (λ r. (ok done, r.1)) h
written_bytes-ok (err e, wal) len n after h = absurd (cc (ap (λ r. r.0) h))

pub write_encoded-Appends :
    (log_file : LogFile) (buffer wal after : Bytes) (n : ℕ)
    → Appends log_file
    → write_encoded log_file (ok buffer) wal ≡ (ok n, after)
    → after ≡ wal ++ buffer
unfolding write_encoded write_buffer
write_encoded-Appends log_file [] wal after n a h = sym (ap (λ r. r.1) h) ∙ sym (append_nil wal)
write_encoded-Appends log_file (b ∷ buffer) wal after n a h =
    a (b ∷ buffer) wal after
      (written_bytes-ok (log_file.write_all (b ∷ buffer) wal) (length (b ∷ buffer)) n after h)

synced_bytes-ok :
    (sync : EngineResult (Unit {0})) (bytes n : ℕ) (wal after : Bytes)
    → synced_bytes sync bytes wal ≡ (ok n, after)
    → ◌≡◌ {A = EngineResult ℕ × Bytes} (ok bytes, wal) (ok n, after)
unfolding synced_bytes
synced_bytes-ok (ok done) bytes n wal after h = h
synced_bytes-ok (err e) bytes n wal after h = absurd (cc (ap (λ r. r.0) h))

synced_if-ok :
    (more : Bool) (sync : EngineResult (Unit {0})) (bytes n : ℕ) (wal after : Bytes)
    → ◌≡◌ {A = EngineResult ℕ × Bytes}
        (if more then synced_bytes sync bytes wal else (ok bytes, wal))
        (ok n, after)
    → ◌≡◌ {A = EngineResult ℕ × Bytes} (ok bytes, wal) (ok n, after)
synced_if-ok true sync bytes n wal after h = synced_bytes-ok sync bytes n wal after h
synced_if-ok false sync bytes n wal after h = h

synced-ok :
    (log_file : LogFile) (r : EngineResult ℕ × Bytes) (n : ℕ) (after : Bytes)
    → synced log_file r ≡ (ok n, after)
    → r ≡ (ok n, after)
unfolding synced
synced-ok log_file (ok bytes, wal) n after h =
    synced_if-ok (ltb 0 bytes) (log_file.sync_data wal) bytes n wal after h
synced-ok log_file (err e, wal) n after h = h

sync_written-ok :
    (log_file : LogFile) (r : EngineResult ℕ × Bytes) (n : ℕ) (after : Bytes)
    → sync_written log_file r ≡ (ok n, after)
    → r ≡ (ok n, after)
unfolding sync_written
sync_written-ok log_file (ok bytes, wal) n after h =
    synced_bytes-ok (log_file.sync_data wal) bytes n wal after h
sync_written-ok log_file (err e, wal) n after h = h

pub write_and_sync-Appends :
    (log_file : LogFile) (buffer wal after : Bytes) (n : ℕ)
    → Appends log_file
    → write_and_sync log_file (ok buffer) wal ≡ (ok n, after)
    → after ≡ wal ++ buffer
unfolding write_and_sync write_buffer
write_and_sync-Appends log_file buffer wal after n a h = a buffer wal after (
    written_bytes-ok (log_file.write_all buffer wal) (length buffer) n after
      (sync_written-ok log_file (write_buffer log_file buffer wal) n after h))

append_multi-frames :
    (log_file : LogFile) (batch : List PendingWrite) (wal after : Bytes) (n : ℕ)
    → Appends log_file
    → All IsLoggable batch
    → append_multi_mutations log_file (map writes_of batch) wal ≡ (ok n, after)
    → after ≡ wal ++ frames (log_of (logged batch))
unfolding append_multi_mutations
append_multi-frames log_file [] wal after n a l h = sym (ap (λ r. r.1) h) ∙ sym (append_nil wal)
append_multi-frames log_file (req ∷ batch) wal after n a l h =
    write_encoded-Appends log_file (frames (log_of (logged (req ∷ batch)))) wal after n a
      (ap (λ r. write_encoded log_file r wal) (sym (encode_each-frames [] (req ∷ batch) l)) ∙ h)

-- Whatever the mode, a successful append writes the frames of the transactions.
pub append_batch-frames :
    (log_file : LogFile) (sync_mode : SyncMode) (batch : List PendingWrite) (wal after : Bytes)
    (n : ℕ)
    → Appends log_file
    → All IsLoggable batch
    → append_batch log_file sync_mode (map writes_of batch) wal ≡ (ok n, after)
    → after ≡ wal ++ frames (log_of (logged batch))
unfolding append_batch append_multi_mutations_commit_and_sync
append_batch-frames log_file full batch wal after n a l h =
    append_multi-frames log_file batch wal after n a l
      (synced-ok log_file (append_multi_mutations log_file (map writes_of batch) wal) n after h)
append_batch-frames log_file (group interval_us) batch wal after n a l h =
    append_multi-frames log_file batch wal after n a l h
