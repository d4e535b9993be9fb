-- ===== src/Engine/Recovery/Crash.antt =====
-- A crash at any byte of the log: recovery finds the transactions whose commit marker was written.
use hat_p.Prelude.{
  ℕ, zero, suc, ◌-◌, ◌≤◌, ◌<◌, ◌≡◌, refl, sym, ap, ◌∙◌, ◌⊎◌, inl, inr, Option, none, some, List, [],
  ◌∷◌, ◌++◌, arith, Bytes, ltb, if◌then◌else◌, lt→ltb, length, take, All, length-append, bytes_eq,
  append_assoc, lt_or_le, take_beyond, le→ltb, slice_take,
}
use hat_p.Prelude.Result.{ok, err}
use hat_p.Engine.Types.{EngineResult, Mutation, put, delete, corrupt_message}
use hat_p.Engine.Wal.{
  WalRecord, put_record, delete_record, commit_record, decode_all, magic_wal1, decode_from,
  decode_frame, frame_body,
}
use hat_p.Engine.Wal.Decode.{IsBuffer}
use hat_p.Engine.Wal.Log.{IsRecord, frames}
use hat_p.Engine.Wal.Recovery.{whole_frames, decode_all_cut}
use hat_p.Engine.Memtable.{records_of}
use hat_p.Engine.Recovery.{Recovered, replay}
use hat_p.Engine.Recovery.Replay.{Logged, log_of, replayed, unfinished, replay-log_of}

-- `recover_records_with_truncation` on the content of the file: an empty one holds no records, and
-- one that does not start with the magic is refused.
unfoldable pub recover_records : Bytes → Option (EngineResult (List WalRecord × ℕ))
unfolding decode_all
recover_records [] = some (ok ([], 0))
recover_records (byte ∷ bytes) =
    if bytes_eq (take 4 (byte ∷ bytes)) magic_wal1
    then decode_all (byte ∷ bytes)
    else some (err corrupt_message)

-- `Wal::recover`, then the replay of its records
unfoldable pub recover : Bytes → Recovered → Option (EngineResult Recovered)
unfolding recover_records replay
recover buf s = elim (recover_records buf) [
  | none ↦ none
  | some (err e) ↦ some (err e)
  | some (ok (records, last_valid)) ↦ some (replay records s)
]

-- How many transactions stand whole in the first `m` records of their log.
unfoldable pub whole_logged : ℕ → List Logged → ℕ
whole_logged m [] = 0
whole_logged m ((tx_id, first, mutations) ∷ txns) =
    let rest = whole_logged (m - suc (length (first ∷ mutations))) txns in
    if ltb m (suc (length (first ∷ mutations))) then 0 else suc rest

-- The transaction behind them: its identifier, and its mutations that are there.
unfoldable pub torn_id : ℕ → List Logged → ℕ
torn_id m [] = 0
torn_id m ((tx_id, first, mutations) ∷ txns) =
    let rest = torn_id (m - suc (length (first ∷ mutations))) txns in
    if ltb m (suc (length (first ∷ mutations))) then tx_id else rest

unfoldable pub torn_mutations : ℕ → List Logged → List Mutation
torn_mutations m [] = []
torn_mutations m ((tx_id, first, mutations) ∷ txns) =
    let rest = torn_mutations (m - suc (length (first ∷ mutations))) txns in
    if ltb m (suc (length (first ∷ mutations))) then take m (first ∷ mutations) else rest

take-records_of :
    (tx_id m : ℕ) (mutations : List Mutation) (rest : List WalRecord)
    → m < suc (length mutations)
    → take m (records_of tx_id mutations ++ rest) ≡ records_of tx_id (take m mutations)
unfolding records_of
take-records_of tx_id zero mutations rest h = refl
take-records_of tx_id (suc m) [] rest h = absurd (omega arith)
take-records_of tx_id (suc m) (put key value ∷ mutations) rest h =
    ap (λ rs. put_record tx_id key value ∷ rs)
      (take-records_of tx_id m mutations rest (omega arith))
take-records_of tx_id (suc m) (delete key ∷ mutations) rest h =
    ap (λ rs. delete_record tx_id key ∷ rs) (take-records_of tx_id m mutations rest (omega arith))

length-records_of :
    (tx_id : ℕ) (mutations : List Mutation) → length (records_of tx_id mutations) ≡ length mutations
unfolding records_of
length-records_of tx_id [] = refl
length-records_of tx_id (put key value ∷ mutations) =
    omega (arith, length-records_of tx_id mutations)
length-records_of tx_id (delete key ∷ mutations) = omega (arith, length-records_of tx_id mutations)

no_records : (m tx_id : ℕ) → take m (log_of []) ≡ records_of tx_id []
unfolding records_of
no_records zero tx_id = refl
no_records (suc m) tx_id = refl

-- Behind the records of a whole transaction the log goes on.
take_transaction :
    (m tx_id : ℕ) (mutations : List Mutation) (rest : List WalRecord)
    → suc (length mutations) ≤ m
    → take m (records_of tx_id mutations ++ commit_record tx_id ∷ rest)
      ≡ records_of tx_id mutations ++ commit_record tx_id ∷ take (m - suc (length mutations)) rest
take_transaction m tx_id mutations rest h =
    let front = records_of tx_id mutations in
    let done = commit_record tx_id ∷ [] in
    let size : length (front ++ done) ≡ suc (length mutations) =
      omega (arith, length-append front done, length-records_of tx_id mutations) in
    ap (take m) (sym (append_assoc front done rest))
    ∙ (take_beyond (front ++ done) rest m (omega (arith, size))
        ∙ (ap (λ n. (front ++ done) ++ take (m - n) rest) size
            ∙ append_assoc front done (take (m - suc (length mutations)) rest)))

take-log_of :
    (m : ℕ) (txns : List Logged)
    → take m (log_of txns)
      ≡ log_of (take (whole_logged m txns) txns)
        ++ records_of (torn_id m txns) (torn_mutations m txns)
unfolding whole_logged torn_id torn_mutations
take-log_of m [] = no_records m 0
take-log_of m ((tx_id, first, mutations) ∷ txns) =
    elim (lt_or_le m (suc (length (first ∷ mutations)))) [
      | inl e ↦
          rw (lt→ltb m (suc (length (first ∷ mutations))) e)
            (take-records_of tx_id m (first ∷ mutations) (commit_record tx_id ∷ log_of txns) e)
      | inr e ↦ rw (le→ltb m (suc (length (first ∷ mutations))) e) (
          take_transaction m tx_id (first ∷ mutations) (log_of txns) e
          ∙ (ap (λ rs. records_of tx_id (first ∷ mutations) ++ commit_record tx_id ∷ rs)
                (take-log_of (m - suc (length (first ∷ mutations))) txns)
              ∙ sym (
                  append_assoc (records_of tx_id (first ∷ mutations))
                    (commit_record tx_id
                      ∷ log_of
                          (take (whole_logged (m - suc (length (first ∷ mutations))) txns) txns))
                    (records_of (torn_id (m - suc (length (first ∷ mutations))) txns)
                      (torn_mutations (m - suc (length (first ∷ mutations))) txns)))))
    ]

-- A log that was not cut in its first magic is decoded.
decoded_empty : decode_all [] ≡ some (ok ([], 0))
unfolding decode_all decode_from decode_frame
decoded_empty = refl

pub recover_records-decode_all :
    (buf : Bytes) → (buf ≡ []) ⊎ (take 4 buf ≡ magic_wal1) → recover_records buf ≡ decode_all buf
unfolding recover_records
recover_records-decode_all [] h = sym decoded_empty
recover_records-decode_all (byte ∷ bytes) (inl e) = absurd (ground arith)
recover_records-decode_all (byte ∷ bytes) (inr e) = rw (e) refl

starts_magic :
    (k : ℕ) (records : List WalRecord)
    → (k ≡ 0) ⊎ (4 ≤ k)
    → (take k (frames records) ≡ []) ⊎ (take 4 (take k (frames records)) ≡ magic_wal1)
unfolding frame_body
starts_magic k records (inl e) = inl (ap (λ n. take n (frames records)) e)
starts_magic zero records (inr h) = inl refl
starts_magic (suc k) [] (inr h) = inl refl
starts_magic (suc k) (r ∷ records) (inr h) = inr (slice_take 4 (suc k) 0 (frames (r ∷ records)) h)

pub recover_decoded :
    (buf : Bytes) (s : Recovered) (records : List WalRecord) (n : ℕ)
    → recover_records buf ≡ some (ok (records, n))
    → recover buf s ≡ some (replay records s)
unfolding recover
recover_decoded buf s records n e = ground arith

-- Of the first k bytes of the log of committed transactions, for k zero or at least 4, recovery
-- succeeds and applies exactly the transactions whose records and commit marker stand whole in
-- them, each at the next timestamp, while the mutations of the transaction that was cut stay
-- pending; the transactions have one mutation at least, nothing is pending before, the fields of
-- the records fit in their types, and the log has less than 2^63 bytes.
pub recover_after_crash :
    (txns : List Logged) (k : ℕ) (s : Recovered)
    → All IsRecord (log_of txns)
    → IsBuffer (frames (log_of txns))
    → s.pending ≡ []
    → (k ≡ 0) ⊎ (4 ≤ k)
    → recover (take k (frames (log_of txns))) s
      ≡ some (
          ok (
            unfinished
              (torn_id (whole_frames k (log_of txns)) txns)
              (torn_mutations (whole_frames k (log_of txns)) txns)
              (replayed (take (whole_logged (whole_frames k (log_of txns)) txns) txns) s)))
recover_after_crash txns k s h b p c =
    let m = whole_frames k (log_of txns) in
    recover_decoded (take k (frames (log_of txns))) s (take m (log_of txns)) _ (
      recover_records-decode_all (take k (frames (log_of txns))) (starts_magic k (log_of txns) c)
      ∙ decode_all_cut (log_of txns) k h b)
    ∙ (ap (λ rs. some (replay rs s)) (take-log_of m txns)
        ∙ ap some (
            replay-log_of (take (whole_logged m txns) txns) (torn_id m txns) (torn_mutations m txns)
              s p))
