-- ===== src/Engine/Wal/Recovery.antt =====
-- What recovery reads back of a batch that was written whole or in part.
use hat_p.Prelude.{
  append_assoc, le→ltb, ℕ, zero, suc, ◌-◌, ◌^◌, ◌<◌, ◌≡◌, refl, sym, ap, ◌∙◌, subst, inl, inr, some,
  List, [], ◌∷◌, ◌++◌, arith, Bytes, ltb, if◌then◌else◌, lt→ltb, length, take, All, append_nil,
  lt_or_le, take_append, take_beyond, length-take_le, All-take, All-snoc,
}
use hat_p.Engine.Types.{EngineResult}
use hat_p.Prelude.Result.{ok}
use hat_p.Engine.Wal.{WalRecord, commit_record, encode_batch, decode_all}
use hat_p.Engine.Wal.Frames.{frame, Fits, length-frame}
use hat_p.Engine.Wal.Decode.{IsBuffer}
use hat_p.Engine.Wal.Log.{
  IsRecord, frames, encode_batch-frames, decode_all_torn, commit_record-IsRecord,
}

-- How many frames stand whole in the first `k` bytes of a log.
unfoldable pub whole_frames : ℕ → List WalRecord → ℕ
whole_frames k [] = 0
whole_frames k (r ∷ records) =
    let rest = whole_frames (k - length (frame r)) records in
    if ltb k (length (frame r)) then 0 else suc rest

-- How many bytes of the frame behind them are there.
unfoldable pub torn_bytes : ℕ → List WalRecord → ℕ
torn_bytes k [] = 0
torn_bytes k (r ∷ records) =
    let rest = torn_bytes (k - length (frame r)) records in
    if ltb k (length (frame r)) then k else rest

unfoldable pub torn_frame : ℕ → List WalRecord → WalRecord
torn_frame k [] = commit_record 0
torn_frame k (r ∷ records) =
    let rest = torn_frame (k - length (frame r)) records in
    if ltb k (length (frame r)) then r else rest

take-frames :
    (k : ℕ) (records : List WalRecord)
    → take k (frames records)
      ≡ frames (take (whole_frames k records) records)
        ++ take (torn_bytes k records) (frame (torn_frame k records))
unfolding whole_frames torn_bytes torn_frame
take-frames zero [] = refl
take-frames (suc k) [] = refl
take-frames k (r ∷ records) = elim (lt_or_le k (length (frame r))) [
  | inl e ↦ rw (lt→ltb k (length (frame r)) e) (take_append (frame r) (frames records) k e)
  | inr e ↦ rw (le→ltb k (length (frame r)) e) (
      take_beyond (frame r) (frames records) k e
      ∙ (ap (λ rest. frame r ++ rest) (take-frames (k - length (frame r)) records)
          ∙ sym (
              append_assoc (frame r)
                (frames (take (whole_frames (k - length (frame r)) records) records))
                (take (torn_bytes (k - length (frame r)) records)
                  (frame (torn_frame (k - length (frame r)) records))))))
]

torn_frame-Fits :
    (k : ℕ) (records : List WalRecord) → All IsRecord records → Fits (torn_frame k records)
unfolding torn_frame
torn_frame-Fits k [] h = (commit_record-IsRecord 0 (omega arith)).0
torn_frame-Fits k (r ∷ records) ((fits, v), h) =
    ground (arith, torn_frame-Fits (k - length (frame r)) records h)

torn_bytes_lt :
    (k : ℕ) (records : List WalRecord)
    → torn_bytes k records < length (frame (torn_frame k records))
unfolding torn_bytes torn_frame
torn_bytes_lt k [] = omega (arith, length-frame (commit_record 0))
torn_bytes_lt k (r ∷ records) = ground (arith, torn_bytes_lt (k - length (frame r)) records)

-- Of the first k bytes of a log, for any k, decode_all returns the records whose frames stand
-- whole in them and the length of those frames, and no error, if only puts have values, no key
-- or value has u32::MAX bytes or more, transaction ids fit in 64 bits and the log has less than
-- 2^63 bytes.
pub decode_all_cut :
    (records : List WalRecord) (k : ℕ)
    → All IsRecord records
    → IsBuffer (frames records)
    → decode_all (take k (frames records))
      ≡ some (
          ok (
            take (whole_frames k records) records,
            length (frames (take (whole_frames k records) records)),
          ))
decode_all_cut records k h b =
    ap decode_all (take-frames k records)
    ∙ decode_all_torn (take (whole_frames k records) records) (torn_frame k records)
        (torn_bytes k records) (All-take IsRecord (whole_frames k records) records h)
        (torn_frame-Fits k records h) (torn_bytes_lt k records)
        (subst IsBuffer (take-frames k records) (omega (arith, length-take_le k (frames records))))

pub decode_all-frames :
    (records : List WalRecord)
    → All IsRecord records
    → IsBuffer (frames records)
    → decode_all (frames records) ≡ some (ok (records, length (frames records)))
decode_all-frames records h b =
    ap decode_all (sym (append_nil (frames records)))
    ∙ decode_all_torn records (commit_record 0) 0 h (commit_record-IsRecord 0 (omega arith)).0
        (omega (arith, length-frame (commit_record 0)))
        (subst IsBuffer (sym (append_nil (frames records))) b)

bytes_of_ok : (a b : Bytes) (result : EngineResult Bytes) → result ≡ ok a → result ≡ ok b → b ≡ a
bytes_of_ok a b result e f = ground arith

-- decode_all of what encode_batch wrote returns the records, the commit marker and the length of
-- the buffer, if only puts have values, no key or value has u32::MAX bytes or more, transaction
-- ids fit in 64 bits and the buffer has less than 2^63 bytes.
pub decode_all-encode_batch :
    (records : List WalRecord) (tx_id : ℕ) (buf : Bytes)
    → All IsRecord records
    → tx_id < 2 ^ 64
    → encode_batch [] records tx_id ≡ ok buf
    → IsBuffer buf
    → decode_all buf ≡ some (ok (records ++ commit_record tx_id ∷ [], length buf))
decode_all-encode_batch records tx_id buf h t e b =
    let all = records ++ commit_record tx_id ∷ [] in
    let same : buf ≡ frames all =
      bytes_of_ok (frames all) buf (encode_batch [] records tx_id)
        (encode_batch-frames [] records tx_id h t) e in
    ap decode_all same
    ∙ (decode_all-frames all
          (All-snoc IsRecord records (commit_record tx_id) h (commit_record-IsRecord tx_id t))
          (subst IsBuffer same b)
        ∙ ap (λ bytes. some (ok (all, length bytes))) (sym same))
