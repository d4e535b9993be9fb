-- ===== src/Engine/Wal/Log.antt =====
-- Whole logs: what `decode_all` makes of the frames of a batch and of a cut tail.
use hat_p.Prelude.{
  ℕ, zero, suc, ◌+◌, ◌^◌, ◌≤◌, ◌<◌, ◌≡◌, refl, sym, ap, ◌∙◌, subst, inl, inr, none, some, List, [],
  ◌∷◌, ◌++◌, arith, Bytes, length, take, All, length-append, append_assoc, append_nil, lt_or_le,
}
use hat_p.Engine.Wal.{
  decode_all, put_op, WalRecord, commit_record, encode_records, encode_batch, record_of, frame_end,
  decode_from,
}
use hat_p.Prelude.Result.{ok}
use hat_p.Engine.Wal.Torn.{decode_frame-cut}
use hat_p.Engine.Wal.Frames.{frame, Fits, length-frame, encode_frame-frame}
use hat_p.Engine.Wal.Decode.{IsBuffer, decode_frame-frame, decoded_of, next_of}

-- A record as the constructors of `WalRecord` make it: only a put has a value.
abbrev pub IsRecord : WalRecord → Type 0
IsRecord r = Fits r × ((elim r.op [ put_op ↦ r.value | _ ↦ none ]) ≡ r.value)

-- The bytes of a log.
abbrev pub frames : List WalRecord → Bytes
frames [] = []
frames (r ∷ records) = frame r ++ frames records

encode_records-frames :
    (out : Bytes) (records : List WalRecord)
    → All IsRecord records
    → encode_records out records ≡ ok (out ++ frames records)
unfolding encode_records
encode_records-frames out [] h = ap ok (sym (append_nil out))
encode_records-frames out (r ∷ records) ((fits, v), h) =
    rw
      (
        encode_frame-frame out r fits,
        encode_records-frames (out ++ frame r) records h,
        append_assoc out (frame r) (frames records),
      )
      refl

pub frames-append : (xs ys : List WalRecord) → frames (xs ++ ys) ≡ frames xs ++ frames ys
frames-append [] ys = refl
frames-append (x ∷ xs) ys =
    ap (λ rest. frame x ++ rest) (frames-append xs ys)
    ∙ sym (append_assoc (frame x) (frames xs) (frames ys))

pub commit_record-IsRecord : (tx_id : ℕ) → tx_id < 2 ^ 64 → IsRecord (commit_record tx_id)
commit_record-IsRecord tx_id h = ((h, omega arith, omega arith), refl)

-- `encode_batch` writes the frames of the records and of the commit marker.
pub encode_batch-frames :
    (out : Bytes) (records : List WalRecord) (tx_id : ℕ)
    → All IsRecord records
    → tx_id < 2 ^ 64
    → encode_batch out records tx_id ≡ ok (out ++ frames (records ++ commit_record tx_id ∷ []))
unfolding encode_batch
encode_batch-frames out records tx_id h t =
    rw
      (
        encode_records-frames out records h,
        encode_frame-frame (out ++ frames records) (commit_record tx_id)
            (commit_record-IsRecord tx_id t).0,
        append_assoc out (frames records) (frame (commit_record tx_id)),
        frames-append records (commit_record tx_id ∷ []),
        append_nil (frame (commit_record tx_id)),
      )
      refl

record_of-decoded_of :
    (cursor : ℕ) (r : WalRecord) (rest : Bytes)
    → IsRecord r
    → record_of (decoded_of cursor r rest) ≡ r
unfolding record_of
record_of-decoded_of cursor r rest (fits, v) = ap (λ value. record r { value = value }) v

frame_end-decoded_of :
    (cursor : ℕ) (r : WalRecord) (rest : Bytes)
    → frame_end cursor (decoded_of cursor r rest) ≡ cursor + length (frame r)
frame_end-decoded_of cursor r rest = omega (arith, length-frame r)

-- One round of the loop at a complete frame.
decode_from-frame :
    (fuel : ℕ) (front rest : Bytes) (r : WalRecord) (out : List WalRecord) (last : ℕ)
    → IsRecord r
    → IsBuffer (front ++ (frame r ++ rest))
    → decode_from (suc fuel) (front ++ (frame r ++ rest)) (length front) out last
      ≡ elim (next_of (length front + length (frame r)) rest) [
        | none ↦ some (ok (out ++ r ∷ [], length front + length (frame r)))
        | some next ↦
            decode_from fuel
              (front ++ (frame r ++ rest))
              next
              (out ++ r ∷ [])
              (length front + length (frame r))
      ]
unfolding decode_from
decode_from-frame fuel front [] r out last h b = ground (
  arith,
  decode_frame-frame front [] r h.0 b,
  record_of-decoded_of (length front) r [] h,
  frame_end-decoded_of (length front) r [],
)
decode_from-frame fuel front (byte ∷ rest) r out last h b = ground (
  arith,
  decode_frame-frame front (byte ∷ rest) r h.0 b,
  record_of-decoded_of (length front) r (byte ∷ rest) h,
  frame_end-decoded_of (length front) r (byte ∷ rest),
)

next_of_end : (end_ : ℕ) (rest : Bytes) → length rest < 1 → next_of end_ rest ≡ none
next_of_end end_ [] h = refl
next_of_end end_ (b ∷ rest) h = absurd (omega arith)

next_of_more : (end_ : ℕ) (rest : Bytes) → 1 ≤ length rest → next_of end_ rest ≡ some end_
next_of_more end_ [] h = absurd (omega arith)
next_of_more end_ (b ∷ rest) h = refl

-- The last frame of the buffer ends the loop, any other passes the cursor on.
decode_from_last :
    (fuel : ℕ) (front rest : Bytes) (r : WalRecord) (out : List WalRecord) (last : ℕ)
    → IsRecord r
    → IsBuffer (front ++ (frame r ++ rest))
    → length rest < 1
    → decode_from (suc fuel) (front ++ (frame r ++ rest)) (length front) out last
      ≡ some (ok (out ++ r ∷ [], length front + length (frame r)))
decode_from_last fuel front rest r out last h b e =
    decode_from-frame fuel front rest r out last h b
    ∙ rw (next_of_end (length front + length (frame r)) rest e) refl

decode_from_more :
    (fuel : ℕ) (front rest : Bytes) (r : WalRecord) (out : List WalRecord) (last : ℕ)
    → IsRecord r
    → IsBuffer (front ++ (frame r ++ rest))
    → 1 ≤ length rest
    → decode_from (suc fuel) (front ++ (frame r ++ rest)) (length front) out last
      ≡ decode_from fuel
          ((front ++ frame r) ++ rest)
          (length (front ++ frame r))
          (out ++ r ∷ [])
          (length (front ++ frame r))
decode_from_more fuel front rest r out last h b e =
    decode_from-frame fuel front rest r out last h b
    ∙ rw
        (
          next_of_more (length front + length (frame r)) rest e,
          append_assoc front (frame r) rest,
          length-append front (frame r),
        )
        refl

decode_from_cut :
    (fuel n : ℕ) (front : Bytes) (r : WalRecord) (out : List WalRecord) (last : ℕ)
    → Fits r
    → n < length (frame r)
    → IsBuffer (front ++ take n (frame r))
    → decode_from (suc fuel) (front ++ take n (frame r)) (length front) out last
      ≡ some (ok (out, last))
unfolding decode_from
decode_from_cut fuel n front r out last fits h b =
    ground (arith, decode_frame-cut n front r fits h b)

-- The bytes behind a log: a frame of which only `n` bytes were written.
abbrev pub with_tail : List WalRecord → ℕ → WalRecord → Bytes
with_tail records n r = frames records ++ take n (frame r)

frames_none :
    (records : List WalRecord) (n : ℕ) (r : WalRecord)
    → length (with_tail records n r) < 1
    → records ≡ []
frames_none [] n r h = refl
frames_none (x ∷ records) n r h = absurd (
    omega (
      arith,
      length-append (frames (x ∷ records)) (take n (frame r)),
      length-append (frame x) (frames records),
      length-frame x,
    ))

-- What a log of one more record decodes to, from what the rest decodes to.
decode_from_round :
    (fuel : ℕ) (front : Bytes) (records : List WalRecord) (n : ℕ) (r x : WalRecord)
    (out : List WalRecord)
    → IsRecord x
    → IsBuffer (front ++ (frame x ++ with_tail records n r))
    → (IsBuffer ((front ++ frame x) ++ with_tail records n r)
        → decode_from fuel
            ((front ++ frame x) ++ with_tail records n r)
            (length (front ++ frame x))
            (out ++ x ∷ [])
            (length (front ++ frame x))
          ≡ some (
              ok ((out ++ x ∷ []) ++ records, length (front ++ frame x) + length (frames records))))
    → decode_from
        (suc fuel)
        (front ++ (frame x ++ with_tail records n r))
        (length front)
        out
        (length front)
      ≡ some (ok (out ++ x ∷ records, length front + length (frame x ++ frames records)))
decode_from_round fuel front records n r x out hx b rest =
    elim (lt_or_le (length (with_tail records n r)) 1) [
      | inl e ↦
          decode_from_last fuel front (with_tail records n r) x out (length front) hx b e
          ∙ rw (frames_none records n r e, append_nil (frame x)) refl
      | inr e ↦
          decode_from_more fuel front (with_tail records n r) x out (length front) hx b e
          ∙ (rest (subst IsBuffer (sym (append_assoc front (frame x) (with_tail records n r))) b)
              ∙ rw (append_assoc out (x ∷ []) records) (
                  ap (λ k. some (ok (out ++ x ∷ records, k)))
                    (omega (
                      arith,
                      length-append front (frame x),
                      length-append (frame x) (frames records),
                    ))))
    ]

decode_from-frames :
    (fuel : ℕ) (front : Bytes) (records : List WalRecord) (n : ℕ) (r : WalRecord)
    (out : List WalRecord)
    → All IsRecord records
    → Fits r
    → n < length (frame r)
    → length records < fuel
    → IsBuffer (front ++ with_tail records n r)
    → decode_from fuel (front ++ with_tail records n r) (length front) out (length front)
      ≡ some (ok (out ++ records, length front + length (frames records)))
decode_from-frames zero front records n r out h fits cut f b = absurd (omega arith)
decode_from-frames (suc fuel) front [] n r out h fits cut f b =
    decode_from_cut fuel n front r out (length front) fits cut b
    ∙ rw (append_nil out) (ap (λ k. some (ok (out, k))) (omega arith))
decode_from-frames (suc fuel) front (x ∷ records) n r out (hx, h) fits cut f b =
    ap (λ tail. decode_from (suc fuel) (front ++ tail) (length front) out (length front))
      (append_assoc (frame x) (frames records) (take n (frame r)))
    ∙ decode_from_round fuel front records n r x out hx
        (subst (λ tail. IsBuffer (front ++ tail))
          (append_assoc (frame x) (frames records) (take n (frame r))) b)
        (λ b'.
          decode_from-frames fuel (front ++ frame x) records n r (out ++ x ∷ []) h fits cut
            (omega arith) b')

pub frames_count : (records : List WalRecord) → length records ≤ length (frames records)
frames_count [] = omega arith
frames_count (x ∷ records) =
    omega (arith, frames_count records, length-append (frame x) (frames records), length-frame x)

--
pub decode_all_torn :
    (records : List WalRecord) (torn : WalRecord) (n : ℕ)
    → All IsRecord records
    → Fits torn
    → n < length (frame torn)
    → IsBuffer (frames records ++ take n (frame torn))
    → decode_all (frames records ++ take n (frame torn))
      ≡ some (ok (records, length (frames records)))
unfolding decode_all
decode_all_torn records torn n h fits cut b =
    decode_from-frames (suc (length (with_tail records n torn))) [] records n torn [] h fits cut
      (omega (arith, frames_count records, length-append (frames records) (take n (frame torn)))) b
    ∙ ap (λ k. some (ok (records, k))) (omega arith)
