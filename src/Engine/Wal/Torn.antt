-- ===== src/Engine/Wal/Torn.antt =====
-- A frame that was cut off while it was written.
use hat_p.Prelude.{
  ℕ, ◌+◌, ◌≤◌, ◌<◌, ◌≡◌, refl, sym, ap, ◌∙◌, inl, inr, none, [], ◌++◌, arith, Bytes, length, take,
  length-append, lt_or_le, drop_all, append_nil, length-take, slice_take,
}
use hat_p.Prelude.Result.{ok}
use hat_p.Prelude.Digits.{from_le}
use hat_p.Engine.Wal.{
  WalRecord, encode_op, frame_header_len, magic_wal1, read_le, decode_checked, decode_payload,
  decode_header, decode_frame,
}
use hat_p.Engine.Wal.Frames.{
  len_of, frame, Fits, header_op, header_tx, header_magic, header_key_len, header_value_len,
  decode_op-encode_op, read_le-append,
}
use hat_p.Engine.Wal.Decode.{body_end, crc_end, crc_end-frame, IsBuffer, decode_payload-frame}

-- The fields of the header are there if the header is.
read_cut :
    (width offset n : ℕ) (r : WalRecord) (field : ℕ)
    → offset + width ≤ n
    → read_le width (frame r ++ []) offset ≡ field
    → read_le width (take n (frame r)) offset ≡ field
read_cut width offset n r field h e =
    ap from_le (slice_take width n offset (frame r) h)
    ∙ (ap (λ buf. read_le width buf offset) (sym (append_nil (frame r))) ∙ e)

read_front :
    (width offset n : ℕ) (front : Bytes) (r : WalRecord) (field : ℕ)
    → offset + width ≤ n
    → read_le width (frame r ++ []) offset ≡ field
    → read_le width (front ++ take n (frame r)) (length front + offset) ≡ field
read_front width offset n front r field h e =
    read_le-append width front (take n (frame r)) offset ∙ read_cut width offset n r field h e

cut_magic :
    (n : ℕ) (front : Bytes) (r : WalRecord)
    → frame_header_len ≤ n
    → read_le 4 (front ++ take n (frame r)) (length front) ≡ from_le magic_wal1
cut_magic n front r h =
    ap (λ tail. from_le (take 4 tail)) (drop_all front (take n (frame r)) (length front) refl)
    ∙ read_cut 4 0 n r (from_le magic_wal1) (omega arith) (header_magic r [])

decode_header-cut :
    (n : ℕ) (front : Bytes) (r : WalRecord)
    → Fits r
    → frame_header_len ≤ n
    → decode_header (front ++ take n (frame r)) (length front)
      ≡ decode_payload r.tx_id r.op
          (length r.key)
          (len_of r.value)
          (front ++ take n (frame r))
          (length front)
unfolding decode_header
decode_header-cut n front r fits h =
    rw
      (
        read_front 1 12 n front r (encode_op r.op) (omega arith) (header_op r []),
        read_front 8 4 n front r r.tx_id (omega arith) (header_tx r [] fits),
        read_front 4 13 n front r (length r.key) (omega arith) (header_key_len r [] fits),
        read_front 4 17 n front r (len_of r.value) (omega arith) (header_value_len r [] fits),
        decode_op-encode_op r.op,
      )
      refl

length-cut :
    (n : ℕ) (front : Bytes) (r : WalRecord)
    → n < length (frame r)
    → length (front ++ take n (frame r)) ≡ length front + n
length-cut n front r h =
    omega (arith, length-append front (take n (frame r)), length-take n (frame r) (omega arith))

decode_checked-cut :
    (n : ℕ) (front : Bytes) (r : WalRecord)
    → n < length (frame r)
    → decode_checked r.tx_id r.op
        (length r.key)
        (len_of r.value)
        (length front + frame_header_len)
        (body_end (length front) r)
        (crc_end (length front) r)
        (front ++ take n (frame r))
        (length front)
      ≡ ok none
unfolding decode_checked
decode_checked-cut n front r h =
    ground (arith, length-cut n front r h, crc_end-frame (length front) r)

-- A cut frame is no frame, and no error either.
pub decode_frame-cut :
    (n : ℕ) (front : Bytes) (r : WalRecord)
    → Fits r
    → n < length (frame r)
    → IsBuffer (front ++ take n (frame r))
    → decode_frame (front ++ take n (frame r)) (length front) ≡ ok none
unfolding decode_frame
decode_frame-cut n front r fits h b = elim (lt_or_le n frame_header_len) [
  | inl e ↦ ground (arith, length-cut n front r h)
  | inr e ↦ ground (
    arith,
    length-cut n front r h,
    cut_magic n front r (omega arith),
    decode_header-cut n front r fits (omega arith),
    decode_payload-frame (front ++ take n (frame r)) (length front) r fits
        (omega (arith, length-cut n front r h)),
    decode_checked-cut n front r h,
  )
]
