-- ===== src/Engine/Wal/Frames.antt =====
-- One frame in a buffer, decoded: complete frames and cut ones.
use hat_p.Prelude.{
  ℕ, ◌+◌, ◌^◌, ◌<◌, ◌≡◌, refl, ap, ◌∙◌, inl, inr, Option, none, some, ◌++◌, arith, Bytes,
  Option-cases, length, take, drop, length-append, drop-append, drop_all, take_all, append_assoc,
  drop_add,
}
use hat_p.Engine.Wal.{
  decode_payload, payload_len, decode_header, OpType, put_op, delete_op, commit_op, abort_op,
  encode_op, decode_op, WalRecord, value_none, value_bytes, frame_header_len, frame_crc_len,
  magic_wal1, with_crc, frame_body, value_len_of, checked_len, encode_frame, slice, read_le,
}
use hat_p.Prelude.Result.{ok}
use hat_p.Prelude.Digits.{le_bytes, from_le, from_le-le_bytes, length-le_bytes}
use hat_p.Engine.Crc32c.{crc32c_software}

-- `usize::try_from` and the length fields are exact below the sentinel.
abbrev pub len_of : Option Bytes → ℕ
len_of none = value_none
len_of (some v) = length v

-- The bytes of one frame.
abbrev pub frame : WalRecord → Bytes
frame r = with_crc (frame_body r.tx_id r.op r.key r.value (length r.key) (len_of r.value))

-- What the fields of a frame can carry. A length of `u32::MAX` stands for no payload.
abbrev pub Fits : WalRecord → Type 0
Fits r =
    (r.tx_id < 2 ^ 64) × (length r.key < value_none) × (length (value_bytes r.value) < value_none)

pub encode_frame-frame :
    (out : Bytes) (r : WalRecord)
    → Fits r
    → encode_frame out r.tx_id r.op r.key r.value ≡ ok (out ++ frame r)
unfolding encode_frame value_len_of checked_len
encode_frame-frame out r (t, k, v) = elim (Option-cases r.value) [
  | inl e ↦ ground (arith)
  | inr (w, e) ↦ ground (arith)
]

pub decode_op-encode_op : (op : OpType) → decode_op (encode_op op) ≡ ok op
unfolding decode_op encode_op
decode_op-encode_op put_op = refl
decode_op-encode_op delete_op = refl
decode_op-encode_op commit_op = refl
decode_op-encode_op abort_op = refl

encode_op_lt : (op : OpType) → encode_op op < 256
unfolding encode_op
encode_op_lt put_op = omega arith
encode_op_lt delete_op = omega arith
encode_op_lt commit_op = omega arith
encode_op_lt abort_op = omega arith

pub read_le-append :
    (width : ℕ) (front buf : Bytes) (offset : ℕ)
    → read_le width (front ++ buf) (length front + offset) ≡ read_le width buf offset
read_le-append width front buf offset =
    ap (λ rest. from_le (take width rest)) (drop-append front buf offset)

-- The fields of the header at their offsets, whatever follows it.
pub header_op : (r : WalRecord) (rest : Bytes) → read_le 1 (frame r ++ rest) 12 ≡ encode_op r.op
unfolding frame_body
header_op r rest = omega arith

pub header_tx : (r : WalRecord) (rest : Bytes) → Fits r → read_le 8 (frame r ++ rest) 4 ≡ r.tx_id
unfolding frame_body
header_tx r rest (t, k, v) = from_le-le_bytes 8 r.tx_id t

pub header_magic :
    (r : WalRecord) (rest : Bytes) → read_le 4 (frame r ++ rest) 0 ≡ from_le magic_wal1
unfolding frame_body
header_magic r rest = refl

pub header_key_len :
    (r : WalRecord) (rest : Bytes) → Fits r → read_le 4 (frame r ++ rest) 13 ≡ length r.key
unfolding frame_body
header_key_len r rest (t, k, v) = from_le-le_bytes 4 (length r.key) (omega arith)

len_of_lt : (v : Option Bytes) → length (value_bytes v) < value_none → len_of v < 2 ^ 32
len_of_lt none h = omega arith
len_of_lt (some v) h = omega arith

pub header_value_len :
    (r : WalRecord) (rest : Bytes) → Fits r → read_le 4 (frame r ++ rest) 17 ≡ len_of r.value
unfolding frame_body
header_value_len r rest (t, k, v) = from_le-le_bytes 4 (len_of r.value) (len_of_lt r.value v)

unfoldable pub body_of : WalRecord → Bytes
body_of r = frame_body r.tx_id r.op r.key r.value (length r.key) (len_of r.value)

unfoldable pub crc_of : WalRecord → Bytes
crc_of r = le_bytes 4 (crc32c_software (body_of r) 0)

-- What stands behind the header.
pub frame_tail :
    (r : WalRecord) (rest : Bytes)
    → drop frame_header_len (frame r ++ rest) ≡ r.key ++ (value_bytes r.value ++ (crc_of r ++ rest))
unfolding frame_body body_of crc_of
frame_tail r rest =
    append_assoc (r.key ++ value_bytes r.value) (crc_of r) rest
    ∙ append_assoc r.key (value_bytes r.value) (crc_of r ++ rest)

pub length-body_of :
    (r : WalRecord)
    → length (body_of r) ≡ frame_header_len + (length r.key + length (value_bytes r.value))
unfolding frame_body body_of
length-body_of r = omega (arith, length-append r.key (value_bytes r.value))

-- A complete frame has its header, its payload and its checksum.
pub length-frame :
    (r : WalRecord)
    → length (frame r)
      ≡ frame_header_len + (length r.key + (length (value_bytes r.value) + frame_crc_len))
unfolding crc_of body_of
length-frame r = omega (
  arith,
  length-append (body_of r) (crc_of r),
  length-body_of r,
  length-le_bytes 4 (crc32c_software (body_of r) 0),
)

pub payload_key :
    (r : WalRecord) (rest : Bytes) → slice (frame r ++ rest) frame_header_len (length r.key) ≡ r.key
payload_key r rest =
    rw (frame_tail r rest)
      (take_all r.key (value_bytes r.value ++ (crc_of r ++ rest)) (length r.key) refl)

drop_key :
    (r : WalRecord) (rest : Bytes)
    → drop (frame_header_len + length r.key) (frame r ++ rest)
      ≡ value_bytes r.value ++ (crc_of r ++ rest)
drop_key r rest =
    drop_add frame_header_len (length r.key) (frame r ++ rest)
    ∙ rw (frame_tail r rest)
        (drop_all r.key (value_bytes r.value ++ (crc_of r ++ rest)) (length r.key) refl)

pub payload_value :
    (r : WalRecord) (rest : Bytes)
    → slice (frame r ++ rest) (frame_header_len + length r.key) (length (value_bytes r.value))
      ≡ value_bytes r.value
payload_value r rest =
    rw (drop_key r rest)
      (take_all (value_bytes r.value) (crc_of r ++ rest) (length (value_bytes r.value)) refl)

pub drop_body :
    (r : WalRecord) (rest : Bytes)
    → drop (frame_header_len + length r.key + length (value_bytes r.value)) (frame r ++ rest)
      ≡ crc_of r ++ rest
drop_body r rest =
    drop_add (frame_header_len + length r.key) (length (value_bytes r.value)) (frame r ++ rest)
    ∙ rw (drop_key r rest)
        (drop_all (value_bytes r.value) (crc_of r ++ rest) (length (value_bytes r.value)) refl)

-- The two halves of `decode_frame`: the header at an offset of a larger buffer.
pub frame_magic :
    (front rest : Bytes) (r : WalRecord)
    → read_le 4 (front ++ (frame r ++ rest)) (length front) ≡ from_le magic_wal1
frame_magic front rest r =
    ap (λ tail. from_le (take 4 tail)) (drop_all front (frame r ++ rest) (length front) refl)
    ∙ header_magic r rest

pub decode_header-frame :
    (front rest : Bytes) (r : WalRecord)
    → Fits r
    → decode_header (front ++ (frame r ++ rest)) (length front)
      ≡ decode_payload r.tx_id r.op
          (length r.key)
          (len_of r.value)
          (front ++ (frame r ++ rest))
          (length front)
unfolding decode_header
decode_header-frame front rest r fits =
    rw
      (
        read_le-append 1 front (frame r ++ rest) 12,
        read_le-append 8 front (frame r ++ rest) 4,
        read_le-append 4 front (frame r ++ rest) 13,
        read_le-append 4 front (frame r ++ rest) 17,
        header_op r rest,
        header_tx r rest fits,
        header_key_len r rest fits,
        header_value_len r rest fits,
        decode_op-encode_op r.op,
      )
      refl

pub payload_len_key : (r : WalRecord) → Fits r → payload_len (length r.key) ≡ length r.key
payload_len_key r (t, k, v) = ground (arith)

pub payload_len_value :
    (r : WalRecord) → Fits r → payload_len (len_of r.value) ≡ length (value_bytes r.value)
payload_len_value r (t, k, v) = elim (Option-cases r.value) [
  | inl e ↦ ground (arith)
  | inr (w, e) ↦ ground (arith)
]
