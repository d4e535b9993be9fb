-- ===== src/Engine/Wal/Decode.antt =====
-- `decode_frame` at a complete frame and at a cut one.
use hat_p.Prelude.{
  ℕ, ◌+◌, ◌-◌, ◌^◌, ◌<◌, ◌≡◌, refl, ap, ◌∙◌, Option, none, some, [], ◌∷◌, ◌++◌, arith, Bytes, ◌==◌,
  if◌then◌else◌, length, take, drop, length-append, drop-append, drop_all, take_all, append_assoc,
}
use hat_p.Prelude.Result.{ok}
use hat_p.Prelude.Digits.{from_le, from_le-le_bytes, length-le_bytes}
use hat_p.Engine.Crc32c.{crc32c_software}
use hat_p.Engine.Crc32c.Laws.{crc32c_software-IsWord}
use hat_p.Engine.Wal.{
  WalRecord, value_none, value_bytes, frame_header_len, frame_crc_len, DecodedFrame, slice, read_le,
  checked_add, decoded, decode_checked, decode_payload, decode_frame,
}
use hat_p.Engine.Wal.Frames.{
  len_of, frame, Fits, body_of, crc_of, length-body_of, length-frame, payload_key, payload_value,
  drop_body, frame_magic, decode_header-frame, payload_len_key, payload_len_value,
}

-- Where the parts of a frame end that starts at `cursor`.
abbrev pub key_end : ℕ → WalRecord → ℕ
key_end cursor r = cursor + frame_header_len + length r.key

abbrev pub body_end : ℕ → WalRecord → ℕ
body_end cursor r = key_end cursor r + length (value_bytes r.value)

abbrev pub crc_end : ℕ → WalRecord → ℕ
crc_end cursor r = body_end cursor r + frame_crc_len

-- Vectors hold at most `isize::MAX` bytes.
abbrev pub IsBuffer : Bytes → Type 0
IsBuffer buf = length buf < 2 ^ 63

checked_add_ok : (a b : ℕ) → a + b < 2 ^ 64 → checked_add a b ≡ ok (a + b)
checked_add_ok a b h = ground (arith)

pub decode_payload-frame :
    (buf : Bytes) (cursor : ℕ) (r : WalRecord)
    → Fits r
    → cursor < 2 ^ 63
    → decode_payload r.tx_id r.op (length r.key) (len_of r.value) buf cursor
      ≡ decode_checked r.tx_id r.op
          (length r.key)
          (len_of r.value)
          (cursor + frame_header_len)
          (body_end cursor r)
          (crc_end cursor r)
          buf
          cursor
unfolding decode_payload
decode_payload-frame buf cursor r (t, k, v) c =
    rw
      (
        payload_len_key r (t, k, v),
        payload_len_value r (t, k, v),
        checked_add_ok (cursor + frame_header_len) (length r.key) (omega arith),
        checked_add_ok (key_end cursor r) (length (value_bytes r.value)) (omega arith),
        checked_add_ok (body_end cursor r) frame_crc_len (omega arith),
      )
      refl

-- The offset of the next frame, if something follows.
abbrev pub next_of : ℕ → Bytes → Option ℕ
next_of end_ [] = none
next_of end_ (b ∷ rest) = some end_

abbrev pub decoded_of : ℕ → WalRecord → Bytes → DecodedFrame
decoded_of cursor r rest = record {
  tx_id = r.tx_id;
  op = r.op;
  key = r.key;
  value = r.value;
  next_offset = next_of (cursor + length (frame r)) rest;
}

frame_split : (r : WalRecord) (rest : Bytes) → frame r ++ rest ≡ body_of r ++ (crc_of r ++ rest)
unfolding body_of crc_of
frame_split r rest = append_assoc (body_of r) (crc_of r) rest

covered :
    (front rest : Bytes) (r : WalRecord)
    → slice (front ++ (frame r ++ rest)) (length front) (body_end (length front) r - length front)
      ≡ body_of r
covered front rest r =
    ap (take (body_end (length front) r - length front))
      (drop_all front (frame r ++ rest) (length front) refl ∙ frame_split r rest)
    ∙ take_all (body_of r) (crc_of r ++ rest) (body_end (length front) r - length front)
        (omega (arith, length-body_of r))

slice-append :
    (front buf : Bytes) (offset at len : ℕ)
    → at ≡ length front + offset
    → slice (front ++ buf) at len ≡ slice buf offset len
slice-append front buf offset at len h =
    ap (λ i. take len (drop i (front ++ buf))) h ∙ ap (take len) (drop-append front buf offset)

stored_crc :
    (front rest : Bytes) (r : WalRecord)
    → read_le 4 (front ++ (frame r ++ rest)) (body_end (length front) r)
      ≡ crc32c_software (body_of r) 0
unfolding crc_of
stored_crc front rest r =
    ap from_le (
      slice-append front (frame r ++ rest)
        (frame_header_len + length r.key + length (value_bytes r.value)) (body_end (length front) r)
        4 (omega arith)
      ∙ (ap (take 4) (drop_body r rest)
          ∙ take_all (crc_of r) rest 4 (length-le_bytes 4 (crc32c_software (body_of r) 0))))
    ∙ from_le-le_bytes 4 (crc32c_software (body_of r) 0)
        (crc32c_software-IsWord (body_of r) 0 (omega arith))

decoded_key :
    (front rest : Bytes) (r : WalRecord)
    → slice (front ++ (frame r ++ rest)) (length front + frame_header_len) (length r.key) ≡ r.key
decoded_key front rest r =
    slice-append front (frame r ++ rest) frame_header_len (length front + frame_header_len)
      (length r.key) refl
    ∙ payload_key r rest

decoded_value :
    (front rest : Bytes) (r : WalRecord)
    → slice
        (front ++ (frame r ++ rest))
        (key_end (length front) r)
        (body_end (length front) r - key_end (length front) r)
      ≡ value_bytes r.value
decoded_value front rest r =
    slice-append front (frame r ++ rest) (frame_header_len + length r.key)
      (key_end (length front) r) (body_end (length front) r - key_end (length front) r)
      (omega arith)
    ∙ (ap (λ n. slice (frame r ++ rest) (frame_header_len + length r.key) n) (omega arith)
        ∙ payload_value r rest)

value_again :
    (v : Option Bytes)
    → length (value_bytes v) < value_none
    → (if len_of v == value_none then none else some (value_bytes v)) ≡ v
value_again none h = refl
value_again (some v) h = ground arith

next_again :
    (ends total end_ : ℕ) (rest : Bytes)
    → ends ≡ end_
    → total ≡ end_ + length rest
    → (if ends == total then none else some ends) ≡ next_of end_ rest
next_again ends total end_ [] e h = ground arith
next_again ends total end_ (b ∷ rest) e h = ground arith

pub crc_end-frame : (cursor : ℕ) (r : WalRecord) → crc_end cursor r ≡ cursor + length (frame r)
crc_end-frame cursor r = omega (arith, length-frame r)

pub length-buffer :
    (front rest : Bytes) (r : WalRecord)
    → length (front ++ (frame r ++ rest)) ≡ length front + length (frame r) + length rest
length-buffer front rest r =
    omega (arith, length-append front (frame r ++ rest), length-append (frame r) rest)

decoded-frame :
    (front rest : Bytes) (r : WalRecord)
    → Fits r
    → decoded r.tx_id r.op
        (length r.key)
        (len_of r.value)
        (length front + frame_header_len)
        (body_end (length front) r)
        (crc_end (length front) r)
        (front ++ (frame r ++ rest))
      ≡ decoded_of (length front) r rest
unfolding decoded
decoded-frame front rest r (t, k, v) =
    rw
      (
        payload_len_key r (t, k, v),
        decoded_key front rest r,
        decoded_value front rest r,
        value_again r.value v,
        next_again (crc_end (length front) r) (length (front ++ (frame r ++ rest)))
            (length front + length (frame r)) rest (crc_end-frame (length front) r)
            (length-buffer front rest r),
      )
      refl

decode_checked-frame :
    (front rest : Bytes) (r : WalRecord)
    → Fits r
    → decode_checked r.tx_id r.op
        (length r.key)
        (len_of r.value)
        (length front + frame_header_len)
        (body_end (length front) r)
        (crc_end (length front) r)
        (front ++ (frame r ++ rest))
        (length front)
      ≡ ok (some (decoded_of (length front) r rest))
unfolding decode_checked
decode_checked-frame front rest r fits = ground (
  arith,
  length-buffer front rest r,
  crc_end-frame (length front) r,
  covered front rest r,
  stored_crc front rest r,
  decoded-frame front rest r fits,
)

-- A complete frame decodes to the record that it was made of, wherever it stands.
pub decode_frame-frame :
    (front rest : Bytes) (r : WalRecord)
    → Fits r
    → IsBuffer (front ++ (frame r ++ rest))
    → decode_frame (front ++ (frame r ++ rest)) (length front)
      ≡ ok (some (decoded_of (length front) r rest))
unfolding decode_frame
decode_frame-frame front rest r fits b = ground (
  arith,
  length-buffer front rest r,
  length-frame r,
  frame_magic front rest r,
  decode_header-frame front rest r fits,
  decode_payload-frame (front ++ (frame r ++ rest)) (length front) r fits
      (omega (arith, length-buffer front rest r)),
  decode_checked-frame front rest r fits,
)
