-- ===== src/Codec/Index.antt =====
-- `scalar_to_index_be`: numbers of different declared widths in one index.
use hat_p.Prelude.{ℕ, ◌^◌, ◌<◌, compare, ◌≡◌, refl, some, Bytes}
use hat_p.Prelude.Bytewise.{cmp_bytes-be_bytes}
use hat_p.Prelude.Integers.{ℤ, cmp_int}
use hat_p.Prelude.Digits.{be_bytes}
use hat_p.Prelude.Order.{cmp_bytes}
use hat_p.Codec.{
  ScalarValue, int8, int16, int32, int64, date32, date64, timestamp_second, timestamp_millisecond,
  timestamp_microsecond, timestamp_nanosecond, uint8, uint16, uint32, uint64, sign_flip_be,
  scalar_to_index_be,
}
use hat_p.Codec.Signed.{InRange, cmp_sign_flip, width64}

-- The numbers that the signed and the unsigned variants hold.
pub data SignedScalar : ScalarValue → ℤ → Type 0 where
  of_int8 : (v : ℤ) → InRange 63 v → SignedScalar (int8 (some v)) v
  of_int16 : (v : ℤ) → InRange 63 v → SignedScalar (int16 (some v)) v
  of_int32 : (v : ℤ) → InRange 63 v → SignedScalar (int32 (some v)) v
  of_int64 : (v : ℤ) → InRange 63 v → SignedScalar (int64 (some v)) v
  of_date32 : (v : ℤ) → InRange 63 v → SignedScalar (date32 (some v)) v
  of_date64 : (v : ℤ) → InRange 63 v → SignedScalar (date64 (some v)) v
  of_timestamp_second : (v : ℤ) → InRange 63 v → SignedScalar (timestamp_second (some v)) v
  of_timestamp_millisecond :
      (v : ℤ) → InRange 63 v → SignedScalar (timestamp_millisecond (some v)) v
  of_timestamp_microsecond :
      (v : ℤ) → InRange 63 v → SignedScalar (timestamp_microsecond (some v)) v
  of_timestamp_nanosecond : (v : ℤ) → InRange 63 v → SignedScalar (timestamp_nanosecond (some v)) v

pub data UnsignedScalar : ScalarValue → ℕ → Type 0 where
  of_uint8 : (v : ℕ) → v < 2 ^ 64 → UnsignedScalar (uint8 (some v)) v
  of_uint16 : (v : ℕ) → v < 2 ^ 64 → UnsignedScalar (uint16 (some v)) v
  of_uint32 : (v : ℕ) → v < 2 ^ 64 → UnsignedScalar (uint32 (some v)) v
  of_uint64 : (v : ℕ) → v < 2 ^ 64 → UnsignedScalar (uint64 (some v)) v

module _ (promote : ℕ → ℕ) (debug : ScalarValue → Bytes) where
  index_signed :
      {a : ScalarValue} {v : ℤ}
      → SignedScalar a v
      → (scalar_to_index_be promote debug a ≡ sign_flip_be v 8) × InRange 63 v
  unfolding scalar_to_index_be
  index_signed (of_int8 v h) = (refl, h)
  index_signed (of_int16 v h) = (refl, h)
  index_signed (of_int32 v h) = (refl, h)
  index_signed (of_int64 v h) = (refl, h)
  index_signed (of_date32 v h) = (refl, h)
  index_signed (of_date64 v h) = (refl, h)
  index_signed (of_timestamp_second v h) = (refl, h)
  index_signed (of_timestamp_millisecond v h) = (refl, h)
  index_signed (of_timestamp_microsecond v h) = (refl, h)
  index_signed (of_timestamp_nanosecond v h) = (refl, h)

  index_unsigned :
      {a : ScalarValue} {v : ℕ}
      → UnsignedScalar a v
      → (scalar_to_index_be promote debug a ≡ be_bytes 8 v) × (v < 2 ^ 64)
  unfolding scalar_to_index_be
  index_unsigned (of_uint8 v h) = (refl, h)
  index_unsigned (of_uint16 v h) = (refl, h)
  index_unsigned (of_uint32 v h) = (refl, h)
  index_unsigned (of_uint64 v h) = (refl, h)

-- Signed integers, dates and timestamps of any declared widths, in the range of i64, have index
-- encodings in the byte order of their numbers.
pub cmp_index-SignedScalar :
    (promote : ℕ → ℕ) (debug : ScalarValue → Bytes) {a b : ScalarValue} {v u : ℤ}
    → SignedScalar a v
    → SignedScalar b u
    → cmp_bytes (scalar_to_index_be promote debug a) (scalar_to_index_be promote debug b)
      ≡ cmp_int v u
cmp_index-SignedScalar promote debug {a} {b} {v} {u} h g =
    rw ((index_signed promote debug h).0, (index_signed promote debug g).0)
      (cmp_sign_flip 8 63 width64 v u (index_signed promote debug h).1
        (index_signed promote debug g).1)

-- Unsigned integers of any declared widths, in the range of u64, have index encodings in the
-- byte order of their numbers.
cmp_index-UnsignedScalar :
    (promote : ℕ → ℕ) (debug : ScalarValue → Bytes) {a b : ScalarValue} {v u : ℕ}
    → UnsignedScalar a v
    → UnsignedScalar b u
    → cmp_bytes (scalar_to_index_be promote debug a) (scalar_to_index_be promote debug b)
      ≡ compare v u
cmp_index-UnsignedScalar promote debug {a} {b} {v} {u} h g =
    rw ((index_unsigned promote debug h).0, (index_unsigned promote debug g).0)
      (cmp_bytes-be_bytes 8 v u (index_unsigned promote debug h).1
        (index_unsigned promote debug g).1)
