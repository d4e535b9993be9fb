-- ===== src/Codec/Pk.antt =====
-- `encode_pk_value`: the byte order of the encodings is the order of the values.
use hat_p.Prelude.{
  ℕ, ◌^◌, ◌<◌, compare, Ordering, ◌≡◌, refl, ap, Bool, true, false, Option, none, some, Bytes,
}
use hat_p.Prelude.Bytewise.{cmp_bytes-be_bytes}
use hat_p.Prelude.Integers.{ℤ, cmp_int}
use hat_p.Prelude.Order.{cmp_bytes}
use Prim.Native.Nat.Ordering.{lt, eq, gt}
use hat_p.Codec.{
  ScalarValue, int8, int16, int32, int64, uint8, uint16, uint32, uint64, float32, float64, boolean,
  utf8, large_utf8, date32, date64, timestamp_second, timestamp_millisecond, timestamp_microsecond,
  timestamp_nanosecond, encode_pk_value,
}
use hat_p.Codec.Signed.{InRange, cmp_sign_flip, width8, width16, width32, width64}
use hat_p.Codec.Float.{float_rank, cmp_float32, cmp_float64}
use hat_p.Codec.Escape.{cmp_escape}

-- false before true
abbrev pub cmp_bool : Bool → Bool → Ordering
cmp_bool false true = lt
cmp_bool true false = gt
cmp_bool false false = eq
cmp_bool true true = eq

-- Two values of one type, in the range of the type, and how they compare.
pub data Comparable : ScalarValue → ScalarValue → Ordering → Type 0 where
  of_int8 :
      (v u : ℤ)
      → InRange 7 v
      → InRange 7 u
      → Comparable (int8 (some v)) (int8 (some u)) (cmp_int v u)
  of_int16 :
      (v u : ℤ)
      → InRange 15 v
      → InRange 15 u
      → Comparable (int16 (some v)) (int16 (some u)) (cmp_int v u)
  of_int32 :
      (v u : ℤ)
      → InRange 31 v
      → InRange 31 u
      → Comparable (int32 (some v)) (int32 (some u)) (cmp_int v u)
  of_int64 :
      (v u : ℤ)
      → InRange 63 v
      → InRange 63 u
      → Comparable (int64 (some v)) (int64 (some u)) (cmp_int v u)
  of_uint8 :
      (v u : ℕ)
      → v < 256 ^ 1
      → u < 256 ^ 1
      → Comparable (uint8 (some v)) (uint8 (some u)) (compare v u)
  of_uint16 :
      (v u : ℕ)
      → v < 256 ^ 2
      → u < 256 ^ 2
      → Comparable (uint16 (some v)) (uint16 (some u)) (compare v u)
  of_uint32 :
      (v u : ℕ)
      → v < 256 ^ 4
      → u < 256 ^ 4
      → Comparable (uint32 (some v)) (uint32 (some u)) (compare v u)
  of_uint64 :
      (v u : ℕ)
      → v < 256 ^ 8
      → u < 256 ^ 8
      → Comparable (uint64 (some v)) (uint64 (some u)) (compare v u)
  of_float32 :
      (v u : ℕ)
      → v < 2 ^ 32
      → u < 2 ^ 32
      → Comparable
          (float32 (some v))
          (float32 (some u))
          (cmp_int (float_rank 31 v) (float_rank 31 u))
  of_float64 :
      (v u : ℕ)
      → v < 2 ^ 64
      → u < 2 ^ 64
      → Comparable
          (float64 (some v))
          (float64 (some u))
          (cmp_int (float_rank 63 v) (float_rank 63 u))
  of_boolean : (v u : Bool) → Comparable (boolean (some v)) (boolean (some u)) (cmp_bool v u)
  of_utf8 : (v u : Bytes) → Comparable (utf8 (some v)) (utf8 (some u)) (cmp_bytes v u)
  of_large_utf8 :
      (v u : Bytes) → Comparable (large_utf8 (some v)) (large_utf8 (some u)) (cmp_bytes v u)
  of_date32 :
      (v u : ℤ)
      → InRange 31 v
      → InRange 31 u
      → Comparable (date32 (some v)) (date32 (some u)) (cmp_int v u)
  of_date64 :
      (v u : ℤ)
      → InRange 63 v
      → InRange 63 u
      → Comparable (date64 (some v)) (date64 (some u)) (cmp_int v u)
  of_timestamp_second :
      (v u : ℤ)
      → InRange 63 v
      → InRange 63 u
      → Comparable (timestamp_second (some v)) (timestamp_second (some u)) (cmp_int v u)
  of_timestamp_millisecond :
      (v u : ℤ)
      → InRange 63 v
      → InRange 63 u
      → Comparable (timestamp_millisecond (some v)) (timestamp_millisecond (some u)) (cmp_int v u)
  of_timestamp_microsecond :
      (v u : ℤ)
      → InRange 63 v
      → InRange 63 u
      → Comparable (timestamp_microsecond (some v)) (timestamp_microsecond (some u)) (cmp_int v u)
  of_timestamp_nanosecond :
      (v u : ℤ)
      → InRange 63 v
      → InRange 63 u
      → Comparable (timestamp_nanosecond (some v)) (timestamp_nanosecond (some u)) (cmp_int v u)

-- How the encodings of two values compare, if both have one.
abbrev pub cmp_encoded : ScalarValue → ScalarValue → Option Ordering
cmp_encoded a b = elim (encode_pk_value a) [
  | none ↦ none
  | some x ↦ elim (encode_pk_value b) [ none ↦ none | some y ↦ some (cmp_bytes x y) ]
]

-- encode_pk_value encodes two values of one type that are in the range of the type, and the byte
-- order of the encodings is the order of the values: that of the numbers, of sign and magnitude
-- for floats, of the bytes for strings.
pub cmp_encoded-Comparable :
    {a b : ScalarValue} {c : Ordering} → Comparable a b c → cmp_encoded a b ≡ some c
unfolding encode_pk_value
cmp_encoded-Comparable (of_int8 v u h g) = ap some (cmp_sign_flip 1 7 width8 v u h g)
cmp_encoded-Comparable (of_int16 v u h g) = ap some (cmp_sign_flip 2 15 width16 v u h g)
cmp_encoded-Comparable (of_int32 v u h g) = ap some (cmp_sign_flip 4 31 width32 v u h g)
cmp_encoded-Comparable (of_int64 v u h g) = ap some (cmp_sign_flip 8 63 width64 v u h g)
cmp_encoded-Comparable (of_uint8 v u h g) = ap some (cmp_bytes-be_bytes 1 v u h g)
cmp_encoded-Comparable (of_uint16 v u h g) = ap some (cmp_bytes-be_bytes 2 v u h g)
cmp_encoded-Comparable (of_uint32 v u h g) = ap some (cmp_bytes-be_bytes 4 v u h g)
cmp_encoded-Comparable (of_uint64 v u h g) = ap some (cmp_bytes-be_bytes 8 v u h g)
cmp_encoded-Comparable (of_float32 v u h g) = ap some (cmp_float32 v u h g)
cmp_encoded-Comparable (of_float64 v u h g) = ap some (cmp_float64 v u h g)
cmp_encoded-Comparable (of_boolean false false) = refl
cmp_encoded-Comparable (of_boolean false true) = refl
cmp_encoded-Comparable (of_boolean true false) = refl
cmp_encoded-Comparable (of_boolean true true) = refl
cmp_encoded-Comparable (of_utf8 v u) = ap some (cmp_escape v u)
cmp_encoded-Comparable (of_large_utf8 v u) = ap some (cmp_escape v u)
cmp_encoded-Comparable (of_date32 v u h g) = ap some (cmp_sign_flip 4 31 width32 v u h g)
cmp_encoded-Comparable (of_date64 v u h g) = ap some (cmp_sign_flip 8 63 width64 v u h g)
cmp_encoded-Comparable (of_timestamp_second v u h g) = ap some (cmp_sign_flip 8 63 width64 v u h g)
cmp_encoded-Comparable (of_timestamp_millisecond v u h g) =
    ap some (cmp_sign_flip 8 63 width64 v u h g)
cmp_encoded-Comparable (of_timestamp_microsecond v u h g) =
    ap some (cmp_sign_flip 8 63 width64 v u h g)
cmp_encoded-Comparable (of_timestamp_nanosecond v u h g) =
    ap some (cmp_sign_flip 8 63 width64 v u h g)
