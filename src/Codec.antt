-- ===== src/Codec.antt =====
-- The key codec (crates/hatp-types/src/codec.rs): the order-preserving bytes of primary keys, the
-- two hashes, and `assemble_table_key` of crates/hatp-engine/src/lib.rs.
pub mod Signed
pub mod Float
pub mod Escape
pub mod Pk
pub mod Keys
pub mod Index
pub mod Hash
use hat_p.Prelude.{
  ℕ, zero, suc, ◌+◌, ◌-◌, ◌*◌, ◌/◌, ◌%◌, ◌^◌, ◌≤◌, ◌<◌, compare, Ordering, ◌≡◌, refl, sym, ap, ◌∙◌,
  subst, fun_ext, ◌≢◌, ◌↔◌, ◌⊎◌, inl, inr, Bool, true, false, not, ◌&&◌, ◌||◌, Option, none, some,
  List, [], ◌∷◌, ◌++◌, map, arith, Ord, Bytes, ltb, leb, ◌==◌, if◌then◌else◌, ltb→lt, lt→ltb,
  leb→le, ==_iff, Bool-cases, Option-cases, length, take, drop, get_elem?, any, All, Any,
  length-append, bytes_eq, in_range, contains, set_insert,
}
use Prim.Native.Nat.{bit_xor}
use hat_p.Prelude.Digits.{be_bytes}
use hat_p.Prelude.Integers.{ℤ, pos, negsuc}

-- The variants of `ScalarValue` that a key can have; `none` is a NULL. Floats are their bits, and
-- strings their UTF-8 bytes. `unsupported` stands for the variants that are not listed.
pub data ScalarValue : Type 0 where
  null unsupported : ScalarValue
  int8 int16 int32 int64 : Option ℤ → ScalarValue
  uint8 uint16 uint32 uint64 : Option ℕ → ScalarValue
  float32 float64 : Option ℕ → ScalarValue
  boolean : Option Bool → ScalarValue
  utf8 large_utf8 binary large_binary : Option Bytes → ScalarValue
  date32 date64 : Option ℤ → ScalarValue
  timestamp_second timestamp_millisecond : Option ℤ → ScalarValue
  timestamp_microsecond timestamp_nanosecond : Option ℤ → ScalarValue

-- `v as u64`: two's complement
abbrev pub as_u64 : ℤ → ℕ
as_u64 (pos n) = n
as_u64 (negsuc n) = 2 ^ 64 - 1 - n

unfoldable pub sign_flip_be : ℤ → ℕ → Bytes
sign_flip_be v width = drop (8 - width) (be_bytes 8 (bit_xor (as_u64 v) (2 ^ (width * 8 - 1))))

-- `bits & (1 << 63) != 0` holds of the words from 2^63 on; `!bits` is their distance to u64::MAX.
unfoldable pub float_total_order_f64 : ℕ → Bytes
float_total_order_f64 bits =
    be_bytes 8 (if leb (2 ^ 63) bits then 2 ^ 64 - 1 - bits else bit_xor bits (2 ^ 63))

unfoldable pub float_total_order_f32 : ℕ → Bytes
float_total_order_f32 bits =
    be_bytes 4 (if leb (2 ^ 31) bits then 2 ^ 32 - 1 - bits else bit_xor bits (2 ^ 31))

-- the loop of `escape_bytes`
unfoldable pub escape_loop : Bytes → Bytes
escape_loop [] = []
escape_loop (byte ∷ bytes) =
    let rest = escape_loop bytes in if byte == 0 then 0 ∷ 255 ∷ rest else byte ∷ rest

unfoldable pub escape_bytes : Bytes → Bytes
unfolding escape_loop
escape_bytes bytes = escape_loop bytes ++ 0 ∷ []

-- `Some(v)` of a variant, encoded
abbrev pub encode_some {ℓ} : {A : Type ℓ} → (A → Bytes) → Option A → Option Bytes
encode_some encode none = none
encode_some encode (some v) = some (encode v)

unfoldable pub encode_pk_value : ScalarValue → Option Bytes
unfolding sign_flip_be float_total_order_f32 float_total_order_f64 escape_bytes
encode_pk_value (int8 v) = encode_some (λ x. sign_flip_be x 1) v
encode_pk_value (int16 v) = encode_some (λ x. sign_flip_be x 2) v
encode_pk_value (int32 v) = encode_some (λ x. sign_flip_be x 4) v
encode_pk_value (int64 v) = encode_some (λ x. sign_flip_be x 8) v
encode_pk_value (uint8 v) = encode_some (be_bytes 1) v
encode_pk_value (uint16 v) = encode_some (be_bytes 2) v
encode_pk_value (uint32 v) = encode_some (be_bytes 4) v
encode_pk_value (uint64 v) = encode_some (be_bytes 8) v
encode_pk_value (float32 v) = encode_some float_total_order_f32 v
encode_pk_value (float64 v) = encode_some float_total_order_f64 v
encode_pk_value (boolean v) = encode_some (λ b. (if b then 1 else 0) ∷ []) v
encode_pk_value (utf8 v) = encode_some escape_bytes v
encode_pk_value (large_utf8 v) = encode_some escape_bytes v
encode_pk_value (date32 v) = encode_some (λ x. sign_flip_be x 4) v
encode_pk_value (date64 v) = encode_some (λ x. sign_flip_be x 8) v
encode_pk_value (timestamp_second v) = encode_some (λ x. sign_flip_be x 8) v
encode_pk_value (timestamp_millisecond v) = encode_some (λ x. sign_flip_be x 8) v
encode_pk_value (timestamp_microsecond v) = encode_some (λ x. sign_flip_be x 8) v
encode_pk_value (timestamp_nanosecond v) = encode_some (λ x. sign_flip_be x 8) v
encode_pk_value (binary v) = none
encode_pk_value (large_binary v) = none
encode_pk_value null = none
encode_pk_value unsupported = none

-- The loop of `build_pk_key` over the scalars of the key columns; `none`: `NullPrimaryKey`.
unfoldable pub encode_parts : List ScalarValue → Option (List Bytes)
unfolding encode_pk_value
encode_parts [] = some []
encode_parts (scalar ∷ scalars) =
    let rest = encode_parts scalars in
    elim (encode_pk_value scalar) [
      | none ↦ none
      | some part ↦ elim rest [ none ↦ none | some parts ↦ some (part ∷ parts) ]
    ]

-- `for part in encoded_parts { out.push(0); out.extend_from_slice(part); }`
unfoldable pub delimited : List Bytes → Bytes
delimited [] = []
delimited (part ∷ parts) = 0 ∷ (part ++ delimited parts)

unfoldable pub assemble_table_key : Bytes → List Bytes → Bytes
unfolding delimited
assemble_table_key table encoded_parts = table ++ 0 ∷ delimited encoded_parts

-- one byte of FNV-1a and of DJB2, on 64-bit words
abbrev pub fnv1a_byte : ℕ → ℕ → ℕ
fnv1a_byte hash byte = bit_xor hash byte * 0x100000001b3 % 2 ^ 64

abbrev pub djb2_byte : ℕ → ℕ → ℕ
djb2_byte hash byte = (hash * 33 % 2 ^ 64 + byte) % 2 ^ 64

-- The loop over four bytes at a time, and the tail.
unfoldable pub hash_tail : (ℕ → ℕ → ℕ) → Bytes → ℕ → ℕ
hash_tail step [] hash = hash
hash_tail step (byte ∷ bytes) hash = hash_tail step bytes (step hash byte)

unfoldable pub hash_chunks : (ℕ → ℕ → ℕ) → Bytes → ℕ → ℕ
unfolding hash_tail
hash_chunks step (b0 ∷ b1 ∷ b2 ∷ b3 ∷ bytes) hash =
    hash_chunks step bytes (step (step (step (step hash b0) b1) b2) b3)
hash_chunks step bytes hash = hash_tail step bytes hash

unfoldable pub fnv1a : Bytes → ℕ
unfolding hash_chunks
fnv1a data_ = hash_chunks fnv1a_byte data_ 0xcbf29ce484222325

unfoldable pub djb2 : Bytes → ℕ
unfolding hash_chunks
djb2 data_ = hash_chunks djb2_byte data_ 5381

-- `f64::from` of an `f32`, on their bits, and the `Debug` text of a value stand for code of the
-- language and of the crate that declares `ScalarValue`.
module _ (promote : ℕ → ℕ) (debug : ScalarValue → Bytes) where
  -- `Some(v)` of a variant; a NULL falls through to the last arm.
  abbrev index_some {ℓ} : {A : Type ℓ} → ScalarValue → (A → Bytes) → Option A → Bytes
  index_some scalar encode none = debug scalar
  index_some scalar encode (some v) = encode v

  unfoldable pub scalar_to_index_be : ScalarValue → Bytes
  unfolding sign_flip_be float_total_order_f64
  scalar_to_index_be (int64 v) = index_some (int64 v) (λ x. sign_flip_be x 8) v
  scalar_to_index_be (int32 v) = index_some (int32 v) (λ x. sign_flip_be x 8) v
  scalar_to_index_be (int16 v) = index_some (int16 v) (λ x. sign_flip_be x 8) v
  scalar_to_index_be (int8 v) = index_some (int8 v) (λ x. sign_flip_be x 8) v
  scalar_to_index_be (uint64 v) = index_some (uint64 v) (be_bytes 8) v
  scalar_to_index_be (uint32 v) = index_some (uint32 v) (be_bytes 8) v
  scalar_to_index_be (uint16 v) = index_some (uint16 v) (be_bytes 8) v
  scalar_to_index_be (uint8 v) = index_some (uint8 v) (be_bytes 8) v
  scalar_to_index_be (float64 v) = index_some (float64 v) float_total_order_f64 v
  scalar_to_index_be (float32 v) = index_some (float32 v) (λ x. float_total_order_f64 (promote x)) v
  scalar_to_index_be (utf8 v) = index_some (utf8 v) (λ x. x) v
  scalar_to_index_be (large_utf8 v) = index_some (large_utf8 v) (λ x. x) v
  scalar_to_index_be (binary v) = index_some (binary v) (λ x. x) v
  scalar_to_index_be (large_binary v) = index_some (large_binary v) (λ x. x) v
  scalar_to_index_be (boolean v) = index_some (boolean v) (λ b. (if b then 1 else 0) ∷ []) v
  scalar_to_index_be (date32 v) = index_some (date32 v) (λ x. sign_flip_be x 8) v
  scalar_to_index_be (date64 v) = index_some (date64 v) (λ x. sign_flip_be x 8) v
  scalar_to_index_be (timestamp_second v) =
      index_some (timestamp_second v) (λ x. sign_flip_be x 8) v
  scalar_to_index_be (timestamp_millisecond v) =
      index_some (timestamp_millisecond v) (λ x. sign_flip_be x 8) v
  scalar_to_index_be (timestamp_microsecond v) =
      index_some (timestamp_microsecond v) (λ x. sign_flip_be x 8) v
  scalar_to_index_be (timestamp_nanosecond v) =
      index_some (timestamp_nanosecond v) (λ x. sign_flip_be x 8) v
  scalar_to_index_be null = debug null
  scalar_to_index_be unsupported = debug unsupported
