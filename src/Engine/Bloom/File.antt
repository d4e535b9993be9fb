-- ===== src/Engine/Bloom/File.antt =====
-- The sidecar file of a filter: what `from_bytes` makes of `to_bytes`.
use hat_p.Prelude.{
  ℕ, ◌+◌, ◌*◌, ◌/◌, ◌^◌, ◌<◌, ◌≡◌, refl, ap, ◌∙◌, inl, inr, none, some, List, [], ◌∷◌, arith,
  length, take, drop, All, lt_or_le, length-take, slice_take,
}
use hat_p.Prelude.Digits.{from_le, from_le-le_bytes}
use hat_p.Engine.Bloom.{BloomFilter, word_bytes, to_bytes, read_words, from_bytes}

-- The fields fit in their types, and the bit count is that of the words.
abbrev pub IsStored : BloomFilter → Type 0
IsStored filter =
    (filter.num_bits / 64 ≡ length filter.bits)
    × (filter.num_bits < 2 ^ 64)
    × (filter.num_hashes < 2 ^ 32)
    × All (λ word. word < 2 ^ 64) filter.bits

read_words-word_bytes :
    (words : List ℕ)
    → All (λ word. word < 2 ^ 64) words
    → read_words (length words) (word_bytes words) ≡ words
unfolding read_words word_bytes
read_words-word_bytes [] h = refl
read_words-word_bytes (word ∷ words) (b, h) =
    ap (λ w. w ∷ read_words (length words) (word_bytes words)) (from_le-le_bytes 8 word b)
    ∙ ap (λ ws. word ∷ ws) (read_words-word_bytes words h)

length-word_bytes : (words : List ℕ) → length (word_bytes words) ≡ length words * 8
unfolding word_bytes
length-word_bytes [] = refl
length-word_bytes (word ∷ words) = omega (arith, length-word_bytes words)

stored_num_bits :
    (f : BloomFilter) → f.num_bits < 2 ^ 64 → from_le (take 8 (drop 4 (to_bytes f))) ≡ f.num_bits
unfolding to_bytes
stored_num_bits f h = from_le-le_bytes 8 f.num_bits h

stored_num_hashes :
    (f : BloomFilter)
    → f.num_hashes < 2 ^ 32
    → from_le (take 4 (drop 12 (to_bytes f))) ≡ f.num_hashes
unfolding to_bytes
stored_num_hashes f h = from_le-le_bytes 4 f.num_hashes h

stored_bits : (f : BloomFilter) → drop 16 (to_bytes f) ≡ word_bytes f.bits
unfolding to_bytes
stored_bits f = refl

length-to_bytes : (f : BloomFilter) → length (to_bytes f) ≡ 16 + length f.bits * 8
unfolding to_bytes
length-to_bytes f = omega (arith, length-word_bytes f.bits)

stored_magic : (f : BloomFilter) → take 4 (to_bytes f) ≡ 66 ∷ 70 ∷ 48 ∷ 49 ∷ []
unfolding to_bytes
stored_magic f = refl

-- from_bytes of to_bytes returns the filter, if its fields fit in their types and the bit count
-- is that of the words.
pub from_bytes-to_bytes : (f : BloomFilter) → IsStored f → from_bytes (to_bytes f) ≡ some f
unfolding from_bytes
from_bytes-to_bytes f (size, n, k, w) =
    rw
      (
        stored_num_bits f n,
        stored_num_hashes f k,
        stored_bits f,
        stored_magic f,
        length-to_bytes f,
        size,
        read_words-word_bytes f.bits w,
      )
      (ground arith)

-- from_bytes rejects every proper front part of the file of a filter whose fields fit in their
-- types and whose bit count is that of its words.
from_bytes_torn :
    (f : BloomFilter) (n : ℕ)
    → IsStored f
    → n < length (to_bytes f)
    → from_bytes (take n (to_bytes f)) ≡ none
unfolding from_bytes
from_bytes_torn f n (size, b, k, w) h = elim (lt_or_le n 16) [
  | inl e ↦ ground (arith, length-take n (to_bytes f) (omega arith))
  | inr e ↦ ground (
    arith,
    length-take n (to_bytes f) (omega arith),
    length-to_bytes f,
    slice_take 8 n 4 (to_bytes f) (omega arith),
    stored_num_bits f b,
  )
]
