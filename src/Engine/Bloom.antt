-- ===== src/Engine/Bloom.antt =====
-- The Bloom filter of the SST sidecars (crates/hatp-engine/src/bloom.rs). `BloomFilter::new` sizes
-- it with floats; here the sizes are given. The laws are in the modules below.
pub mod Members
pub mod File
use hat_p.Prelude.{
  ℕ, zero, suc, ◌+◌, ◌-◌, ◌*◌, ◌/◌, ◌%◌, ◌^◌, ◌≤◌, ◌<◌, compare, Ordering, ◌≡◌, refl, sym, ap, ◌∙◌,
  subst, fun_ext, ◌≢◌, ◌↔◌, ◌⊎◌, inl, inr, Bool, true, false, not, ◌&&◌, ◌||◌, Option, none, some,
  List, [], ◌∷◌, ◌++◌, map, arith, Ord, Bytes, ltb, leb, ◌==◌, if◌then◌else◌, ltb→lt, lt→ltb,
  leb→le, ==_iff, Bool-cases, Option-cases, length, take, drop, get_elem?, any, All, Any,
  length-append, bytes_eq, in_range, set_insert,
}
use Prim.Native.Nat.{bit_and, bit_or}
use hat_p.Prelude.Digits.{le_bytes, from_le}
use hat_p.Codec.{fnv1a, djb2}

pub record BloomFilter : Type 0 where
  pub num_bits : ℕ
  pub num_hashes : ℕ
  pub bits : List ℕ

-- The part of `new` behind the sizes: `vec![0_u64; words]`
abbrev pub zero_words : ℕ → List ℕ
zero_words zero = []
zero_words (suc words) = 0 ∷ zero_words words

abbrev pub with_sizes : ℕ → ℕ → BloomFilter
with_sizes num_bits num_hashes = record {
  num_bits = num_bits;
  num_hashes = num_hashes;
  bits = zero_words (num_bits / 64);
}

-- `h1.wrapping_add(u64::from(probe).wrapping_mul(h2)) & mask`
unfoldable pub probe_bit : BloomFilter → Bytes → ℕ → ℕ
unfolding fnv1a djb2
probe_bit filter key probe =
    bit_and ((fnv1a key + probe * djb2 key % 2 ^ 64) % 2 ^ 64) (filter.num_bits - 1)

-- `*self.bits.get_unchecked_mut(bit >> 6) |= 1 << (bit & 63)`. Beyond the end the access is
-- undefined; here it changes nothing.
unfoldable pub set_bit : List ℕ → ℕ → ℕ → List ℕ
set_bit [] i bit = []
set_bit (word ∷ words) zero bit = bit_or word (2 ^ bit) ∷ words
set_bit (word ∷ words) (suc i) bit = word ∷ set_bit words i bit

-- `*self.bits.get_unchecked(bit >> 6) & (1 << (bit & 63)) == 0`, negated
unfoldable pub test_bit : List ℕ → ℕ → ℕ → Bool
test_bit words i bit = elim (get_elem? words i) [
  | none ↦ false
  | some word ↦ ltb 0 (bit_and word (2 ^ bit))
]

-- The loops over the probes from `first` on, `count` of them.
unfoldable pub insert_probes : ℕ → ℕ → Bytes → BloomFilter → BloomFilter
unfolding probe_bit set_bit
insert_probes zero first key filter = filter
insert_probes (suc count) first key filter = insert_probes count (suc first) key (record filter {
  bits = set_bit filter.bits (probe_bit filter key first / 64) (probe_bit filter key first % 64);
})

unfoldable pub insert : Bytes → BloomFilter → BloomFilter
unfolding insert_probes
insert key filter = insert_probes filter.num_hashes 0 key filter

unfoldable pub test_probes : ℕ → ℕ → Bytes → BloomFilter → Bool
unfolding probe_bit test_bit
test_probes zero first key filter = true
test_probes (suc count) first key filter =
    let rest = test_probes count (suc first) key filter in
    if test_bit filter.bits (probe_bit filter key first / 64) (probe_bit filter key first % 64)
    then rest
    else false

unfoldable pub contains : Bytes → BloomFilter → Bool
unfolding test_probes
contains key filter =
    if length filter.bits == 0 || filter.num_hashes == 0
    then false
    else test_probes filter.num_hashes 0 key filter

-- `MAGIC`: the bytes of "BF01"
abbrev pub magic : Bytes
magic = 66 ∷ 70 ∷ 48 ∷ 49 ∷ []

unfoldable pub word_bytes : List ℕ → Bytes
word_bytes [] = []
word_bytes (word ∷ words) = le_bytes 8 word ++ word_bytes words

unfoldable pub to_bytes : BloomFilter → Bytes
unfolding word_bytes
to_bytes filter =
    magic ++ le_bytes 8 filter.num_bits ++ le_bytes 4 filter.num_hashes ++ word_bytes filter.bits

-- the loop over the words
unfoldable pub read_words : ℕ → Bytes → List ℕ
read_words zero bytes = []
read_words (suc words) bytes = from_le (take 8 bytes) ∷ read_words words (drop 8 bytes)

unfoldable pub from_bytes : Bytes → Option BloomFilter
unfolding read_words
from_bytes bytes =
    let num_bits = from_le (take 8 (drop 4 bytes)) in
    let filter : BloomFilter = record {
      num_bits = num_bits;
      num_hashes = from_le (take 4 (drop 12 bytes));
      bits = read_words (num_bits / 64) (drop 16 bytes);
    } in
    if ltb (length bytes) 16
    then none
    else if bytes_eq (take 4 bytes) magic
    then (if length bytes == 16 + num_bits / 64 * 8 then some filter else none)
    else none
