-- ===== src/Engine/Bloom/Members.antt =====
-- The filter has no false negatives, and its probes stay in the bit array.
use hat_p.Prelude.{
  ℕ, zero, suc, ◌+◌, ◌-◌, ◌*◌, ◌/◌, ◌%◌, ◌^◌, ◌<◌, ◌≡◌, refl, sym, ap, ◌∙◌, subst, inl, inr, true,
  List, [], ◌∷◌, arith, Bytes, Bool-cases, length, Any,
}
use hat_p.Engine.Bloom.{
  contains, test_probes, insert_probes, insert, bit_and, BloomFilter, probe_bit, set_bit, test_bit,
}
use hat_p.Prelude.Masks.{bit_set, bit_kept, bit_and_le}
use hat_p.Codec.{fnv1a, djb2}

-- The bit count is that of the words, there are words, and there are probes.
abbrev pub IsSized : BloomFilter → Type 0
IsSized filter =
    (filter.num_bits ≡ 64 * length filter.bits) × (0 < length filter.bits) × (0 < filter.num_hashes)

-- A probe hits a word of the array.
pub probe_bit-IsSized :
    (filter : BloomFilter) (key : Bytes) (probe : ℕ)
    → IsSized filter
    → probe_bit filter key probe / 64 < length filter.bits
unfolding probe_bit
probe_bit-IsSized filter key probe (bits, some_, h) =
    omega
      (arith, bit_and_le ((fnv1a key + probe * djb2 key % 2 ^ 64) % 2 ^ 64) (filter.num_bits - 1))

test-set :
    (words : List ℕ) (i bit : ℕ) → i < length words → test_bit (set_bit words i bit) i bit ≡ true
unfolding test_bit set_bit
test-set [] i bit h = absurd (omega arith)
test-set (word ∷ words) zero bit h = ground (arith, bit_set bit word)
test-set (word ∷ words) (suc i) bit h = test-set words i bit (omega arith)

test-kept :
    (words : List ℕ) (i bit j other : ℕ)
    → test_bit words j other ≡ true
    → test_bit (set_bit words i bit) j other ≡ true
unfolding test_bit set_bit
test-kept [] i bit j other h = h
test-kept (word ∷ words) zero bit zero other h = ground (arith, bit_kept bit other word)
test-kept (word ∷ words) zero bit (suc j) other h = h
test-kept (word ∷ words) (suc i) bit zero other h = h
test-kept (word ∷ words) (suc i) bit (suc j) other h = test-kept words i bit j other h

length-set_bit : (words : List ℕ) (i bit : ℕ) → length (set_bit words i bit) ≡ length words
unfolding set_bit
length-set_bit [] i bit = refl
length-set_bit (word ∷ words) zero bit = refl
length-set_bit (word ∷ words) (suc i) bit = omega (arith, length-set_bit words i bit)

probe_bit_eq :
    (f g : BloomFilter) (key : Bytes) (probe : ℕ)
    → f.num_bits ≡ g.num_bits
    → probe_bit f key probe ≡ probe_bit g key probe
unfolding probe_bit
probe_bit_eq f g key probe e =
    ap (λ n. bit_and ((fnv1a key + probe * djb2 key % 2 ^ 64) % 2 ^ 64) (n - 1)) e

-- One round of the loop of `insert`.
abbrev set_probe : Bytes → ℕ → BloomFilter → BloomFilter
set_probe key probe f = record f {
  bits = set_bit f.bits (probe_bit f key probe / 64) (probe_bit f key probe % 64);
}

insert_probes-num_bits :
    (count first : ℕ) (key : Bytes) (f : BloomFilter)
    → (insert_probes count first key f).num_bits ≡ f.num_bits
unfolding insert_probes
insert_probes-num_bits zero first key f = refl
insert_probes-num_bits (suc count) first key f =
    insert_probes-num_bits count (suc first) key (set_probe key first f)

insert_probes-num_hashes :
    (count first : ℕ) (key : Bytes) (f : BloomFilter)
    → (insert_probes count first key f).num_hashes ≡ f.num_hashes
unfolding insert_probes
insert_probes-num_hashes zero first key f = refl
insert_probes-num_hashes (suc count) first key f =
    insert_probes-num_hashes count (suc first) key (set_probe key first f)

set_probe-IsSized :
    (key : Bytes) (probe : ℕ) (f : BloomFilter) → IsSized f → IsSized (set_probe key probe f)
set_probe-IsSized key probe f (bits, some_, h) = (
  omega (arith, length-set_bit f.bits (probe_bit f key probe / 64) (probe_bit f key probe % 64)),
  omega (arith, length-set_bit f.bits (probe_bit f key probe / 64) (probe_bit f key probe % 64)),
  h,
)

insert_probes-IsSized :
    (count first : ℕ) (key : Bytes) (f : BloomFilter)
    → IsSized f
    → IsSized (insert_probes count first key f)
unfolding insert_probes
insert_probes-IsSized zero first key f h = h
insert_probes-IsSized (suc count) first key f h =
    insert_probes-IsSized count (suc first) key (set_probe key first f)
      (set_probe-IsSized key first f h)

test-insert_probes :
    (count first : ℕ) (key : Bytes) (f : BloomFilter) (i bit : ℕ)
    → test_bit f.bits i bit ≡ true
    → test_bit (insert_probes count first key f).bits i bit ≡ true
unfolding insert_probes
test-insert_probes zero first key f i bit h = h
test-insert_probes (suc count) first key f i bit h =
    test-insert_probes count (suc first) key (set_probe key first f) i bit
      (test-kept f.bits (probe_bit f key first / 64) (probe_bit f key first % 64) i bit h)

-- Later insertions keep what the probes of a key find.
probes-kept :
    (count first : ℕ) (key : Bytes) (n m : ℕ) (other : Bytes) (f : BloomFilter)
    → test_probes count first key f ≡ true
    → test_probes count first key (insert_probes n m other f) ≡ true
unfolding test_probes
probes-kept zero first key n m other f h = refl
probes-kept (suc count) first key n m other f h =
    let found =
      Bool-cases (test_bit f.bits (probe_bit f key first / 64) (probe_bit f key first % 64)) in
    let same =
      probe_bit_eq (insert_probes n m other f) f key first (insert_probes-num_bits n m other f) in
    elim found [
      | inl e ↦
          rw
            (
              same,
              test-insert_probes n m other f (probe_bit f key first / 64)
                  (probe_bit f key first % 64) e,
            )
            (probes-kept count (suc first) key n m other f (ground arith))
      | inr e ↦ absurd (ground arith)
    ]

-- The probes of a key find the bits that its insertion set.
probes-inserted :
    (count first : ℕ) (key : Bytes) (f : BloomFilter)
    → IsSized f
    → test_probes count first key (insert_probes count first key f) ≡ true
unfolding test_probes insert_probes
probes-inserted zero first key f h = refl
probes-inserted (suc count) first key f h =
    let i = probe_bit f key first / 64 in
    let bit = probe_bit f key first % 64 in
    let g = set_probe key first f in
    rw
      (
        probe_bit_eq (insert_probes count (suc first) key g) f key first
            (insert_probes-num_bits count (suc first) key g),
        test-insert_probes count (suc first) key g i bit
            (test-set f.bits i bit (probe_bit-IsSized f key first h)),
      )
      (probes-inserted count (suc first) key g (set_probe-IsSized key first f h))

contains-probes :
    (key : Bytes) (f : BloomFilter) → IsSized f → contains key f ≡ test_probes f.num_hashes 0 key f
unfolding contains
contains-probes key f (bits, some_, h) = ground arith

-- `for key in keys { filter.insert(key) }`
abbrev pub insert_all : List Bytes → BloomFilter → BloomFilter
insert_all [] f = f
insert_all (key ∷ keys) f = insert_all keys (insert key f)

insert-IsSized : (key : Bytes) (f : BloomFilter) → IsSized f → IsSized (insert key f)
unfolding insert
insert-IsSized key f h = insert_probes-IsSized f.num_hashes 0 key f h

contains-insert : (key : Bytes) (f : BloomFilter) → IsSized f → contains key (insert key f) ≡ true
unfolding insert
contains-insert key f h =
    contains-probes key (insert key f) (insert-IsSized key f h)
    ∙ (ap (λ n. test_probes n 0 key (insert_probes f.num_hashes 0 key f))
          (insert_probes-num_hashes f.num_hashes 0 key f)
        ∙ probes-inserted f.num_hashes 0 key f h)

contains-kept :
    (key other : Bytes) (f : BloomFilter)
    → IsSized f
    → contains key f ≡ true
    → contains key (insert other f) ≡ true
unfolding insert
contains-kept key other f h e =
    contains-probes key (insert other f) (insert-IsSized other f h)
    ∙ (ap (λ n. test_probes n 0 key (insert_probes f.num_hashes 0 other f))
          (insert_probes-num_hashes f.num_hashes 0 other f)
        ∙ probes-kept f.num_hashes 0 key f.num_hashes 0 other f (sym (contains-probes key f h) ∙ e))

insert_all-kept :
    (key : Bytes) (keys : List Bytes) (f : BloomFilter)
    → IsSized f
    → contains key f ≡ true
    → contains key (insert_all keys f) ≡ true
insert_all-kept key [] f h e = e
insert_all-kept key (other ∷ keys) f h e =
    insert_all-kept key keys (insert other f) (insert-IsSized other f h)
      (contains-kept key other f h e)

-- In a filter with words, probes and the bit count of its words, every key that was inserted is
-- found, whatever other keys were inserted before or after.
pub contains-insert_all :
    (key : Bytes) (keys : List Bytes) (f : BloomFilter)
    → IsSized f
    → Any (λ k. k ≡ key) keys
    → contains key (insert_all keys f) ≡ true
contains-insert_all key [] f h m = absurd m
contains-insert_all key (k ∷ keys) f h (inl e) =
    insert_all-kept key keys (insert k f) (insert-IsSized k f h)
      (subst (λ j. contains j (insert k f) ≡ true) e (contains-insert k f h))
contains-insert_all key (k ∷ keys) f h (inr m) =
    contains-insert_all key keys (insert k f) (insert-IsSized k f h) m
