-- ===== src/Engine/Memtable/Prefix.antt =====
-- `prefix_upper_exclusive`: the keys between a prefix and its upper bound.
use hat_p.Prelude.{
  ℕ, suc, ◌<◌, ◌≡◌, refl, sym, ap, subst, ◌≢◌, inl, inr, false, not, ◌&&◌, none, some, [], ◌∷◌,
  arith, Bytes, ◌==◌, Option-cases, All, in_range,
}
use hat_p.Engine.Memtable.{bytes_ord, bump_last, prefix_upper_exclusive, starts_with, before}

abbrev pub IsBytes : Bytes → Type 0
IsBytes = All (λ byte. byte < 256)

-- At or behind a prefix of 0xFF bytes are only the keys that start with it.
after_ff :
    (prefix key : Bytes)
    → bump_last prefix ≡ none
    → IsBytes key
    → not (before key prefix) ≡ starts_with prefix key
unfolding bump_last starts_with
after_ff [] [] h k = refl
after_ff [] (x ∷ key) h k = refl
after_ff (p ∷ prefix) [] h k = refl
after_ff (p ∷ prefix) (x ∷ key) h (b, k) = elim (Option-cases (bump_last prefix)) [
  | inl e ↦ ground (arith, after_ff prefix key e k)
  | inr (upper, e) ↦ absurd (ground arith)
]

-- A bound that is one above a byte of the prefix, and one that agrees with it there.
in_range_above :
    (p x : ℕ) (prefix key : Bytes)
    → in_range (p ∷ prefix) (suc p ∷ []) (x ∷ key) ≡ (x == p && not (before key prefix))
in_range_above p x prefix [] = ground arith
in_range_above p x prefix (k ∷ key) = ground arith

in_range_same :
    (p x : ℕ) (prefix upper key : Bytes)
    → in_range (p ∷ prefix) (p ∷ upper) (x ∷ key) ≡ (x == p && in_range prefix upper key)
in_range_same p x prefix upper key = ground arith

bump_none :
    (p : ℕ) (prefix upper : Bytes)
    → bump_last (p ∷ prefix) ≡ some upper
    → bump_last prefix ≡ none
    → upper ≡ suc p ∷ []
unfolding bump_last
bump_none p prefix upper h e = ground arith

bump_some :
    (p : ℕ) (prefix upper rest : Bytes)
    → bump_last (p ∷ prefix) ≡ some upper
    → bump_last prefix ≡ some rest
    → upper ≡ p ∷ rest
unfolding bump_last
bump_some p prefix upper rest h e = ground arith

bump_nil : (upper : Bytes) → bump_last [] ≢ some upper
unfolding bump_last
bump_nil upper h = cc

-- If the loop of prefix_upper_exclusive finds an upper bound, a key of byte values lies between
-- the prefix and that bound exactly if it starts with the prefix.
pub in_range-starts_with :
    (prefix upper key : Bytes)
    → bump_last prefix ≡ some upper
    → IsBytes key
    → in_range prefix upper key ≡ starts_with prefix key
unfolding starts_with
in_range-starts_with [] upper key h k = absurd (bump_nil upper h)
in_range-starts_with (p ∷ prefix) upper [] h k = refl
in_range-starts_with (p ∷ prefix) upper (x ∷ key) h (b, k) =
    elim (Option-cases (bump_last prefix)) [
      | inl e ↦
          rw (bump_none p prefix upper h e, in_range_above p x prefix key)
            (ap (λ rest. x == p && rest) (after_ff prefix key e k))
      | inr (rest, e) ↦
          rw (bump_some p prefix upper rest h e, in_range_same p x prefix rest key)
            (ap (λ tail. x == p && tail) (in_range-starts_with prefix rest key e k))
    ]

before_same : (p : ℕ) (a b : Bytes) → before a b ≡ false → before (p ∷ a) (p ∷ b) ≡ false
before_same p a b h = ground arith

-- The bound is never before the prefix, so `range` does not panic on it.
bump_last_after :
    (prefix upper : Bytes) → bump_last prefix ≡ some upper → before upper prefix ≡ false
bump_last_after [] upper h = absurd (bump_nil upper h)
bump_last_after (p ∷ prefix) upper h = elim (Option-cases (bump_last prefix)) [
  | inl e ↦ rw (bump_none p prefix upper h e) (ground arith)
  | inr (rest, e) ↦
      rw (bump_some p prefix upper rest h e)
        (before_same p rest prefix (bump_last_after prefix rest e))
]

before_refl : (a : Bytes) → before a a ≡ false
before_refl a = ground (arith, bytes_ord.cmp_refl a)

pub upper_of_none :
    (prefix : Bytes) → bump_last prefix ≡ none → prefix_upper_exclusive prefix ≡ prefix
unfolding prefix_upper_exclusive
upper_of_none prefix e = ground arith

pub upper_of_some :
    (prefix upper : Bytes) → bump_last prefix ≡ some upper → prefix_upper_exclusive prefix ≡ upper
unfolding prefix_upper_exclusive
upper_of_some prefix upper e = ground arith

pub prefix_upper_after : (prefix : Bytes) → before (prefix_upper_exclusive prefix) prefix ≡ false
prefix_upper_after prefix = elim (Option-cases (bump_last prefix)) [
  | inl e ↦ subst (λ u. before u prefix ≡ false) (sym (upper_of_none prefix e)) (before_refl prefix)
  | inr (upper, e) ↦
      subst (λ u. before u prefix ≡ false) (sym (upper_of_some prefix upper e))
        (bump_last_after prefix upper e)
]
