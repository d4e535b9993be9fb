-- ===== src/Prelude/Order.antt =====
-- Comparison of keys as in Rust's `Ord`, for numbers and for byte strings.
use Prim.Native.Nat.{ℕ, compare, Ordering}
use Prim.Native.Nat.Ordering.{lt, eq, gt}
use mathlib.Core.List.{List, [], ◌∷◌}
use mathlib.Core.Path.{◌≡◌, refl}
use native.Mathlib.Omega.{arith}

-- `Ordering::reverse`
abbrev pub opposite : Ordering → Ordering
opposite eq = eq
opposite lt = gt
opposite gt = lt

-- The comparison that a `BTreeMap` calls, and what the trait asks of it.
pub record Ord {ℓ} (K : Type ℓ) : Type ℓ where
  pub cmp : K → K → Ordering
  pub eq_of_cmp : (x y : K) → cmp x y ≡ eq → x ≡ y
  pub cmp_refl : (x : K) → cmp x x ≡ eq
  pub cmp_reversed : (x y : K) → cmp y x ≡ opposite (cmp x y)
  pub cmp_trans : (x y z : K) → cmp x y ≡ lt → cmp y z ≡ lt → cmp x z ≡ lt

pub compare_reversed : (x y : ℕ) → compare y x ≡ opposite (compare x y)
compare_reversed x y = ground arith

pub compare_trans : (x y z : ℕ) → compare x y ≡ lt → compare y z ≡ lt → compare x z ≡ lt
compare_trans x y z = ground arith

pub compare_sound : (x y : ℕ) → compare x y ≡ eq → x ≡ y
compare_sound x y = ground arith

pub compare_refl : (x : ℕ) → compare x x ≡ eq
compare_refl x = ground arith

instance abbrev pub nat_ord : Ord ℕ
nat_ord = record {
  cmp = compare;
  eq_of_cmp = compare_sound;
  cmp_refl = compare_refl;
  cmp_reversed = compare_reversed;
  cmp_trans = compare_trans;
}

-- `Bytes`: a sequence of byte values.
abbrev pub Bytes : Type 0
Bytes = List ℕ

-- `<[u8] as Ord>::cmp`: byte by byte, a proper prefix first.
abbrev pub cmp_bytes : Bytes → Bytes → Ordering
cmp_bytes [] [] = eq
cmp_bytes [] (y ∷ ys) = lt
cmp_bytes (x ∷ xs) [] = gt
cmp_bytes (x ∷ xs) (y ∷ ys) =
    let rest = cmp_bytes xs ys in elim (compare x y) [ eq ↦ rest | first ↦ first ]

pub cmp_bytes_refl : (x : Bytes) → cmp_bytes x x ≡ eq
cmp_bytes_refl [] = refl
cmp_bytes_refl (x ∷ xs) = ground (arith, cmp_bytes_refl xs)

pub cmp_bytes_sound : (x y : Bytes) → cmp_bytes x y ≡ eq → x ≡ y
cmp_bytes_sound [] [] h = refl
cmp_bytes_sound [] (y ∷ ys) h = cc
cmp_bytes_sound (x ∷ xs) [] h = cc
cmp_bytes_sound (x ∷ xs) (y ∷ ys) h = ground (arith, cmp_bytes_sound xs ys)

pub cmp_bytes_reversed : (x y : Bytes) → cmp_bytes y x ≡ opposite (cmp_bytes x y)
cmp_bytes_reversed [] [] = refl
cmp_bytes_reversed [] (y ∷ ys) = refl
cmp_bytes_reversed (x ∷ xs) [] = refl
cmp_bytes_reversed (x ∷ xs) (y ∷ ys) = ground (arith, cmp_bytes_reversed xs ys)

pub cmp_bytes_trans : (x y z : Bytes) → cmp_bytes x y ≡ lt → cmp_bytes y z ≡ lt → cmp_bytes x z ≡ lt
cmp_bytes_trans [] [] z p q = cc
cmp_bytes_trans [] (y ∷ ys) [] p q = cc
cmp_bytes_trans [] (y ∷ ys) (z ∷ zs) p q = refl
cmp_bytes_trans (x ∷ xs) [] z p q = cc
cmp_bytes_trans (x ∷ xs) (y ∷ ys) [] p q = cc
cmp_bytes_trans (x ∷ xs) (y ∷ ys) (z ∷ zs) p q = ground (arith, cmp_bytes_trans xs ys zs)

instance abbrev pub bytes_ord : Ord (List ℕ)
bytes_ord = record {
  cmp = cmp_bytes;
  eq_of_cmp = cmp_bytes_sound;
  cmp_refl = cmp_bytes_refl;
  cmp_reversed = cmp_bytes_reversed;
  cmp_trans = cmp_bytes_trans;
}
