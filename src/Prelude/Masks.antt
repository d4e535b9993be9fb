-- ===== src/Prelude/Masks.antt =====
-- Single bits of a word: what `|` sets and `&` reads at a power of two.
use Prim.Native.Nat.{
  ℕ, zero, suc, ◌+◌, ◌*◌, ◌/◌, ◌%◌, ◌^◌, ◌≤◌, ◌<◌, min, max, bit_and, bit_or, digits,
  bit_and-bitwise, bit_or-bitwise,
}
use mathlib.Core.Path.{◌≡◌, refl, ap}
use native.Mathlib.Omega.{arith}

abbrev mask_digits : ℕ → ℕ → ℕ → ℕ
mask_digits n a b = digits (λ b. zero) min n a b

mask_digits_fuel : (n m a b : ℕ) → a ≤ n → a ≤ m → mask_digits n a b ≡ mask_digits m a b
mask_digits_fuel zero zero a b p q = refl
mask_digits_fuel zero (suc m) zero b p q = refl
mask_digits_fuel zero (suc m) (suc a) b p q = absurd (omega arith)
mask_digits_fuel (suc n) zero zero b p q = refl
mask_digits_fuel (suc n) zero (suc a) b p q = absurd (omega arith)
mask_digits_fuel (suc n) (suc m) zero b p q = refl
mask_digits_fuel (suc n) (suc m) (suc a) b p q =
    omega (arith, mask_digits_fuel n m (suc a / 2) (b / 2) (omega arith) (omega arith))

and_step : (a b : ℕ) → bit_and a b ≡ bit_and (a / 2) (b / 2) * 2 + min (a % 2) (b % 2)
and_step zero b = omega (arith, bit_and-bitwise 0 b, bit_and-bitwise 0 (b / 2))
and_step (suc a) b = omega (
  arith,
  bit_and-bitwise (suc a) b,
  bit_and-bitwise (suc a / 2) (b / 2),
  mask_digits_fuel a (suc a / 2) (suc a / 2) (b / 2) (omega arith) (omega arith),
)

abbrev join_digits : ℕ → ℕ → ℕ → ℕ
join_digits n a b = digits (λ b. b) max n a b

join_digits_fuel : (n m a b : ℕ) → a ≤ n → a ≤ m → join_digits n a b ≡ join_digits m a b
join_digits_fuel zero zero a b p q = refl
join_digits_fuel zero (suc m) zero b p q = refl
join_digits_fuel zero (suc m) (suc a) b p q = absurd (omega arith)
join_digits_fuel (suc n) zero zero b p q = refl
join_digits_fuel (suc n) zero (suc a) b p q = absurd (omega arith)
join_digits_fuel (suc n) (suc m) zero b p q = refl
join_digits_fuel (suc n) (suc m) (suc a) b p q =
    omega (arith, join_digits_fuel n m (suc a / 2) (b / 2) (omega arith) (omega arith))

or_step : (a b : ℕ) → bit_or a b ≡ bit_or (a / 2) (b / 2) * 2 + max (a % 2) (b % 2)
or_step zero b = omega (arith, bit_or-bitwise 0 b, bit_or-bitwise 0 (b / 2))
or_step (suc a) b = omega (
  arith,
  bit_or-bitwise (suc a) b,
  bit_or-bitwise (suc a / 2) (b / 2),
  join_digits_fuel a (suc a / 2) (suc a / 2) (b / 2) (omega arith) (omega arith),
)

-- A mask bounds what it lets through.
and_le_fuel : (n a b : ℕ) → a ≤ n → bit_and a b ≤ b
and_le_fuel zero zero b h = omega (arith, bit_and-bitwise 0 b)
and_le_fuel zero (suc a) b h = absurd (omega arith)
and_le_fuel (suc n) zero b h = omega (arith, bit_and-bitwise 0 b)
and_le_fuel (suc n) (suc a) b h =
    omega (arith, and_step (suc a) b, and_le_fuel n (suc a / 2) (b / 2) (omega arith))

pub bit_and_le : (a b : ℕ) → bit_and a b ≤ b
bit_and_le a b = and_le_fuel a a b (omega arith)

pow_half : (k : ℕ) → 2 ^ suc k / 2 ≡ 2 ^ k
pow_half k = omega arith

or_zero_fuel : (n a : ℕ) → a ≤ n → bit_or a 0 ≡ a
or_zero_fuel n zero h = bit_or-bitwise 0 0
or_zero_fuel zero (suc a) h = absurd (omega arith)
or_zero_fuel (suc n) (suc a) h =
    omega (arith, or_step (suc a) 0, or_zero_fuel n (suc a / 2) (omega arith))

-- The halves of `|` and `&` with a power of two.
or_half : (k w : ℕ) → bit_or w (2 ^ suc k) / 2 ≡ bit_or (w / 2) (2 ^ k)
or_half k w = omega (arith, or_step w (2 ^ suc k), ap (bit_or (w / 2)) (pow_half k))

or_digit : (k w : ℕ) → bit_or w (2 ^ suc k) % 2 ≡ w % 2
or_digit k w = omega (arith, or_step w (2 ^ suc k))

or_one_half : (w : ℕ) → bit_or w 1 / 2 ≡ w / 2
or_one_half w = omega (arith, or_step w 1, or_zero_fuel (w / 2) (w / 2) (omega arith))

or_one_digit : (w : ℕ) → bit_or w 1 % 2 ≡ 1
or_one_digit w = omega (arith, or_step w 1)

and_even : (k w : ℕ) → bit_and w (2 ^ suc k) ≡ bit_and (w / 2) (2 ^ k) * 2
and_even k w = omega (arith, and_step w (2 ^ suc k), ap (bit_and (w / 2)) (pow_half k))

and_one : (w : ℕ) → bit_and w 1 ≡ w % 2
and_one w = omega (arith, and_step w 1, bit_and_le (w / 2) 0)

pub bit_set : (k w : ℕ) → 0 < bit_and (bit_or w (2 ^ k)) (2 ^ k)
bit_set zero w = omega (arith, and_one (bit_or w 1), or_one_digit w)
bit_set (suc k) w = omega (
  arith,
  and_even k (bit_or w (2 ^ suc k)),
  ap (λ v. bit_and v (2 ^ k)) (or_half k w),
  bit_set k (w / 2),
)

pub bit_kept : (j k w : ℕ) → 0 < bit_and w (2 ^ k) → 0 < bit_and (bit_or w (2 ^ j)) (2 ^ k)
bit_kept zero zero w h = omega (arith, and_one (bit_or w 1), or_one_digit w)
bit_kept zero (suc k) w h =
    omega
      (arith, and_even k (bit_or w 1), and_even k w, ap (λ v. bit_and v (2 ^ k)) (or_one_half w))
bit_kept (suc j) zero w h = omega (arith, and_one (bit_or w (2 ^ suc j)), and_one w, or_digit j w)
bit_kept (suc j) (suc k) w h = omega (
  arith,
  and_even k (bit_or w (2 ^ suc j)),
  and_even k w,
  ap (λ v. bit_and v (2 ^ k)) (or_half j w),
  bit_kept j k (w / 2) (omega (arith, and_even k w)),
)
