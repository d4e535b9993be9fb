-- ===== src/Prelude/Digits.antt =====
-- Fixed-width numbers as bytes: `to_le_bytes`, `from_le_bytes`, `to_be_bytes`; and `^` on words.
use Prim.Native.Nat.{
  ℕ, zero, suc, ◌+◌, ◌*◌, ◌-◌, ◌/◌, ◌%◌, ◌^◌, ◌<◌, ◌≤◌, digits, differ, bit_xor, bit_xor-bitwise,
}
use mathlib.Core.Path.{◌≡◌, refl, sym, ap, ◌∙◌}
use mathlib.Core.List.{[], ◌∷◌, ◌++◌}
use native.Mathlib.Omega.{arith}
use hat_p.Prelude.Order.{Bytes}
use hat_p.Prelude.Lists.{length, drop, length-append, drop-length, drop-append_le}

abbrev pub le_bytes : ℕ → ℕ → Bytes
le_bytes zero n = []
le_bytes (suc width) n = n % 256 ∷ le_bytes width (n / 256)

abbrev pub from_le : Bytes → ℕ
from_le [] = 0
from_le (byte ∷ bytes) = byte + 256 * from_le bytes

abbrev pub be_bytes : ℕ → ℕ → Bytes
be_bytes zero n = []
be_bytes (suc width) n = be_bytes width (n / 256) ++ n % 256 ∷ []

pub from_le-le_bytes : (width n : ℕ) → n < 256 ^ width → from_le (le_bytes width n) ≡ n
from_le-le_bytes zero n h = omega arith
from_le-le_bytes (suc width) n h = omega (arith, from_le-le_bytes width (n / 256) (omega arith))

pub length-le_bytes : (width n : ℕ) → length (le_bytes width n) ≡ width
length-le_bytes zero n = refl
length-le_bytes (suc width) n = omega (arith, length-le_bytes width (n / 256))

abbrev xor_digits : ℕ → ℕ → ℕ → ℕ
xor_digits n a b = digits (λ b. b) differ n a b

xor_digits_fuel : (n m a b : ℕ) → a ≤ n → a ≤ m → xor_digits n a b ≡ xor_digits m a b
xor_digits_fuel zero zero a b p q = refl
xor_digits_fuel zero (suc m) zero b p q = refl
xor_digits_fuel zero (suc m) (suc a) b p q = absurd (omega arith)
xor_digits_fuel (suc n) zero zero b p q = refl
xor_digits_fuel (suc n) zero (suc a) b p q = absurd (omega arith)
xor_digits_fuel (suc n) (suc m) zero b p q = refl
xor_digits_fuel (suc n) (suc m) (suc a) b p q =
    omega (arith, xor_digits_fuel n m (suc a / 2) (b / 2) (omega arith) (omega arith))

pub zero-bit_xor : (b : ℕ) → bit_xor 0 b ≡ b
zero-bit_xor b = bit_xor-bitwise 0 b

pub differ_digit : (a b : ℕ) → a < 2 → b < 2 → differ a b < 2
differ_digit zero b p q = q
differ_digit (suc zero) zero p q = p
differ_digit (suc zero) (suc b) p q = omega arith
differ_digit (suc (suc a)) b p q = absurd (omega arith)

pub bit_xor_step : (a b : ℕ) → bit_xor a b ≡ bit_xor (a / 2) (b / 2) * 2 + differ (a % 2) (b % 2)
bit_xor_step zero b = omega (arith, zero-bit_xor b, zero-bit_xor (b / 2))
bit_xor_step (suc a) b = omega (
  arith,
  bit_xor-bitwise (suc a) b,
  bit_xor-bitwise (suc a / 2) (b / 2),
  xor_digits_fuel a (suc a / 2) (suc a / 2) (b / 2) (omega arith) (omega arith),
)

-- Words of `width` bits stay within their width.
pub bit_xor_lt : (width a b : ℕ) → a < 2 ^ width → b < 2 ^ width → bit_xor a b < 2 ^ width
bit_xor_lt zero zero zero p q = omega (arith, zero-bit_xor 0)
bit_xor_lt zero zero (suc b) p q = absurd (omega arith)
bit_xor_lt zero (suc a) b p q = absurd (omega arith)
bit_xor_lt (suc width) a b p q = omega (
  arith,
  bit_xor_step a b,
  differ_digit (a % 2) (b % 2) (omega arith) (omega arith),
  bit_xor_lt width (a / 2) (b / 2) (omega arith) (omega arith),
)

differ_zero : (d : ℕ) → differ d 0 ≡ d
differ_zero zero = refl
differ_zero (suc d) = refl

half_double : (p : ℕ) → p * 2 / 2 ≡ p
half_double p = omega arith

pub even : (p : ℕ) → p * 2 % 2 ≡ 0
even p = omega arith

pow_suc : (k : ℕ) → 2 ^ suc k ≡ 2 ^ k * 2
pow_suc k = omega arith

-- `q << k`, and `q << 8 * width`
abbrev pub shift_left : ℕ → ℕ → ℕ
shift_left zero q = q
shift_left (suc k) q = shift_left k q * 2

abbrev pub shift_bytes : ℕ → ℕ → ℕ
shift_bytes zero q = q
shift_bytes (suc width) q = shift_bytes width q * 256

half_above : (h r : ℕ) → (h * 2 + r) / 2 ≡ h + r / 2
half_above h r = omega arith

bit_xor-zero_fuel : (n a : ℕ) → a ≤ n → bit_xor a 0 ≡ a
bit_xor-zero_fuel n zero h = zero-bit_xor 0
bit_xor-zero_fuel zero (suc a) h = absurd (omega arith)
bit_xor-zero_fuel (suc n) (suc a) h = omega (
  arith,
  bit_xor_step (suc a) 0,
  bit_xor-zero_fuel n (suc a / 2) (omega arith),
  differ_zero (suc a % 2),
)

-- The lowest digit of an even number is zero.
bit_xor_even : (a p : ℕ) → bit_xor a (p * 2) ≡ bit_xor (a / 2) p * 2 + a % 2
bit_xor_even a p =
    bit_xor_step a (p * 2)
    ∙ (ap (λ x. bit_xor (a / 2) x * 2 + differ (a % 2) (p * 2 % 2)) (half_double p)
        ∙ (ap (λ d. bit_xor (a / 2) p * 2 + differ (a % 2) d) (even p)
            ∙ ap (λ d. bit_xor (a / 2) p * 2 + d) (differ_zero (a % 2))))

zero-bit_xor_one : (h : ℕ) → bit_xor h 0 ≡ h
zero-bit_xor_one h = bit_xor-zero_fuel h h (omega arith)

differ_one : (d : ℕ) → d < 2 → differ d 1 ≡ 1 - d
differ_one zero h = refl
differ_one (suc zero) h = refl
differ_one (suc (suc d)) h = absurd (omega arith)

bit_xor-one : (h r : ℕ) → r < 2 → bit_xor (h * 2 + r) 1 ≡ h * 2 + (1 - r)
bit_xor-one h r b = omega (
  arith,
  bit_xor_step (h * 2 + r) 1,
  zero-bit_xor_one ((h * 2 + r) / 2),
  differ_one ((h * 2 + r) % 2) (omega arith),
)

bit_xor_digit : (r : ℕ) → r < 2 → bit_xor r 1 ≡ 1 - r
bit_xor_digit zero h = refl
bit_xor_digit (suc zero) h = refl
bit_xor_digit (suc (suc r)) h = absurd (omega arith)

-- Flipping bit `k` leaves alone what stands above it.
pub bit_xor_flip :
    (k q r : ℕ)
    → r < 2 ^ suc k
    → bit_xor (shift_left (suc k) q + r) (2 ^ k) ≡ shift_left (suc k) q + bit_xor r (2 ^ k)
bit_xor_flip zero q r h = bit_xor-one q r h ∙ sym (ap (λ d. q * 2 + d) (bit_xor_digit r h))
bit_xor_flip (suc k) q r h = rw (pow_suc k) (
    omega (
      arith,
      bit_xor_even (shift_left (suc (suc k)) q + r) (2 ^ k),
      ap (λ x. bit_xor x (2 ^ k)) (half_above (shift_left (suc k) q) r),
      bit_xor_flip k q (r / 2) (omega arith),
      bit_xor_even r (2 ^ k),
    ))

pub flip_low : (k r : ℕ) → r < 2 ^ k → bit_xor r (2 ^ k) ≡ 2 ^ k + r
flip_low zero zero h = refl
flip_low zero (suc r) h = absurd (omega arith)
flip_low (suc k) r h =
    rw (pow_suc k) (omega (arith, bit_xor_even r (2 ^ k), flip_low k (r / 2) (omega arith)))

pub flip_high : (k r : ℕ) → r < 2 ^ k → bit_xor (2 ^ k + r) (2 ^ k) ≡ r
flip_high zero zero h = refl
flip_high zero (suc r) h = absurd (omega arith)
flip_high (suc k) r h = rw (pow_suc k) (
    omega (
      arith,
      bit_xor_even (2 ^ k * 2 + r) (2 ^ k),
      ap (λ x. bit_xor x (2 ^ k)) (half_above (2 ^ k) r),
      flip_high k (r / 2) (omega arith),
    ))

-- The low bytes do not see what stands above them.
pub be_bytes_above : (width q r : ℕ) → be_bytes width (shift_bytes width q + r) ≡ be_bytes width r
be_bytes_above zero q r = refl
be_bytes_above (suc width) q r =
    ap (λ d. be_bytes width ((shift_bytes width q * 256 + r) / 256) ++ d ∷ []) (omega arith)
    ∙ ap (λ bytes. bytes ++ r % 256 ∷ [])
        (ap (be_bytes width) (omega arith) ∙ be_bytes_above width q (r / 256))

pub length-be_bytes : (width n : ℕ) → length (be_bytes width n) ≡ width
length-be_bytes zero n = refl
length-be_bytes (suc width) n = omega (
  arith,
  length-append (be_bytes width (n / 256)) (n % 256 ∷ []),
  length-be_bytes width (n / 256),
)

-- The last bytes of a longer encoding are the shorter encoding.
pub drop-be_bytes :
    (extra width total n : ℕ)
    → total ≡ width + extra
    → drop extra (be_bytes total n) ≡ be_bytes width n
drop-be_bytes extra zero total n h =
    drop-length (be_bytes total n) extra (omega (arith, length-be_bytes total n))
drop-be_bytes extra (suc width) zero n h = absurd (omega arith)
drop-be_bytes extra (suc width) (suc total) n h =
    drop-append_le (be_bytes total (n / 256)) (n % 256 ∷ []) extra
      (omega (arith, length-be_bytes total (n / 256)))
    ∙ ap (λ bytes. bytes ++ n % 256 ∷ []) (drop-be_bytes extra width total (n / 256) (omega arith))
