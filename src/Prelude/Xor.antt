-- ===== src/Prelude/Xor.antt =====
-- `^` on words is a group operation on their digits: associative, commutative, its own inverse.
use Prim.Native.Nat.{ℕ, zero, suc, ◌+◌, ◌*◌, ◌/◌, ◌%◌, ◌^◌, ◌≤◌, ◌<◌, differ, bit_xor}
use mathlib.Core.Path.{◌≡◌, refl, sym, ap, ◌∙◌}
use native.Mathlib.Omega.{arith}
use hat_p.Prelude.Digits.{bit_xor_step, shift_left, differ_digit, zero-bit_xor, even}

pub xor_half : (a b : ℕ) → bit_xor a b / 2 ≡ bit_xor (a / 2) (b / 2)
xor_half a b =
    omega (arith, bit_xor_step a b, differ_digit (a % 2) (b % 2) (omega arith) (omega arith))

pub xor_digit : (a b : ℕ) → bit_xor a b % 2 ≡ differ (a % 2) (b % 2)
xor_digit a b =
    omega (arith, bit_xor_step a b, differ_digit (a % 2) (b % 2) (omega arith) (omega arith))

-- Two numbers with the same half and the same digit are the same.
by_halves : (a b : ℕ) → a / 2 ≡ b / 2 → a % 2 ≡ b % 2 → a ≡ b
by_halves a b h d = omega arith

differ_comm : (a b : ℕ) → a < 2 → b < 2 → differ a b ≡ differ b a
differ_comm zero zero p q = refl
differ_comm zero (suc zero) p q = refl
differ_comm (suc zero) zero p q = refl
differ_comm (suc zero) (suc zero) p q = refl
differ_comm a (suc (suc b)) p q = absurd (omega arith)
differ_comm (suc (suc a)) b p q = absurd (omega arith)

differ_assoc : (a b c : ℕ) → a < 2 → b < 2 → c < 2 → differ (differ a b) c ≡ differ a (differ b c)
differ_assoc zero b c p q r = refl
differ_assoc (suc zero) zero c p q r = refl
differ_assoc (suc zero) (suc zero) zero p q r = refl
differ_assoc (suc zero) (suc zero) (suc zero) p q r = refl
differ_assoc (suc zero) (suc zero) (suc (suc c)) p q r = absurd (omega arith)
differ_assoc (suc zero) (suc (suc b)) c p q r = absurd (omega arith)
differ_assoc (suc (suc a)) b c p q r = absurd (omega arith)

xor_comm_fuel : (n a b : ℕ) → a + b ≤ n → bit_xor a b ≡ bit_xor b a
xor_comm_fuel zero zero zero h = refl
xor_comm_fuel zero zero (suc b) h = absurd (omega arith)
xor_comm_fuel zero (suc a) b h = absurd (omega arith)
xor_comm_fuel (suc n) zero zero h = refl
xor_comm_fuel (suc n) zero (suc b) h = omega (
  arith,
  bit_xor_step 0 (suc b),
  bit_xor_step (suc b) 0,
  xor_comm_fuel n 0 (suc b / 2) (omega arith),
  differ_comm 0 (suc b % 2) (omega arith) (omega arith),
)
xor_comm_fuel (suc n) (suc a) b h = omega (
  arith,
  bit_xor_step (suc a) b,
  bit_xor_step b (suc a),
  xor_comm_fuel n (suc a / 2) (b / 2) (omega arith),
  differ_comm (suc a % 2) (b % 2) (omega arith) (omega arith),
)

pub xor_comm : (a b : ℕ) → bit_xor a b ≡ bit_xor b a
xor_comm a b = xor_comm_fuel (a + b) a b (omega arith)

xor_assoc_fuel : (n a b c : ℕ) → a ≤ n → bit_xor (bit_xor a b) c ≡ bit_xor a (bit_xor b c)
xor_assoc_fuel n zero b c h =
    ap (λ x. bit_xor x c) (zero-bit_xor b) ∙ sym (zero-bit_xor (bit_xor b c))
xor_assoc_fuel zero (suc a) b c h = absurd (omega arith)
xor_assoc_fuel (suc n) (suc a) b c h =
    by_halves (bit_xor (bit_xor (suc a) b) c) (bit_xor (suc a) (bit_xor b c))
      (xor_half (bit_xor (suc a) b) c
        ∙ (ap (λ x. bit_xor x (c / 2)) (xor_half (suc a) b)
            ∙ (xor_assoc_fuel n (suc a / 2) (b / 2) (c / 2) (omega arith)
                ∙ (ap (bit_xor (suc a / 2)) (sym (xor_half b c))
                    ∙ sym (xor_half (suc a) (bit_xor b c))))))
      (xor_digit (bit_xor (suc a) b) c
        ∙ (ap (λ x. differ x (c % 2)) (xor_digit (suc a) b)
            ∙ (differ_assoc (suc a % 2) (b % 2) (c % 2) (omega arith) (omega arith) (omega arith)
                ∙ (ap (differ (suc a % 2)) (sym (xor_digit b c))
                    ∙ sym (xor_digit (suc a) (bit_xor b c))))))

pub xor_assoc : (a b c : ℕ) → bit_xor (bit_xor a b) c ≡ bit_xor a (bit_xor b c)
xor_assoc a b c = xor_assoc_fuel a a b c (omega arith)

differ_self : (d : ℕ) → d < 2 → differ d d ≡ 0
differ_self zero h = refl
differ_self (suc zero) h = refl
differ_self (suc (suc d)) h = absurd (omega arith)

xor_self_fuel : (n a : ℕ) → a ≤ n → bit_xor a a ≡ 0
xor_self_fuel n zero h = zero-bit_xor 0
xor_self_fuel zero (suc a) h = absurd (omega arith)
xor_self_fuel (suc n) (suc a) h = omega (
  arith,
  bit_xor_step (suc a) (suc a),
  xor_self_fuel n (suc a / 2) (omega arith),
  differ_self (suc a % 2) (omega arith),
)

pub xor_self : (a : ℕ) → bit_xor a a ≡ 0
xor_self a = xor_self_fuel a a (omega arith)

-- Digits that do not meet add up.
shift_half : (k h r : ℕ) → (shift_left k h * 2 + r) / 2 ≡ shift_left k h + r / 2
shift_half k h r = omega arith

double_half : (a : ℕ) → a * 2 / 2 ≡ a
double_half a = omega arith

even_digit : (a d : ℕ) → differ (a * 2 % 2) d ≡ d
even_digit a d = ap (λ x. differ x d) (even a)

pub xor_disjoint : (k h r : ℕ) → r < 2 ^ k → bit_xor (shift_left k h) r ≡ shift_left k h + r
xor_disjoint zero h zero b = xor_comm h 0 ∙ (zero-bit_xor h ∙ omega arith)
xor_disjoint zero h (suc r) b = absurd (omega arith)
xor_disjoint (suc k) h r b = omega (
  arith,
  bit_xor_step (shift_left k h * 2) r,
  ap (λ x. bit_xor x (r / 2)) (double_half (shift_left k h)),
  xor_disjoint k h (r / 2) (omega arith),
  even_digit (shift_left k h) (r % 2),
)
