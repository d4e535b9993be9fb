-- ===== src/Codec/Float.antt =====
-- Floats in primary keys: the byte order of their encodings is that of sign and magnitude.
use hat_p.Prelude.{
  ℕ, suc, ◌+◌, ◌-◌, ◌^◌, ◌<◌, compare, ◌≡◌, refl, ap, ◌∙◌, subst, inl, inr, arith, leb,
  if◌then◌else◌, lt_or_le,
}
use Prim.Native.Nat.{bit_xor}
use hat_p.Prelude.Digits.{be_bytes, flip_low}
use hat_p.Prelude.Bytewise.{cmp_bytes-be_bytes}
use hat_p.Prelude.Integers.{ℤ, pos, negsuc, cmp_int}
use hat_p.Prelude.Order.{cmp_bytes}
use hat_p.Codec.{float_total_order_f64, float_total_order_f32}

-- Bits with the sign bit `k` set stand below all others, the larger magnitude first.
abbrev pub float_rank : ℕ → ℕ → ℤ
float_rank k bits = if leb (2 ^ k) bits then negsuc (bits - 2 ^ k) else pos bits

abbrev float_key : ℕ → ℕ → ℕ
float_key k bits = if leb (2 ^ k) bits then 2 ^ suc k - 1 - bits else bit_xor bits (2 ^ k)

abbrev plain_key : ℕ → ℕ → ℕ
plain_key k bits = if leb (2 ^ k) bits then 2 ^ suc k - 1 - bits else 2 ^ k + bits

float_key-plain_key : (k bits : ℕ) → float_key k bits ≡ plain_key k bits
float_key-plain_key k bits = elim (lt_or_le bits (2 ^ k)) [
  | inl e ↦ ground (arith, flip_low k bits e)
  | inr e ↦ ground arith
]

plain_key_lt : (k bits : ℕ) → bits < 2 ^ suc k → plain_key k bits < 2 ^ suc k
plain_key_lt k bits h = ground arith

compare-plain_key :
    (k a b : ℕ)
    → a < 2 ^ suc k
    → b < 2 ^ suc k
    → compare (plain_key k a) (plain_key k b) ≡ cmp_int (float_rank k a) (float_rank k b)
compare-plain_key k a b h g = ground arith

cmp_float :
    (width k a b : ℕ)
    → 2 ^ suc k ≡ 256 ^ width
    → a < 2 ^ suc k
    → b < 2 ^ suc k
    → cmp_bytes (be_bytes width (float_key k a)) (be_bytes width (float_key k b))
      ≡ cmp_int (float_rank k a) (float_rank k b)
cmp_float width k a b w h g =
    ap (λ x. cmp_bytes (be_bytes width x) (be_bytes width (float_key k b)))
      (float_key-plain_key k a)
    ∙ (ap (λ y. cmp_bytes (be_bytes width (plain_key k a)) (be_bytes width y))
          (float_key-plain_key k b)
        ∙ (cmp_bytes-be_bytes width (plain_key k a) (plain_key k b)
              (subst (λ top. plain_key k a < top) w (plain_key_lt k a h))
              (subst (λ top. plain_key k b < top) w (plain_key_lt k b g))
            ∙ compare-plain_key k a b h g))

pub cmp_float64 :
    (a b : ℕ)
    → a < 2 ^ 64
    → b < 2 ^ 64
    → cmp_bytes (float_total_order_f64 a) (float_total_order_f64 b)
      ≡ cmp_int (float_rank 63 a) (float_rank 63 b)
unfolding float_total_order_f64
cmp_float64 a b h g = cmp_float 8 63 a b refl h g

pub cmp_float32 :
    (a b : ℕ)
    → a < 2 ^ 32
    → b < 2 ^ 32
    → cmp_bytes (float_total_order_f32 a) (float_total_order_f32 b)
      ≡ cmp_int (float_rank 31 a) (float_rank 31 b)
unfolding float_total_order_f32
cmp_float32 a b h g = cmp_float 4 31 a b refl h g
