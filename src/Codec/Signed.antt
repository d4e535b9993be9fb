-- ===== src/Codec/Signed.antt =====
-- Signed integers and floats in primary keys: the byte order of their encodings.
use hat_p.Prelude.{ℕ, suc, ◌+◌, ◌-◌, ◌*◌, ◌^◌, ◌<◌, compare, ◌≡◌, refl, ap, ◌∙◌, subst, arith, drop}
use Prim.Native.Nat.{bit_xor}
use hat_p.Prelude.Digits.{
  be_bytes, shift_left, shift_bytes, bit_xor_flip, flip_low, flip_high, be_bytes_above,
  drop-be_bytes,
}
use hat_p.Prelude.Bytewise.{cmp_bytes-be_bytes}
use hat_p.Prelude.Integers.{ℤ, pos, negsuc, cmp_int}
use hat_p.Prelude.Order.{cmp_bytes}
use hat_p.Codec.{as_u64, sign_flip_be}

-- An integer of `k + 1` bits.
abbrev pub InRange : ℕ → ℤ → Type 0
InRange k (pos n) = n < 2 ^ k
InRange k (negsuc n) = n < 2 ^ k

-- The integer, counted from the least one.
abbrev biased : ℕ → ℤ → ℕ
biased k (pos n) = 2 ^ k + n
biased k (negsuc n) = 2 ^ k - 1 - n

-- What ties a byte width to the sign bit `k`, with `extra` bytes and a word `q` of ones above.
pub record Width (width k : ℕ) : Type 0 where
  extra : ℕ
  q : ℕ
  bits : width * 8 ≡ suc k
  total : 8 ≡ width + extra
  dropped : 8 - width ≡ extra
  ones : 2 ^ 64 ≡ shift_left (suc k) q + 2 ^ suc k
  whole : shift_left (suc k) q ≡ shift_bytes width q
  word : 2 ^ suc k ≡ 256 ^ width

split_ones :
    (k q n : ℕ)
    → n < 2 ^ k
    → shift_left (suc k) q + 2 ^ suc k - 1 - n ≡ shift_left (suc k) q + (2 ^ k + (2 ^ k - 1 - n))
split_ones k q n h = omega arith

flip_negsuc :
    (k q n : ℕ)
    → n < 2 ^ k
    → bit_xor (shift_left (suc k) q + 2 ^ suc k - 1 - n) (2 ^ k)
      ≡ shift_left (suc k) q + (2 ^ k - 1 - n)
flip_negsuc k q n h =
    ap (λ a. bit_xor a (2 ^ k)) (split_ones k q n h)
    ∙ (bit_xor_flip k q (2 ^ k + (2 ^ k - 1 - n)) (omega arith)
        ∙ ap (λ r. shift_left (suc k) q + r) (flip_high k (2 ^ k - 1 - n) (omega arith)))

flipped :
    (width k : ℕ) (w : Width width k) (v : ℤ)
    → InRange k v
    → be_bytes width (bit_xor (as_u64 v) (2 ^ k)) ≡ be_bytes width (biased k v)
flipped width k w (pos n) h = ap (be_bytes width) (flip_low k n h)
flipped width k w (negsuc n) h =
    ap (λ a. be_bytes width (bit_xor (a - 1 - n) (2 ^ k))) w.ones
    ∙ (ap (be_bytes width) (flip_negsuc k w.q n h)
        ∙ (ap (λ a. be_bytes width (a + (2 ^ k - 1 - n))) w.whole
            ∙ be_bytes_above width w.q (2 ^ k - 1 - n)))

sign_flip_be-biased :
    (width k : ℕ) (w : Width width k) (v : ℤ)
    → InRange k v
    → sign_flip_be v width ≡ be_bytes width (biased k v)
unfolding sign_flip_be
sign_flip_be-biased width k w v h =
    ap (λ j. drop j (be_bytes 8 (bit_xor (as_u64 v) (2 ^ (width * 8 - 1))))) w.dropped
    ∙ (drop-be_bytes w.extra width 8 (bit_xor (as_u64 v) (2 ^ (width * 8 - 1))) w.total
        ∙ (ap (λ b. be_bytes width (bit_xor (as_u64 v) (2 ^ (b - 1)))) w.bits
            ∙ (ap (λ b. be_bytes width (bit_xor (as_u64 v) (2 ^ b))) (omega arith)
                ∙ flipped width k w v h)))

biased_lt : (k : ℕ) (v : ℤ) → InRange k v → biased k v < 2 ^ suc k
biased_lt k (pos n) h = omega arith
biased_lt k (negsuc n) h = omega arith

compare-biased :
    (k : ℕ) (v u : ℤ) → InRange k v → InRange k u → compare (biased k v) (biased k u) ≡ cmp_int v u
compare-biased k (pos m) (pos n) h g = ground arith
compare-biased k (pos m) (negsuc n) h g = ground arith
compare-biased k (negsuc m) (pos n) h g = ground arith
compare-biased k (negsuc m) (negsuc n) h g = ground arith

pub cmp_sign_flip :
    (width k : ℕ) (w : Width width k) (v u : ℤ)
    → InRange k v
    → InRange k u
    → cmp_bytes (sign_flip_be v width) (sign_flip_be u width) ≡ cmp_int v u
cmp_sign_flip width k w v u h g =
    rw
      (
        sign_flip_be-biased width k w v h,
        sign_flip_be-biased width k w u g,
        cmp_bytes-be_bytes width (biased k v) (biased k u)
            (subst (λ b. biased k v < b) w.word (biased_lt k v h))
            (subst (λ b. biased k u < b) w.word (biased_lt k u g)),
      )
      (compare-biased k v u h g)

pub width8 : Width 1 7
width8 = record {
  extra = 7;
  q = 2 ^ 56 - 1;
  bits = refl;
  total = refl;
  dropped = refl;
  ones = refl;
  whole = refl;
  word = refl;
}

pub width16 : Width 2 15
width16 = record {
  extra = 6;
  q = 2 ^ 48 - 1;
  bits = refl;
  total = refl;
  dropped = refl;
  ones = refl;
  whole = refl;
  word = refl;
}

pub width32 : Width 4 31
width32 = record {
  extra = 4;
  q = 2 ^ 32 - 1;
  bits = refl;
  total = refl;
  dropped = refl;
  ones = refl;
  whole = refl;
  word = refl;
}

pub width64 : Width 8 63
width64 = record {
  extra = 0;
  q = 0;
  bits = refl;
  total = refl;
  dropped = refl;
  ones = refl;
  whole = refl;
  word = refl;
}
