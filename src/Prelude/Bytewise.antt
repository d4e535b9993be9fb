-- ===== src/Prelude/Bytewise.antt =====
-- Byte order of encodings: equal lengths, appended digits, and numbers in big-endian bytes.
use Prim.Native.Nat.{ℕ, zero, suc, ◌/◌, ◌%◌, ◌^◌, ◌<◌, compare, Ordering}
use Prim.Native.Nat.Ordering.{lt, eq, gt}
use mathlib.Core.Path.{◌≡◌, refl, ap, ◌∙◌}
use mathlib.Core.List.{[], ◌∷◌, ◌++◌}
use native.Mathlib.Omega.{arith}
use hat_p.Prelude.Order.{Bytes, cmp_bytes}
use hat_p.Prelude.Lists.{length}
use hat_p.Prelude.Digits.{be_bytes, length-be_bytes}

-- `Ordering::then`
abbrev pub then_cmp : Ordering → Ordering → Ordering
then_cmp eq second = second
then_cmp lt second = lt
then_cmp gt second = gt

pub cmp_bytes-append :
    (xs ys us vs : Bytes)
    → length xs ≡ length ys
    → cmp_bytes (xs ++ us) (ys ++ vs) ≡ then_cmp (cmp_bytes xs ys) (cmp_bytes us vs)
cmp_bytes-append [] [] us vs h = refl
cmp_bytes-append [] (y ∷ ys) us vs h = absurd (omega arith)
cmp_bytes-append (x ∷ xs) [] us vs h = absurd (omega arith)
cmp_bytes-append (x ∷ xs) (y ∷ ys) us vs h =
    ground (arith, cmp_bytes-append xs ys us vs (omega arith))

cmp_digit : (a b : ℕ) → cmp_bytes (a ∷ []) (b ∷ []) ≡ compare a b
cmp_digit a b = ground arith

compare_digits :
    (a b : ℕ) → then_cmp (compare (a / 256) (b / 256)) (compare (a % 256) (b % 256)) ≡ compare a b
compare_digits a b = ground arith

pub cmp_bytes-be_bytes :
    (width a b : ℕ)
    → a < 256 ^ width
    → b < 256 ^ width
    → cmp_bytes (be_bytes width a) (be_bytes width b) ≡ compare a b
cmp_bytes-be_bytes zero zero zero h k = refl
cmp_bytes-be_bytes zero zero (suc b) h k = absurd (omega arith)
cmp_bytes-be_bytes zero (suc a) b h k = absurd (omega arith)
cmp_bytes-be_bytes (suc width) a b h k =
    cmp_bytes-append (be_bytes width (a / 256)) (be_bytes width (b / 256)) (a % 256 ∷ [])
      (b % 256 ∷ [])
      (omega (arith, length-be_bytes width (a / 256), length-be_bytes width (b / 256)))
    ∙ (ap (λ c. then_cmp c (cmp_bytes (a % 256 ∷ []) (b % 256 ∷ [])))
          (cmp_bytes-be_bytes width (a / 256) (b / 256) (omega arith) (omega arith))
        ∙ (ap (then_cmp (compare (a / 256) (b / 256))) (cmp_digit (a % 256) (b % 256))
            ∙ compare_digits a b))
