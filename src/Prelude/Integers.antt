-- ===== src/Prelude/Integers.antt =====
-- Signed machine integers: the library's ℤ over the native numbers, and its order.
use Prim.Native.Nat.{ℕ, compare, Ordering}
use Prim.Native.Nat.Ordering.{lt, gt}

pub data ℤ : Type 0 where
  pos : ℕ → ℤ
  -- `negsuc n` is -1 - n
  negsuc : ℕ → ℤ

abbrev pub cmp_int : ℤ → ℤ → Ordering
cmp_int (pos m) (pos n) = compare m n
cmp_int (pos m) (negsuc n) = gt
cmp_int (negsuc m) (pos n) = lt
cmp_int (negsuc m) (negsuc n) = compare n m
