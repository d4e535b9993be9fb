-- ===== src/Prelude/Sets.antt =====
-- `HashSet<Bytes>`: a list without repetitions. Its order stands for the iteration order, which
-- the library leaves open.
use Prim.Native.Nat.Ordering.{lt, eq}
use mathlib.Core.Path.{◌≡◌}
use mathlib.Core.Bool.{Bool, true, false, ◌||◌, ◌&&◌, not}
use mathlib.Core.List.{List, [], ◌∷◌}
use native.Mathlib.Omega.{arith}
use hat_p.Prelude.Order.{Bytes, cmp_bytes, bytes_ord}
use hat_p.Prelude.Tests.{if◌then◌else◌}

-- `a == b` on byte strings
abbrev pub bytes_eq : Bytes → Bytes → Bool
bytes_eq a b = elim (cmp_bytes a b) [ eq ↦ true | _ ↦ false ]

-- `key >= lo && key < hi`
abbrev pub in_range : Bytes → Bytes → Bytes → Bool
in_range lo hi key =
    not (elim (cmp_bytes key lo) [ lt ↦ true | _ ↦ false ])
    && elim (cmp_bytes key hi) [ lt ↦ true | _ ↦ false ]

unfoldable pub contains : Bytes → List Bytes → Bool
contains k [] = false
contains k (x ∷ xs) = bytes_eq k x || contains k xs

unfoldable pub set_insert : Bytes → List Bytes → List Bytes
unfolding contains
set_insert k s = if contains k s then s else k ∷ s

pub eq_of_bytes_eq : (a b : Bytes) → bytes_eq a b ≡ true → a ≡ b
eq_of_bytes_eq a b h = ground (arith, bytes_ord.eq_of_cmp a b)

pub bytes_eq_refl : (a : Bytes) → bytes_eq a a ≡ true
bytes_eq_refl a = ground (arith, bytes_ord.cmp_refl a)

pub contains-set_insert :
    (j k : Bytes) (s : List Bytes) → contains j (set_insert k s) ≡ (bytes_eq j k || contains j s)
unfolding set_insert
contains-set_insert j k s = ground (arith, eq_of_bytes_eq j k)
