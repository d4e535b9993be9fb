-- ===== src/Prelude/Ascending.antt =====
-- Maps whose keys ascend, as those of a `BTreeMap` do: kept by the operations, and equal when every
-- lookup is.
use Prim.Native.Nat.Ordering.{lt, eq}
use mathlib.Core.Path.{◌≡◌, refl}
use mathlib.Core.Logic.{◌≢◌}
use mathlib.Core.List.{[], ◌∷◌}
use mathlib.Core.Option.{none, some}
use native.Mathlib.Omega.{arith}
use hat_p.Prelude.Order.{Ord}
use hat_p.Prelude.Map.{Map, lookup, insert, remove}

module _ {κ} {K : Type 0} {V : Type κ} ⦃o : Ord K⦄ where
  abbrev pub Above : K → Map K V → Type 0
  Above k [] = Unit
  Above k ((j, v) ∷ m) = (o.cmp k j ≡ lt) × Above k m

  abbrev pub Ascending : Map K V → Type 0
  Ascending [] = Unit
  Ascending ((k, v) ∷ m) = Above k m × Ascending m

  Above-insert :
      (i k : K) (v : V) (m : Map K V) → o.cmp i k ≡ lt → Above i m → Above i (insert k v m)
  unfolding insert
  Above-insert i k v [] h a = (h, tt)
  Above-insert i k v ((j, w) ∷ m) h a = ground (arith, Above-insert i k v m)

  Above-trans : (i j : K) (m : Map K V) → o.cmp i j ≡ lt → Above j m → Above i m
  Above-trans i j [] h a = tt
  Above-trans i j ((k, v) ∷ m) h (b, a) = (o.cmp_trans i j k h b, Above-trans i j m h a)

  pub insert-Ascending : (k : K) (v : V) (m : Map K V) → Ascending m → Ascending (insert k v m)
  unfolding insert
  insert-Ascending k v [] h = (tt, tt)
  insert-Ascending k v ((j, w) ∷ m) (a, h) = ground (
    arith,
    insert-Ascending k v m h,
    Above-insert j k v m,
    Above-trans k j m,
    o.cmp_reversed k j,
    o.eq_of_cmp k j,
  )

  Above-remove : (i k : K) (m : Map K V) → Above i m → Above i (remove k m)
  unfolding remove
  Above-remove i k [] a = tt
  Above-remove i k ((j, w) ∷ m) (b, a) = ground (arith, Above-remove i k m a)

  pub remove-Ascending : (k : K) (m : Map K V) → Ascending m → Ascending (remove k m)
  unfolding remove
  remove-Ascending k [] h = tt
  remove-Ascending k ((j, w) ∷ m) (a, h) =
      ground (arith, remove-Ascending k m h, Above-remove j k m a)

  pub lookup-Above : (k : K) (m : Map K V) → Above k m → lookup k m ≡ none
  unfolding lookup
  lookup-Above k [] a = refl
  lookup-Above k ((j, w) ∷ m) (b, a) = ground (arith, lookup-Above k m a)

  lookup_nil : (k : K) → lookup {V = V} k [] ≡ none
  unfolding lookup
  lookup_nil k = refl

  lookup_head : (k : K) (v : V) (m : Map K V) → lookup k ((k, v) ∷ m) ≡ some v
  unfolding lookup
  lookup_head k v m = ground (arith, o.cmp_refl k)

  lookup_tail :
      (k j : K) (v : V) (m : Map K V) → o.cmp k j ≢ eq → lookup k ((j, v) ∷ m) ≡ lookup k m
  unfolding lookup
  lookup_tail k j v m h = ground arith

  -- Below the first key there is nothing.
  pub lookup_before :
      (k j : K) (v : V) (m : Map K V) → Above j m → o.cmp k j ≡ lt → lookup k ((j, v) ∷ m) ≡ none
  lookup_before k j v m a h = lookup-Above k ((j, v) ∷ m) (h, Above-trans k j m h a)

  same_head :
      (k j : K) (v w : V) (m n : Map K V)
      → Ascending ((k, v) ∷ m)
      → Ascending ((j, w) ∷ n)
      → lookup k ((k, v) ∷ m) ≡ lookup k ((j, w) ∷ n)
      → lookup j ((k, v) ∷ m) ≡ lookup j ((j, w) ∷ n)
      → (k ≡ j) × (v ≡ w)
  same_head k j v w m n (a, h) (b, i) p q = ground (
    arith,
    lookup_head k v m,
    lookup_head j w n,
    lookup_before k j w n b,
    lookup_before j k v m a,
    o.cmp_reversed k j,
    o.eq_of_cmp k j,
  )

  same_tail :
      (i k j : K) (v w : V) (m n : Map K V)
      → Above k m
      → Above j n
      → k ≡ j
      → lookup i ((k, v) ∷ m) ≡ lookup i ((j, w) ∷ n)
      → lookup i m ≡ lookup i n
  same_tail i k j v w m n a b e h = ground (
    arith,
    lookup_tail i k v m,
    lookup_tail i j w n,
    lookup-Above k m a,
    lookup-Above j n b,
    o.eq_of_cmp i k,
    o.eq_of_cmp i j,
  )

  pub eq_of_lookup :
      (m n : Map K V) → Ascending m → Ascending n → ((k : K) → lookup k m ≡ lookup k n) → m ≡ n
  eq_of_lookup [] [] a b h = refl
  eq_of_lookup [] ((j, w) ∷ n) a b h = absurd (ground (arith, h j, lookup_head j w n, lookup_nil j))
  eq_of_lookup ((k, v) ∷ m) [] a b h = absurd (ground (arith, h k, lookup_head k v m, lookup_nil k))
  eq_of_lookup ((k, v) ∷ m) ((j, w) ∷ n) (above, a) (behind, b) h =
      let (e, d) = same_head k j v w m n (above, a) (behind, b) (h k) (h j) in
      ground (arith, eq_of_lookup m n a b λ i. same_tail i k j v w m n above behind e (h i))
