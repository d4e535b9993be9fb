-- ===== src/Prelude/Map.antt =====
-- `BTreeMap`: an association list in key order, with the operations that the crates use.
use Prim.Native.Nat.Ordering.{lt, eq, gt}
use mathlib.Core.Path.{◌≡◌}
use mathlib.Core.List.{List, [], ◌∷◌}
use mathlib.Core.Option.{Option, none, some}
use native.Mathlib.Omega.{arith}
use hat_p.Prelude.Order.{Ord}

abbrev pub Map {ℓ κ} : Type ℓ → Type κ → Type (ℓ ⊔ κ)
Map K V = List (K × V)

module _ {ℓ κ} {K : Type ℓ} {V : Type κ} where
  abbrev pub values : Map K V → List V
  values [] = []
  values ((k, v) ∷ m) = v ∷ values m

  abbrev pub keys : Map K V → List K
  keys [] = []
  keys ((k, v) ∷ m) = k ∷ keys m

module _ {ℓ} {K : Type ℓ} ⦃o : Ord K⦄ where
  -- `if a == b { x } else { y }` on keys
  abbrev pub if_eq {μ} : {A : Type μ} → K → K → A → A → A
  if_eq a b x y = elim (o.cmp a b) [ eq ↦ x | _ ↦ y ]

module _ {ℓ κ} {K : Type ℓ} {V : Type κ} ⦃o : Ord K⦄ where
  unfoldable pub lookup : K → Map K V → Option V
  lookup k [] = none
  lookup k ((j, v) ∷ m) = elim (o.cmp k j) [ eq ↦ some v | _ ↦ lookup k m ]

  unfoldable pub insert : K → V → Map K V → Map K V
  insert k v [] = (k, v) ∷ []
  insert k v ((j, w) ∷ m) = elim (o.cmp k j) [
    | lt ↦ (k, v) ∷ (j, w) ∷ m
    | eq ↦ (k, v) ∷ m
    | gt ↦ (j, w) ∷ insert k v m
  ]

  unfoldable pub remove : K → Map K V → Map K V
  remove k [] = []
  remove k ((j, w) ∷ m) = elim (o.cmp k j) [ eq ↦ remove k m | _ ↦ (j, w) ∷ remove k m ]

  pub lookup-insert :
      (k j : K) (v : V) (m : Map K V) → lookup j (insert k v m) ≡ if_eq j k (some v) (lookup j m)
  unfolding lookup insert
  lookup-insert k j v [] = ground arith
  lookup-insert k j v ((i, w) ∷ m) = ground (
    arith,
    lookup-insert k j v m,
    o.eq_of_cmp k i,
    o.eq_of_cmp j i,
    o.eq_of_cmp j k,
    o.cmp_refl j,
    o.cmp_refl k,
    o.cmp_refl i,
  )

  pub lookup-remove : (k j : K) (m : Map K V) → lookup j (remove k m) ≡ if_eq j k none (lookup j m)
  unfolding lookup remove
  lookup-remove k j [] = ground arith
  lookup-remove k j ((i, w) ∷ m) = ground (
    arith,
    lookup-remove k j m,
    o.eq_of_cmp k i,
    o.eq_of_cmp j i,
    o.eq_of_cmp j k,
    o.cmp_refl j,
    o.cmp_refl k,
    o.cmp_refl i,
  )

  -- Every entry of the map meets `P`.
  abbrev pub Entries {μ} : (K → V → Type μ) → Map K V → Type μ
  Entries P [] = Unit
  Entries P ((k, v) ∷ m) = P k v × Entries P m

  pub Entries-lookup {μ} :
      (P : K → V → Type μ) (k : K) (v : V) (m : Map K V) → Entries P m → lookup k m ≡ some v → P k v
  unfolding lookup
  Entries-lookup P k v [] h e = absurd (cc)
  Entries-lookup P k v ((j, w) ∷ m) h e = ground (arith, Entries-lookup P k v m, o.eq_of_cmp k j)

  pub Entries-insert {μ} :
      (P : K → V → Type μ) (k : K) (v : V) (m : Map K V)
      → P k v
      → Entries P m
      → Entries P (insert k v m)
  unfolding insert
  Entries-insert P k v [] p h = (p, tt)
  Entries-insert P k v ((j, w) ∷ m) p h = ground (arith, Entries-insert P k v m)

  pub Entries-remove {μ} :
      (P : K → V → Type μ) (k : K) (m : Map K V) → Entries P m → Entries P (remove k m)
  unfolding remove
  Entries-remove P k [] h = tt
  Entries-remove P k ((j, w) ∷ m) h = ground (arith, Entries-remove P k m)

pub ruleset map_laws = (lookup-insert, lookup-remove)
