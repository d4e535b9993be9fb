-- ===== src/Engine/Version/Splice.antt =====
-- `VersionChain::insert` as one walk over the chain, and the intervals that it keeps contiguous.
use hat_p.Prelude.{
  ℕ, zero, suc, ◌≤◌, ◌<◌, ◌≡◌, refl, ◌≢◌, inl, inr, none, [], ◌∷◌, arith, ltb, ◌==◌, if◌then◌else◌,
  Option-cases, length, get_elem?,
}
use hat_p.Engine.Version.{
  VersionedValue, VersionChain, open_ended_ts, closed_at, insert, place, partition_point, insert_at,
  set_at, end_at_newer, cut_older,
}

-- The intervals lie end to end below `upper`: each version ends where the newer one begins.
abbrev pub Linked : ℕ → VersionChain → Type 0
Linked upper [] = Unit
Linked upper (version ∷ chain) =
    (version.end_ts ≡ upper) × (version.begin_ts < upper) × Linked version.begin_ts chain

abbrev pub IsContiguous : VersionChain → Type 0
IsContiguous = Linked open_ended_ts

unfoldable pub splice : VersionedValue → VersionChain → VersionChain
splice version [] = version ∷ []
splice version (x ∷ chain) =
    if ltb x.begin_ts version.begin_ts
    then version ∷ closed_at version.begin_ts x ∷ chain
    else if x.begin_ts == version.begin_ts
    then closed_at x.end_ts version ∷ chain
    else x ∷ splice (closed_at x.begin_ts version) chain

partition_point_le : (ts : ℕ) (chain : VersionChain) → partition_point ts chain ≤ length chain
unfolding partition_point
partition_point_le ts [] = omega arith
partition_point_le ts (x ∷ chain) = ground (arith, partition_point_le ts chain)

get_elem-le : (i : ℕ) (chain : VersionChain) → suc i ≤ length chain → get_elem? chain i ≢ none
get_elem-le i [] h e = omega arith
get_elem-le zero (x ∷ chain) h e = cc
get_elem-le (suc i) (x ∷ chain) h e = get_elem-le i chain (omega arith) e

end_at_newer-suc :
    (idx : ℕ) (version x : VersionedValue) (chain : VersionChain)
    → idx ≤ length chain
    → end_at_newer (suc idx) version (x ∷ chain)
      ≡ end_at_newer idx (closed_at x.begin_ts version) chain
unfolding end_at_newer
end_at_newer-suc zero version x chain h = refl
end_at_newer-suc (suc i) version x chain h = elim (Option-cases (get_elem? chain i)) [
  | inl e ↦ absurd (get_elem-le i chain h e)
  | inr (newer, e) ↦ ground (arith)
]

-- Behind a newer head, the place in the chain is the place in its tail.
place-suc :
    (idx : ℕ) (version x : VersionedValue) (chain : VersionChain)
    → idx ≤ length chain
    → place (suc idx) version (x ∷ chain) ≡ x ∷ place idx (closed_at x.begin_ts version) chain
unfolding place insert_at set_at
place-suc idx version x chain h = ground (arith, end_at_newer-suc idx version x chain h)

place_nil : (version : VersionedValue) → place 0 version [] ≡ version ∷ []
unfolding place insert_at end_at_newer
place_nil version = refl

place_zero :
    (version x : VersionedValue) (chain : VersionChain)
    → version.begin_ts < x.end_ts
    → place 0 version (x ∷ chain) ≡ (
        if x.begin_ts == version.begin_ts
        then closed_at x.end_ts version ∷ chain
        else version ∷ closed_at version.begin_ts x ∷ chain)
unfolding place insert_at set_at end_at_newer cut_older
place_zero version x chain b = ground (arith)

place-splice :
    (version : VersionedValue) (upper : ℕ) (chain : VersionChain)
    → Linked upper chain
    → version.begin_ts < upper
    → place (partition_point version.begin_ts chain) version chain ≡ splice version chain
unfolding partition_point splice
place-splice version upper [] h b = place_nil version
place-splice version upper (x ∷ chain) (ends, below, linked) b = ground (
  arith,
  place-splice (closed_at x.begin_ts version) x.begin_ts chain linked,
  place-suc (partition_point version.begin_ts chain) version x chain
      (partition_point_le version.begin_ts chain),
  place_zero version x chain,
)

pub insert-splice :
    (version : VersionedValue) (chain : VersionChain)
    → IsContiguous chain
    → version.begin_ts < open_ended_ts
    → insert version chain ≡ splice version chain
unfolding insert splice
insert-splice version [] h b = refl
insert-splice version (x ∷ chain) h b =
    ground (arith, place-splice version open_ended_ts (x ∷ chain) h b)
