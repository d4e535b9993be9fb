-- ===== src/Engine/Memtable/Scan.antt =====
-- Prefix scans and prefix erasure of `BTreeMapTable` against the plain reading of a prefix.
use hat_p.Prelude.{
  ℕ, ◌≡◌, refl, sym, subst, inl, inr, Bool, true, false, ◌||◌, Option, none, some, List, [], ◌∷◌,
  arith, Bytes, if◌then◌else◌, Option-cases, length, bytes_eq, bytes_ord, eq_of_bytes_eq,
}
use hat_p.Engine.Memtable.{
  visible_in, Entries, BTreeMapTable, bump_last, prefix_upper_exclusive, in_bounds, range,
  starts_with, visible_with, scan_prefix_versions, remove_keys, erase_prefix,
}
use hat_p.Prelude.Map.{lookup, remove, keys, lookup-remove}
use hat_p.Engine.Version.{VersionChain}
use hat_p.Engine.Memtable.Prefix.{IsBytes, in_range-starts_with, upper_of_some, prefix_upper_after}

abbrev pub KeysAreBytes : Entries → Type 0
KeysAreBytes [] = Unit
KeysAreBytes ((key, chain) ∷ entries) = IsBytes key × KeysAreBytes entries

-- The entries whose key starts with a prefix.
unfoldable pub matching : Bytes → Entries → Entries
matching prefix [] = []
matching prefix ((key, chain) ∷ entries) =
    let rest = matching prefix entries in
    if starts_with prefix key then (key, chain) ∷ rest else rest

in_bounds-matching :
    (prefix upper : Bytes) (entries : Entries)
    → bump_last prefix ≡ some upper
    → KeysAreBytes entries
    → in_bounds prefix upper entries ≡ matching prefix entries
unfolding in_bounds matching
in_bounds-matching prefix upper [] h k = refl
in_bounds-matching prefix upper ((key, chain) ∷ entries) h (b, k) =
    rw (in_range-starts_with prefix upper key h b, in_bounds-matching prefix upper entries h k) refl

range-matching :
    (prefix upper : Bytes) (entries : Entries)
    → bump_last prefix ≡ some upper
    → KeysAreBytes entries
    → range prefix (prefix_upper_exclusive prefix) entries ≡ some (matching prefix entries)
unfolding range
range-matching prefix upper entries h k =
    rw
      (
        prefix_upper_after prefix,
        upper_of_some prefix upper h,
        in_bounds-matching prefix upper entries h k,
      )
      refl

visible_with-matching :
    (prefix : Bytes) (snapshot : ℕ) (entries : Entries)
    → visible_with prefix snapshot (matching prefix entries)
      ≡ visible_in snapshot (matching prefix entries)
unfolding visible_with visible_in matching
visible_with-matching prefix snapshot [] = refl
visible_with-matching prefix snapshot ((key, chain) ∷ entries) =
    ground (arith, visible_with-matching prefix snapshot entries)

-- For a prefix with an upper bound and keys of byte values, scan_prefix_versions does not panic
-- and returns the visible versions of exactly the keys that start with the prefix, in key order.
pub scan_prefix_versions_exact :
    (prefix upper : Bytes) (snapshot : ℕ) (table : BTreeMapTable)
    → bump_last prefix ≡ some upper
    → KeysAreBytes table.entries
    → scan_prefix_versions prefix snapshot table
      ≡ some (visible_in snapshot (matching prefix table.entries))
unfolding scan_prefix_versions
scan_prefix_versions_exact prefix upper snapshot table h k = ground (
  arith,
  range-matching prefix upper table.entries h k,
  visible_with-matching prefix snapshot table.entries,
)

abbrev pub held : Bytes → List Bytes → Bool
held key [] = false
held key (k ∷ keys) = bytes_eq key k || held key keys

lookup-remove_keys :
    (key : Bytes) (ks : List Bytes) (entries : Entries)
    → lookup key (remove_keys ks entries) ≡ (if held key ks then none else lookup key entries)
unfolding remove_keys
lookup-remove_keys key [] entries = refl
lookup-remove_keys key (k ∷ ks) entries =
    ground (arith, lookup-remove_keys key ks (remove k entries), lookup-remove k key entries)

held-starts_with :
    (key prefix : Bytes) (entries : Entries)
    → held key (keys (matching prefix entries)) ≡ true
    → starts_with prefix key ≡ true
unfolding matching
held-starts_with key prefix [] h = absurd (ground arith)
held-starts_with key prefix ((j, chain) ∷ entries) h =
    ground (arith, held-starts_with key prefix entries, eq_of_bytes_eq key j)

lookup-held :
    (key prefix : Bytes) (entries : Entries) (chain : VersionChain)
    → starts_with prefix key ≡ true
    → lookup key entries ≡ some chain
    → held key (keys (matching prefix entries)) ≡ true
unfolding matching lookup
lookup-held key prefix [] chain s e = absurd (ground arith)
lookup-held key prefix ((j, c) ∷ entries) chain s e =
    ground (arith, lookup-held key prefix entries chain s, bytes_ord.eq_of_cmp key j)

lookup-erased :
    (key prefix : Bytes) (entries : Entries)
    → lookup key (remove_keys (keys (matching prefix entries)) entries)
      ≡ (if starts_with prefix key then none else lookup key entries)
lookup-erased key prefix entries = elim (Option-cases (lookup key entries)) [
  | inl e ↦ ground (arith, lookup-remove_keys key (keys (matching prefix entries)) entries)
  | inr (chain, e) ↦ ground (
    arith,
    lookup-remove_keys key (keys (matching prefix entries)) entries,
    held-starts_with key prefix entries,
    lookup-held key prefix entries chain,
  )
]

-- The table after an erasure, by what a lookup finds in it.
abbrev pub ErasedAs : Bytes → BTreeMapTable → Option (ℕ × BTreeMapTable) → Type 0
ErasedAs prefix table none = ⊥
ErasedAs prefix table (some (count, table')) =
    (count ≡ length (matching prefix table.entries))
    × ((key : Bytes)
        → lookup key table'.entries
          ≡ (if starts_with prefix key then none else lookup key table.entries))

length-keys : (entries : Entries) → length (keys entries) ≡ length entries
length-keys [] = refl
length-keys ((k, c) ∷ entries) = omega (arith, length-keys entries)

-- For a prefix with an upper bound and keys of byte values, erase_prefix does not panic, counts
-- the keys that start with the prefix, and leaves a table in which a lookup finds what it found
-- before, and nothing under those keys.
pub erase_prefix_exact :
    (prefix upper : Bytes) (table : BTreeMapTable)
    → bump_last prefix ≡ some upper
    → KeysAreBytes table.entries
    → ErasedAs prefix table (erase_prefix prefix table)
unfolding erase_prefix
erase_prefix_exact prefix upper table h k =
    subst
      (λ entries. ErasedAs prefix table (elim entries [
        | none ↦ none
        | some found ↦
            some (
              length (keys found),
              record table { entries = remove_keys (keys found) table.entries },
            )
      ]))
      (sym (range-matching prefix upper table.entries h k))
      (length-keys (matching prefix table.entries), (λ key. lookup-erased key prefix table.entries))
