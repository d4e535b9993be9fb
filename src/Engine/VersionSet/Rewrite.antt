-- ===== src/Engine/VersionSet/Rewrite.antt =====
-- The snapshot of the manifest: the replay of `to_edits` rebuilds the version set.
use hat_p.Prelude.{
  ℕ, ◌≤◌, ◌≡◌, refl, sym, ap, ◌∙◌, subst, ◌≢◌, inl, inr, ◌&&◌, Option, none, some, [], ◌∷◌, arith,
  Bytes, ◌==◌, if◌then◌else◌, Option-cases, bytes_ord, nat_ord,
}
use hat_p.Engine.VersionSet.Tidy.{Below, GoodFiles, GoodLevels, apply_all-append}
use hat_p.Prelude.Map.{Entries-lookup, Map, lookup, insert, lookup-insert}
use hat_p.Prelude.Ascending.{eq_of_lookup, Ascending, Above, lookup-Above}
use hat_p.Engine.VersionSet.{
  dropped_edits, FileMetadata, BTreeSet, VersionSet, files_at, apply, apply_all, metadata_or_empty,
  add_edit, level_edits, levels_edits,
}

abbrev pub or_else : {A : Type 0} → Option A → Option A → Option A
or_else none b = b
or_else (some a) b = some a

abbrev pub member : ℕ → ℕ → Map ℕ (BTreeSet ℕ) → Option (Unit {0})
member level file_id levels = lookup file_id (files_at level levels)

lookup_level :
    (l level : ℕ) (files : BTreeSet ℕ) (levels : Map ℕ (BTreeSet ℕ))
    → lookup level (insert l files levels)
      ≡ (if level == l then some files else lookup level levels)
lookup_level l level files levels = ground (arith, lookup-insert {0, 0} l level files levels)

lookup_file :
    (f file_id : ℕ) (files : BTreeSet ℕ)
    → lookup file_id (insert f tt files) ≡ (if file_id == f then some tt else lookup file_id files)
lookup_file f file_id files = ground (arith, lookup-insert {0, 0} f file_id tt files)

member-insert :
    (level file_id l f : ℕ) (levels : Map ℕ (BTreeSet ℕ))
    → member level file_id (insert l (insert f tt (files_at l levels)) levels)
      ≡ (if level == l && file_id == f then some tt else member level file_id levels)
unfolding files_at
member-insert level file_id l f levels = elim (Option-cases (lookup l levels)) [
  | inl e ↦ ground (arith, lookup_level l level (insert f tt []) levels, lookup_file f file_id [])
  | inr (files, e) ↦
      ground (arith, lookup_level l level (insert f tt files) levels, lookup_file f file_id files)
]

module _ (level file_id : ℕ) (file_meta : Map ℕ FileMetadata) where
  member-level_edits :
      (l : ℕ) (files : BTreeSet ℕ) (set : VersionSet)
      → member level file_id (apply_all (level_edits l files file_meta) set).levels ≡ (
          if level == l
          then or_else (lookup file_id files) (member level file_id set.levels)
          else member level file_id set.levels)
  unfolding level_edits apply_all apply lookup
  member-level_edits l [] set = ground arith
  member-level_edits l ((f, u) ∷ files) set = ground (
    arith,
    member-level_edits l files (apply (add_edit f l (metadata_or_empty f file_meta)) set),
    member-insert level file_id l f set.levels,
  )

  member_cons :
      (l : ℕ) (files : BTreeSet ℕ) (levels : Map ℕ (BTreeSet ℕ))
      → member level file_id ((l, files) ∷ levels)
        ≡ (if level == l then lookup file_id files else member level file_id levels)
  unfolding files_at lookup
  member_cons l files levels = ground arith

  member-Above :
      (levels : Map ℕ (BTreeSet ℕ)) → Above level levels → member level file_id levels ≡ none
  unfolding files_at
  member-Above levels a =
      ap (λ o. lookup file_id (elim o [ none ↦ [] | some files ↦ files ]))
        (lookup-Above level levels a)

  pub member-levels_edits :
      (levels : Map ℕ (BTreeSet ℕ)) (set : VersionSet)
      → Ascending levels
      → member level file_id (apply_all (levels_edits levels file_meta) set).levels
        ≡ or_else (member level file_id levels) (member level file_id set.levels)
  unfolding levels_edits apply_all
  member-levels_edits [] set a = refl
  member-levels_edits ((l, files) ∷ levels) set (b, a) = ground (
    arith,
    ap (λ s. member level file_id s.levels)
        (apply_all-append (level_edits l files file_meta) (levels_edits levels file_meta) set),
    member-levels_edits levels (apply_all (level_edits l files file_meta) set) a,
    member-level_edits l files set,
    member_cons l files levels,
    member-Above levels,
  )

member_at :
    (level file_id : ℕ) (files : Option (BTreeSet ℕ)) (levels : Map ℕ (BTreeSet ℕ))
    → lookup level levels ≡ files
    → member level file_id levels ≡ lookup file_id (elim files [ none ↦ [] | some files ↦ files ])
unfolding files_at
member_at level file_id files levels e =
    ap (λ o. lookup file_id (elim o [ none ↦ [] | some files ↦ files ])) e

lookup_first : (f : ℕ) (u : Unit {0}) (fs : BTreeSet ℕ) → lookup f ((f, u) ∷ fs) ≡ some u
unfolding lookup
lookup_first f u fs = ground arith

has_first : (files : BTreeSet ℕ) → files ≢ [] → (f : ℕ) × (lookup f files ≢ none)
has_first [] n = absurd (n refl)
has_first ((f, u) ∷ fs) n = (f, λ e. ground (arith, lookup_first f u fs))

lookup_nil : (f : ℕ) → lookup {V = Unit {0}} f [] ≡ none
unfolding lookup
lookup_nil f = refl

module _ (next k : ℕ) (m n : Map ℕ (BTreeSet ℕ)) where
  same_files :
      (level : ℕ) (a b : Option (BTreeSet ℕ))
      → GoodLevels next m
      → GoodLevels k n
      → ((file_id : ℕ) → member level file_id m ≡ member level file_id n)
      → lookup level m ≡ a
      → lookup level n ≡ b
      → a ≡ b
  same_files level none none g h same p q = refl
  same_files level none (some files) g h same p q =
      let good = Entries-lookup (λ l f. GoodFiles k f) level files n h q in
      let (f, there) = has_first files good.1 in
      absurd (
        there (
          sym (member_at level f (some files) n q)
          ∙ sym (same f)
          ∙ member_at level f none m p
          ∙ lookup_nil f))
  same_files level (some files) none g h same p q =
      let good = Entries-lookup (λ l f. GoodFiles next f) level files m g p in
      let (f, there) = has_first files good.1 in
      absurd (
        there (
          sym (member_at level f (some files) m p)
          ∙ same f
          ∙ member_at level f none n q
          ∙ lookup_nil f))
  same_files level (some files) (some others) g h same p q =
      ap (λ s. some s)
        (eq_of_lookup files others (Entries-lookup (λ l f. GoodFiles next f) level files m g p).0
          (Entries-lookup (λ l f. GoodFiles k f) level others n h q).0
          λ f.
            sym (member_at level f (some files) m p) ∙ same f ∙ member_at level f (some others) n q)

  pub levels_eq :
      Ascending m
      → Ascending n
      → GoodLevels next m
      → GoodLevels k n
      → ((level file_id : ℕ) → member level file_id m ≡ member level file_id n)
      → m ≡ n
  levels_eq a b g h same =
      eq_of_lookup m n a b
        λ level. same_files level (lookup level m) (lookup level n) g h (same level) refl refl

pub insert_all : BTreeSet Bytes → BTreeSet Bytes → BTreeSet Bytes
insert_all [] set = set
insert_all ((prefix, u) ∷ dropped) set = insert_all dropped (insert prefix tt set)

pub lookup-insert_all :
    (prefix : Bytes) (dropped set : BTreeSet Bytes)
    → lookup prefix (insert_all dropped set) ≡ or_else (lookup prefix dropped) (lookup prefix set)
unfolding insert_all lookup
lookup-insert_all prefix [] set = refl
lookup-insert_all prefix ((p, u) ∷ dropped) set = ground (
  arith,
  lookup-insert_all prefix dropped (insert p tt set),
  lookup-insert {0, 0} p prefix tt set,
)

pub apply_all-dropped_edits :
    (dropped : BTreeSet Bytes) (set : VersionSet)
    → apply_all (dropped_edits dropped) set
      ≡ record set { dropped = insert_all dropped set.dropped }
unfolding apply_all dropped_edits apply insert_all
apply_all-dropped_edits [] set = refl
apply_all-dropped_edits ((p, u) ∷ dropped) set =
    apply_all-dropped_edits dropped (record set { dropped = insert p tt set.dropped })

module _ (file_meta : Map ℕ FileMetadata) where
  level_edits-rest :
      (level next : ℕ) (files : BTreeSet ℕ) (set : VersionSet)
      → Below next files
      → set.next_file_id ≤ next
      → ((apply_all (level_edits level files file_meta) set).dropped ≡ set.dropped)
        × ((apply_all (level_edits level files file_meta) set).next_file_id ≤ next)
  unfolding level_edits apply_all apply
  level_edits-rest level next [] set b h = (refl, h)
  level_edits-rest level next ((f, u) ∷ files) set (p, b) h =
      level_edits-rest level next files
        (apply (add_edit f level (metadata_or_empty f file_meta)) set) b (omega arith)

  pub levels_edits-rest :
      (next : ℕ) (levels : Map ℕ (BTreeSet ℕ)) (set : VersionSet)
      → GoodLevels next levels
      → set.next_file_id ≤ next
      → ((apply_all (levels_edits levels file_meta) set).dropped ≡ set.dropped)
        × ((apply_all (levels_edits levels file_meta) set).next_file_id ≤ next)
  unfolding levels_edits apply_all
  levels_edits-rest next [] set g h = (refl, h)
  levels_edits-rest next ((level, files) ∷ levels) set ((a, n, b), g) h =
      let (same, bound) = level_edits-rest level next files set b h in
      let (same', bound') =
        levels_edits-rest next levels (apply_all (level_edits level files file_meta) set) g bound in
      subst (λ s. (s.dropped ≡ set.dropped) × (s.next_file_id ≤ next))
        (apply_all-append (level_edits level files file_meta) (levels_edits levels file_meta) set)
        (same' ∙ same, bound')

-- A level that holds the file, if there is one.
unfoldable pub live : ℕ → Map ℕ (BTreeSet ℕ) → Option (Unit {0})
unfolding lookup
live file_id [] = none
live file_id ((level, files) ∷ levels) = or_else (live file_id levels) (lookup file_id files)

module _ (file_id : ℕ) (file_meta : Map ℕ FileMetadata) where
  -- The metadata that a snapshot gives the file if it is live, and else what was there before.
  abbrev pub kept_meta : Option (Unit {0}) → Option FileMetadata → Option FileMetadata
  kept_meta found before = elim found [
    | none ↦ before
    | some u ↦ some (metadata_or_empty file_id file_meta)
  ]

  meta-level_edits :
      (level : ℕ) (files : BTreeSet ℕ) (set : VersionSet)
      → lookup file_id (apply_all (level_edits level files file_meta) set).file_meta
        ≡ kept_meta (lookup file_id files) (lookup file_id set.file_meta)
  unfolding level_edits apply_all apply lookup
  meta-level_edits level [] set = refl
  meta-level_edits level ((f, u) ∷ files) set = ground (
    arith,
    meta-level_edits level files (apply (add_edit f level (metadata_or_empty f file_meta)) set),
    lookup-insert {0, 0} f file_id (metadata_or_empty f file_meta) set.file_meta,
  )

  pub meta-levels_edits :
      (levels : Map ℕ (BTreeSet ℕ)) (set : VersionSet)
      → lookup file_id (apply_all (levels_edits levels file_meta) set).file_meta
        ≡ kept_meta (live file_id levels) (lookup file_id set.file_meta)
  unfolding levels_edits apply_all live
  meta-levels_edits [] set = refl
  meta-levels_edits ((level, files) ∷ levels) set = ground (
    arith,
    ap (λ s. lookup file_id s.file_meta)
        (apply_all-append (level_edits level files file_meta) (levels_edits levels file_meta) set),
    meta-levels_edits levels (apply_all (level_edits level files file_meta) set),
    meta-level_edits level files set,
  )
