-- ===== src/Engine/VersionSet/Tidy.antt =====
-- The shape that every edit keeps: ascending maps, no empty level, and ids below the next one.
use hat_p.Prelude.{
  ℕ, ◌≤◌, ◌≡◌, refl, sym, subst, ◌≢◌, inl, inr, Option, none, some, List, [], ◌∷◌, ◌++◌, arith,
  Option-cases, bytes_ord, nat_ord,
}
use Prim.Native.Nat.{max}
use hat_p.Prelude.Map.{
  Map, lookup, insert, remove, Entries, Entries-lookup, Entries-insert, Entries-remove,
}
use hat_p.Prelude.Ascending.{Ascending, insert-Ascending, remove-Ascending}
use hat_p.Engine.Memtable.{saturating_add}
use hat_p.Engine.VersionSet.{
  put_files, VersionEdit, BTreeSet, VersionSet, empty, files_at, remove_file, apply, apply_all,
}

-- The ids of a level lie below `next`.
abbrev pub Below : ℕ → BTreeSet ℕ → Type 0
Below next files = Entries (λ file_id u. saturating_add file_id 1 ≤ next) files

abbrev pub GoodFiles : ℕ → BTreeSet ℕ → Type 0
GoodFiles next files = Ascending files × (files ≢ []) × Below next files

abbrev pub GoodLevels : ℕ → Map ℕ (BTreeSet ℕ) → Type 0
GoodLevels next levels = Entries (λ level files. GoodFiles next files) levels

pub record IsTidy (set : VersionSet) : Type 0 where
  pub levels_ascend : Ascending set.levels
  pub levels_good : GoodLevels set.next_file_id set.levels
  pub meta_ascend : Ascending set.file_meta
  pub dropped_ascend : Ascending set.dropped

Below-mono : (m n : ℕ) (files : BTreeSet ℕ) → m ≤ n → Below m files → Below n files
Below-mono m n [] h b = tt
Below-mono m n ((f, u) ∷ files) h (p, b) = (omega arith, Below-mono m n files h b)

GoodLevels-mono :
    (m n : ℕ) (levels : Map ℕ (BTreeSet ℕ)) → m ≤ n → GoodLevels m levels → GoodLevels n levels
GoodLevels-mono m n [] h g = tt
GoodLevels-mono m n ((l, files) ∷ levels) h ((a, e, b), g) =
    ((a, e, Below-mono m n files h b), GoodLevels-mono m n levels h g)

cons-ne-nil : (f : ℕ × Unit {0}) (files : BTreeSet ℕ) → f ∷ files ≢ []
cons-ne-nil f files e = cc

insert-ne-nil : (f : ℕ) (files : BTreeSet ℕ) → insert f tt files ≢ []
unfolding insert
insert-ne-nil f [] e = cc
insert-ne-nil f ((g, u) ∷ files) e = ground arith

files_at-good :
    (next level : ℕ) (levels : Map ℕ (BTreeSet ℕ))
    → GoodLevels next levels
    → Ascending (files_at level levels) × Below next (files_at level levels)
unfolding files_at
files_at-good next level levels g = elim (Option-cases (lookup level levels)) [
  | inl e ↦
      subst
        (λ o.
          Ascending (elim o [ none ↦ [] | some files ↦ files ])
          × Below next (elim o [ none ↦ [] | some files ↦ files ]))
        (sym e) (tt, tt)
  | inr (files, e) ↦
      let good = Entries-lookup (λ l f. GoodFiles next f) level files levels g e in
      subst
        (λ o.
          Ascending (elim o [ none ↦ [] | some files ↦ files ])
          × Below next (elim o [ none ↦ [] | some files ↦ files ]))
        (sym e) (good.0, good.2)
]

insert_file-good :
    (next file_id level : ℕ) (levels : Map ℕ (BTreeSet ℕ))
    → GoodLevels next levels
    → saturating_add file_id 1 ≤ next
    → GoodLevels next (insert level (insert file_id tt (files_at level levels)) levels)
insert_file-good next file_id level levels g h =
    let (a, b) = files_at-good next level levels g in
    Entries-insert (λ l f. GoodFiles next f) level (insert file_id tt (files_at level levels))
      levels
      (
        insert-Ascending file_id tt (files_at level levels) a,
        insert-ne-nil file_id (files_at level levels),
        Entries-insert (λ i u. saturating_add i 1 ≤ next) file_id tt (files_at level levels) h b,
      )
      g

-- A level that loses its last file goes away.
put_files-good :
    (next level : ℕ) (files : BTreeSet ℕ) (levels : Map ℕ (BTreeSet ℕ))
    → Ascending levels
    → GoodLevels next levels
    → Ascending files
    → Below next files
    → Ascending (put_files level files levels) × GoodLevels next (put_files level files levels)
unfolding put_files
put_files-good next level [] levels a g s b =
    (remove-Ascending level levels a, Entries-remove (λ l f. GoodFiles next f) level levels g)
put_files-good next level (f ∷ fs) levels a g s b = (
  insert-Ascending level (f ∷ fs) levels a,
  Entries-insert (λ l f. GoodFiles next f) level (f ∷ fs) levels (s, cons-ne-nil f fs, b) g,
)

abbrev Good : ℕ → Map ℕ (BTreeSet ℕ) → Type 0
Good next levels = Ascending levels × GoodLevels next levels

remove_file-good :
    (next file_id level : ℕ) (levels : Map ℕ (BTreeSet ℕ))
    → Ascending levels
    → GoodLevels next levels
    → Ascending (remove_file file_id level levels)
      × GoodLevels next (remove_file file_id level levels)
unfolding remove_file
remove_file-good next file_id level levels a g = elim (Option-cases (lookup level levels)) [
  | inl e ↦ subst (λ o. Good next (found o)) (sym e) (a, g)
  | inr (files, e) ↦
      let good = Entries-lookup (λ l f. GoodFiles next f) level files levels g e in
      subst (λ o. Good next (found o)) (sym e)
        (put_files-good next level (remove file_id files) levels a g
          (remove-Ascending file_id files good.0)
          (Entries-remove (λ i u. saturating_add i 1 ≤ next) file_id files good.2))
]
  where
    found : Option (BTreeSet ℕ) → Map ℕ (BTreeSet ℕ)
    found o = elim o [ none ↦ levels | some files ↦ put_files level (remove file_id files) levels ]

pub empty-IsTidy : IsTidy empty
empty-IsTidy = record {
  levels_ascend = tt;
  levels_good = tt;
  meta_ascend = tt;
  dropped_ascend = tt;
}

apply-IsTidy : (edit : VersionEdit) (set : VersionSet) → IsTidy set → IsTidy (apply edit set)
unfolding apply
apply-IsTidy (VersionEdit.add_file file_id level min_key max_key bytes created_at) set h = record {
  levels_ascend =
      insert-Ascending level (insert file_id tt (files_at level set.levels)) set.levels
        h.levels_ascend;
  levels_good =
      insert_file-good (max set.next_file_id (saturating_add file_id 1)) file_id level set.levels
        (GoodLevels-mono set.next_file_id (max set.next_file_id (saturating_add file_id 1))
          set.levels (omega arith) h.levels_good)
        (omega arith);
  meta_ascend = insert-Ascending file_id _ set.file_meta h.meta_ascend;
  dropped_ascend = h.dropped_ascend;
}
apply-IsTidy (VersionEdit.delete_file file_id level) set h =
    let (ascend, good) =
      remove_file-good set.next_file_id file_id level set.levels h.levels_ascend h.levels_good in
    record {
      levels_ascend = ascend;
      levels_good = good;
      meta_ascend = remove-Ascending file_id set.file_meta h.meta_ascend;
      dropped_ascend = h.dropped_ascend;
    }
apply-IsTidy (VersionEdit.next_file_id_edit file_id) set h = record {
  levels_ascend = h.levels_ascend;
  levels_good =
      GoodLevels-mono set.next_file_id (max set.next_file_id file_id) set.levels (omega arith)
        h.levels_good;
  meta_ascend = h.meta_ascend;
  dropped_ascend = h.dropped_ascend;
}
apply-IsTidy (VersionEdit.dropped_prefix prefix) set h = record {
  levels_ascend = h.levels_ascend;
  levels_good = h.levels_good;
  meta_ascend = h.meta_ascend;
  dropped_ascend = insert-Ascending prefix tt set.dropped h.dropped_ascend;
}
apply-IsTidy (VersionEdit.undropped_prefix prefix) set h = record {
  levels_ascend = h.levels_ascend;
  levels_good = h.levels_good;
  meta_ascend = h.meta_ascend;
  dropped_ascend = remove-Ascending prefix set.dropped h.dropped_ascend;
}

pub apply_all-IsTidy :
    (edits : List VersionEdit) (set : VersionSet) → IsTidy set → IsTidy (apply_all edits set)
unfolding apply_all
apply_all-IsTidy [] set h = h
apply_all-IsTidy (edit ∷ edits) set h =
    apply_all-IsTidy edits (apply edit set) (apply-IsTidy edit set h)

pub apply_all-append :
    (a b : List VersionEdit) (set : VersionSet)
    → apply_all b (apply_all a set) ≡ apply_all (a ++ b) set
unfolding apply_all
apply_all-append [] b set = refl
apply_all-append (edit ∷ a) b set = apply_all-append a b (apply edit set)
