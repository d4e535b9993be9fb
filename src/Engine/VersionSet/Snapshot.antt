-- ===== src/Engine/VersionSet/Snapshot.antt =====
-- The version set that `Manifest::open` finds in a rewritten manifest.
use hat_p.Prelude.{
  bytes_ord, ℕ, ◌≤◌, ◌≡◌, refl, sym, ap, ◌∙◌, subst, Option, none, some, List, [], ◌∷◌, arith,
  Bytes, nat_ord,
}
use Prim.Native.Nat.{max}
use hat_p.Prelude.Map.{lookup}
use hat_p.Prelude.Ascending.{eq_of_lookup}
use hat_p.Engine.VersionSet.{
  files_at, VersionEdit, FileMetadata, VersionSet, empty, apply, apply_all, applied,
  rebuild_indexes, metadata_or_empty, levels_edits, dropped_edits, to_edits, next_file_id_edit,
}
use hat_p.Engine.VersionSet.Tidy.{IsTidy, apply_all-append, apply_all-IsTidy, empty-IsTidy}
use hat_p.Engine.VersionSet.Rewrite.{
  or_else, member, member-levels_edits, levels_eq, insert_all, lookup-insert_all,
  apply_all-dropped_edits, levels_edits-rest, live, meta-levels_edits, kept_meta,
}

or_else-member_nil :
    (level file_id : ℕ) (o : Option (Unit {0})) → or_else o (member level file_id []) ≡ o
unfolding files_at lookup
or_else-member_nil level file_id none = refl
or_else-member_nil level file_id (some u) = refl

or_else-lookup_nil : (prefix : Bytes) (o : Option (Unit {0})) → or_else o (lookup prefix []) ≡ o
unfolding lookup
or_else-lookup_nil prefix none = refl
or_else-lookup_nil prefix (some u) = refl

lookup_nil : (file_id : ℕ) → lookup {V = FileMetadata} file_id [] ≡ none
unfolding lookup
lookup_nil file_id = refl

rebuild_indexes-IsTidy : (set : VersionSet) → IsTidy set → IsTidy (rebuild_indexes set)
unfolding rebuild_indexes
rebuild_indexes-IsTidy set h = record {
  levels_ascend = h.levels_ascend;
  levels_good = h.levels_good;
  meta_ascend = h.meta_ascend;
  dropped_ascend = h.dropped_ascend;
}

module _ (set : VersionSet) (tidy : IsTidy set) where
  -- the part of the replay that adds the files
  abbrev with_files : VersionSet
  with_files = apply_all (levels_edits set.levels set.file_meta) empty

  replayed : apply_all (to_edits set) empty ≡ record with_files {
    next_file_id = max with_files.next_file_id set.next_file_id;
    dropped = insert_all set.dropped with_files.dropped;
  }
  unfolding to_edits apply_all apply
  replayed =
      sym (
        apply_all-append (levels_edits set.levels set.file_meta)
          (next_file_id_edit set.next_file_id ∷ dropped_edits set.dropped) empty)
      ∙ apply_all-dropped_edits set.dropped
          (record with_files { next_file_id = max with_files.next_file_id set.next_file_id })

  replayed-IsTidy : IsTidy (apply_all (to_edits set) empty)
  replayed-IsTidy = apply_all-IsTidy (to_edits set) empty empty-IsTidy

  rest_of_files : (with_files.dropped ≡ []) × (with_files.next_file_id ≤ set.next_file_id)
  rest_of_files =
      levels_edits-rest set.file_meta set.next_file_id set.levels empty tidy.levels_good
        (omega arith)

  same_levels : (apply_all (to_edits set) empty).levels ≡ set.levels
  same_levels =
      levels_eq (apply_all (to_edits set) empty).next_file_id set.next_file_id
        (apply_all (to_edits set) empty).levels set.levels replayed-IsTidy.levels_ascend
        tidy.levels_ascend replayed-IsTidy.levels_good tidy.levels_good
        λ level file_id.
          ap (λ s. member level file_id s.levels) replayed
          ∙ member-levels_edits level file_id set.file_meta set.levels empty tidy.levels_ascend
          ∙ or_else-member_nil level file_id (member level file_id set.levels)

  same_dropped : (apply_all (to_edits set) empty).dropped ≡ set.dropped
  same_dropped =
      eq_of_lookup (apply_all (to_edits set) empty).dropped set.dropped
        replayed-IsTidy.dropped_ascend tidy.dropped_ascend
        λ prefix.
          ap (λ s. lookup prefix s.dropped) replayed
          ∙ lookup-insert_all prefix set.dropped with_files.dropped
          ∙ ap (λ d. or_else (lookup prefix set.dropped) (lookup prefix d)) rest_of_files.0
          ∙ or_else-lookup_nil prefix (lookup prefix set.dropped)

  same_next : (apply_all (to_edits set) empty).next_file_id ≡ set.next_file_id
  same_next = ap (λ s. s.next_file_id) replayed ∙ omega (arith, rest_of_files.1)

  same_meta :
      (file_id : ℕ)
      → lookup file_id (apply_all (to_edits set) empty).file_meta
        ≡ kept_meta file_id set.file_meta (live file_id set.levels) none
  same_meta file_id =
      ap (λ s. lookup file_id s.file_meta) replayed
      ∙ meta-levels_edits file_id set.file_meta set.levels empty
      ∙ ap (λ o. kept_meta file_id set.file_meta (live file_id set.levels) o) (lookup_nil file_id)

-- For a version set that was built from edits, the replay of to_edits gives the same levels,
-- dropped prefixes and next file id; the metadata of each live file is that of the set, or empty
-- if it has none, and no other file has any.
pub applied-to_edits :
    (edits : List VersionEdit) (set : VersionSet) (file_id : ℕ)
    → set ≡ applied edits empty
    → ((applied (to_edits set) empty).levels ≡ set.levels)
      × ((applied (to_edits set) empty).dropped ≡ set.dropped)
      × ((applied (to_edits set) empty).next_file_id ≡ set.next_file_id)
      × (lookup file_id (applied (to_edits set) empty).file_meta ≡ (elim (live file_id set.levels) [
        | none ↦ none
        | some u ↦ some (metadata_or_empty file_id set.file_meta)
      ]))
unfolding applied rebuild_indexes
applied-to_edits edits set file_id e =
    let tidy : IsTidy set =
      subst (λ s. IsTidy s) (sym e)
        (rebuild_indexes-IsTidy _ (apply_all-IsTidy edits empty empty-IsTidy)) in
    (same_levels set tidy, same_dropped set tidy, same_next set tidy, same_meta set tidy file_id)
