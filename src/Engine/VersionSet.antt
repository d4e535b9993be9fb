-- ===== src/Engine/VersionSet.antt =====
-- `VersionEdit` and `VersionSet` (crates/hatp-engine/src/manifest.rs): which files are live, at
-- which level, and their key ranges. The laws are in the modules below.
pub mod Candidates
pub mod Rewrite
pub mod Snapshot
pub mod Tidy
use hat_p.Prelude.{
  ℕ, zero, suc, ◌+◌, ◌-◌, ◌*◌, ◌/◌, ◌%◌, ◌^◌, ◌≤◌, ◌<◌, compare, Ordering, ◌≡◌, refl, sym, ap, ◌∙◌,
  subst, fun_ext, ◌≢◌, ◌↔◌, ◌⊎◌, inl, inr, Bool, true, false, not, ◌&&◌, ◌||◌, Option, none, some,
  List, [], ◌∷◌, ◌++◌, map, arith, Ord, Bytes, ltb, leb, ◌==◌, if◌then◌else◌, ltb→lt, lt→ltb,
  leb→le, ==_iff, Bool-cases, Option-cases, length, take, drop, get_elem?, any, All, Any,
  length-append, bytes_eq, in_range, contains, set_insert, nat_ord, bytes_ord,
}
use Prim.Native.Nat.{min, max}
use Prim.Native.Nat.Ordering.{lt, eq, gt}
use hat_p.Prelude.Map.{Map, lookup, insert, remove, keys}
use hat_p.Engine.Memtable.{saturating_add}

pub data VersionEdit : Type 0 where
  add_file : (file_id level : ℕ) → (min_key max_key : Bytes) → (bytes created_at : ℕ) → VersionEdit
  delete_file : (file_id level : ℕ) → VersionEdit
  next_file_id_edit : ℕ → VersionEdit
  dropped_prefix : Bytes → VersionEdit
  undropped_prefix : Bytes → VersionEdit

-- `(Bytes, Bytes, u64, u64)`
pub record FileMetadata : Type 0 where
  pub min_key : Bytes
  pub max_key : Bytes
  pub bytes : ℕ
  pub created_at : ℕ

-- A `BTreeSet` is a `BTreeMap` to the unit type.
abbrev pub BTreeSet : Type 0 → Type 0
BTreeSet K = Map K (Unit {0})

pub record VersionSet : Type 0 where
  pub levels : Map ℕ (BTreeSet ℕ)
  pub file_meta : Map ℕ FileMetadata
  pub next_file_id : ℕ
  pub dropped : BTreeSet Bytes
  pub files_by_key : List (Bytes × ℕ)
  pub file_level : List (ℕ × ℕ)

-- `VersionSet::default`
abbrev pub empty : VersionSet
empty = record {
  levels = [];
  file_meta = [];
  next_file_id = 0;
  dropped = [];
  files_by_key = [];
  file_level = [];
}

-- `levels.entry(level).or_default()`
unfoldable pub files_at : ℕ → Map ℕ (BTreeSet ℕ) → BTreeSet ℕ
unfolding lookup
files_at level levels = elim (lookup level levels) [ none ↦ [] | some files ↦ files ]

-- `if files.is_empty() { self.levels.remove(&level) }`, behind the removal of the file
unfoldable pub put_files : ℕ → BTreeSet ℕ → Map ℕ (BTreeSet ℕ) → Map ℕ (BTreeSet ℕ)
unfolding insert remove
put_files level [] levels = remove level levels
put_files level (f ∷ files) levels = insert level (f ∷ files) levels

-- `if let Some(files) = levels.get_mut(&level) { .. }`
unfoldable pub remove_file : ℕ → ℕ → Map ℕ (BTreeSet ℕ) → Map ℕ (BTreeSet ℕ)
unfolding lookup remove put_files
remove_file file_id level levels = elim (lookup level levels) [
  | none ↦ levels
  | some files ↦ put_files level (remove file_id files) levels
]

unfoldable pub apply : VersionEdit → VersionSet → VersionSet
unfolding files_at remove_file insert remove
apply (add_file file_id level min_key max_key bytes created_at) set = record set {
  levels = insert level (insert file_id tt (files_at level set.levels)) set.levels;
  file_meta =
      insert file_id
        (record { min_key = min_key; max_key = max_key; bytes = bytes; created_at = created_at })
        set.file_meta;
  next_file_id = max set.next_file_id (saturating_add file_id 1);
}
apply (delete_file file_id level) set = record set {
  levels = remove_file file_id level set.levels;
  file_meta = remove file_id set.file_meta;
}
apply (next_file_id_edit file_id) set = record set { next_file_id = max set.next_file_id file_id }
apply (dropped_prefix prefix) set = record set { dropped = insert prefix tt set.dropped }
apply (undropped_prefix prefix) set = record set { dropped = remove prefix set.dropped }

-- `sort_by(|a, b| a.0.cmp(&b.0))`, a stable sort
unfoldable pub insert_by_key : Bytes × ℕ → List (Bytes × ℕ) → List (Bytes × ℕ)
insert_by_key file [] = file ∷ []
insert_by_key file (x ∷ files) =
    let rest = insert_by_key file files in
    elim (bytes_ord.cmp x.0 file.0) [ lt ↦ x ∷ rest | _ ↦ file ∷ x ∷ files ]

-- `file_meta.iter().map(|(id, (min_key, ..))| (min_key.clone(), *id))`, sorted
unfoldable pub files_by_key_of : Map ℕ FileMetadata → List (Bytes × ℕ)
unfolding insert_by_key
files_by_key_of [] = []
files_by_key_of ((file_id, meta) ∷ files) =
    insert_by_key (meta.min_key, file_id) (files_by_key_of files)

-- `sort_unstable_by_key(|(id, _)| *id)`; an id stands at one level only.
unfoldable pub insert_by_id : ℕ × ℕ → List (ℕ × ℕ) → List (ℕ × ℕ)
insert_by_id entry [] = entry ∷ []
insert_by_id entry (x ∷ entries) =
    let rest = insert_by_id entry entries in
    elim (compare x.0 entry.0) [ lt ↦ x ∷ rest | _ ↦ entry ∷ x ∷ entries ]

-- `files.iter().map(move |f| (*f, *level))`, before what follows
unfoldable pub level_entries : ℕ → BTreeSet ℕ → List (ℕ × ℕ) → List (ℕ × ℕ)
unfolding insert_by_id
level_entries level [] entries = entries
level_entries level ((file_id, u) ∷ files) entries =
    insert_by_id (file_id, level) (level_entries level files entries)

unfoldable pub file_level_of : Map ℕ (BTreeSet ℕ) → List (ℕ × ℕ)
unfolding level_entries
file_level_of [] = []
file_level_of ((level, files) ∷ levels) = level_entries level files (file_level_of levels)

unfoldable pub rebuild_indexes : VersionSet → VersionSet
unfolding files_by_key_of file_level_of
rebuild_indexes set = record set {
  files_by_key = files_by_key_of set.file_meta;
  file_level = file_level_of set.levels;
}

unfoldable pub apply_all : List VersionEdit → VersionSet → VersionSet
unfolding apply
apply_all [] set = set
apply_all (edit ∷ edits) set = apply_all edits (apply edit set)

unfoldable pub applied : List VersionEdit → VersionSet → VersionSet
unfolding apply_all rebuild_indexes
applied edits set = rebuild_indexes (apply_all edits set)

-- `min_key.as_ref() <= search_key`
abbrev pub not_after : Bytes → Bytes → Bool
not_after a b = elim (bytes_ord.cmp a b) [ gt ↦ false | _ ↦ true ]

-- `files_by_key[..idx]`, `idx` the partition point: on a sorted list, the files at the front that
-- start at or before the key.
unfoldable pub starting_by : Bytes → List (Bytes × ℕ) → List (Bytes × ℕ)
starting_by search_key [] = []
starting_by search_key ((min_key, file_id) ∷ files) =
    let rest = starting_by search_key files in
    if not_after min_key search_key then (min_key, file_id) ∷ rest else []

-- `max_key.is_empty() || max_key.as_ref() >= search_key`
abbrev pub may_reach : Bytes → Bytes → Bool
may_reach [] search_key = true
may_reach (b ∷ max_key) search_key = not_after search_key (b ∷ max_key)

-- The loop over the reversed slice: the last file comes first.
unfoldable pub collect_candidates : Bytes → Map ℕ FileMetadata → List (Bytes × ℕ) → List ℕ
unfolding lookup
collect_candidates search_key file_meta [] = []
collect_candidates search_key file_meta ((min_key, file_id) ∷ files) =
    collect_candidates search_key file_meta files ++ elim (lookup file_id file_meta) [
      | none ↦ []
      | some meta ↦ if may_reach meta.max_key search_key then file_id ∷ [] else []
    ]

unfoldable pub candidate_files : Bytes → VersionSet → List ℕ
unfolding starting_by collect_candidates
candidate_files search_key set =
    collect_candidates search_key set.file_meta (starting_by search_key set.files_by_key)

unfoldable pub files : ℕ → VersionSet → List ℕ
unfolding files_at
files level set = keys (files_at level set.levels)

-- `levels.values().flat_map(|files| files.iter().copied())`
unfoldable pub all_files : Map ℕ (BTreeSet ℕ) → List ℕ
all_files [] = []
all_files ((level, files) ∷ levels) = keys files ++ all_files levels

unfoldable pub file_ids : VersionSet → List ℕ
unfolding all_files
file_ids set = all_files set.levels

unfoldable pub file_metadata : ℕ → VersionSet → Option FileMetadata
unfolding lookup
file_metadata file_id set = lookup file_id set.file_meta

-- `file_meta.get(file_id).cloned().unwrap_or_else(..)`
unfoldable pub metadata_or_empty : ℕ → Map ℕ FileMetadata → FileMetadata
unfolding lookup
metadata_or_empty file_id file_meta = elim (lookup file_id file_meta) [
  | some meta ↦ meta
  | none ↦ record { min_key = []; max_key = []; bytes = 0; created_at = 0 }
]

abbrev pub add_edit : ℕ → ℕ → FileMetadata → VersionEdit
add_edit file_id level meta =
    add_file file_id level meta.min_key meta.max_key meta.bytes meta.created_at

unfoldable pub level_edits : ℕ → BTreeSet ℕ → Map ℕ FileMetadata → List VersionEdit
unfolding metadata_or_empty
level_edits level [] file_meta = []
level_edits level ((file_id, u) ∷ files) file_meta =
    add_edit file_id level (metadata_or_empty file_id file_meta) ∷ level_edits level files file_meta

unfoldable pub levels_edits : Map ℕ (BTreeSet ℕ) → Map ℕ FileMetadata → List VersionEdit
unfolding level_edits
levels_edits [] file_meta = []
levels_edits ((level, files) ∷ levels) file_meta =
    level_edits level files file_meta ++ levels_edits levels file_meta

unfoldable pub dropped_edits : BTreeSet Bytes → List VersionEdit
dropped_edits [] = []
dropped_edits ((prefix, u) ∷ dropped) = dropped_prefix prefix ∷ dropped_edits dropped

unfoldable pub to_edits : VersionSet → List VersionEdit
unfolding levels_edits dropped_edits
to_edits set =
    levels_edits set.levels set.file_meta
    ++ (next_file_id_edit set.next_file_id ∷ dropped_edits set.dropped)
