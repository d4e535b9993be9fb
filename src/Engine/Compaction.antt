-- ===== src/Engine/Compaction.antt =====
-- The choice of files to compact: crates/hatp-engine/src/compaction.rs. The map from levels to
-- files is `files_at`, with no files for a level that is not there. The laws are in the modules
-- below.
pub mod Hull
pub mod Inputs
pub mod Ratio
pub mod Choice
use hat_p.Prelude.{
  ℕ, zero, suc, ◌+◌, ◌-◌, ◌*◌, ◌/◌, ◌%◌, ◌^◌, ◌≤◌, ◌<◌, compare, Ordering, ◌≡◌, refl, sym, ap, ◌∙◌,
  subst, fun_ext, ◌≢◌, ◌↔◌, ◌⊎◌, inl, inr, Bool, true, false, not, ◌&&◌, ◌||◌, Option, none, some,
  List, [], ◌∷◌, ◌++◌, map, arith, Ord, Bytes, ltb, leb, ◌==◌, if◌then◌else◌, ltb→lt, lt→ltb,
  leb→le, ==_iff, Bool-cases, Option-cases, length, take, drop, get_elem?, any, All, Any,
  length-append, bytes_eq, in_range, contains, set_insert,
}
use hat_p.Prelude.Result.{ok, err}
use hat_p.Engine.Memtable.{usize_max, saturating_add}
use hat_p.Engine.VersionSet.{not_after}
use Prim.Native.Nat.{min, max}
use Prim.Native.Nat.Ordering.{lt, eq, gt}

pub data CompactionPolicy : Type 0 where
  leveled lazy_leveling tiered : CompactionPolicy

pub data CompactionLayout : Type 0 where
  leveled_layout lazy_leveling_layout tiered_layout : CompactionLayout

pub data CompactionKind : Type 0 where
  flush l0_to_l1 level_n_to_n1 bottom_most : CompactionKind

pub record FileMeta : Type 0 where
  pub file_id : ℕ
  pub level : ℕ
  pub bytes : ℕ
  pub min_key : Bytes
  pub max_key : Bytes
  pub created_at : ℕ

-- `self.min_key <= other.max_key && other.min_key <= self.max_key`
abbrev pub overlaps : FileMeta → FileMeta → Bool
overlaps file other = not_after file.min_key other.max_key && not_after other.min_key file.max_key

pub record CompactionJob : Type 0 where
  pub kind : CompactionKind
  pub source_level : ℕ
  pub target_level : ℕ
  pub inputs : List ℕ
  pub estimated_bytes : ℕ
  pub priority : ℕ

unfoldable pub cmp_job : CompactionJob → CompactionJob → Ordering
cmp_job job other = elim (compare job.priority other.priority) [
  | lt ↦ lt
  | gt ↦ gt
  | eq ↦ elim (compare other.estimated_bytes job.estimated_bytes) [
    | lt ↦ lt
    | gt ↦ gt
    | eq ↦ compare other.source_level job.source_level
  ]
]

pub record MinOverlappingRatioPicker : Type 0 where
  pub l0_trigger : ℕ
  pub max_level : ℕ
  pub policy : CompactionPolicy

-- `filter`
unfoldable pub keep_if : (FileMeta → Bool) → List FileMeta → List FileMeta
keep_if test [] = []
keep_if test (file ∷ files) =
    let rest = keep_if test files in if test file then file ∷ rest else rest

unfoldable pub files_at : ℕ → List FileMeta → List FileMeta
unfolding keep_if
files_at level files = keep_if (λ file. file.level == level) files

abbrev pub ids_of : List FileMeta → List ℕ
ids_of files = map (λ file. file.file_id) files

-- the folds with saturating_add
unfoldable pub total_bytes : ℕ → List FileMeta → ℕ
total_bytes total [] = total
total_bytes total (file ∷ files) = total_bytes (saturating_add total file.bytes) files

-- `sort_unstable` of numbers
unfoldable pub insert_id : ℕ → List ℕ → List ℕ
insert_id id [] = id ∷ []
insert_id id (other ∷ ids) =
    let rest = insert_id id ids in if leb id other then id ∷ other ∷ ids else other ∷ rest

unfoldable pub sort_ids : List ℕ → List ℕ
unfolding insert_id
sort_ids [] = []
sort_ids (id ∷ ids) = insert_id id (sort_ids ids)

unfoldable pub min_key_of : FileMeta → List FileMeta → Bytes
min_key_of file [] = file.min_key
min_key_of file (other ∷ files) =
    let rest = min_key_of other files in if not_after file.min_key rest then file.min_key else rest

unfoldable pub max_key_of : FileMeta → List FileMeta → Bytes
max_key_of file [] = file.max_key
max_key_of file (other ∷ files) =
    let rest = max_key_of other files in if not_after file.max_key rest then rest else file.max_key

-- The files of level 1 with keys between the smallest and the largest key of level 0.
unfoldable pub in_hull : Bytes → Bytes → List FileMeta → List FileMeta
unfolding keep_if
in_hull min_key max_key l1 =
    keep_if (λ file. not_after file.min_key max_key && not_after min_key file.max_key) l1

unfoldable pub build_l0_job : List FileMeta → List FileMeta → Option CompactionJob
unfolding min_key_of max_key_of in_hull total_bytes sort_ids
build_l0_job [] l1 = none
build_l0_job (file ∷ l0) l1 =
    let overlapping = in_hull (min_key_of file l0) (max_key_of file l0) l1 in
    some (record {
      kind = l0_to_l1;
      source_level = 0;
      target_level = 1;
      inputs = sort_ids (ids_of (file ∷ l0) ++ ids_of overlapping);
      estimated_bytes = total_bytes (total_bytes 0 (file ∷ l0)) overlapping;
      priority = length (file ∷ l0);
    })

unfoldable pub overlapping_with : FileMeta → List FileMeta → List FileMeta
unfolding keep_if
overlapping_with candidate target = keep_if (overlaps candidate) target

-- `saturating_mul(1_000)`, then `checked_div`, whose divisor is not 0
unfoldable pub overlap_ratio : FileMeta → List FileMeta → ℕ
unfolding total_bytes overlapping_with
overlap_ratio candidate target =
    min (total_bytes 0 (overlapping_with candidate target) * 1000) usize_max / max candidate.bytes 1

-- The order of `min_by`: whether the first file is at or before the second.
unfoldable pub at_or_before : List FileMeta → FileMeta → FileMeta → Bool
unfolding overlap_ratio
at_or_before target file other =
    elim (compare (overlap_ratio file target) (overlap_ratio other target)) [
      | lt ↦ true
      | gt ↦ false
      | eq ↦ leb file.created_at other.created_at
    ]

-- `min_by` returns the first of equal files.
unfoldable pub choose_from : List FileMeta → FileMeta → List FileMeta → FileMeta
unfolding at_or_before
choose_from target file [] = file
choose_from target file (other ∷ files) =
    choose_from target (if at_or_before target file other then file else other) files

unfoldable pub choose_min_overlap : List FileMeta → List FileMeta → Option FileMeta
unfolding choose_from
choose_min_overlap [] target = none
choose_min_overlap (file ∷ source) target = some (choose_from target file source)

unfoldable pub overlap_priority : FileMeta → List FileMeta → ℕ
unfolding total_bytes overlapping_with
overlap_priority candidate target = usize_max - total_bytes 0 (overlapping_with candidate target)

unfoldable pub level_capacity : ℕ → CompactionPolicy → ℕ
level_capacity level leveled = 1
level_capacity level lazy_leveling = if leb level 2 then 4 else 1
level_capacity level tiered = 4

-- The job of a level whose candidate was chosen.
unfoldable pub level_job : ℕ → ℕ → FileMeta → List FileMeta → CompactionJob
unfolding overlapping_with total_bytes sort_ids overlap_priority
level_job max_level level candidate target =
    let overlapping = overlapping_with candidate target in
    record {
      kind = if leb max_level (level + 1) then bottom_most else level_n_to_n1;
      source_level = level;
      target_level = level + 1;
      inputs = sort_ids (candidate.file_id ∷ ids_of overlapping);
      estimated_bytes = total_bytes candidate.bytes overlapping;
      priority = overlap_priority candidate target;
    }

-- `for level in 1..self.max_level`: `count` levels are left from `level` on.
unfoldable pub pick_level : MinOverlappingRatioPicker → List FileMeta → ℕ → ℕ → Option CompactionJob
unfolding files_at level_capacity choose_min_overlap level_job
pick_level picker files zero level = none
pick_level picker files (suc count) level =
    let later = pick_level picker files count (level + 1) in
    let source = files_at level files in
    let target = files_at (level + 1) files in
    if ltb (level_capacity level picker.policy) (length source)
    then (elim (choose_min_overlap source target) [
      | none ↦ later
      | some candidate ↦ some (level_job picker.max_level level candidate target)
    ])
    else later

unfoldable pub pick_inner : MinOverlappingRatioPicker → List FileMeta → Option CompactionJob
unfolding files_at build_l0_job pick_level
pick_inner picker files =
    let l0 = files_at 0 files in
    if leb picker.l0_trigger (length l0)
    then build_l0_job l0 (files_at 1 files)
    else pick_level picker files (picker.max_level - 1) 1

unfoldable pub layout : MinOverlappingRatioPicker → ℕ → CompactionLayout
layout picker level = if level == 0 then tiered_layout else (elim picker.policy [
  | leveled ↦ leveled_layout
  | lazy_leveling ↦ lazy_leveling_layout
  | tiered ↦ tiered_layout
])

pub record TieredPicker : Type 0 where
  pub l0_trigger : ℕ
  pub leveled_from_level : ℕ
  pub max_level : ℕ

unfoldable pub pick_tiered : TieredPicker → List FileMeta → Option CompactionJob
unfolding pick_inner
pick_tiered picker files =
    pick_inner
      (record { l0_trigger = picker.l0_trigger; max_level = picker.max_level; policy = tiered })
      files

unfoldable pub tiered_layout_at : TieredPicker → ℕ → CompactionLayout
tiered_layout_at picker level =
    if (level == 0) || ltb level picker.leveled_from_level then tiered_layout else leveled_layout
