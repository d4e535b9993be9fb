-- ===== src/Tests/Compaction.antt =====
-- The picker at two files of level 0 and two of level 1, of which one overlaps.
use hat_p.Prelude.{ℕ, ◌≤◌, ◌≡◌, refl, some, List, [], ◌∷◌, arith}
use hat_p.Engine.Compaction.{
  choose_min_overlap, choose_from, at_or_before, overlap_ratio, overlapping_with, FileMeta,
  CompactionJob, l0_to_l1, lazy_leveling, MinOverlappingRatioPicker, pick_inner, keep_if, files_at,
  build_l0_job, min_key_of, max_key_of, in_hull, total_bytes, sort_ids, insert_id,
}
use hat_p.Engine.Compaction.Hull.{Held}
use hat_p.Engine.Compaction.Inputs.{Picked, pick_inner-Picked}
use hat_p.Engine.Compaction.Choice.{AtMost, choose_min_overlap-AtMost}

abbrev file : ℕ → ℕ → ℕ → ℕ → FileMeta
file file_id level low high = record {
  file_id = file_id;
  level = level;
  bytes = 100;
  min_key = low ∷ [];
  max_key = high ∷ [];
  created_at = 0;
}

abbrev four_files : List FileMeta
four_files = file 4 0 97 109 ∷ file 3 0 110 122 ∷ file 1 1 98 99 ∷ file 2 1 200 201 ∷ []

abbrev two_trigger : MinOverlappingRatioPicker
two_trigger = record { l0_trigger = 2; max_level = 6; policy = lazy_leveling }

abbrev l0_job : CompactionJob
l0_job = record {
  kind = l0_to_l1;
  source_level = 0;
  target_level = 1;
  inputs = 1 ∷ 3 ∷ 4 ∷ [];
  estimated_bytes = 300;
  priority = 2;
}

picks_l0 : pick_inner two_trigger four_files ≡ some l0_job
unfolding pick_inner keep_if files_at build_l0_job min_key_of max_key_of in_hull total_bytes
    sort_ids insert_id
picks_l0 = refl

pick_inner-Picked_example : Picked four_files l0_job
pick_inner-Picked_example = pick_inner-Picked two_trigger four_files l0_job picks_l0

-- The second file overlaps no file of the level below.
abbrev two_files : List FileMeta
two_files = file 5 1 1 2 ∷ file 6 1 3 4 ∷ []

abbrev below : List FileMeta
below = file 7 2 1 1 ∷ []

chooses_second : choose_min_overlap two_files below ≡ some (file 6 1 3 4)
unfolding choose_min_overlap choose_from at_or_before overlap_ratio total_bytes overlapping_with
    keep_if
chooses_second = refl

choose_min_overlap-AtMost_example :
    Held (file 6 1 3 4) two_files
    × ((f : FileMeta)
        → Held f two_files
        → AtMost below (file 6 1 3 4) f × (AtMost below f (file 6 1 3 4) → 0 ≤ f.created_at))
choose_min_overlap-AtMost_example =
    choose_min_overlap-AtMost two_files below (file 6 1 3 4) (omega arith) chooses_second
