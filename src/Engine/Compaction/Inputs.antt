-- ===== src/Engine/Compaction/Inputs.antt =====
-- The inputs of a job: every file of the target level that overlaps what is moved there.
use hat_p.Prelude.{
  ℕ, zero, suc, ◌+◌, ◌-◌, ◌≤◌, ◌<◌, ◌≡◌, refl, ap, ◌∙◌, subst, ◌⊎◌, inl, inr, Bool, true, false,
  Option, none, some, List, [], ◌∷◌, ◌++◌, arith, ltb, leb, if◌then◌else◌, Bool-cases, length,
  bytes_ord,
}
use hat_p.Engine.Compaction.Hull.{
  Held, Listed, keep_if-Held, ids_of-Held, Listed-left, Listed-right, sort_ids-Listed, in_hull-Held,
}
use hat_p.Engine.Compaction.{
  FileMeta, overlaps, CompactionJob, MinOverlappingRatioPicker, files_at, ids_of, min_key_of,
  max_key_of, in_hull, build_l0_job, overlapping_with, choose_from, at_or_before,
  choose_min_overlap, level_capacity, level_job, pick_level, pick_inner,
}

-- Some files of the source level are moved to the next one: all of them if they are those of
-- level 0. They are inputs, and so is every file of the target level that overlaps one of them.
pub record Picked (files : List FileMeta) (job : CompactionJob) : Type 0 where
  pub chosen : List FileMeta
  pub some_file : 1 ≤ length chosen
  pub next_level : job.target_level ≡ job.source_level + 1
  pub from_source : (f : FileMeta) → Held f chosen → Held f (files_at job.source_level files)
  pub are_inputs : (f : FileMeta) → Held f chosen → Listed f.file_id job.inputs
  pub covers :
      (f g : FileMeta)
      → Held f chosen
      → Held g (files_at job.target_level files)
      → overlaps f g ≡ true
      → Listed g.file_id job.inputs
  pub whole_l0 : job.source_level ≡ 0 → chosen ≡ files_at 0 files

some_inj : (a b : CompactionJob) → some a ≡ some b → a ≡ b
some_inj a b e = cc

l0_job-Picked :
    (files l0 : List FileMeta) (job : CompactionJob)
    → l0 ≡ files_at 0 files
    → build_l0_job l0 (files_at 1 files) ≡ some job
    → Picked files job
unfolding build_l0_job
l0_job-Picked files [] job e h = absurd (cc)
l0_job-Picked files (file ∷ l0) job e h =
    let hull = in_hull (min_key_of file l0) (max_key_of file l0) (files_at 1 files) in
    let ids = ids_of (file ∷ l0) ++ ids_of hull in
    subst (Picked files) (some_inj _ job h) (record {
      chosen = file ∷ l0;
      some_file = omega arith;
      next_level = refl;
      from_source = λ f m. subst (Held f) e m;
      are_inputs = λ f m.
          sort_ids-Listed f.file_id ids (
            Listed-left f.file_id (ids_of (file ∷ l0)) (ids_of hull) (ids_of-Held (file ∷ l0) f m));
      covers = λ f g m n o. sort_ids-Listed g.file_id ids (
          Listed-right g.file_id (ids_of (file ∷ l0)) (ids_of hull)
            (ids_of-Held hull g (in_hull-Held file l0 (files_at 1 files) f g m n o)));
      whole_l0 = λ z. e;
    })

first_or_next :
    (first : Bool) (target : List FileMeta) (file other : FileMeta) (files : List FileMeta)
    → Held
        (choose_from target (if first then file else other) files)
        ((if first then file else other) ∷ files)
    → Held (choose_from target (if first then file else other) files) (file ∷ other ∷ files)
first_or_next true target file other files (inl e) = inl e
first_or_next true target file other files (inr h) = inr (inr h)
first_or_next false target file other files h = inr h

choose_from-Held :
    (target : List FileMeta) (file : FileMeta) (files : List FileMeta)
    → Held (choose_from target file files) (file ∷ files)
unfolding choose_from
choose_from-Held target file [] = inl refl
choose_from-Held target file (other ∷ files) =
    let first = at_or_before target file other in
    first_or_next first target file other files
      (choose_from-Held target (if first then file else other) files)

pub choose_min_overlap-Held :
    (source target : List FileMeta) (candidate : FileMeta)
    → choose_min_overlap source target ≡ some candidate
    → Held candidate source
unfolding choose_min_overlap
choose_min_overlap-Held [] target candidate h = absurd (cc)
choose_min_overlap-Held (file ∷ source) target candidate h =
    let e : choose_from target file source ≡ candidate = cc in
    subst (λ f. Held f (file ∷ source)) e (choose_from-Held target file source)

level_job-Picked :
    (max_level level : ℕ) (files : List FileMeta) (candidate : FileMeta)
    → 0 < level
    → Held candidate (files_at level files)
    → Picked files (level_job max_level level candidate (files_at (level + 1) files))
unfolding level_job overlapping_with
level_job-Picked max_level level files candidate p h =
    let target = files_at (level + 1) files in
    let ids = candidate.file_id ∷ ids_of (overlapping_with candidate target) in
    record {
      chosen = candidate ∷ [];
      some_file = omega arith;
      next_level = refl;
      from_source = λ f m. elim m [
        | inl e ↦ subst (λ x. Held x (files_at level files)) e h
        | inr n ↦ absurd n
      ];
      are_inputs = λ f m. elim m [
        | inl e ↦ sort_ids-Listed f.file_id ids (inl (ap (λ x. x.file_id) e))
        | inr n ↦ absurd n
      ];
      covers = λ f g m n o. elim m [
        | inl e ↦ sort_ids-Listed g.file_id ids (
            inr (
              ids_of-Held _ g
                (keep_if-Held (overlaps candidate) target g n (ap (λ x. overlaps x g) e ∙ o))))
        | inr k ↦ absurd k
      ];
      whole_l0 = λ z. absurd (omega arith);
    }

-- The branches of one round of the loop.
level_round :
    (full_level : Bool) (choice : Option FileMeta) (make : FileMeta → CompactionJob)
    (later : Option CompactionJob) (job : CompactionJob)
    → (if full_level
        then (elim choice [ none ↦ later | some candidate ↦ some (make candidate) ])
        else later)
      ≡ some job
    → (later ≡ some job)
      ⊎ ((candidate : FileMeta) × (choice ≡ some candidate) × (make candidate ≡ job))
level_round false choice make later job h = inl h
level_round true none make later job h = inl h
level_round true (some candidate) make later job h =
    inr (candidate, refl, some_inj (make candidate) job h)

pick_level-Picked :
    (picker : MinOverlappingRatioPicker) (files : List FileMeta) (count level : ℕ)
    (job : CompactionJob)
    → 0 < level
    → pick_level picker files count level ≡ some job
    → Picked files job
unfolding pick_level
pick_level-Picked picker files zero level job p h = absurd (cc)
pick_level-Picked picker files (suc count) level job p h =
    let source = files_at level files in
    let target = files_at (level + 1) files in
    elim (level_round (ltb (level_capacity level picker.policy) (length source))
      (choose_min_overlap source target)
      (λ candidate. level_job picker.max_level level candidate target)
      (pick_level picker files count (level + 1)) job h) [
        | inl later ↦ pick_level-Picked picker files count (level + 1) job (omega arith) later
        | inr (candidate, c, e) ↦ subst (Picked files) e (
            level_job-Picked picker.max_level level files candidate p
              (choose_min_overlap-Held source target candidate c))
      ]

-- A job that pick_inner returns moves files of one level to the next, all of them if they are
-- those of level 0. Its inputs contain these files and every file of the target level that
-- overlaps one of them.
pub pick_inner-Picked :
    (picker : MinOverlappingRatioPicker) (files : List FileMeta) (job : CompactionJob)
    → pick_inner picker files ≡ some job
    → Picked files job
unfolding pick_inner
pick_inner-Picked picker files job h =
    elim (Bool-cases (leb picker.l0_trigger (length (files_at 0 files)))) [
      | inl e ↦ l0_job-Picked files (files_at 0 files) job refl (ground (arith, h, e))
      | inr e ↦
          pick_level-Picked picker files (picker.max_level - 1) 1 job (omega arith)
            (ground (arith, h, e))
    ]
