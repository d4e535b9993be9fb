-- ===== src/Engine/Compaction/Ratio.antt =====
-- The overlap ratio in words of its own: the bytes of the target files whose key range meets that
-- of the candidate, in thousandths of the size of the candidate.
use hat_p.Prelude.{
  ℕ, ◌+◌, ◌*◌, ◌/◌, ◌≤◌, ◌<◌, ◌≡◌, sym, ap, ◌∙◌, subst, ◌↔◌, inl, inr, Bool, ◌&&◌, List, [], ◌∷◌,
  arith, if◌then◌else◌, Bool-cases,
}
use Prim.Native.Nat.{min, max}
use native.Mathlib.Nat.{div-lt_iff_lt-mul}
use hat_p.Engine.Memtable.{usize_max}
use hat_p.Engine.VersionSet.{not_after}
use hat_p.Engine.Compaction.{
  FileMeta, overlaps, keep_if, total_bytes, overlapping_with, overlap_ratio,
}

-- All bytes of a level.
abbrev pub sum_bytes : List FileMeta → ℕ
sum_bytes [] = 0
sum_bytes (file ∷ files) = file.bytes + sum_bytes files

-- The ranges of two files have a key in common.
abbrev pub meets : FileMeta → FileMeta → Bool
meets file other = not_after file.min_key other.max_key && not_after other.min_key file.max_key

-- The bytes that a compaction of the candidate has to rewrite in the target level.
unfoldable pub met_bytes : FileMeta → List FileMeta → ℕ
met_bytes candidate [] = 0
met_bytes candidate (file ∷ target) =
    (if meets candidate file then file.bytes else 0) + met_bytes candidate target

-- These bytes are below k thousandths of the size of the candidate, which counts as 1 at least.
abbrev pub IsBelow : ℕ → FileMeta → List FileMeta → Type 0
IsBelow k candidate target = met_bytes candidate target * 1000 < k * max candidate.bytes 1

total_bytes-met_bytes :
    (candidate : FileMeta) (target : List FileMeta) (total : ℕ)
    → total + sum_bytes target ≤ usize_max
    → total_bytes total (overlapping_with candidate target) ≡ total + met_bytes candidate target
unfolding total_bytes overlapping_with keep_if met_bytes
total_bytes-met_bytes candidate [] total h = omega arith
total_bytes-met_bytes candidate (file ∷ target) total h =
    elim (Bool-cases (overlaps candidate file)) [
      | inl e ↦ rw (e) (ground (arith, total_bytes-met_bytes candidate target (total + file.bytes)))
      | inr e ↦ rw (e) (ground (arith, total_bytes-met_bytes candidate target total))
    ]

met_bytes-le :
    (candidate : FileMeta) (target : List FileMeta) → met_bytes candidate target ≤ sum_bytes target
unfolding met_bytes
met_bytes-le candidate [] = omega arith
met_bytes-le candidate (file ∷ target) = ground (arith, met_bytes-le candidate target)

overlap_ratio_lem :
    (candidate : FileMeta) (target : List FileMeta)
    → sum_bytes target * 1000 ≤ usize_max
    → overlap_ratio candidate target ≡ met_bytes candidate target * 1000 / max candidate.bytes 1
unfolding overlap_ratio
overlap_ratio_lem candidate target h =
    ap (λ n. n / max candidate.bytes 1)
      (ap (λ n. min (n * 1000) usize_max) (total_bytes-met_bytes candidate target 0 (omega arith))
        ∙ omega (arith, met_bytes-le candidate target))

-- The ratio is less than k exactly if the bytes are below k thousandths of the size.
pub overlap_ratio-lt_iff :
    (k : ℕ) (candidate : FileMeta) (target : List FileMeta)
    → sum_bytes target * 1000 ≤ usize_max
    → (overlap_ratio candidate target < k) ↔ IsBelow k candidate target
overlap_ratio-lt_iff k candidate target h =
    subst (λ r. (r < k) ↔ IsBelow k candidate target) (sym (overlap_ratio_lem candidate target h))
      (div-lt_iff_lt-mul (omega arith))
