-- ===== src/Engine/Compaction/Choice.antt =====
-- The file that a level gives up: one with the smallest overlap ratio, and the oldest of these.
use hat_p.Prelude.{
  ℕ, suc, ◌*◌, ◌≤◌, ◌<◌, ◌≡◌, refl, subst, ◌⊎◌, inl, inr, Bool, true, false, some, List, [], ◌∷◌,
  arith, if◌then◌else◌,
}
use hat_p.Engine.Memtable.{usize_max}
use hat_p.Engine.Compaction.Ratio.{sum_bytes, IsBelow, overlap_ratio-lt_iff}
use hat_p.Engine.Compaction.{FileMeta, overlap_ratio, at_or_before, choose_from, choose_min_overlap}
use hat_p.Engine.Compaction.Hull.{Held}
use hat_p.Engine.Compaction.Inputs.{choose_min_overlap-Held}

-- The first file has the smaller ratio, or the same and is not younger.
abbrev pub Precedes : List FileMeta → FileMeta → FileMeta → Type 0
Precedes target file other =
    (overlap_ratio file target < overlap_ratio other target)
    ⊎ ((overlap_ratio file target ≡ overlap_ratio other target)
        × (file.created_at ≤ other.created_at))

Precedes-refl : (target : List FileMeta) (a : FileMeta) → Precedes target a a
Precedes-refl target a = inr (refl, omega arith)

Precedes-trans :
    (target : List FileMeta) (a b c : FileMeta)
    → Precedes target a b
    → Precedes target b c
    → Precedes target a c
Precedes-trans target a b c h k = ground arith

at_or_before-true :
    (target : List FileMeta) (a b : FileMeta) → at_or_before target a b ≡ true → Precedes target a b
unfolding at_or_before
at_or_before-true target a b h = ground arith

at_or_before-false :
    (target : List FileMeta) (a b : FileMeta)
    → at_or_before target a b ≡ false
    → Precedes target b a
unfolding at_or_before
at_or_before-false target a b h = ground arith

first_or_next-Precedes :
    (first : Bool) (target : List FileMeta) (file other : FileMeta)
    → at_or_before target file other ≡ first
    → Precedes target (if first then file else other) file
      × Precedes target (if first then file else other) other
first_or_next-Precedes true target file other e =
    (Precedes-refl target file, at_or_before-true target file other e)
first_or_next-Precedes false target file other e =
    (at_or_before-false target file other e, Precedes-refl target other)

choose_from-Precedes :
    (target : List FileMeta) (file : FileMeta) (files : List FileMeta) (f : FileMeta)
    → Held f (file ∷ files)
    → Precedes target (choose_from target file files) f
unfolding choose_from
choose_from-Precedes target file [] f (inl e) =
    subst (Precedes target file) e (Precedes-refl target file)
choose_from-Precedes target file [] f (inr h) = absurd h
choose_from-Precedes target file (other ∷ files) f h =
    let first = at_or_before target file other in
    let next = if first then file else other in
    let (before_file, before_other) = first_or_next-Precedes first target file other refl in
    let chosen = choose_from target next files in
    let least : Precedes target chosen next =
      choose_from-Precedes target next files next (inl refl) in
    elim h [
      | inl e ↦
          subst (Precedes target chosen) e
            (Precedes-trans target chosen next file least before_file)
      | inr (inl e) ↦
          subst (Precedes target chosen) e
            (Precedes-trans target chosen next other least before_other)
      | inr (inr m) ↦ choose_from-Precedes target next files f (inr m)
    ]

choose_min_overlap-Precedes :
    (source target : List FileMeta) (candidate : FileMeta)
    → choose_min_overlap source target ≡ some candidate
    → Held candidate source × ((f : FileMeta) → Held f source → Precedes target candidate f)
unfolding choose_min_overlap
choose_min_overlap-Precedes [] target candidate h = absurd (cc)
choose_min_overlap-Precedes (file ∷ source) target candidate h = (
  choose_min_overlap-Held (file ∷ source) target candidate h,
  λ f m.
      let e : choose_from target file source ≡ candidate = cc in
      subst (λ c. Precedes target c f) e (choose_from-Precedes target file source f m),
)

-- For every k, the first file is below k thousandths if the other one is.
abbrev pub AtMost : List FileMeta → FileMeta → FileMeta → Type 0
AtMost target file other = (k : ℕ) → IsBelow k other target → IsBelow k file target

Precedes-AtMost :
    (target : List FileMeta) (a b : FileMeta)
    → sum_bytes target * 1000 ≤ usize_max
    → Precedes target a b
    → AtMost target a b
Precedes-AtMost target a b s p k h =
    let r : overlap_ratio b target < k = (overlap_ratio-lt_iff k b target s).1 h in
    (overlap_ratio-lt_iff k a target s).0 (ground arith)

AtMost-ratio :
    (target : List FileMeta) (a b : FileMeta)
    → sum_bytes target * 1000 ≤ usize_max
    → AtMost target a b
    → overlap_ratio a target ≤ overlap_ratio b target
AtMost-ratio target a b s h =
    let k = suc (overlap_ratio b target) in
    let r : overlap_ratio a target < k =
      (overlap_ratio-lt_iff k a target s).1
        (h k ((overlap_ratio-lt_iff k b target s).0 (omega arith))) in
    omega arith

Precedes-older :
    (target : List FileMeta) (a b : FileMeta)
    → sum_bytes target * 1000 ≤ usize_max
    → Precedes target a b
    → AtMost target b a
    → a.created_at ≤ b.created_at
Precedes-older target a b s p h = ground (arith, AtMost-ratio target b a s h)

-- If the bytes of the target level, times 1000, fit in 64 bits, the file that choose_min_overlap
-- returns is one of the source level, and no file of the source level has a smaller overlap:
-- whenever the target bytes whose range meets that of some file are below k thousandths of the
-- size of this file, which counts as 1 at least, so it is with the returned file; and a file for
-- which the converse holds too, for every k, is not older than the returned one.
pub choose_min_overlap-AtMost :
    (source target : List FileMeta) (candidate : FileMeta)
    → sum_bytes target * 1000 ≤ usize_max
    → choose_min_overlap source target ≡ some candidate
    → Held candidate source
      × ((f : FileMeta)
          → Held f source
          → AtMost target candidate f
            × (AtMost target f candidate → candidate.created_at ≤ f.created_at))
choose_min_overlap-AtMost source target candidate s h =
    let (held, least) = choose_min_overlap-Precedes source target candidate h in
    (
      held,
      λ f m. (
        Precedes-AtMost target candidate f s (least f m),
        Precedes-older target candidate f s (least f m),
      ),
    )
