-- ===== src/Engine/Compaction/Hull.antt =====
-- The files and identifiers that a job lists, and the hull of the files of level 0.
use hat_p.Prelude.{
  ℕ, ◌≡◌, refl, ap, ◌∙◌, subst, ◌⊎◌, inl, inr, Bool, true, false, ◌&&◌, List, [], ◌∷◌, ◌++◌, arith,
  Bytes, leb, Bool-cases, Any, bytes_ord,
}
use hat_p.Engine.VersionSet.{not_after}
use hat_p.Engine.VersionSet.Candidates.{not_after_trans}
use hat_p.Engine.Compaction.{
  FileMeta, overlaps, keep_if, ids_of, insert_id, sort_ids, min_key_of, max_key_of, in_hull,
}

abbrev pub Held : FileMeta → List FileMeta → Type 0
Held f files = Any (λ file. file ≡ f) files

abbrev pub Listed : ℕ → List ℕ → Type 0
Listed id ids = Any (λ i. i ≡ id) ids

pub keep_if-Held :
    (test : FileMeta → Bool) (files : List FileMeta) (f : FileMeta)
    → Held f files
    → test f ≡ true
    → Held f (keep_if test files)
unfolding keep_if
keep_if-Held test [] f h t = absurd h
keep_if-Held test (x ∷ files) f (inl e) t = rw (ap test e ∙ t) (inl e)
keep_if-Held test (x ∷ files) f (inr h) t = elim (Bool-cases (test x)) [
  | inl e ↦ rw (e) (inr (keep_if-Held test files f h t))
  | inr e ↦ rw (e) (keep_if-Held test files f h t)
]

pub ids_of-Held :
    (files : List FileMeta) (f : FileMeta) → Held f files → Listed f.file_id (ids_of files)
ids_of-Held [] f h = absurd h
ids_of-Held (x ∷ files) f (inl e) = inl (ap (λ x. x.file_id) e)
ids_of-Held (x ∷ files) f (inr h) = inr (ids_of-Held files f h)

pub Listed-left : (id : ℕ) (xs ys : List ℕ) → Listed id xs → Listed id (xs ++ ys)
Listed-left id [] ys h = absurd h
Listed-left id (x ∷ xs) ys (inl e) = inl e
Listed-left id (x ∷ xs) ys (inr h) = inr (Listed-left id xs ys h)

pub Listed-right : (id : ℕ) (xs ys : List ℕ) → Listed id ys → Listed id (xs ++ ys)
Listed-right id [] ys h = h
Listed-right id (x ∷ xs) ys h = inr (Listed-right id xs ys h)

insert_id-Listed :
    (id i : ℕ) (ids : List ℕ) → (i ≡ id) ⊎ Listed id ids → Listed id (insert_id i ids)
unfolding insert_id
insert_id-Listed id i [] h = h
insert_id-Listed id i (x ∷ ids) h = elim (Bool-cases (leb i x)) [
  | inl e ↦ rw (e) h
  | inr e ↦ rw (e) (elim h [
    | inl g ↦ inr (insert_id-Listed id i ids (inl g))
    | inr (inl g) ↦ inl g
    | inr (inr g) ↦ inr (insert_id-Listed id i ids (inr g))
  ])
]

pub sort_ids-Listed : (id : ℕ) (ids : List ℕ) → Listed id ids → Listed id (sort_ids ids)
unfolding sort_ids
sort_ids-Listed id [] h = h
sort_ids-Listed id (x ∷ ids) (inl e) = insert_id-Listed id x (sort_ids ids) (inl e)
sort_ids-Listed id (x ∷ ids) (inr h) =
    insert_id-Listed id x (sort_ids ids) (inr (sort_ids-Listed id ids h))

not_after_refl : (a : Bytes) → not_after a a ≡ true
not_after_refl a = ground (arith, bytes_ord.cmp_refl a)

not_after_flip : (a b : Bytes) → not_after a b ≡ false → not_after b a ≡ true
not_after_flip a b h = ground (arith, bytes_ord.cmp_reversed a b)

min_key_of-ge :
    (file : FileMeta) (files : List FileMeta) (f : FileMeta)
    → Held f (file ∷ files)
    → not_after (min_key_of file files) f.min_key ≡ true
unfolding min_key_of
min_key_of-ge file [] f (inl e) = rw (ap (λ x. x.min_key) e) (not_after_refl f.min_key)
min_key_of-ge file [] f (inr h) = absurd h
min_key_of-ge file (other ∷ files) f h =
    elim (Bool-cases (not_after file.min_key (min_key_of other files))) [
      | inl e ↦ rw (e) (elim h [
        | inl g ↦ rw (ap (λ x. x.min_key) g) (not_after_refl f.min_key)
        | inr g ↦
            not_after_trans file.min_key (min_key_of other files) f.min_key e
              (min_key_of-ge other files f g)
      ])
      | inr e ↦ rw (e) (elim h [
        | inl g ↦
            subst (λ x. not_after (min_key_of other files) x ≡ true) (ap (λ x. x.min_key) g)
              (not_after_flip file.min_key (min_key_of other files) e)
        | inr g ↦ min_key_of-ge other files f g
      ])
    ]

max_key_of-le :
    (file : FileMeta) (files : List FileMeta) (f : FileMeta)
    → Held f (file ∷ files)
    → not_after f.max_key (max_key_of file files) ≡ true
unfolding max_key_of
max_key_of-le file [] f (inl e) = rw (ap (λ x. x.max_key) e) (not_after_refl f.max_key)
max_key_of-le file [] f (inr h) = absurd h
max_key_of-le file (other ∷ files) f h =
    elim (Bool-cases (not_after file.max_key (max_key_of other files))) [
      | inl e ↦ rw (e) (elim h [
        | inl g ↦ subst (λ x. not_after x (max_key_of other files) ≡ true) (ap (λ x. x.max_key) g) e
        | inr g ↦ max_key_of-le other files f g
      ])
      | inr e ↦ rw (e) (elim h [
        | inl g ↦ rw (ap (λ x. x.max_key) g) (not_after_refl f.max_key)
        | inr g ↦
            not_after_trans f.max_key (max_key_of other files) file.max_key
              (max_key_of-le other files f g)
              (not_after_flip file.max_key (max_key_of other files) e)
      ])
    ]

and_true : (a b : Bool) → (a && b) ≡ true → (a ≡ true) × (b ≡ true)
and_true true b h = (refl, h)
and_true false b h = absurd (cc)

pub in_hull-Held :
    (file : FileMeta) (l0 l1 : List FileMeta) (f g : FileMeta)
    → Held f (file ∷ l0)
    → Held g l1
    → overlaps f g ≡ true
    → Held g (in_hull (min_key_of file l0) (max_key_of file l0) l1)
unfolding in_hull
in_hull-Held file l0 l1 f g h k o =
    let (low, high) = and_true (not_after f.min_key g.max_key) (not_after g.min_key f.max_key) o in
    keep_if-Held _ l1 g k (
      rw
        (
          not_after_trans g.min_key f.max_key (max_key_of file l0) high (max_key_of-le file l0 f h),
          not_after_trans (min_key_of file l0) f.min_key g.max_key (min_key_of-ge file l0 f h) low,
        )
        refl)
