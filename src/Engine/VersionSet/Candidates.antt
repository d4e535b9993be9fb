-- ===== src/Engine/VersionSet/Candidates.antt =====
-- The files that `candidate_files` finds for a key.
use hat_p.Engine.VersionSet.{
  bytes_ord, FileMetadata, VersionSet, insert_by_key, files_by_key_of, rebuild_indexes, not_after,
  starting_by, may_reach, collect_candidates, candidate_files,
}
use hat_p.Prelude.{
  ℕ, ◌≡◌, refl, sym, ap, ◌∙◌, subst, ◌≢◌, inl, inr, true, Option, none, some, List, [], ◌∷◌, ◌++◌,
  arith, Bytes, if◌then◌else◌, All, Any, nat_ord,
}
use Prim.Native.Nat.Ordering.{lt}
use hat_p.Prelude.Map.{Map, lookup}

abbrev Listed : Bytes → ℕ → List (Bytes × ℕ) → Type 0
Listed min_key file_id files = Any (λ file. file ≡ (min_key, file_id)) files

-- Each file starts at or before those behind it.
abbrev SortedByKey : List (Bytes × ℕ) → Type 0
SortedByKey [] = Unit
SortedByKey (x ∷ files) = All (λ file. not_after x.0 file.0 ≡ true) files × SortedByKey files

Listed-insert_self :
    (min_key : Bytes) (file_id : ℕ) (files : List (Bytes × ℕ))
    → Listed min_key file_id (insert_by_key (min_key, file_id) files)
unfolding insert_by_key
Listed-insert_self min_key file_id [] = inl refl
Listed-insert_self min_key file_id (x ∷ files) =
    ground (arith, Listed-insert_self min_key file_id files)

Listed-insert :
    (min_key : Bytes) (file_id : ℕ) (file : Bytes × ℕ) (files : List (Bytes × ℕ))
    → Listed min_key file_id files
    → Listed min_key file_id (insert_by_key file files)
unfolding insert_by_key
Listed-insert min_key file_id file [] h = inr h
Listed-insert min_key file_id file (x ∷ files) h =
    ground (arith, Listed-insert min_key file_id file files)

Listed-files_by_key_of :
    (file_id : ℕ) (meta : FileMetadata) (files : Map ℕ FileMetadata)
    → lookup file_id files ≡ some meta
    → Listed meta.min_key file_id (files_by_key_of files)
unfolding files_by_key_of lookup
Listed-files_by_key_of file_id meta [] h = absurd (cc)
Listed-files_by_key_of file_id meta ((j, m) ∷ files) h = ground (
  arith,
  Listed-insert_self m.min_key j (files_by_key_of files),
  Listed-files_by_key_of file_id meta files,
  Listed-insert meta.min_key file_id (m.min_key, j) (files_by_key_of files),
)

pub not_after_trans :
    (a b c : Bytes) → not_after a b ≡ true → not_after b c ≡ true → not_after a c ≡ true
not_after_trans a b c h k =
    ground (arith, bytes_ord.cmp_trans a b c, bytes_ord.eq_of_cmp a b, bytes_ord.eq_of_cmp b c)

pub not_after_flip : (a b : Bytes) → bytes_ord.cmp a b ≢ lt → not_after b a ≡ true
not_after_flip a b h = ground (arith, bytes_ord.cmp_reversed a b)

All-not_after_trans :
    (a b : Bytes) (files : List (Bytes × ℕ))
    → not_after a b ≡ true
    → All (λ file. not_after b file.0 ≡ true) files
    → All (λ file. not_after a file.0 ≡ true) files
All-not_after_trans a b [] h k = tt
All-not_after_trans a b (x ∷ files) h (p, k) =
    (not_after_trans a b x.0 h p, All-not_after_trans a b files h k)

All-insert_by_key :
    (a : Bytes) (file : Bytes × ℕ) (files : List (Bytes × ℕ))
    → not_after a file.0 ≡ true
    → All (λ file. not_after a file.0 ≡ true) files
    → All (λ file. not_after a file.0 ≡ true) (insert_by_key file files)
unfolding insert_by_key
All-insert_by_key a file [] h k = (h, tt)
All-insert_by_key a file (x ∷ files) h k = ground (arith, All-insert_by_key a file files h)

insert_by_key-SortedByKey :
    (file : Bytes × ℕ) (files : List (Bytes × ℕ))
    → SortedByKey files
    → SortedByKey (insert_by_key file files)
unfolding insert_by_key
insert_by_key-SortedByKey file [] h = (tt, tt)
insert_by_key-SortedByKey file (x ∷ files) (first, h) = ground (
  arith,
  insert_by_key-SortedByKey file files h,
  All-insert_by_key x.0 file files,
  not_after_flip x.0 file.0,
  All-not_after_trans file.0 x.0 files,
)

files_by_key_of-SortedByKey : (files : Map ℕ FileMetadata) → SortedByKey (files_by_key_of files)
unfolding files_by_key_of
files_by_key_of-SortedByKey [] = tt
files_by_key_of-SortedByKey ((j, m) ∷ files) =
    insert_by_key-SortedByKey (m.min_key, j) (files_by_key_of files)
      (files_by_key_of-SortedByKey files)

All-Listed :
    (a min_key : Bytes) (file_id : ℕ) (files : List (Bytes × ℕ))
    → All (λ file. not_after a file.0 ≡ true) files
    → Listed min_key file_id files
    → not_after a min_key ≡ true
All-Listed a min_key file_id [] h l = absurd l
All-Listed a min_key file_id (x ∷ files) (p, h) (inl e) = subst (λ f. not_after a f.0 ≡ true) e p
All-Listed a min_key file_id (x ∷ files) (p, h) (inr l) = All-Listed a min_key file_id files h l

Listed-starting_by :
    (search_key min_key : Bytes) (file_id : ℕ) (files : List (Bytes × ℕ))
    → SortedByKey files
    → Listed min_key file_id files
    → not_after min_key search_key ≡ true
    → Listed min_key file_id (starting_by search_key files)
unfolding starting_by
Listed-starting_by search_key min_key file_id [] s l h = absurd l
Listed-starting_by search_key min_key file_id (x ∷ files) (first, s) (inl e) h = ground (arith)
Listed-starting_by search_key min_key file_id (x ∷ files) (first, s) (inr l) h = ground (
  arith,
  Listed-starting_by search_key min_key file_id files s l h,
  not_after_trans x.0 min_key search_key (All-Listed x.0 min_key file_id files first l) h,
)

Any-append_right :
    (file_id : ℕ) (xs ys : List ℕ) → Any (λ i. i ≡ file_id) ys → Any (λ i. i ≡ file_id) (xs ++ ys)
Any-append_right file_id [] ys h = h
Any-append_right file_id (x ∷ xs) ys h = inr (Any-append_right file_id xs ys h)

Any-append_left :
    (file_id : ℕ) (xs ys : List ℕ) → Any (λ i. i ≡ file_id) xs → Any (λ i. i ≡ file_id) (xs ++ ys)
Any-append_left file_id [] ys h = absurd h
Any-append_left file_id (x ∷ xs) ys (inl e) = inl e
Any-append_left file_id (x ∷ xs) ys (inr h) = inr (Any-append_left file_id xs ys h)

Any-collect_candidates :
    (search_key min_key : Bytes) (file_id : ℕ) (meta : FileMetadata)
    (file_meta : Map ℕ FileMetadata) (files : List (Bytes × ℕ))
    → Listed min_key file_id files
    → lookup file_id file_meta ≡ some meta
    → may_reach meta.max_key search_key ≡ true
    → Any (λ i. i ≡ file_id) (collect_candidates search_key file_meta files)
unfolding collect_candidates
Any-collect_candidates search_key min_key file_id meta file_meta [] l m h = absurd l
Any-collect_candidates search_key min_key file_id meta file_meta ((b, j) ∷ files) (inr l) m h =
    Any-append_left file_id (collect_candidates search_key file_meta files) _
      (Any-collect_candidates search_key min_key file_id meta file_meta files l m h)
Any-collect_candidates search_key min_key file_id meta file_meta ((b, j) ∷ files) (inl e) m h =
    Any-append_right file_id (collect_candidates search_key file_meta files) _
      (found (lookup j file_meta) (ap (λ i. lookup i file_meta) (ap (λ p. p.1) e) ∙ m))
  where
    found :
        (o : Option FileMetadata)
        → o ≡ some meta
        → Any
            (λ i. i ≡ file_id)
            (elim o [ none ↦ [] | some n ↦ if may_reach n.max_key search_key then j ∷ [] else [] ])
    found o k =
        subst
          (λ o.
            Any (λ i. i ≡ file_id)
              (elim o [
                | none ↦ []
                | some n ↦ if may_reach n.max_key search_key then j ∷ [] else []
              ]))
          (sym k)
          (subst (λ b. Any (λ i. i ≡ file_id) (if b then j ∷ [] else [])) (sym h)
            (inl (ap (λ p. p.1) e)))

-- After rebuild_indexes, candidate_files of a key contains every file whose metadata starts at
-- or before the key and whose last key is empty or at or behind the key.
pub candidate_files_complete :
    (search_key : Bytes) (file_id : ℕ) (meta : FileMetadata) (set : VersionSet)
    → lookup file_id set.file_meta ≡ some meta
    → not_after meta.min_key search_key ≡ true
    → may_reach meta.max_key search_key ≡ true
    → Any (λ i. i ≡ file_id) (candidate_files search_key (rebuild_indexes set))
unfolding candidate_files rebuild_indexes
candidate_files_complete search_key file_id meta set m low high =
    Any-collect_candidates search_key meta.min_key file_id meta set.file_meta
      (starting_by search_key (files_by_key_of set.file_meta))
      (Listed-starting_by search_key meta.min_key file_id (files_by_key_of set.file_meta)
        (files_by_key_of-SortedByKey set.file_meta)
        (Listed-files_by_key_of file_id meta set.file_meta m) low)
      m high
