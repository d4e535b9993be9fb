-- ===== src/Engine/KeyIndex/Search.antt =====
-- The binary search of a built index, over rows in key order with any number of versions of a key.
use hat_p.Prelude.{
  ℕ, zero, suc, ◌+◌, ◌-◌, ◌/◌, ◌^◌, ◌≤◌, ◌<◌, Ordering, ◌≡◌, refl, ap, ◌∙◌, subst, ◌≢◌, ◌⊎◌, inl,
  inr, Option, none, some, List, [], ◌∷◌, arith, Bytes, length, get_elem?, All, Any, lt_or_le,
}
use hat_p.Engine.KeyIndex.{get, from_rows, bytes_ord, KeyIndex, search_loop}
use Prim.Native.Nat.Ordering.{lt, eq, gt}
use hat_p.Engine.Version.{VersionedValue}
use hat_p.Engine.Memtable.{VersionedRow}
use hat_p.Engine.KeyIndex.Entries.{
  some_inj, length-index_bytes, index_bytes, Fits, from_rows-parts, from_rows-ReadsAs, stored,
  ReadsAs,
}

-- `a` is no greater than `b`.
abbrev NotAfter : Bytes → Bytes → Type 0
NotAfter a b = bytes_ord.cmp a b ≢ gt

abbrev pub KeysAscend : List VersionedRow → Type 0
KeysAscend [] = Unit
KeysAscend (row ∷ rows) = All (λ r. bytes_ord.cmp row.key r.key ≢ gt) rows × KeysAscend rows

-- `none`: no row has the key. `some`: the version of a row with the key.
abbrev pub Answers : Bytes → List VersionedRow → Option VersionedValue → Type 0
Answers key rows none = All (λ row. row.key ≢ key) rows
Answers key rows (some version) = Any (λ row. (row.key ≡ key) × (stored row ≡ version)) rows

All-get_elem :
    (P : VersionedRow → Type 0) (rows : List VersionedRow) (i : ℕ) (row : VersionedRow)
    → All P rows
    → get_elem? rows i ≡ some row
    → P row
All-get_elem P [] i row h e = absurd (cc)
All-get_elem P (x ∷ rows) zero row (p, h) e = subst P (cc) p
All-get_elem P (x ∷ rows) (suc i) row (p, h) e = All-get_elem P rows i row h e

Any-get_elem :
    (P : VersionedRow → Type 0) (rows : List VersionedRow) (i : ℕ) (row : VersionedRow)
    → P row
    → get_elem? rows i ≡ some row
    → Any P rows
Any-get_elem P [] i row p e = absurd (cc)
Any-get_elem P (x ∷ rows) zero row p e = inl (subst P (cc) p)
Any-get_elem P (x ∷ rows) (suc i) row p e = inr (Any-get_elem P rows i row p e)

All-intro :
    (P : VersionedRow → Type 0) (rows : List VersionedRow)
    → ((i : ℕ) (row : VersionedRow) → get_elem? rows i ≡ some row → P row)
    → All P rows
All-intro P [] h = tt
All-intro P (x ∷ rows) h = (h 0 x refl, All-intro P rows λ i row e. h (suc i) row e)

KeysAscend-get_elem :
    (rows : List VersionedRow) (i j : ℕ) (a b : VersionedRow)
    → KeysAscend rows
    → i < j
    → get_elem? rows i ≡ some a
    → get_elem? rows j ≡ some b
    → bytes_ord.cmp a.key b.key ≢ gt
KeysAscend-get_elem [] i j a b h l p q = absurd (cc)
KeysAscend-get_elem (x ∷ rows) i zero a b h l p q = absurd (omega arith)
KeysAscend-get_elem (x ∷ rows) zero (suc j) a b (first, h) l p q =
    subst (λ (r : VersionedRow). bytes_ord.cmp r.key b.key ≢ gt) (some_inj p)
      (All-get_elem (λ r. bytes_ord.cmp x.key r.key ≢ gt) rows j b first q)
KeysAscend-get_elem (x ∷ rows) (suc i) (suc j) a b (first, h) l p q =
    KeysAscend-get_elem rows i j a b h (omega arith) p q

get_elem_of_lt :
    (rows : List VersionedRow) (i : ℕ)
    → i < length rows
    → (row : VersionedRow) × (get_elem? rows i ≡ some row)
get_elem_of_lt [] i h = absurd (omega arith)
get_elem_of_lt (x ∷ rows) zero h = (x, refl)
get_elem_of_lt (x ∷ rows) (suc i) h = get_elem_of_lt rows i (omega arith)

outside :
    (rows : List VersionedRow) (i : ℕ) (row : VersionedRow)
    → length rows ≤ i
    → get_elem? rows i ≢ some row
outside [] i row h e = cc
outside (x ∷ rows) zero row h e = omega arith
outside (x ∷ rows) (suc i) row h e = outside rows i row (omega arith) e

-- Rows on either side of one that does not have the key.
below-lt :
    (a b key : Bytes) → bytes_ord.cmp a b ≢ gt → bytes_ord.cmp b key ≡ lt → bytes_ord.cmp a key ≡ lt
below-lt a b key h l = ground (arith, bytes_ord.cmp_trans a b key, bytes_ord.eq_of_cmp a b)

above-gt :
    (a b key : Bytes) → bytes_ord.cmp a b ≢ gt → bytes_ord.cmp a key ≡ gt → bytes_ord.cmp b key ≡ gt
above-gt a b key h g = ground (
  arith,
  bytes_ord.cmp_reversed a key,
  bytes_ord.cmp_reversed b key,
  bytes_ord.cmp_trans key a b,
  bytes_ord.eq_of_cmp a b,
)

same_elem :
    (rows : List VersionedRow) (i j : ℕ) (a b : VersionedRow)
    → get_elem? rows i ≡ some a
    → get_elem? rows j ≡ some b
    → i ≡ j
    → a ≡ b
same_elem rows i j a b p q e = cc

Ordering-cases : (o : Ordering) → (o ≡ lt) ⊎ (o ≡ eq) ⊎ (o ≡ gt)
Ordering-cases lt = inl refl
Ordering-cases eq = inr (inl refl)
Ordering-cases gt = inr (inr refl)

ne_of_lt : (a key : Bytes) → bytes_ord.cmp a key ≡ lt → a ≢ key
ne_of_lt a key h e = ground (arith, bytes_ord.cmp_refl key, ap (λ k. bytes_ord.cmp k key) e)

ne_of_gt : (a key : Bytes) → bytes_ord.cmp a key ≡ gt → a ≢ key
ne_of_gt a key h e = ground (arith, bytes_ord.cmp_refl key, ap (λ k. bytes_ord.cmp k key) e)

module _ (rows : List VersionedRow) (index : KeyIndex) (key : Bytes) where
  abbrev Before : ℕ → Type 0
  Before lo =
      (i : ℕ) (row : VersionedRow)
      → i < lo
      → get_elem? rows i ≡ some row
      → bytes_ord.cmp row.key key ≡ lt

  abbrev From : ℕ → Type 0
  From hi =
      (i : ℕ) (row : VersionedRow)
      → hi ≤ i
      → get_elem? rows i ≡ some row
      → bytes_ord.cmp row.key key ≡ gt

  abbrev Found : Option (Option VersionedValue) → Type 0
  Found outcome = (r : Option VersionedValue) × (outcome ≡ some r) × Answers key rows r

  absent : (lo hi : ℕ) → hi ≤ lo → Before lo → From hi → All (λ row. row.key ≢ key) rows
  absent lo hi h b f =
      All-intro (λ row. row.key ≢ key) rows
        λ i row e. elim (lt_or_le i lo) [
          | inl l ↦ ne_of_lt row.key key (b i row l e)
          | inr g ↦ ne_of_gt row.key key (f i row (omega arith) e)
        ]

  search_loop-suc :
      (fuel lo hi offset : ℕ) (row : VersionedRow)
      → lo < hi
      → get_elem? index.offsets (lo + (hi - lo) / 2) ≡ some offset
      → ReadsAs index.data_bytes offset row
      → search_loop (suc fuel) index key lo hi ≡ elim (bytes_ord.cmp row.key key) [
        | lt ↦ search_loop fuel index key (lo + (hi - lo) / 2 + 1) hi
        | gt ↦ search_loop fuel index key lo (lo + (hi - lo) / 2)
        | eq ↦ some (some (stored row))
      ]
  unfolding search_loop
  search_loop-suc fuel lo hi offset row h e (k, v) = ground arith

  search_loop_end : (fuel lo hi : ℕ) → hi ≤ lo → search_loop (suc fuel) index key lo hi ≡ some none
  unfolding search_loop
  search_loop_end fuel lo hi h = ground arith

  abbrev Readable : Type 0
  Readable =
      (i : ℕ) (row : VersionedRow)
      → get_elem? rows i ≡ some row
      → (offset : ℕ) × (get_elem? index.offsets i ≡ some offset)
        × ReadsAs index.data_bytes offset row

  module _ (asc : KeysAscend rows) (reads : Readable) where
    below_mid :
        (mid : ℕ) (row : VersionedRow)
        → get_elem? rows mid ≡ some row
        → bytes_ord.cmp row.key key ≡ lt
        → Before (mid + 1)
    below_mid mid row e l i r h d = elim (lt_or_le i mid) [
      | inl before ↦
          below-lt r.key row.key key (KeysAscend-get_elem rows i mid r row asc before d e) l
      | inr after ↦
          subst (λ (r : VersionedRow). bytes_ord.cmp r.key key ≡ lt)
            (same_elem rows mid i row r e d (omega arith)) l
    ]

    above_mid :
        (mid : ℕ) (row : VersionedRow)
        → get_elem? rows mid ≡ some row
        → bytes_ord.cmp row.key key ≡ gt
        → From mid
    above_mid mid row e g i r h d = elim (lt_or_le mid i) [
      | inl after ↦
          above-gt row.key r.key key (KeysAscend-get_elem rows mid i row r asc after e d) g
      | inr before ↦
          subst (λ (r : VersionedRow). bytes_ord.cmp r.key key ≡ gt)
            (same_elem rows mid i row r e d (omega arith)) g
    ]

    search_loop-Answers :
        (fuel lo hi : ℕ)
        → hi - lo < fuel
        → hi ≤ length rows
        → Before lo
        → From hi
        → Found (search_loop fuel index key lo hi)
    search_loop-Answers zero lo hi h n b f = absurd (omega arith)
    search_loop-Answers (suc fuel) lo hi h n b f = elim (lt_or_le lo hi) [
      | inr done ↦ (none, search_loop_end fuel lo hi done, absent lo hi done b f)
      | inl more ↦
          let mid : ℕ = lo + (hi - lo) / 2 in
          let (row, e) = get_elem_of_lt rows mid (omega arith) in
          let (offset, found, r) = reads mid row e in
          let branch : (o p : Ordering) → o ≡ p → _ = λ o p q.
            ap
              (λ o. elim o [
                | lt ↦ search_loop fuel index key (mid + 1) hi
                | gt ↦ search_loop fuel index key lo mid
                | eq ↦ some (some (stored row))
              ])
              q in
          let step = search_loop-suc fuel lo hi offset row more found r in
          elim (Ordering-cases (bytes_ord.cmp row.key key)) [
            | inl l ↦
                let (answer, run, good) =
                  search_loop-Answers fuel (mid + 1) hi (omega arith) n (below_mid mid row e l) f in
                (answer, step ∙ branch (bytes_ord.cmp row.key key) lt l ∙ run, good)
            | inr (inl same) ↦ (
              some (stored row),
              step ∙ branch (bytes_ord.cmp row.key key) eq same,
              Any-get_elem _ rows mid row (bytes_ord.eq_of_cmp row.key key same, refl) e,
            )
            | inr (inr g) ↦
                let (answer, run, good) =
                  search_loop-Answers fuel lo mid (omega arith) (omega arith) b
                    (above_mid mid row e g) in
                (answer, step ∙ branch (bytes_ord.cmp row.key key) gt g ∙ run, good)
          ]
    ]

-- `get` with rows is the loop over all of them.
get-search_loop :
    (key : Bytes) (index : KeyIndex)
    → index.count ≢ 0
    → get key index ≡ search_loop (suc index.count) index key 0 index.count
unfolding get
get-search_loop key index h = ground arith

get_nothing : (key : Bytes) (index : KeyIndex) → index.count ≡ 0 → get key index ≡ some none
unfolding get
get_nothing key index h = ground arith

-- On an index built from rows in key order that fit, of less than 2^32 bytes in all, get returns
-- within its rounds and its reads stay in the buffer: nothing means that no row has the key, and
-- a version is that of some row with the key.
pub get-from_rows :
    (key : Bytes) (rows : List VersionedRow)
    → KeysAscend rows
    → All Fits rows
    → length (index_bytes rows) < 2 ^ 32
    → (answer : Option VersionedValue) × (get key (from_rows rows) ≡ some answer)
      × Answers key rows answer
get-from_rows key [] asc f small = (none, get_nothing key (from_rows []) (from_rows-parts []).2, tt)
get-from_rows key (row ∷ rows) asc f small =
    let all : List VersionedRow = row ∷ rows in
    let count : (from_rows all).count ≡ length all =
      (from_rows-parts all).2 ∙ omega (arith, length-index_bytes all) in
    let (answer, run, good) =
      search_loop-Answers all (from_rows all) key asc (from_rows-ReadsAs all f small)
        (suc (from_rows all).count) 0 (from_rows all).count (omega arith) (omega arith)
        (λ i r h e. absurd (omega arith)) (λ i r h e. absurd (outside all i r (omega arith) e)) in
    (answer, get-search_loop key (from_rows all) (λ e. omega arith) ∙ run, good)
