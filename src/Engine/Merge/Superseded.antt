-- ===== src/Engine/Merge/Superseded.antt =====
-- What `dedup_superseded` keeps: every write that a snapshot at or above the watermark sees.
use hat_p.Engine.Merge.Newest.{
  insert_visible-newest, seen_rows, newer-none, newer, newest, write_at,
}
use hat_p.Engine.Merge.{
  insert_visible, bytes_ord, keep_newest, dedup_superseded, keep_visible, cmp_rows, insert_sorted,
  sort, same_version, dedup_after, dedup,
}
use hat_p.Prelude.{
  ℕ, ◌≤◌, ◌<◌, ◌≡◌, refl, sym, ap, ◌∙◌, subst, ◌≢◌, ◌⊎◌, inl, inr, true, false, ◌&&◌, Option, none,
  some, List, [], ◌∷◌, arith, Bytes, leb, if◌then◌else◌, All, bytes_eq, bytes_eq_refl,
  eq_of_bytes_eq,
}
use hat_p.Engine.Version.Visible.{write_of, Write, map_write}
use hat_p.Prelude.Map.{lookup}
use hat_p.Engine.Version.{open_ended_ts}
use Prim.Native.Nat.Ordering.{lt, gt}
use hat_p.Engine.Memtable.{VersionedRow}

-- `rows` come behind `prev` in the order of `cmp_rows`.
abbrev Sorted : VersionedRow → List VersionedRow → Type 0
Sorted prev [] = Unit
Sorted prev (row ∷ rows) = (cmp_rows prev row ≢ gt) × Sorted row rows

abbrev IsSorted : List VersionedRow → Type 0
IsSorted [] = Unit
IsSorted (row ∷ rows) = Sorted row rows

-- Behind `key` and `begin`: no row of an earlier key, and of `key` older versions only.
abbrev Older : Bytes → ℕ → List VersionedRow → Type 0
Older key begin [] = Unit
Older key begin (row ∷ rows) =
    ((bytes_ord.cmp key row.key ≡ lt) ⊎ ((key ≡ row.key) × (row.version.begin_ts < begin)))
    × Older row.key row.version.begin_ts rows

cmp_rows_flip : (x row : VersionedRow) → cmp_rows x row ≢ lt → cmp_rows row x ≢ gt
cmp_rows_flip x row h = ground (arith, bytes_ord.cmp_reversed x.key row.key)

insert_sorted-Sorted :
    (prev row : VersionedRow) (rows : List VersionedRow)
    → Sorted prev rows
    → cmp_rows prev row ≢ gt
    → Sorted prev (insert_sorted row rows)
unfolding insert_sorted
insert_sorted-Sorted prev row [] h p = (p, tt)
insert_sorted-Sorted prev row (x ∷ rows) h p =
    ground (arith, cmp_rows_flip x row, insert_sorted-Sorted x row rows)

insert_sorted-IsSorted :
    (row : VersionedRow) (rows : List VersionedRow)
    → IsSorted rows
    → IsSorted (insert_sorted row rows)
unfolding insert_sorted
insert_sorted-IsSorted row [] h = tt
insert_sorted-IsSorted row (x ∷ rows) h =
    ground (arith, cmp_rows_flip x row, insert_sorted-Sorted x row rows)

sort-IsSorted : (rows : List VersionedRow) → IsSorted (sort rows)
unfolding sort
sort-IsSorted [] = tt
sort-IsSorted (row ∷ rows) = insert_sorted-IsSorted row (sort rows) (sort-IsSorted rows)

module _ (key : Bytes) (snapshot : ℕ) where
  newer-swap :
      (x row : VersionedRow) (rest : Option Write)
      → cmp_rows x row ≡ lt
      → newer (write_at key snapshot x) (newer (write_at key snapshot row) rest)
        ≡ newer (write_at key snapshot row) (newer (write_at key snapshot x) rest)
  unfolding newer
  newer-swap x row none h =
      ground (arith, eq_of_bytes_eq key x.key, eq_of_bytes_eq key row.key, bytes_ord.cmp_refl key)
  newer-swap x row (some w) h =
      ground (arith, eq_of_bytes_eq key x.key, eq_of_bytes_eq key row.key, bytes_ord.cmp_refl key)

  newest-insert_sorted :
      (row : VersionedRow) (rows : List VersionedRow)
      → newest key snapshot (insert_sorted row rows)
        ≡ newer (write_at key snapshot row) (newest key snapshot rows)
  unfolding insert_sorted newest
  newest-insert_sorted row [] = refl
  newest-insert_sorted row (x ∷ rows) =
      ground (arith, newest-insert_sorted row rows, newer-swap x row (newest key snapshot rows))

  newest-sort :
      (rows : List VersionedRow) → newest key snapshot (sort rows) ≡ newest key snapshot rows
  unfolding sort newest
  newest-sort [] = refl
  newest-sort (row ∷ rows) =
      newest-insert_sorted row (sort rows)
      ∙ ap (λ w. newer (write_at key snapshot row) w) (newest-sort rows)

  newer-absorb :
      (kept row : VersionedRow) (rest : Option Write)
      → same_version row kept ≡ true
      → newer (write_at key snapshot kept) (newer (write_at key snapshot row) rest)
        ≡ newer (write_at key snapshot kept) rest
  unfolding newer
  newer-absorb kept row none h = ground (arith, eq_of_bytes_eq row.key kept.key)
  newer-absorb kept row (some w) h = ground (arith, eq_of_bytes_eq row.key kept.key)

  newest-dedup_after :
      (kept : VersionedRow) (rows : List VersionedRow)
      → newer (write_at key snapshot kept) (newest key snapshot (dedup_after kept rows))
        ≡ newer (write_at key snapshot kept) (newest key snapshot rows)
  unfolding dedup_after newest
  newest-dedup_after kept [] = refl
  newest-dedup_after kept (row ∷ rows) = ground (
    arith,
    newest-dedup_after kept rows,
    newest-dedup_after row rows,
    newer-absorb kept row (newest key snapshot rows),
  )

  newest-dedup :
      (rows : List VersionedRow) → newest key snapshot (dedup rows) ≡ newest key snapshot rows
  unfolding dedup newest
  newest-dedup [] = refl
  newest-dedup (row ∷ rows) = newest-dedup_after row rows

Sorted-same :
    (kept row : VersionedRow) (rows : List VersionedRow)
    → same_version row kept ≡ true
    → Sorted row rows
    → Sorted kept rows
Sorted-same kept row [] h s = tt
Sorted-same kept row (x ∷ rows) h s = ground (arith, eq_of_bytes_eq row.key kept.key)

Older_next :
    (kept row : VersionedRow)
    → cmp_rows kept row ≢ gt
    → same_version row kept ≡ false
    → (bytes_ord.cmp kept.key row.key ≡ lt)
      ⊎ ((kept.key ≡ row.key) × (row.version.begin_ts < kept.version.begin_ts))
Older_next kept row first other =
    ground (arith, bytes_ord.eq_of_cmp kept.key row.key, bytes_eq_refl row.key)

dedup_after-Older :
    (kept : VersionedRow) (rows : List VersionedRow)
    → Sorted kept rows
    → Older kept.key kept.version.begin_ts (dedup_after kept rows)
unfolding dedup_after
dedup_after-Older kept [] h = tt
dedup_after-Older kept (row ∷ rows) (first, h) = ground (
  arith,
  dedup_after-Older kept rows,
  Sorted-same kept row rows,
  dedup_after-Older row rows h,
  Older_next kept row first,
)

module _ (key : Bytes) (snapshot : ℕ) where
  newest_before :
      (first : Bytes) (begin : ℕ) (rows : List VersionedRow)
      → Older first begin rows
      → bytes_ord.cmp key first ≡ lt
      → newest key snapshot rows ≡ none
  unfolding newest newer
  newest_before first begin [] h b = refl
  newest_before first begin (row ∷ rows) (place, h) b = ground (
    arith,
    newest_before row.key row.version.begin_ts rows h,
    bytes_ord.cmp_trans key first row.key,
  )

  newest-none :
      (row : VersionedRow) (rows : List VersionedRow)
      → Older row.key row.version.begin_ts rows
      → bytes_ord.cmp key row.key ≡ lt
      → newest key snapshot (row ∷ rows) ≡ none
  unfolding newest newer
  newest-none row rows h b = ground (arith, newest_before row.key row.version.begin_ts rows h)

  newer-older_row :
      (write : Write) (row : VersionedRow) (rest : Option Write)
      → row.version.begin_ts < write.1
      → newer (some write) (newer (write_at key snapshot row) rest) ≡ newer (some write) rest
  unfolding newer
  newer-older_row write row none h = ground arith
  newer-older_row write row (some w) h = ground arith

  -- A write of `key` from `begin` on hides what is older.
  newer-Older :
      (write : Write) (begin : ℕ) (rows : List VersionedRow)
      → Older key begin rows
      → begin ≤ write.1
      → newer (some write) (newest key snapshot rows) ≡ some write
  unfolding newest
  newer-Older write begin [] h e = newer-none (some write)
  newer-Older write begin (row ∷ rows) (inl later, h) e =
      ap (λ w. newer (some write) w) (newest-none row rows h later)
  newer-Older write begin (row ∷ rows) (inr (same, older), h) e =
      newer-older_row write row (newest key snapshot rows) (omega arith)
      ∙ newer-Older write row.version.begin_ts rows
          (subst (λ k. Older k row.version.begin_ts rows) (sym same) h) (omega arith)

  newest_head :
      (row : VersionedRow) (rows : List VersionedRow)
      → Older row.key row.version.begin_ts rows
      → key ≡ row.key
      → newer (some (write_of row.version)) (newest key snapshot rows) ≡ some (write_of row.version)
  newest_head row rows h e =
      newer-Older (write_of row.version) row.version.begin_ts rows
        (subst (λ k. Older k row.version.begin_ts rows) (sym e) h) (omega arith)

  -- What the loops leave of `rows` behind a row of `first`: nothing that `snapshot` sees of that
  -- key when it sees the row itself, and all else that it sees.
  keep_visible-newest :
      (watermark : ℕ) (first : Bytes) (begin : ℕ) (rows : List VersionedRow)
      → Older first begin rows
      → watermark ≤ snapshot
      → snapshot < open_ended_ts
      → newest key snapshot (seen_rows snapshot (keep_visible watermark first begin rows))
        ≡ (if bytes_eq key first && leb begin snapshot then none else newest key snapshot rows)
  unfolding keep_visible newest seen_rows newer
  keep_visible-newest watermark first begin [] h w s = ground arith
  keep_visible-newest watermark first begin (row ∷ rows) (inl later, h) w s = ground (
    arith,
    keep_visible-newest watermark row.key row.version.begin_ts rows h w s,
    newest-none row rows h,
    newest_head row rows h,
    newer-none (some (write_of row.version)),
    eq_of_bytes_eq key first,
    eq_of_bytes_eq key row.key,
    bytes_ord.cmp_reversed first row.key,
  )
  keep_visible-newest watermark first begin (row ∷ rows) (inr (same, older), h) w s = ground (
    arith,
    keep_visible-newest watermark row.key row.version.begin_ts rows h w s,
    newest_head row rows h,
    newer-none (some (write_of row.version)),
    eq_of_bytes_eq key row.key,
    bytes_eq_refl row.key,
  )

keep_newest-newest :
    (key : Bytes) (snapshot watermark : ℕ) (rows : List VersionedRow)
    → IsSorted rows
    → watermark ≤ snapshot
    → snapshot < open_ended_ts
    → newest key snapshot (seen_rows snapshot (keep_newest watermark (dedup rows)))
      ≡ newest key snapshot (dedup rows)
unfolding keep_newest dedup newest seen_rows newer
keep_newest-newest key snapshot watermark [] h w s = refl
keep_newest-newest key snapshot watermark (row ∷ rows) h w s = ground (
  arith,
  keep_visible-newest key snapshot watermark row.key row.version.begin_ts (dedup_after row rows)
      (dedup_after-Older row rows h) w s,
  newest_head key snapshot row (dedup_after row rows) (dedup_after-Older row rows h),
  newer-none (some (write_of row.version)),
  eq_of_bytes_eq key row.key,
)

keep_visible-observable :
    (watermark : ℕ) (key : Bytes) (begin : ℕ) (rows : List VersionedRow)
    → watermark < open_ended_ts
    → All (λ row. watermark < row.version.end_ts) (keep_visible watermark key begin rows)
unfolding keep_visible
keep_visible-observable watermark key begin [] h = tt
keep_visible-observable watermark key begin (row ∷ rows) h =
    ground (arith, keep_visible-observable watermark row.key row.version.begin_ts rows h)

keep_newest-observable :
    (watermark : ℕ) (rows : List VersionedRow)
    → watermark < open_ended_ts
    → All (λ row. watermark < row.version.end_ts) (keep_newest watermark rows)
unfolding keep_newest
keep_newest-observable watermark [] h = tt
keep_newest-observable watermark (row ∷ rows) h =
    (h, keep_visible-observable watermark row.key row.version.begin_ts rows h)

-- A scan, at a snapshot from the watermark on and below OPEN_ENDED_TS, of the rows that
-- dedup_superseded leaves finds the newest write of the key that began at or before the snapshot
-- among the rows before the merge, whatever their ends were; and every row that is left ends
-- after the watermark.
pub dedup_superseded_exact :
    (key : Bytes) (snapshot watermark : ℕ) (rows : List VersionedRow)
    → watermark ≤ snapshot
    → snapshot < open_ended_ts
    → (map_write (lookup key (insert_visible snapshot (dedup_superseded rows watermark) []))
        ≡ newest key snapshot rows)
      × All (λ row. watermark < row.version.end_ts) (dedup_superseded rows watermark)
unfolding dedup_superseded lookup newer
dedup_superseded_exact key snapshot watermark rows w s = (
  insert_visible-newest key snapshot (dedup_superseded rows watermark) []
      ∙ keep_newest-newest key snapshot watermark (sort rows) (sort-IsSorted rows) w s
      ∙ newest-dedup key snapshot (sort rows)
      ∙ newest-sort key snapshot rows,
  keep_newest-observable watermark (dedup (sort rows)) (omega arith),
)
