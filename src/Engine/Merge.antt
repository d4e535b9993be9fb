-- ===== src/Engine/Merge.antt =====
-- The merge of compaction and of scans (crates/hatp-engine/src/lib.rs): `insert_newest` and
-- `dedup_superseded`. The laws are in the modules below.
pub mod Newest
pub mod Superseded
use hat_p.Prelude.{
  ℕ, zero, suc, ◌+◌, ◌-◌, ◌*◌, ◌/◌, ◌%◌, ◌^◌, ◌≤◌, ◌<◌, compare, Ordering, ◌≡◌, refl, sym, ap, ◌∙◌,
  subst, fun_ext, ◌≢◌, ◌↔◌, ◌⊎◌, inl, inr, Bool, true, false, not, ◌&&◌, ◌||◌, Option, none, some,
  List, [], ◌∷◌, ◌++◌, map, arith, Ord, Bytes, ltb, leb, ◌==◌, if◌then◌else◌, ltb→lt, lt→ltb,
  leb→le, ==_iff, Bool-cases, Option-cases, length, take, drop, get_elem?, any, All, Any,
  length-append, bytes_eq, in_range, contains, set_insert, bytes_ord,
}
use Prim.Native.Nat.Ordering.{lt, eq, gt}
use hat_p.Prelude.Map.{Map, lookup, insert}
use hat_p.Engine.Version.{VersionedValue, open_ended_ts, visible_at, closed_at}
use hat_p.Engine.Memtable.{VersionedRow}

unfoldable pub insert_newest :
    Map Bytes VersionedValue → Bytes → VersionedValue → Map Bytes VersionedValue
unfolding lookup insert
insert_newest map key value = elim (lookup key map) [
  | some current ↦ if ltb current.begin_ts value.begin_ts then insert key value map else map
  | none ↦ insert key value map
]

-- the loops of `scan_all`: `snapshot.sees(&row.version)` before `insert_newest`
unfoldable pub insert_visible :
    ℕ → List VersionedRow → Map Bytes VersionedValue → Map Bytes VersionedValue
unfolding insert_newest
insert_visible snapshot [] visible = visible
insert_visible snapshot (row ∷ rows) visible =
    insert_visible snapshot rows (
      if visible_at row.version snapshot
      then insert_newest visible row.key row.version
      else visible)

-- The closure of `rows.sort_by`: key ascending, then `begin_ts` descending.
abbrev pub cmp_rows : VersionedRow → VersionedRow → Ordering
cmp_rows left right = elim (bytes_ord.cmp left.key right.key) [
  | eq ↦ compare right.version.begin_ts left.version.begin_ts
  | first ↦ first
]

-- `sort_by` is a stable sort: rows that compare equal keep their order.
unfoldable pub insert_sorted : VersionedRow → List VersionedRow → List VersionedRow
insert_sorted row [] = row ∷ []
insert_sorted row (x ∷ rows) =
    let rest = insert_sorted row rows in
    elim (cmp_rows x row) [ lt ↦ x ∷ rest | _ ↦ row ∷ x ∷ rows ]

unfoldable pub sort : List VersionedRow → List VersionedRow
unfolding insert_sorted
sort [] = []
sort (row ∷ rows) = insert_sorted row (sort rows)

-- The closure of `rows.dedup_by`.
abbrev pub same_version : VersionedRow → VersionedRow → Bool
same_version left right =
    bytes_eq left.key right.key && left.version.begin_ts == right.version.begin_ts

-- `dedup_by` compares each row with the last one that it kept.
unfoldable pub dedup_after : VersionedRow → List VersionedRow → List VersionedRow
dedup_after kept [] = []
dedup_after kept (row ∷ rows) = elim (same_version row kept) [
  | true ↦ dedup_after kept rows
  | false ↦ row ∷ dedup_after row rows
]

unfoldable pub dedup : List VersionedRow → List VersionedRow
unfolding dedup_after
dedup [] = []
dedup (row ∷ rows) = row ∷ dedup_after row rows

abbrev pub end_at : ℕ → VersionedRow → VersionedRow
end_at ts row = record { key = row.key; version = closed_at ts row.version }

-- The two loops behind `head`, the newest version of its key: `key` and `prev_begin` are the row
-- before. A row of another key leaves the inner loop and is the next head of the outer one.
unfoldable pub keep_visible : ℕ → Bytes → ℕ → List VersionedRow → List VersionedRow
keep_visible watermark key prev_begin [] = []
keep_visible watermark key prev_begin (next ∷ rows) =
    let rest = keep_visible watermark next.key next.version.begin_ts rows in
    if bytes_eq next.key key
    then (if ltb watermark prev_begin then end_at prev_begin next ∷ rest else rest)
    else end_at open_ended_ts next ∷ rest

unfoldable pub keep_newest : ℕ → List VersionedRow → List VersionedRow
unfolding keep_visible
keep_newest watermark [] = []
keep_newest watermark (head ∷ rows) =
    end_at open_ended_ts head ∷ keep_visible watermark head.key head.version.begin_ts rows

unfoldable pub dedup_superseded : List VersionedRow → ℕ → List VersionedRow
unfolding sort dedup keep_newest
dedup_superseded rows watermark = keep_newest watermark (dedup (sort rows))
