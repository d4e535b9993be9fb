-- ===== src/Engine/Memtable/Apply.antt =====
-- Batches on `BTreeMapTable`: what a reader finds afterwards, and the chains that stay contiguous.
use hat_p.Prelude.{
  ℕ, zero, suc, ◌+◌, ◌-◌, ◌*◌, ◌/◌, ◌%◌, ◌^◌, ◌≤◌, ◌<◌, compare, Ordering, ◌≡◌, refl, sym, ap, ◌∙◌,
  subst, fun_ext, ◌≢◌, ◌↔◌, ◌⊎◌, inl, inr, Bool, true, false, not, ◌&&◌, ◌||◌, Option, none, some,
  List, [], ◌∷◌, ◌++◌, map, arith, Ord, Bytes, ltb, leb, ◌==◌, if◌then◌else◌, ltb→lt, lt→ltb,
  leb→le, ==_iff, Bool-cases, Option-cases, length, take, drop, get_elem?, any, All, Any,
  length-append, bytes_eq, in_range, contains, set_insert, eq_of_bytes_eq, bytes_eq_refl, bytes_ord,
}
use hat_p.Prelude.Map.{lookup, insert, if_eq, lookup-insert, Entries-lookup, Entries-insert}
use hat_p.Prelude.Result.{ok}
use hat_p.Engine.Types.{Mutation, put, delete}
use hat_p.Engine.Version.{VersionedValue, VersionChain, live, tombstone, open_ended_ts}
use hat_p.Engine.Version.Splice.{IsContiguous}
use hat_p.Engine.Version.Visible.{Write, overlay, map_write, insert-IsContiguous, get-insert}
use hat_p.Engine.Wal.{WalRecord}
use hat_p.Engine.Memtable.{
  add_bytes, saturating_add, BTreeMapTable, chain_of, install, apply_put, apply_delete,
  apply_records, apply_records_batch, apply_mutations, apply_mutations_batch, records_of, get,
}
use hat_p.Engine.Version

-- Every chain of the table is contiguous.
abbrev pub IsValid : BTreeMapTable → Type 0
IsValid table = hat_p.Prelude.Map.Entries (λ key chain. IsContiguous chain) table.entries

-- What a reader at `snapshot` finds under `key`.
abbrev pub read : Bytes → ℕ → BTreeMapTable → Option Write
read key snapshot table = map_write (get key snapshot table)

pub chain_of-IsContiguous :
    (key : Bytes) (table : BTreeMapTable)
    → IsValid table
    → IsContiguous (chain_of key table.entries)
unfolding chain_of
chain_of-IsContiguous key table h = elim (Option-cases (lookup key table.entries)) [
  | inl e ↦ subst (λ o. IsContiguous (elim o [ none ↦ [] | some chain ↦ chain ])) (sym e) tt
  | inr (chain, e) ↦
      subst (λ o. IsContiguous (elim o [ none ↦ [] | some c ↦ c ])) (sym e)
        (Entries-lookup (λ k c. IsContiguous c) key chain table.entries h e)
]

pub get-chain_of :
    (key : Bytes) (snapshot : ℕ) (table : BTreeMapTable)
    → get key snapshot table ≡ Version.get snapshot (chain_of key table.entries)
unfolding get chain_of Version.get
get-chain_of key snapshot table = ground arith

install-IsValid :
    (key : Bytes) (version : VersionedValue) (table : BTreeMapTable)
    → IsValid table
    → version.end_ts ≡ open_ended_ts
    → version.begin_ts < open_ended_ts
    → IsValid (install key version table)
unfolding install
install-IsValid key version table h e b =
    Entries-insert (λ k c. IsContiguous c) key (Version.insert version (chain_of key table.entries))
      table.entries
      (insert-IsContiguous version (chain_of key table.entries) (chain_of-IsContiguous key table h)
        e b)
      h

chain_of-install :
    (key j : Bytes) (version : VersionedValue) (table : BTreeMapTable)
    → chain_of j (install key version table).entries ≡ (
        if bytes_eq j key
        then Version.insert version (chain_of key table.entries)
        else chain_of j table.entries)
unfolding install chain_of
chain_of-install key j version table =
    ground (
      arith,
      lookup-insert key j (Version.insert version (chain_of key table.entries)) table.entries,
    )

read_put :
    (key : Bytes) (snapshot : ℕ) (j : Bytes) (version : VersionedValue) (table : BTreeMapTable)
    → IsValid table
    → version.end_ts ≡ open_ended_ts
    → version.begin_ts < open_ended_ts
    → snapshot < open_ended_ts
    → read key snapshot (install j version table) ≡ (
        if bytes_eq key j
        then overlay snapshot
            (version.value, version.begin_ts, version.tx_id)
            (read key snapshot table)
        else read key snapshot table)
read_put key snapshot j version table h e b s = elim (Bool-cases (bytes_eq key j)) [
  | inl same ↦
      ap map_write (get-chain_of key snapshot (install j version table))
      ∙ rw
          (
            chain_of-install j key version table,
            same,
            eq_of_bytes_eq key j same,
            get-chain_of j snapshot table,
          )
          (get-insert snapshot version (chain_of j table.entries) (chain_of-IsContiguous j table h)
            e b s)
  | inr other ↦
      ap map_write (get-chain_of key snapshot (install j version table))
      ∙ rw (chain_of-install j key version table, other, get-chain_of key snapshot table) refl
]

-- The last mutation of `key` in a batch: its new row, or `none` for a delete.
unfoldable pub last_write : Bytes → List Mutation → Option (Option Bytes)
last_write key [] = none
last_write key (put j value ∷ mutations) =
    let rest = last_write key mutations in
    elim rest [
      | some write ↦ some write
      | none ↦ if bytes_eq key j then some (some value) else none
    ]
last_write key (delete j ∷ mutations) =
    let rest = last_write key mutations in
    elim rest [ some write ↦ some write | none ↦ if bytes_eq key j then some none else none ]

-- A reader's view after the last mutation of the key.
unfoldable pub with_last : ℕ → ℕ → ℕ → Option (Option Bytes) → Option Write → Option Write
with_last snapshot commit_ts tx_id none seen = seen
with_last snapshot commit_ts tx_id (some value) seen =
    overlay snapshot (value, commit_ts, tx_id) seen

-- A write at the same timestamp takes the place of the one before.
overlay_twice :
    (snapshot ts tx_id : ℕ) (v w : Option Bytes) (seen : Option Write)
    → overlay snapshot (v, ts, tx_id) (overlay snapshot (w, ts, tx_id) seen)
      ≡ overlay snapshot (v, ts, tx_id) seen
unfolding overlay
overlay_twice snapshot ts tx_id v w none = ground arith
overlay_twice snapshot ts tx_id v w (some seen) = ground arith

-- The byte counter is not read.
read_counted :
    (key : Bytes) (snapshot size : ℕ) (table : BTreeMapTable)
    → read key snapshot (add_bytes size table) ≡ read key snapshot table
unfolding get
read_counted key snapshot size table = refl

last_step :
    (snapshot ts tx_id : ℕ) (v : Option Bytes) (same : Bool) (rest : Option (Option Bytes))
    (seen : Option Write)
    → with_last snapshot ts tx_id rest (if same then overlay snapshot (v, ts, tx_id) seen else seen)
      ≡ with_last snapshot ts tx_id
          (elim rest [ some write ↦ some write | none ↦ if same then some v else none ])
          seen
unfolding with_last
last_step snapshot ts tx_id v true none seen = refl
last_step snapshot ts tx_id v false none seen = refl
last_step snapshot ts tx_id v true (some w) seen = overlay_twice snapshot ts tx_id w v seen
last_step snapshot ts tx_id v false (some w) seen = refl

pub apply_mutations-IsValid :
    (tx_id : ℕ) (mutations : List Mutation) (commit_ts : ℕ) (table : BTreeMapTable)
    → IsValid table
    → commit_ts < open_ended_ts
    → IsValid (apply_mutations tx_id mutations commit_ts table)
unfolding apply_mutations apply_put apply_delete
apply_mutations-IsValid tx_id [] commit_ts table h b = h
apply_mutations-IsValid tx_id (put key value ∷ mutations) commit_ts table h b =
    apply_mutations-IsValid tx_id mutations commit_ts (apply_put tx_id commit_ts key value table)
      (install-IsValid key (live value commit_ts tx_id) table h refl b) b
apply_mutations-IsValid tx_id (delete key ∷ mutations) commit_ts table h b =
    apply_mutations-IsValid tx_id mutations commit_ts (apply_delete tx_id commit_ts key table)
      (install-IsValid key (tombstone commit_ts tx_id) table h refl b) b

-- In a table of contiguous chains, after a batch of mutations at a commit timestamp, a reader at
-- a snapshot below OPEN_ENDED_TS finds under a key the last mutation of that key in the batch,
-- if the snapshot reaches the timestamp and no later write is seen, and what it found before
-- otherwise.
pub read-apply_mutations :
    (key : Bytes) (snapshot tx_id : ℕ) (mutations : List Mutation) (commit_ts : ℕ)
    (table : BTreeMapTable)
    → IsValid table
    → commit_ts < open_ended_ts
    → snapshot < open_ended_ts
    → read key snapshot (apply_mutations tx_id mutations commit_ts table)
      ≡ with_last snapshot commit_ts tx_id (last_write key mutations) (read key snapshot table)
unfolding apply_mutations apply_put apply_delete last_write with_last
read-apply_mutations key snapshot tx_id [] commit_ts table h b s = refl
read-apply_mutations key snapshot tx_id (put j value ∷ mutations) commit_ts table h b s =
    read-apply_mutations key snapshot tx_id mutations commit_ts
      (apply_put tx_id commit_ts j value table)
      (install-IsValid j (live value commit_ts tx_id) table h refl b) b s
    ∙ (ap (with_last snapshot commit_ts tx_id (last_write key mutations)) (
          read_counted key snapshot (saturating_add (saturating_add (length j) (length value)) 24)
            (install j (live value commit_ts tx_id) table)
          ∙ read_put key snapshot j (live value commit_ts tx_id) table h refl b s)
        ∙ last_step snapshot commit_ts tx_id (some value) (bytes_eq key j)
            (last_write key mutations) (read key snapshot table))
read-apply_mutations key snapshot tx_id (delete j ∷ mutations) commit_ts table h b s =
    read-apply_mutations key snapshot tx_id mutations commit_ts
      (apply_delete tx_id commit_ts j table)
      (install-IsValid j (tombstone commit_ts tx_id) table h refl b) b s
    ∙ (ap (with_last snapshot commit_ts tx_id (last_write key mutations)) (
          read_counted key snapshot (saturating_add (length j) 24)
            (install j (tombstone commit_ts tx_id) table)
          ∙ read_put key snapshot j (tombstone commit_ts tx_id) table h refl b s)
        ∙ last_step snapshot commit_ts tx_id none (bytes_eq key j) (last_write key mutations)
            (read key snapshot table))

pub apply_records-records_of :
    (tx_id : ℕ) (mutations : List Mutation) (commit_ts : ℕ) (table : BTreeMapTable)
    → apply_records (records_of tx_id mutations) commit_ts table
      ≡ (ok tt, apply_mutations tx_id mutations commit_ts table)
unfolding apply_records records_of apply_mutations
apply_records-records_of tx_id [] commit_ts table = refl
apply_records-records_of tx_id (put key value ∷ mutations) commit_ts table =
    apply_records-records_of tx_id mutations commit_ts (apply_put tx_id commit_ts key value table)
apply_records-records_of tx_id (delete key ∷ mutations) commit_ts table =
    apply_records-records_of tx_id mutations commit_ts (apply_delete tx_id commit_ts key table)

pub batch_mutations :
    (tx_id : ℕ) (mutations : List Mutation) (commit_ts : ℕ) (table : BTreeMapTable)
    → apply_mutations_batch tx_id mutations commit_ts table
      ≡ (ok tt, apply_mutations tx_id mutations commit_ts table)
unfolding apply_mutations_batch apply_mutations
batch_mutations tx_id [] commit_ts table = refl
batch_mutations tx_id (m ∷ mutations) commit_ts table = refl

pub batch_records :
    (records : List WalRecord) (commit_ts : ℕ) (table : BTreeMapTable)
    → apply_records_batch records commit_ts table ≡ apply_records records commit_ts table
unfolding apply_records_batch apply_records
batch_records [] commit_ts table = refl
batch_records (r ∷ records) commit_ts table = refl

-- The direct apply_mutations_batch gives the result and the table that the default of the trait
-- gives by way of WAL records.
apply_mutations_batch-apply_records_batch :
    (tx_id : ℕ) (mutations : List Mutation) (commit_ts : ℕ) (table : BTreeMapTable)
    → apply_mutations_batch tx_id mutations commit_ts table
      ≡ apply_records_batch (records_of tx_id mutations) commit_ts table
apply_mutations_batch-apply_records_batch tx_id mutations commit_ts table =
    batch_mutations tx_id mutations commit_ts table
    ∙ sym (
        batch_records (records_of tx_id mutations) commit_ts table
        ∙ apply_records-records_of tx_id mutations commit_ts table)
