-- ===== src/Engine/Memtable.antt =====
-- `BTreeMapTable` (crates/hatp-engine/src/memtable.rs): the version chains by key and the byte
-- counter. A method runs under the table's lock, so it is one step.
use hat_p.Prelude.{
  bytes_ord, ℕ, suc, ◌+◌, ◌-◌, ◌^◌, Bool, true, false, ◌&&◌, Option, none, some, List, [], ◌∷◌,
  ◌++◌, Bytes, ◌==◌, if◌then◌else◌, length, in_range,
}
pub mod Prefix
pub mod Apply
pub mod Collect
pub mod Scan
use Prim.Native.Nat.{min}
use Prim.Native.Nat.Ordering.{lt}
use hat_p.Prelude.Map.{Map, lookup, insert, remove, keys}
use hat_p.Prelude.Result.{ok, err}
use hat_p.Engine.Types.{corrupt, Mutation, put, delete, EngineResult}
use hat_p.Engine.Version.{VersionedValue, VersionChain, live, tombstone}
use hat_p.Engine.Wal.{put_op, delete_op, commit_op, abort_op, WalRecord, put_record, delete_record}
use hat_p.Engine.Version

abbrev pub Entries : Type 0
Entries = Map Bytes VersionChain

pub record BTreeMapTable : Type 0 where
  pub entries : Entries
  pub bytes : ℕ

pub record VersionedRow : Type 0 where
  pub key : Bytes
  pub version : VersionedValue

-- `BTreeMapTable::default`
abbrev pub empty : BTreeMapTable
empty = record { entries = []; bytes = 0 }

-- `usize::MAX`
abbrev pub usize_max : ℕ
usize_max = 2 ^ 64 - 1

abbrev pub saturating_add : ℕ → ℕ → ℕ
saturating_add a b = min (a + b) usize_max

-- `MemTableSize::add`: the loop retries until its exchange succeeds, and then has added once.
abbrev pub add_bytes : ℕ → BTreeMapTable → BTreeMapTable
add_bytes size table = record table { bytes = saturating_add table.bytes size }

-- `entries.entry(key.clone()).or_default()`
unfoldable pub chain_of : Bytes → Entries → VersionChain
unfolding lookup
chain_of key entries = elim (lookup key entries) [ none ↦ [] | some chain ↦ chain ]

unfoldable pub install : Bytes → VersionedValue → BTreeMapTable → BTreeMapTable
unfolding chain_of insert Version.insert
install key version table = record table {
  entries = insert key (Version.insert version (chain_of key table.entries)) table.entries;
}

unfoldable pub apply_put : ℕ → ℕ → Bytes → Bytes → BTreeMapTable → BTreeMapTable
unfolding install
apply_put tx_id commit_ts key value table =
    add_bytes (saturating_add (saturating_add (length key) (length value)) 24)
      (install key (live value commit_ts tx_id) table)

unfoldable pub apply_delete : ℕ → ℕ → Bytes → BTreeMapTable → BTreeMapTable
unfolding install
apply_delete tx_id commit_ts key table =
    add_bytes (saturating_add (length key) 24) (install key (tombstone commit_ts tx_id) table)

-- A record without the value of its put ends the loop; what was applied before it stays.
unfoldable pub apply_records :
    List WalRecord → ℕ → BTreeMapTable → EngineResult (Unit {0}) × BTreeMapTable
unfolding apply_put apply_delete
apply_records [] commit_ts table = (ok tt, table)
apply_records (r ∷ records) commit_ts table = elim r.op [
  | put_op ↦ elim r.value [
    | none ↦ (err (corrupt "put WAL record has no value"), table)
    | some value ↦ apply_records records commit_ts (apply_put r.tx_id commit_ts r.key value table)
  ]
  | delete_op ↦ apply_records records commit_ts (apply_delete r.tx_id commit_ts r.key table)
  | commit_op ↦ apply_records records commit_ts table
  | abort_op ↦ apply_records records commit_ts table
]

unfoldable pub apply_records_batch :
    List WalRecord → ℕ → BTreeMapTable → EngineResult (Unit {0}) × BTreeMapTable
unfolding apply_records
apply_records_batch [] commit_ts table = (ok tt, table)
apply_records_batch (r ∷ records) commit_ts table = apply_records (r ∷ records) commit_ts table

unfoldable pub apply_mutations : ℕ → List Mutation → ℕ → BTreeMapTable → BTreeMapTable
unfolding apply_put apply_delete
apply_mutations tx_id [] commit_ts table = table
apply_mutations tx_id (put key value ∷ mutations) commit_ts table =
    apply_mutations tx_id mutations commit_ts (apply_put tx_id commit_ts key value table)
apply_mutations tx_id (delete key ∷ mutations) commit_ts table =
    apply_mutations tx_id mutations commit_ts (apply_delete tx_id commit_ts key table)

unfoldable pub apply_mutations_batch :
    ℕ → List Mutation → ℕ → BTreeMapTable → EngineResult (Unit {0}) × BTreeMapTable
unfolding apply_mutations
apply_mutations_batch tx_id [] commit_ts table = (ok tt, table)
apply_mutations_batch tx_id (m ∷ mutations) commit_ts table =
    (ok tt, apply_mutations tx_id (m ∷ mutations) commit_ts table)

-- The default of the trait goes through these records.
unfoldable pub records_of : ℕ → List Mutation → List WalRecord
records_of tx_id [] = []
records_of tx_id (put key value ∷ mutations) =
    put_record tx_id key value ∷ records_of tx_id mutations
records_of tx_id (delete key ∷ mutations) = delete_record tx_id key ∷ records_of tx_id mutations

unfoldable pub get : Bytes → ℕ → BTreeMapTable → Option VersionedValue
unfolding lookup Version.get
get key snapshot table = elim (lookup key table.entries) [
  | none ↦ none
  | some chain ↦ Version.get snapshot chain
]

-- `prefix_upper_exclusive`: the loop drops `0xFF` from the end of a copy. `none`: nothing is left.
unfoldable pub bump_last : Bytes → Option Bytes
bump_last [] = none
bump_last (b ∷ prefix) =
    let rest = bump_last prefix in
    elim rest [
      | some upper ↦ some (b ∷ upper)
      | none ↦ if b == 255 then none else some (suc b ∷ [])
    ]

unfoldable pub prefix_upper_exclusive : Bytes → Bytes
unfolding bump_last
prefix_upper_exclusive prefix = elim (bump_last prefix) [ none ↦ prefix | some upper ↦ upper ]

-- `BTreeMap::range` from `lower` on, below `upper`; it panics on bounds out of order.
abbrev pub before : Bytes → Bytes → Bool
before a b = elim (bytes_ord.cmp a b) [ lt ↦ true | _ ↦ false ]

unfoldable pub in_bounds : Bytes → Bytes → Entries → Entries
in_bounds lower upper [] = []
in_bounds lower upper ((key, chain) ∷ entries) =
    let rest = in_bounds lower upper entries in
    if in_range lower upper key then (key, chain) ∷ rest else rest

unfoldable pub range : Bytes → Bytes → Entries → Option Entries
unfolding in_bounds
range lower upper entries =
    if before upper lower then none else some (in_bounds lower upper entries)

-- `key.starts_with(prefix)`
unfoldable pub starts_with : Bytes → Bytes → Bool
starts_with [] key = true
starts_with (p ∷ prefix) [] = false
starts_with (p ∷ prefix) (k ∷ key) = k == p && starts_with prefix key

-- the loop of `scan_range_versions`
unfoldable pub visible_in : ℕ → Entries → List (Bytes × VersionedValue)
unfolding Version.get
visible_in snapshot [] = []
visible_in snapshot ((key, chain) ∷ entries) = elim (Version.get snapshot chain) [
  | none ↦ visible_in snapshot entries
  | some version ↦ (key, version) ∷ visible_in snapshot entries
]

-- the loop of `scan_prefix_versions`: `continue` on a key without the prefix
unfoldable pub visible_with : Bytes → ℕ → Entries → List (Bytes × VersionedValue)
unfolding Version.get starts_with
visible_with prefix snapshot [] = []
visible_with prefix snapshot ((key, chain) ∷ entries) =
    let rest = visible_with prefix snapshot entries in
    if starts_with prefix key
    then elim (Version.get snapshot chain) [ none ↦ rest | some version ↦ (key, version) ∷ rest ]
    else rest

-- `none`: `range` panics
unfoldable pub scan_prefix_versions :
    Bytes → ℕ → BTreeMapTable → Option (List (Bytes × VersionedValue))
unfolding range prefix_upper_exclusive visible_with
scan_prefix_versions prefix snapshot table =
    elim (range prefix (prefix_upper_exclusive prefix) table.entries) [
      | none ↦ none
      | some entries ↦ some (visible_with prefix snapshot entries)
    ]

unfoldable pub scan_range_versions :
    Bytes → Bytes → ℕ → BTreeMapTable → Option (List (Bytes × VersionedValue))
unfolding range visible_in
scan_range_versions lower upper snapshot table = elim (range lower upper table.entries) [
  | none ↦ none
  | some entries ↦ some (visible_in snapshot entries)
]

-- `filter_map(|(key, version)| version.value.map(|value| (key, value)))`
unfoldable pub values_of : List (Bytes × VersionedValue) → List (Bytes × Bytes)
values_of [] = []
values_of ((key, version) ∷ rows) = elim version.value [
  | none ↦ values_of rows
  | some value ↦ (key, value) ∷ values_of rows
]

unfoldable pub scan_prefix : Bytes → ℕ → BTreeMapTable → Option (List (Bytes × Bytes))
unfolding scan_prefix_versions values_of
scan_prefix prefix snapshot table = elim (scan_prefix_versions prefix snapshot table) [
  | none ↦ none
  | some rows ↦ some (values_of rows)
]

unfoldable pub rows_of : Bytes → VersionChain → List VersionedRow
rows_of key [] = []
rows_of key (version ∷ chain) = record { key = key; version = version } ∷ rows_of key chain

unfoldable pub all_rows : Entries → List VersionedRow
unfolding rows_of
all_rows [] = []
all_rows ((key, chain) ∷ entries) = rows_of key chain ++ all_rows entries

unfoldable pub all_versions : BTreeMapTable → List VersionedRow
unfolding all_rows
all_versions table = all_rows table.entries

-- the default of the trait
unfoldable pub drain_into : BTreeMapTable → List VersionedRow → List VersionedRow
unfolding all_versions
drain_into table out = out ++ all_versions table

-- `values_mut().map(|chain| chain.garbage_collect(oldest)).sum()`
unfoldable pub collect_entries : ℕ → Entries → ℕ × Entries
unfolding Version.garbage_collect
collect_entries oldest [] = (0, [])
collect_entries oldest ((key, chain) ∷ entries) =
    let (dropped, kept) = Version.garbage_collect oldest chain in
    let (total, rest) = collect_entries oldest entries in (dropped + total, (key, kept) ∷ rest)

unfoldable pub garbage_collect : ℕ → BTreeMapTable → ℕ × BTreeMapTable
unfolding collect_entries
garbage_collect oldest table =
    let (dropped, entries) = collect_entries oldest table.entries in
    (dropped, record table { entries = entries })

abbrev pub clear : BTreeMapTable → BTreeMapTable
clear table = empty

unfoldable pub remove_keys : List Bytes → Entries → Entries
unfolding remove
remove_keys [] entries = entries
remove_keys (key ∷ keys) entries = remove_keys keys (remove key entries)

-- The byte counter stays as it is.
unfoldable pub erase_prefix : Bytes → BTreeMapTable → Option (ℕ × BTreeMapTable)
unfolding range prefix_upper_exclusive remove_keys
erase_prefix prefix table = elim (range prefix (prefix_upper_exclusive prefix) table.entries) [
  | none ↦ none
  | some entries ↦
      some
        (length (keys entries), record table { entries = remove_keys (keys entries) table.entries })
]

abbrev pub len : BTreeMapTable → ℕ
len table = length table.entries

abbrev pub is_empty : BTreeMapTable → Bool
is_empty table = elim table.entries [ [] ↦ true | _ ∷ _ ↦ false ]
