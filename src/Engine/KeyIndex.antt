-- ===== src/Engine/KeyIndex.antt =====
-- The key index of an SST (crates/hatp-engine/src/key_index.rs): its bytes, their decoding, and the
-- binary search. The laws are in the modules below.
pub mod Entries
pub mod Search
pub mod File
use hat_p.Prelude.{
  bytes_ord, ℕ, zero, suc, ◌+◌, ◌-◌, ◌*◌, ◌/◌, ◌%◌, ◌^◌, ◌≤◌, ◌<◌, compare, Ordering, ◌≡◌, refl,
  sym, ap, ◌∙◌, subst, fun_ext, ◌≢◌, ◌↔◌, ◌⊎◌, inl, inr, Bool, true, false, not, ◌&&◌, ◌||◌, Option,
  none, some, List, [], ◌∷◌, ◌++◌, map, arith, Ord, Bytes, ltb, leb, ◌==◌, if◌then◌else◌, ltb→lt,
  lt→ltb, leb→le, ==_iff, Bool-cases, Option-cases, length, take, drop, get_elem?, any, All, Any,
  length-append, bytes_eq, in_range, contains, set_insert,
}
use Prim.Native.Nat.{min}
use Prim.Native.Nat.Ordering.{lt, eq, gt}
use hat_p.Prelude.Digits.{le_bytes, from_le}
use hat_p.Prelude.Options.{◌>>=◌}
use hat_p.Engine.Version.{VersionedValue}
use hat_p.Engine.Memtable.{VersionedRow}

-- `MAGIC`: the bytes of "KIDX"
abbrev pub magic : Bytes
magic = 75 ∷ 73 ∷ 68 ∷ 88 ∷ []

-- `VALUE_NONE`, which is also `u32::MAX`
abbrev pub value_none : ℕ
value_none = 0xFFFFFFFF

pub record KeyIndex : Type 0 where
  pub data_bytes : Bytes
  pub count : ℕ
  pub offsets : List ℕ

-- `u32::try_from(len).unwrap_or(u32::MAX)`
abbrev pub len_u32 : ℕ → ℕ
len_u32 len = min len value_none

abbrev pub value_len : Option Bytes → ℕ
value_len none = value_none
value_len (some v) = len_u32 (length v)

-- `if value_len != VALUE_NONE { data.extend_from_slice(value_bytes) }`
abbrev pub stored_value : Option Bytes → Bytes
stored_value none = []
stored_value (some v) = if len_u32 (length v) == value_none then [] else v

-- What the loop of `from_rows` appends for a row.
unfoldable pub entry : VersionedRow → Bytes
entry row =
    le_bytes 4 (len_u32 (length row.key))
    ++ (row.key
        ++ (le_bytes 4 (value_len row.version.value)
            ++ (stored_value row.version.value
                ++ (le_bytes 8 row.version.begin_ts ++ le_bytes 8 row.version.end_ts))))

-- The loop of `from_rows`. `offsets.push(data.len() as u32)` wraps.
unfoldable pub push_rows : List VersionedRow → Bytes → List ℕ → Bytes × List ℕ
unfolding entry
push_rows [] data_bytes offsets = (data_bytes, offsets)
push_rows (row ∷ rows) data_bytes offsets =
    push_rows rows (data_bytes ++ entry row) (offsets ++ (length data_bytes % 2 ^ 32) ∷ [])

-- `rows.len() as u32` wraps.
unfoldable pub from_rows : List VersionedRow → KeyIndex
unfolding push_rows
from_rows rows =
    let count = length rows % 2 ^ 32 in
    let (data_bytes, offsets) = push_rows rows (magic ++ le_bytes 4 count) [] in
    record { data_bytes = data_bytes; count = count; offsets = offsets }

-- `read_unaligned` and `from_le`. `none`: the read leaves the buffer, which the code must not do.
unfoldable pub read_le : ℕ → Bytes → ℕ → Option ℕ
read_le width bytes pos =
    if leb (pos + width) (length bytes) then some (from_le (take width (drop pos bytes))) else none

-- `data.get_unchecked(start..start + len)`
unfoldable pub get_slice : Bytes → ℕ → ℕ → Option Bytes
get_slice bytes start len =
    if leb (start + len) (length bytes) then some (take len (drop start bytes)) else none

-- The `for _ in 0..count` loop of `from_bytes`, `remaining` rounds before its end.
unfoldable pub scan_entries : ℕ → Bytes → ℕ → List ℕ → Option (List ℕ)
unfolding read_le
scan_entries zero raw cursor offsets = some offsets
scan_entries (suc remaining) raw cursor offsets = elim (read_le 4 raw cursor) [
  | none ↦ none
  | some key_len ↦ elim (read_le 4 raw (cursor + (4 + key_len))) [
    | none ↦ none
    | some len ↦
        let after = cursor + (4 + key_len) + 4 + (if len == value_none then 0 else len) + 16 in
        let rest = scan_entries remaining raw after (offsets ++ (cursor % 2 ^ 32) ∷ []) in
        if ltb (length raw) after then none else rest
  ]
]

unfoldable pub from_bytes : Bytes → Option KeyIndex
unfolding scan_entries
from_bytes bytes =
    if ltb (length bytes) 8
    then none
    else if bytes_eq (take 4 bytes) magic
    then elim (scan_entries (from_le (take 4 (drop 4 bytes))) bytes 8 []) [
      | none ↦ none
      | some offsets ↦ some (record {
        data_bytes = bytes;
        count = from_le (take 4 (drop 4 bytes));
        offsets = offsets;
      })
    ]
    else none

-- The key of the entry at `entry_start`.
unfoldable pub key_at : Bytes → ℕ → Option Bytes
unfolding read_le get_slice
key_at bytes entry_start = do
  key_len ← read_le 4 bytes entry_start
  get_slice bytes (entry_start + 4) key_len

-- `let value = if value_len == VALUE_NONE { None } else { .. }`
unfoldable pub value_at : Bytes → ℕ → ℕ → Option (Option Bytes)
unfolding get_slice
value_at bytes start len =
    if len == value_none
    then some none
    else elim (get_slice bytes start len) [ none ↦ none | some value ↦ some (some value) ]

unfoldable pub version_at : Bytes → ℕ → Option VersionedValue
unfolding read_le value_at
version_at bytes entry_start = do
  key_len ← read_le 4 bytes entry_start
  let value_cursor = entry_start + 4 + key_len
  len ← read_le 4 bytes value_cursor
  value ← value_at bytes (value_cursor + 4) len
  let ts_offset = value_cursor + 4 + (if len == value_none then 0 else len)
  begin_ts ← read_le 8 bytes ts_offset
  end_ts ← read_le 8 bytes (ts_offset + 8)
  some (record { value = value; begin_ts = begin_ts; end_ts = end_ts; tx_id = 0 })

-- The `while lo < hi` loop. The outer `none`: out of fuel, or a read outside of the buffer.
unfoldable pub search_loop : ℕ → KeyIndex → Bytes → ℕ → ℕ → Option (Option VersionedValue)
unfolding key_at version_at
search_loop zero index key lo hi = none
search_loop (suc fuel) index key lo hi =
    let mid = lo + (hi - lo) / 2 in
    let right = search_loop fuel index key (mid + 1) hi in
    let left = search_loop fuel index key lo mid in
    if ltb lo hi
    then (do
      entry_start ← get_elem? index.offsets mid
      entry_key ← key_at index.data_bytes entry_start
      elim (bytes_ord.cmp entry_key key) [
        | lt ↦ right
        | gt ↦ left
        | eq ↦ elim (version_at index.data_bytes entry_start) [
          | none ↦ none
          | some version ↦ some (some version)
        ]
      ])
    else some none

-- A round leaves fewer entries, so one round for each entry and a last one are enough.
unfoldable pub get : Bytes → KeyIndex → Option (Option VersionedValue)
unfolding search_loop
get key index =
    let found = search_loop (suc index.count) index key 0 index.count in
    if index.count == 0 then some none else found
