-- ===== src/Engine/KeyIndex/File.antt =====
-- The round trip of the file: `from_bytes` of what `from_rows` built.
use hat_p.Prelude.{
  ℕ, suc, ◌+◌, ◌%◌, ◌^◌, ◌≤◌, ◌<◌, ◌≡◌, refl, sym, ap, ◌∙◌, subst, some, List, [], ◌∷◌, ◌++◌, arith,
  Bytes, ◌==◌, if◌then◌else◌, length, All, length-append, append_nil, append_assoc,
}
use hat_p.Prelude.Digits.{le_bytes, from_le-le_bytes}
use hat_p.Prelude.Slices.{At, At-append, At-next}
use hat_p.Engine.Memtable.{VersionedRow}
use hat_p.Engine.KeyIndex.{
  KeyIndex, magic, value_none, value_len, stored_value, entry, from_rows, read_le, scan_entries,
  from_bytes,
}
use hat_p.Engine.KeyIndex.Entries.{
  Fits, entries, positions, index_bytes, length-index_bytes, from_rows-parts, read_le-At,
  value_len_lt, length-stored_value, entry-fields, fields, key_len-At, value_len-At,
}

abbrev stored_len : VersionedRow → ℕ
stored_len row =
    if value_len row.version.value == value_none then 0 else value_len row.version.value

length-entry :
    (row : VersionedRow)
    → Fits row
    → length (entry row) ≡ 4 + length row.key + 4 + stored_len row + 16
unfolding entry
length-entry row (k, v, b, e) = omega (
  arith,
  length-append row.key (
      le_bytes 4 (value_len row.version.value)
      ++ (stored_value row.version.value
          ++ (le_bytes 8 row.version.begin_ts ++ le_bytes 8 row.version.end_ts))),
  length-append (stored_value row.version.value)
      (le_bytes 8 row.version.begin_ts ++ le_bytes 8 row.version.end_ts),
  length-stored_value row.version.value v,
)

abbrev skip_len : ℕ → ℕ
skip_len len = if len == value_none then 0 else len

scan_entries_step :
    (n : ℕ) (raw : Bytes) (pos key_len len : ℕ) (offsets : List ℕ)
    → read_le 4 raw pos ≡ some key_len
    → read_le 4 raw (pos + (4 + key_len)) ≡ some len
    → pos + (4 + key_len) + 4 + skip_len len + 16 ≤ length raw
    → scan_entries (suc n) raw pos offsets
      ≡ scan_entries n raw
          (pos + (4 + key_len) + 4 + skip_len len + 16)
          (offsets ++ (pos % 2 ^ 32) ∷ [])
unfolding scan_entries
scan_entries_step n raw pos key_len len offsets k l h = ground arith

-- A round of the loop over an entry.
scan_entries-suc :
    (n : ℕ) (raw rest : Bytes) (pos : ℕ) (row : VersionedRow) (offsets : List ℕ)
    → Fits row
    → At raw pos (entry row ++ rest)
    → scan_entries (suc n) raw pos offsets
      ≡ scan_entries n raw (pos + length (entry row)) (offsets ++ (pos % 2 ^ 32) ∷ [])
scan_entries-suc n raw rest pos row offsets (k, v, b, e) at =
    let at' : At raw pos
        (fields row.key row.version.value row.version.begin_ts row.version.end_ts rest) =
      subst (λ xs. At raw pos xs) (entry-fields row rest) at in
    let value_field =
      value_len-At raw row.key row.version.value pos row.version.begin_ts row.version.end_ts rest
        at' k v b e in
    scan_entries_step n raw pos (length row.key) (value_len row.version.value) offsets
      (key_len-At raw row.key row.version.value pos row.version.begin_ts row.version.end_ts rest at'
        k v b e)
      (ap (λ p. read_le 4 raw p) (omega arith)
        ∙ read_le-At raw _ 4 (pos + 4 + length row.key) (value_len row.version.value) value_field
            (value_len_lt row.version.value))
      (omega (arith, length-entry row (k, v, b, e), length-append (entry row) rest, at.1))
    ∙ ap (λ p. scan_entries n raw p (offsets ++ (pos % 2 ^ 32) ∷ []))
        (omega (arith, length-entry row (k, v, b, e)))

scan_entries-zero :
    (raw : Bytes) (pos : ℕ) (offsets : List ℕ) → scan_entries 0 raw pos offsets ≡ some offsets
unfolding scan_entries
scan_entries-zero raw pos offsets = refl

scan_entries-positions :
    (raw rest : Bytes) (pos : ℕ) (rows : List VersionedRow) (offsets : List ℕ)
    → All Fits rows
    → At raw pos (entries rows ++ rest)
    → scan_entries (length rows) raw pos offsets ≡ some (offsets ++ positions pos rows)
unfolding entries positions
scan_entries-positions raw rest pos [] offsets f at =
    scan_entries-zero raw pos offsets ∙ ap (λ o. some o) (sym (append_nil offsets))
scan_entries-positions raw rest pos (row ∷ rows) offsets (f, fs) at =
    let at' : At raw pos (entry row ++ (entries rows ++ rest)) =
      subst (λ xs. At raw pos xs) (append_assoc (entry row) (entries rows) rest) at in
    scan_entries-suc (length rows) raw (entries rows ++ rest) pos row offsets f at'
    ∙ scan_entries-positions raw rest (pos + length (entry row)) rows
        (offsets ++ (pos % 2 ^ 32) ∷ []) fs
        (At-next raw pos (length (entry row)) (entry row) (entries rows ++ rest) at' refl)
    ∙ ap (λ o. some o) (append_assoc offsets ((pos % 2 ^ 32) ∷ []) _)

from_bytes_header :
    (n : ℕ) (body : Bytes) (offsets : List ℕ)
    → n < 2 ^ 32
    → scan_entries n ((magic ++ le_bytes 4 n) ++ body) 8 [] ≡ some offsets
    → from_bytes ((magic ++ le_bytes 4 n) ++ body)
      ≡ some (record { data_bytes = (magic ++ le_bytes 4 n) ++ body; count = n; offsets = offsets })
unfolding from_bytes
from_bytes_header n body offsets small e = ground (arith, from_le-le_bytes 4 n small)

same_index :
    (index : KeyIndex) (bytes : Bytes) (count : ℕ) (offsets : List ℕ)
    → index.data_bytes ≡ bytes
    → index.count ≡ count
    → index.offsets ≡ offsets
    → some (record { data_bytes = bytes; count = count; offsets = offsets }) ≡ some index
same_index index bytes count offsets a b c = ground arith

-- from_bytes of the bytes of an index built from rows that fit, of less than 2^32 bytes in all,
-- is that index.
pub from_bytes-from_rows :
    (rows : List VersionedRow)
    → All Fits rows
    → length (index_bytes rows) < 2 ^ 32
    → from_bytes (from_rows rows).data_bytes ≡ some (from_rows rows)
from_bytes-from_rows rows f small =
    let (data_eq, offsets_eq, count_eq) = from_rows-parts rows in
    let count : length rows % 2 ^ 32 ≡ length rows = omega (arith, length-index_bytes rows) in
    ap from_bytes data_eq
    ∙ from_bytes_header (length rows % 2 ^ 32) (entries rows) (positions 8 rows) (omega arith) (
        ap (λ n. scan_entries n (index_bytes rows) 8 []) count
        ∙ scan_entries-positions (index_bytes rows) [] 8 rows [] f (
            subst (λ xs. At (index_bytes rows) 8 xs) (sym (append_nil (entries rows)))
              (At-append (magic ++ le_bytes 4 (length rows % 2 ^ 32)) (entries rows))))
    ∙ same_index (from_rows rows) (index_bytes rows) (length rows % 2 ^ 32) (positions 8 rows)
        data_eq count_eq offsets_eq
