-- ===== src/Engine/KeyIndex/Entries.antt =====
-- What the reads of a built index find at the offset of an entry.
use hat_p.Prelude.{
  ℕ, zero, suc, ◌+◌, ◌%◌, ◌^◌, ◌≤◌, ◌<◌, ◌≡◌, refl, sym, ap, ◌∙◌, subst, false, Option, none, some,
  List, [], ◌∷◌, ◌++◌, arith, Bytes, ◌==◌, if◌then◌else◌, length, get_elem?, All, length-append,
  append_nil, append_assoc,
}
use hat_p.Prelude.Slices.{At-append, At-next, At, At-take, At-fits}
use hat_p.Engine.KeyIndex.{
  magic, from_rows, push_rows, version_at, value_at, len_u32, key_at, entry, value_none, value_len,
  stored_value, read_le, get_slice,
}
use hat_p.Prelude.Options.{◌>>=◌}
use hat_p.Prelude.Digits.{le_bytes, from_le, from_le-le_bytes, length-le_bytes}
use hat_p.Engine.Version.{VersionedValue}
use hat_p.Engine.Memtable.{VersionedRow}

abbrev pub ValueFits : Option Bytes → Type 0
ValueFits none = Unit
ValueFits (some v) = length v < value_none

-- Keys and values of a length that the format holds, and times of 64 bits.
abbrev pub Fits : VersionedRow → Type 0
Fits row =
    (length row.key < value_none)
    × ValueFits row.version.value
    × (row.version.begin_ts < 2 ^ 64)
    × (row.version.end_ts < 2 ^ 64)

-- `tx_id` is not stored.
abbrev pub stored : VersionedRow → VersionedValue
stored row = record row.version { tx_id = 0 }

pub read_le-At :
    (buf rest : Bytes) (width pos n : ℕ)
    → At buf pos (le_bytes width n ++ rest)
    → n < 256 ^ width
    → read_le width buf pos ≡ some n
unfolding read_le
read_le-At buf rest width pos n at b = ground (
  arith,
  At-fits buf pos width (le_bytes width n) rest at (length-le_bytes width n),
  ap from_le (At-take buf pos width (le_bytes width n) rest at (length-le_bytes width n)),
  from_le-le_bytes width n b,
)

get_slice-At :
    (buf bytes rest : Bytes) (pos len : ℕ)
    → At buf pos (bytes ++ rest)
    → length bytes ≡ len
    → get_slice buf pos len ≡ some bytes
unfolding get_slice
get_slice-At buf bytes rest pos len at l =
    ground (arith, At-fits buf pos len bytes rest at l, At-take buf pos len bytes rest at l)

-- The fields of an entry, before what follows.
abbrev pub fields : Bytes → Option Bytes → ℕ → ℕ → Bytes → Bytes
fields key value begin_ts end_ts rest =
    le_bytes 4 (len_u32 (length key))
    ++ (key
        ++ (le_bytes 4 (value_len value)
            ++ (stored_value value ++ (le_bytes 8 begin_ts ++ (le_bytes 8 end_ts ++ rest)))))

pub entry-fields :
    (row : VersionedRow) (rest : Bytes)
    → entry row ++ rest
      ≡ fields row.key row.version.value row.version.begin_ts row.version.end_ts rest
unfolding entry
entry-fields row rest =
    ap (λ r. le_bytes 4 (len_u32 (length row.key)) ++ r)
      (append_assoc row.key _ rest
        ∙ ap (λ r. row.key ++ (le_bytes 4 (value_len row.version.value) ++ r))
            (append_assoc (stored_value row.version.value) _ rest))

pub value_len_lt : (value : Option Bytes) → value_len value < 2 ^ 32
value_len_lt none = omega arith
value_len_lt (some v) = omega arith

not_none : (v : Bytes) → length v < value_none → (len_u32 (length v) == value_none) ≡ false
not_none v h = ground arith

-- The stored bytes of a value that fits, as the reads compute their length.
pub length-stored_value :
    (value : Option Bytes)
    → ValueFits value
    → length (stored_value value) ≡ (if value_len value == value_none then 0 else value_len value)
length-stored_value none h = refl
length-stored_value (some v) h = ground arith

value_at-At :
    (buf rest : Bytes) (pos : ℕ) (value : Option Bytes)
    → ValueFits value
    → At buf pos (stored_value value ++ rest)
    → value_at buf pos (value_len value) ≡ some value
unfolding value_at
value_at-At buf rest pos none h at = refl
value_at-At buf rest pos (some v) h at =
    ground (arith, get_slice-At buf v rest pos (length v) (whole_value at) refl)
  where
    whole_value :
        At buf pos ((if len_u32 (length v) == value_none then [] else v) ++ rest)
        → At buf pos (v ++ rest)
    whole_value =
        subst (λ b. At buf pos ((if b then [] else v) ++ rest) → At buf pos (v ++ rest))
          (sym (not_none v h)) (λ at. at)

module _ (buf key : Bytes) (value : Option Bytes) (pos begin_ts end_ts : ℕ) (rest : Bytes)
    (at : At buf pos (fields key value begin_ts end_ts rest)) (short : length key < value_none)
    (fits : ValueFits value) (begin_fits : begin_ts < 2 ^ 64) (end_fits : end_ts < 2 ^ 64) where
  abbrev pub times : Bytes
  times = le_bytes 8 begin_ts ++ (le_bytes 8 end_ts ++ rest)

  abbrev pub after_len : Bytes
  after_len = key ++ (le_bytes 4 (value_len value) ++ (stored_value value ++ times))

  pub key_len-At : read_le 4 buf pos ≡ some (length key)
  key_len-At =
      read_le-At buf after_len 4 pos (len_u32 (length key)) at (omega arith)
      ∙ ap (λ n. some n) (omega arith)

  key-At : At buf (pos + 4) after_len
  key-At =
      At-next buf pos 4 (le_bytes 4 (len_u32 (length key))) after_len at
        (length-le_bytes 4 (len_u32 (length key)))

  pub value_len-At :
      At buf (pos + 4 + length key) (le_bytes 4 (value_len value) ++ (stored_value value ++ times))
  value_len-At = At-next buf (pos + 4) (length key) key _ key-At refl

  value-At : At buf (pos + 4 + length key + 4) (stored_value value ++ times)
  value-At =
      At-next buf (pos + 4 + length key) 4 (le_bytes 4 (value_len value))
        (stored_value value ++ times) value_len-At (length-le_bytes 4 (value_len value))

  abbrev ts_offset : ℕ
  ts_offset =
      pos + 4 + length key + 4 + (if value_len value == value_none then 0 else value_len value)

  times-At : At buf ts_offset times
  times-At =
      At-next buf (pos + 4 + length key + 4) _ (stored_value value) times value-At
        (length-stored_value value fits)

  end-At : At buf (ts_offset + 8) (le_bytes 8 end_ts ++ rest)
  end-At =
      At-next buf ts_offset 8 (le_bytes 8 begin_ts) (le_bytes 8 end_ts ++ rest) times-At
        (length-le_bytes 8 begin_ts)

  key_at-fields : key_at buf pos ≡ some key
  unfolding key_at
  key_at-fields =
      ap (λ r. r >>= λ key_len. get_slice buf (pos + 4) key_len) key_len-At
      ∙ get_slice-At buf key (le_bytes 4 (value_len value) ++ (stored_value value ++ times))
          (pos + 4) (length key) key-At refl

  version_at-fields :
      version_at buf pos
      ≡ some (record { value = value; begin_ts = begin_ts; end_ts = end_ts; tx_id = 0 })
  unfolding version_at
  version_at-fields = ground (
    arith,
    key_len-At,
    read_le-At buf (stored_value value ++ times) 4 (pos + 4 + length key) (value_len value)
        value_len-At (value_len_lt value),
    value_at-At buf times (pos + 4 + length key + 4) value fits value-At,
    read_le-At buf (le_bytes 8 end_ts ++ rest) 8 ts_offset begin_ts times-At begin_fits,
    read_le-At buf rest 8 (ts_offset + 8) end_ts end-At end_fits,
  )

pub some_inj : {x row : VersionedRow} → some x ≡ some row → x ≡ row
some_inj h = cc

-- What the search reads of a row at an offset.
abbrev pub ReadsAs : Bytes → ℕ → VersionedRow → Type 0
ReadsAs buf pos row = (key_at buf pos ≡ some row.key) × (version_at buf pos ≡ some (stored row))

entry-ReadsAs :
    (buf rest : Bytes) (pos : ℕ) (row : VersionedRow)
    → Fits row
    → At buf pos (entry row ++ rest)
    → ReadsAs buf pos row
entry-ReadsAs buf rest pos row (k, v, b, e) at =
    let at' : At buf pos
        (fields row.key row.version.value row.version.begin_ts row.version.end_ts rest) =
      subst (λ xs. At buf pos xs) (entry-fields row rest) at in
    (
      key_at-fields buf row.key row.version.value pos row.version.begin_ts row.version.end_ts rest
          at' k v b e,
      version_at-fields buf row.key row.version.value pos row.version.begin_ts row.version.end_ts
          rest at' k v b e,
    )

unfoldable pub entries : List VersionedRow → Bytes
entries [] = []
entries (row ∷ rows) = entry row ++ entries rows

unfoldable pub positions : ℕ → List VersionedRow → List ℕ
positions pos [] = []
positions pos (row ∷ rows) = (pos % 2 ^ 32) ∷ positions (pos + length (entry row)) rows

push_rows-entries :
    (rows : List VersionedRow) (bytes : Bytes) (offsets : List ℕ)
    → push_rows rows bytes offsets
      ≡ (bytes ++ entries rows, offsets ++ positions (length bytes) rows)
unfolding push_rows entries positions
push_rows-entries [] bytes offsets = ground (arith, append_nil bytes, append_nil offsets)
push_rows-entries (row ∷ rows) bytes offsets = ground (
  arith,
  push_rows-entries rows (bytes ++ entry row) (offsets ++ (length bytes % 2 ^ 32) ∷ []),
  append_assoc bytes (entry row) (entries rows),
  append_assoc offsets ((length bytes % 2 ^ 32) ∷ [])
      (positions (length (bytes ++ entry row)) rows),
  length-append bytes (entry row),
)

positions-ReadsAs :
    (buf rest : Bytes) (pos : ℕ) (rows : List VersionedRow)
    → All Fits rows
    → At buf pos (entries rows ++ rest)
    → length buf < 2 ^ 32
    → (i : ℕ) (row : VersionedRow) → get_elem? rows i ≡ some row
    → (offset : ℕ) × (get_elem? (positions pos rows) i ≡ some offset) × ReadsAs buf offset row
unfolding entries positions
positions-ReadsAs buf rest pos [] f at small i row h = absurd (cc)
positions-ReadsAs buf rest pos (x ∷ rows) (f, fs) at small zero row h =
    let at' : At buf pos (entry x ++ (entries rows ++ rest)) =
      subst (λ xs. At buf pos xs) (append_assoc (entry x) (entries rows) rest) at in
    (
      pos % 2 ^ 32,
      refl,
      subst (λ n. ReadsAs buf n row) (omega (arith, at.1))
          (subst (λ r. ReadsAs buf pos r) (some_inj h)
            (entry-ReadsAs buf (entries rows ++ rest) pos x f at')),
    )
positions-ReadsAs buf rest pos (x ∷ rows) (f, fs) at small (suc i) row h =
    let at' : At buf pos (entry x ++ (entries rows ++ rest)) =
      subst (λ xs. At buf pos xs) (append_assoc (entry x) (entries rows) rest) at in
    positions-ReadsAs buf rest (pos + length (entry x)) rows fs
      (At-next buf pos (length (entry x)) (entry x) (entries rows ++ rest) at' refl) small i row h

-- The header and the entries.
abbrev pub index_bytes : List VersionedRow → Bytes
index_bytes rows = (magic ++ le_bytes 4 (length rows % 2 ^ 32)) ++ entries rows

pub from_rows-parts :
    (rows : List VersionedRow)
    → ((from_rows rows).data_bytes ≡ index_bytes rows)
      × ((from_rows rows).offsets ≡ positions 8 rows)
      × ((from_rows rows).count ≡ length rows % 2 ^ 32)
unfolding from_rows
from_rows-parts rows =
    let e = push_rows-entries rows (magic ++ le_bytes 4 (length rows % 2 ^ 32)) [] in
    (ap (λ p. p.0) e, ap (λ p. p.1) e, refl)

pub from_rows-ReadsAs :
    (rows : List VersionedRow)
    → All Fits rows
    → length (index_bytes rows) < 2 ^ 32
    → (i : ℕ) (row : VersionedRow) → get_elem? rows i ≡ some row
    → (offset : ℕ) × (get_elem? (from_rows rows).offsets i ≡ some offset)
      × ReadsAs (from_rows rows).data_bytes offset row
from_rows-ReadsAs rows f small i row h =
    let (data_eq, offsets_eq, _) = from_rows-parts rows in
    let (offset, found, reads) =
      positions-ReadsAs (index_bytes rows) [] 8 rows f
        (subst (λ xs. At (index_bytes rows) 8 xs) (sym (append_nil (entries rows)))
          (At-append (magic ++ le_bytes 4 (length rows % 2 ^ 32)) (entries rows)))
        small i row h in
    (
      offset,
      ap (λ o. get_elem? o i) offsets_eq ∙ found,
      subst (λ b. ReadsAs b offset row) (sym data_eq) reads,
    )

length-entries : (rows : List VersionedRow) → length rows ≤ length (entries rows)
unfolding entries entry
length-entries [] = omega arith
length-entries (row ∷ rows) =
    omega (arith, length-entries rows, length-append (entry row) (entries rows))

pub length-index_bytes : (rows : List VersionedRow) → length rows < length (index_bytes rows)
length-index_bytes rows = omega (arith, length-entries rows)
