-- ===== src/Engine/Merge/Newest.antt =====
-- The newest write of a key among rows, as `insert_newest` finds it: the first of the greatest.
use hat_p.Prelude.{
  eq_of_bytes_eq, bytes_ord, ℕ, ◌≡◌, refl, sym, ap, ◌∙◌, inl, inr, ◌&&◌, Option, none, some, List,
  [], ◌∷◌, map, arith, Bytes, ltb, leb, if◌then◌else◌, Bool-cases, Option-cases, bytes_eq,
}
use hat_p.Prelude.Map.{Map, lookup, lookup-insert}
use hat_p.Engine.Version.{VersionedValue, visible_at}
use hat_p.Engine.Version.Visible.{Write, write_of, map_write}
use hat_p.Engine.Memtable.{VersionedRow}
use hat_p.Engine.Merge.{insert_newest, insert_visible}

-- The greater of two writes, the first one of equals.
unfoldable pub newer : Option Write → Option Write → Option Write
newer none b = b
newer (some a) none = some a
newer (some a) (some b) = if ltb a.1 b.1 then some b else some a

-- The row as a write that a snapshot may see under `key`.
abbrev pub write_at : Bytes → ℕ → VersionedRow → Option Write
write_at key snapshot row =
    if bytes_eq key row.key && leb row.version.begin_ts snapshot
    then some (write_of row.version)
    else none

-- The newest write under `key` that began at or before `snapshot`, whatever the ends of the rows.
unfoldable pub newest : Bytes → ℕ → List VersionedRow → Option Write
unfolding newer
newest key snapshot [] = none
newest key snapshot (row ∷ rows) = newer (write_at key snapshot row) (newest key snapshot rows)

-- `rows` with `snapshot.sees`
unfoldable pub seen_rows : ℕ → List VersionedRow → List VersionedRow
seen_rows snapshot [] = []
seen_rows snapshot (row ∷ rows) =
    let rest = seen_rows snapshot rows in
    if visible_at row.version snapshot then row ∷ rest else rest

pub newer_assoc : (a b c : Option Write) → newer (newer a b) c ≡ newer a (newer b c)
unfolding newer
newer_assoc none b c = refl
newer_assoc (some a) none c = refl
newer_assoc (some a) (some b) none = ground arith
newer_assoc (some a) (some b) (some c) = ground arith

pub newer-none : (a : Option Write) → newer a none ≡ a
unfolding newer
newer-none none = refl
newer-none (some a) = refl

map_write-insert_newest :
    (key j : Bytes) (value : VersionedValue) (map : Map Bytes VersionedValue)
    → map_write (lookup j (insert_newest map key value))
      ≡ newer (map_write (lookup j map)) (if bytes_eq j key then some (write_of value) else none)
unfolding insert_newest newer
map_write-insert_newest key j value map = elim (Option-cases (lookup key map)) [
  | inl e ↦ elim (Option-cases (lookup j map)) [
    | inl d ↦ ground (arith, lookup-insert key j value map, eq_of_bytes_eq j key)
    | inr (w, d) ↦ ground (arith, lookup-insert key j value map, eq_of_bytes_eq j key)
  ]
  | inr (current, e) ↦ elim (Option-cases (lookup j map)) [
    | inl d ↦ ground (arith, lookup-insert key j value map, eq_of_bytes_eq j key)
    | inr (w, d) ↦ ground (arith, lookup-insert key j value map, eq_of_bytes_eq j key)
  ]
]

pub insert_visible-newest :
    (key : Bytes) (snapshot : ℕ) (rows : List VersionedRow) (map : Map Bytes VersionedValue)
    → map_write (lookup key (insert_visible snapshot rows map))
      ≡ newer (map_write (lookup key map)) (newest key snapshot (seen_rows snapshot rows))
unfolding insert_visible newest seen_rows
insert_visible-newest key snapshot [] map = sym (newer-none _)
insert_visible-newest key snapshot (row ∷ rows) map =
    elim (Bool-cases (visible_at row.version snapshot)) [
      | inl e ↦ rw e (
          insert_visible-newest key snapshot rows (insert_newest map row.key row.version)
          ∙ ap (λ w. newer w (newest key snapshot (seen_rows snapshot rows)))
              (map_write-insert_newest row.key key row.version map)
          ∙ newer_assoc (map_write (lookup key map)) _ _
          ∙ ap
              (λ w.
                newer (map_write (lookup key map))
                  (newer w (newest key snapshot (seen_rows snapshot rows))))
              (ground arith))
      | inr e ↦ rw e (insert_visible-newest key snapshot rows map)
    ]
