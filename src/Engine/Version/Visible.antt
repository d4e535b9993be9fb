-- ===== src/Engine/Version/Visible.antt =====
-- What a snapshot sees of a version chain: the newest version that began at or before it.
use hat_p.Prelude.{
  ℕ, ◌<◌, ◌≡◌, refl, ◌∙◌, inl, inr, ◌&&◌, Option, none, some, [], ◌∷◌, arith, Bytes, leb,
  if◌then◌else◌, Option-cases,
}
use hat_p.Engine.Version.{
  VersionedValue, VersionChain, open_ended_ts, closed_at, insert, find_visible, get,
}
use hat_p.Engine.Version.Splice.{Linked, IsContiguous, splice, insert-splice}

-- A write as its readers see it: the row or the tombstone, when it began, and who wrote it.
abbrev pub Write : Type 0
Write = Option Bytes × ℕ × ℕ

abbrev pub write_of : VersionedValue → Write
write_of version = (version.value, version.begin_ts, version.tx_id)

-- The newest write of the chain that began at or before `snapshot`.
unfoldable pub latest : ℕ → VersionChain → Option Write
latest snapshot [] = none
latest snapshot (version ∷ chain) =
    if leb version.begin_ts snapshot then some (write_of version) else latest snapshot chain

-- `write` against what was read before it: it wins unless a later one is seen already.
unfoldable pub overlay : ℕ → Write → Option Write → Option Write
overlay snapshot write none = if leb write.1 snapshot then some write else none
overlay snapshot write (some seen) =
    if leb write.1 snapshot && leb seen.1 write.1 then some write else some seen

abbrev pub map_write : Option VersionedValue → Option Write
map_write none = none
map_write (some version) = some (write_of version)

get-find_visible :
    (snapshot : ℕ) (chain : VersionChain) → get snapshot chain ≡ find_visible snapshot chain
unfolding get find_visible
get-find_visible snapshot [] = refl
get-find_visible snapshot (x ∷ chain) = ground (arith)

find_visible-latest :
    (snapshot upper : ℕ) (chain : VersionChain)
    → Linked upper chain
    → snapshot < upper
    → map_write (find_visible snapshot chain) ≡ latest snapshot chain
unfolding find_visible latest
find_visible-latest snapshot upper [] h b = refl
find_visible-latest snapshot upper (x ∷ chain) (ends, below, linked) b =
    ground (arith, find_visible-latest snapshot x.begin_ts chain linked)

-- On a contiguous chain, get at a snapshot below OPEN_ENDED_TS finds the newest write that began
-- at or before the snapshot.
pub get-latest :
    (snapshot : ℕ) (chain : VersionChain)
    → IsContiguous chain
    → snapshot < open_ended_ts
    → map_write (get snapshot chain) ≡ latest snapshot chain
get-latest snapshot chain h b =
    rw (get-find_visible snapshot chain) (find_visible-latest snapshot open_ended_ts chain h b)

splice-Linked :
    (upper : ℕ) (version : VersionedValue) (chain : VersionChain)
    → Linked upper chain
    → version.end_ts ≡ upper
    → version.begin_ts < upper
    → Linked upper (splice version chain)
unfolding splice
splice-Linked upper version [] h e b = (e, b, tt)
splice-Linked upper version (x ∷ chain) (ends, below, linked) e b =
    ground (arith, splice-Linked x.begin_ts (closed_at x.begin_ts version) chain linked)

-- insert of an open-ended version keeps the intervals of a contiguous chain end to end, newest
-- first, whatever the order of the timestamps.
pub insert-IsContiguous :
    (version : VersionedValue) (chain : VersionChain)
    → IsContiguous chain
    → version.end_ts ≡ open_ended_ts
    → version.begin_ts < open_ended_ts
    → IsContiguous (insert version chain)
insert-IsContiguous version chain h e b =
    rw (insert-splice version chain h b) (splice-Linked open_ended_ts version chain h e b)

latest_below :
    (snapshot upper : ℕ) (chain : VersionChain)
    → Linked upper chain
    → (seen : Write) → latest snapshot chain ≡ some seen
    → seen.1 < upper
unfolding latest
latest_below snapshot upper [] h seen e = absurd (cc)
latest_below snapshot upper (x ∷ chain) (ends, below, linked) seen e =
    ground (arith, latest_below snapshot x.begin_ts chain linked seen)

latest-splice :
    (snapshot upper : ℕ) (version : VersionedValue) (chain : VersionChain)
    → Linked upper chain
    → latest snapshot (splice version chain)
      ≡ overlay snapshot (write_of version) (latest snapshot chain)
unfolding latest splice overlay
latest-splice snapshot upper version [] h = ground arith
latest-splice snapshot upper version (x ∷ chain) (ends, below, linked) =
    elim (Option-cases (latest snapshot chain)) [
      | inl e ↦
          ground
            (arith, latest-splice snapshot x.begin_ts (closed_at x.begin_ts version) chain linked)
      | inr (seen, e) ↦ ground (
        arith,
        latest-splice snapshot x.begin_ts (closed_at x.begin_ts version) chain linked,
        latest_below snapshot x.begin_ts chain linked seen e,
      )
    ]

-- On a contiguous chain, after insert of an open-ended version, get at a snapshot below
-- OPEN_ENDED_TS finds the new write if the version began at or before the snapshot and no later
-- write was seen there, and what it found before otherwise.
pub get-insert :
    (snapshot : ℕ) (version : VersionedValue) (chain : VersionChain)
    → IsContiguous chain
    → version.end_ts ≡ open_ended_ts
    → version.begin_ts < open_ended_ts
    → snapshot < open_ended_ts
    → map_write (get snapshot (insert version chain))
      ≡ overlay snapshot (write_of version) (map_write (get snapshot chain))
get-insert snapshot version chain h e b s =
    get-latest snapshot (insert version chain) (insert-IsContiguous version chain h e b) s
    ∙ (rw (insert-splice version chain h b, get-latest snapshot chain h s)
        (latest-splice snapshot open_ended_ts version chain h))
