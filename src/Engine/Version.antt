-- ===== src/Engine/Version.antt =====
-- MVCC version chains (crates/hatp-engine/src/version.rs). A chain is the list in its `SmallVec`,
-- newest first. The laws are in the modules below.
pub mod Splice
pub mod Visible
pub mod Collect
use hat_p.Prelude.{
  ℕ, zero, suc, ◌+◌, ◌-◌, ◌*◌, ◌/◌, ◌%◌, ◌^◌, ◌≤◌, ◌<◌, compare, Ordering, ◌≡◌, refl, sym, ap, ◌∙◌,
  subst, fun_ext, ◌≢◌, ◌↔◌, ◌⊎◌, inl, inr, Bool, false, not, ◌&&◌, ◌||◌, Option, none, some, List,
  [], ◌∷◌, ◌++◌, map, arith, Ord, Bytes, ltb, leb, ◌==◌, if◌then◌else◌, ltb→lt, lt→ltb, leb→le,
  ==_iff, Bool-cases, Option-cases, length, take, drop, get_elem?, any, All, Any, length-append,
  bytes_eq, in_range, contains, set_insert,
}
use mathlib.Core.Bool.{true}

-- `hatp_types::OPEN_ENDED_TS`
abbrev pub open_ended_ts : ℕ
open_ended_ts = 2 ^ 64 - 1

pub record VersionedValue : Type 0 where
  pub value : Option Bytes
  pub begin_ts : ℕ
  pub end_ts : ℕ
  pub tx_id : ℕ

abbrev pub VersionChain : Type 0
VersionChain = List VersionedValue

abbrev pub live : Bytes → ℕ → ℕ → VersionedValue
live value ts tx_id = record {
  value = some value;
  begin_ts = ts;
  end_ts = open_ended_ts;
  tx_id = tx_id;
}

abbrev pub tombstone : ℕ → ℕ → VersionedValue
tombstone ts tx_id = record { value = none; begin_ts = ts; end_ts = open_ended_ts; tx_id = tx_id }

abbrev pub visible_at : VersionedValue → ℕ → Bool
visible_at version snapshot_ts = leb version.begin_ts snapshot_ts && ltb snapshot_ts version.end_ts

-- `version.end_ts = ts`
abbrev pub closed_at : ℕ → VersionedValue → VersionedValue
closed_at ts version = record version { end_ts = ts }

-- `partition_point(|candidate| candidate.begin_ts > ts)`: how many versions at the front are newer.
unfoldable pub partition_point : ℕ → VersionChain → ℕ
partition_point ts [] = 0
partition_point ts (candidate ∷ chain) =
    let rest = partition_point ts chain in if ltb ts candidate.begin_ts then suc rest else 0

-- `Vec::insert`; the code keeps `idx` in bounds.
unfoldable pub insert_at : ℕ → VersionedValue → VersionChain → VersionChain
insert_at zero version chain = version ∷ chain
insert_at (suc idx) version [] = version ∷ []
insert_at (suc idx) version (x ∷ chain) = x ∷ insert_at idx version chain

-- `self.versions[idx] = version`
unfoldable pub set_at : ℕ → VersionedValue → VersionChain → VersionChain
set_at idx version [] = []
set_at zero version (x ∷ chain) = version ∷ chain
set_at (suc idx) version (x ∷ chain) = x ∷ set_at idx version chain

-- `if idx > 0 { version.end_ts = self.versions[idx - 1].begin_ts }`
unfoldable pub end_at_newer : ℕ → VersionedValue → VersionChain → VersionedValue
end_at_newer zero version chain = version
end_at_newer (suc i) version chain = elim (get_elem? chain i) [
  | none ↦ version
  | some newer ↦ closed_at newer.begin_ts version
]

-- `if older.end_ts > ts { older.end_ts = ts }`
unfoldable pub cut_older : ℕ → VersionedValue → VersionedValue
cut_older ts older = if ltb ts older.end_ts then closed_at ts older else older

-- The part of `insert` behind the fast paths: `idx` comes from the partition point.
unfoldable pub place : ℕ → VersionedValue → VersionChain → VersionChain
unfolding insert_at set_at end_at_newer cut_older
place idx version chain = elim (get_elem? chain idx) [
  | none ↦ insert_at idx (end_at_newer idx version chain) chain
  | some older ↦
      if older.begin_ts == version.begin_ts
      then set_at idx (closed_at older.end_ts version) chain
      else insert_at idx (end_at_newer idx version chain)
          (set_at idx (cut_older version.begin_ts older) chain)
]

unfoldable pub insert : VersionedValue → VersionChain → VersionChain
unfolding place partition_point
insert version [] = version ∷ []
insert version (head ∷ chain) =
    if ltb head.begin_ts version.begin_ts
    then version ∷ closed_at version.begin_ts head ∷ chain
    else place (partition_point version.begin_ts (head ∷ chain)) version (head ∷ chain)

-- `for version in &self.versions { if snapshot.sees(version) { return Some(version.clone()) } }`
unfoldable pub find_visible : ℕ → VersionChain → Option VersionedValue
find_visible snapshot [] = none
find_visible snapshot (version ∷ chain) =
    if visible_at version snapshot then some version else find_visible snapshot chain

unfoldable pub get : ℕ → VersionChain → Option VersionedValue
unfolding find_visible
get snapshot [] = none
get snapshot (head ∷ chain) =
    if visible_at head snapshot then some head else find_visible snapshot (head ∷ chain)

-- `retain`
unfoldable pub retain : (VersionedValue → Bool) → VersionChain → VersionChain
retain keep [] = []
retain keep (version ∷ chain) =
    let rest = retain keep chain in if keep version then version ∷ rest else rest

unfoldable pub garbage_collect : ℕ → VersionChain → ℕ × VersionChain
unfolding retain
garbage_collect oldest_snapshot [] = (0, [])
garbage_collect oldest_snapshot (head ∷ chain) =
    let kept =
      retain (λ version. version.begin_ts == head.begin_ts || ltb oldest_snapshot version.end_ts)
        (head ∷ chain) in
    (length (head ∷ chain) - length kept, kept)
