-- ===== src/Engine/Snapshots.antt =====
-- The counters of the engine and the pinned snapshots (crates/hatp-engine/src/lib.rs): what a read
-- pins, and the watermark below which compaction may collect. A method runs under the lock of the
-- pins, or is one atomic operation. The laws are in the modules below.
pub mod Pins
pub mod Watermark
use hat_p.Prelude.{
  ℕ, zero, suc, ◌+◌, ◌-◌, ◌*◌, ◌/◌, ◌%◌, ◌^◌, ◌≤◌, ◌<◌, compare, Ordering, ◌≡◌, refl, sym, ap, ◌∙◌,
  subst, fun_ext, ◌≢◌, ◌↔◌, ◌⊎◌, inl, inr, Bool, true, false, not, ◌&&◌, ◌||◌, Option, none, some,
  List, [], ◌∷◌, ◌++◌, map, arith, Ord, Bytes, ltb, leb, ◌==◌, if◌then◌else◌, ltb→lt, lt→ltb,
  leb→le, ==_iff, Bool-cases, Option-cases, length, take, drop, get_elem?, any, All, Any,
  length-append, bytes_eq, in_range, contains, set_insert, nat_ord,
}
use Prim.Native.Nat.{min}
use hat_p.Prelude.Map.{Map, lookup, insert, remove}
use hat_p.Engine.Memtable.{usize_max, saturating_add}

pub record Snapshots : Type 0 where
  pub next_tx_id : ℕ
  pub commit_seq : ℕ
  pub pinned_snapshots : Map ℕ ℕ

-- `*pins.entry(ts).or_insert(0) += 1`
unfoldable pub add_pin : ℕ → Map ℕ ℕ → Map ℕ ℕ
unfolding lookup insert
add_pin ts pins = elim (lookup ts pins) [
  | none ↦ insert ts 1 pins
  | some count ↦ insert ts (count + 1) pins
]

unfoldable pub pin_snapshot : ℕ → Snapshots → Snapshots
unfolding add_pin
pin_snapshot ts engine = record engine { pinned_snapshots = add_pin ts engine.pinned_snapshots }

-- `commit_seq.load(..).saturating_sub(1)`
abbrev pub snapshot_ts : Snapshots → ℕ
snapshot_ts engine = engine.commit_seq - 1

unfoldable pub begin_read : Snapshots → ℕ × Snapshots
unfolding pin_snapshot
begin_read engine = (snapshot_ts engine, pin_snapshot (snapshot_ts engine) engine)

-- `*count -= 1`, and the entry goes when the count is 0.
unfoldable pub drop_pin : ℕ → Map ℕ ℕ → Map ℕ ℕ
unfolding lookup insert remove
drop_pin ts pins = elim (lookup ts pins) [
  | none ↦ pins
  | some count ↦ if count - 1 == 0 then remove ts pins else insert ts (count - 1) pins
]

unfoldable pub unpin_snapshot : ℕ → Snapshots → Snapshots
unfolding drop_pin
unpin_snapshot ts engine = record engine { pinned_snapshots = drop_pin ts engine.pinned_snapshots }

-- `pins.keys().next().copied().unwrap_or(u64::MAX)`
unfoldable pub min_pinned : Map ℕ ℕ → ℕ
min_pinned [] = usize_max
min_pinned ((ts, count) ∷ pins) = ts

unfoldable pub watermark : Snapshots → ℕ
unfolding min_pinned
watermark engine = min (min_pinned engine.pinned_snapshots) (snapshot_ts engine)

-- The loop retries until its exchange succeeds, and then has done this once. 0 is a sentinel.
unfoldable pub alloc_tx_id : Snapshots → ℕ × Snapshots
alloc_tx_id engine =
    let start = if engine.next_tx_id == 0 then 1 else engine.next_tx_id in
    (start, record engine { next_tx_id = (start + 1) % 2 ^ 64 })

-- The loop of `write_with_tx`: the counter is raised to `tx_id + 1`, and never lowered.
unfoldable pub cover_tx_id : ℕ → Snapshots → Snapshots
cover_tx_id tx_id engine =
    let target = saturating_add tx_id 1 in
    record engine {
      next_tx_id = if ltb engine.next_tx_id target then target else engine.next_tx_id;
    }

-- `commit_seq.fetch_add(1, ..)`
unfoldable pub next_commit_ts : Snapshots → ℕ × Snapshots
next_commit_ts engine =
    (engine.commit_seq, record engine { commit_seq = (engine.commit_seq + 1) % 2 ^ 64 })
