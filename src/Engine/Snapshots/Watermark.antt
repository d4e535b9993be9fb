-- ===== src/Engine/Snapshots/Watermark.antt =====
-- The watermark against readers that begin and end, and commits, in any order.
use hat_p.Prelude.{ℕ, ◌+◌, ◌^◌, ◌≤◌, ◌<◌, List, [], ◌∷◌}
use hat_p.Engine.Snapshots.{
  Snapshots, pin_snapshot, snapshot_ts, begin_read, unpin_snapshot, alloc_tx_id, cover_tx_id,
  next_commit_ts,
}
use hat_p.Engine.Snapshots.Pins.{count, drop_one, IsCounted}

-- The engine and the snapshots of the guards that are alive.
pub record World : Type 0 where
  pub engine : Snapshots
  pub guards : List ℕ

-- An engine that was opened at a commit sequence, without readers.
abbrev pub opened : ℕ → ℕ → World
opened next_tx_id commit_seq = record {
  engine = record { next_tx_id = next_tx_id; commit_seq = commit_seq; pinned_snapshots = [] };
  guards = [];
}

-- A step of some thread. `pin_snapshot` is for a snapshot that is still held.
pub data Step : World → World → Type 0 where
  reader_begins :
      (w : World)
      → Step w
          (record { engine = (begin_read w.engine).1; guards = (begin_read w.engine).0 ∷ w.guards })
  reader_pins :
      (w : World) (ts : ℕ)
      → 0 < count ts w.guards
      → Step w (record { engine = pin_snapshot ts w.engine; guards = ts ∷ w.guards })
  reader_ends :
      (w : World) (ts : ℕ)
      → 0 < count ts w.guards
      → Step w (record { engine = unpin_snapshot ts w.engine; guards = drop_one ts w.guards })
  commits :
      (w : World)
      → w.engine.commit_seq + 1 < 2 ^ 64
      → Step w (record { engine = (next_commit_ts w.engine).1; guards = w.guards })
  reserves : (w : World) → Step w (record { engine = (alloc_tx_id w.engine).1; guards = w.guards })
  covers :
      (w : World) (tx_id : ℕ)
      → Step w (record { engine = cover_tx_id tx_id w.engine; guards = w.guards })

pub data Reach (s : World) : World → Type 0 where
  here : Reach s s
  next : {t u : World} → Reach s t → Step t u → Reach s u

-- `low` lies at or below every snapshot that is held or will be read.
record IsSafe (low : ℕ) (w : World) : Type 0 where
  counted : IsCounted w.engine.pinned_snapshots w.guards
  fits : w.engine.commit_seq < 2 ^ 64
  at_least : low ≤ snapshot_ts w.engine
  held : (ts : ℕ) → 0 < count ts w.guards → low ≤ ts
