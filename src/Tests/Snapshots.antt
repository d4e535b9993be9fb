-- ===== src/Tests/Snapshots.antt =====
-- The watermark against one reader and a commit.
use hat_p.Prelude.{[], ◌∷◌}
use hat_p.Engine.Snapshots.Watermark.{World}

-- A reader begins at 4, and a commit follows.
abbrev reading : World
reading = record {
  engine = record { next_tx_id = 1; commit_seq = 5; pinned_snapshots = (4, 1) ∷ [] };
  guards = 4 ∷ [];
}

abbrev committed : World
committed = record {
  engine = record { next_tx_id = 1; commit_seq = 6; pinned_snapshots = (4, 1) ∷ [] };
  guards = 4 ∷ [];
}
