-- ===== src/Tests/Merge.antt =====
-- The merge of compaction on three rows of two keys.
use hat_p.Prelude.{◌<◌, ◌≡◌, refl, List, [], ◌∷◌, arith, All, bytes_ord}
use hat_p.Prelude.Map.{lookup}
use hat_p.Engine.Version.{live, tombstone}
use hat_p.Engine.Version.Visible.{map_write}
use hat_p.Engine.Memtable.{VersionedRow}
use hat_p.Engine.Merge.{insert_visible, dedup_superseded}
use hat_p.Engine.Merge.Newest.{newest}
use hat_p.Engine.Merge.Superseded.{dedup_superseded_exact}

-- Written at 3, 5 and 7; each flushed with an open end.
abbrev rows : List VersionedRow
rows =
    record { key = 1 ∷ []; version = live (10 ∷ []) 3 3 }
    ∷ record { key = 2 ∷ []; version = live (20 ∷ []) 5 5 }
    ∷ record { key = 1 ∷ []; version = tombstone 7 7 }
    ∷ []

-- At the watermark 7 the version of 3 is dropped.
merged :
    dedup_superseded rows 7
    ≡ record { key = 1 ∷ []; version = tombstone 7 7 }
      ∷ record { key = 2 ∷ []; version = live (20 ∷ []) 5 5 }
      ∷ []
unfolding dedup_superseded
merged = refl

dedup_superseded_exact_example :
    (map_write (lookup (1 ∷ []) (insert_visible 6 (dedup_superseded rows 4) []))
      ≡ newest (1 ∷ []) 6 rows)
    × All (λ row. 4 < row.version.end_ts) (dedup_superseded rows 4)
dedup_superseded_exact_example =
    dedup_superseded_exact (1 ∷ []) 6 4 rows (omega arith) (omega arith)
