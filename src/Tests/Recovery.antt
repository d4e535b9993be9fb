-- ===== src/Tests/Recovery.antt =====
-- The theorem on replay at a log of two transactions, the second without its commit marker.
use hat_p.Prelude.{◌≡◌, refl, inr, some, List, [], ◌∷◌, ◌++◌, arith, take, All}
use hat_p.Prelude.Result.{ok, err}
use hat_p.Engine.Types.{put, delete, corrupt_message}
use hat_p.Engine.Memtable.{records_of}
use hat_p.Engine.Recovery.{Recovered, replay}
use hat_p.Engine.Wal.{frame_body, commit_record}
use hat_p.Engine.Wal.Decode.{IsBuffer}
use hat_p.Engine.Wal.Log.{IsRecord, frames}
use hat_p.Engine.Wal.Recovery.{whole_frames}
use hat_p.Engine.Recovery.Crash.{
  recover_records, recover, whole_logged, torn_id, torn_mutations, recover_after_crash,
}
use hat_p.Engine.Recovery.Replay.{Logged, log_of, replayed, unfinished, replay-log_of}
use hat_p.Engine.Memtable

abbrev start : Recovered
start = record { pending = []; highest_tx = 0; next_commit_ts = 5; memtable = Memtable.empty }

abbrev one_logged : List Logged
one_logged = (7, put (1 ∷ []) (9 ∷ []), delete (2 ∷ []) ∷ []) ∷ []

replay-log_of_example :
    replay (log_of one_logged ++ records_of 8 (put (3 ∷ []) (4 ∷ []) ∷ [])) start
    ≡ ok (unfinished 8 (put (3 ∷ []) (4 ∷ []) ∷ []) (replayed one_logged start))
replay-log_of_example = replay-log_of one_logged 8 (put (3 ∷ []) (4 ∷ []) ∷ []) start refl

logged-IsRecord : All IsRecord (log_of one_logged)
unfolding records_of
logged-IsRecord = (
  ((omega arith, omega arith, omega arith), refl),
  (
    ((omega arith, omega arith, omega arith), refl),
    (((omega arith, omega arith, omega arith), refl), tt),
  ),
)

logged-IsBuffer : IsBuffer (frames (log_of one_logged))
unfolding records_of frame_body
logged-IsBuffer = omega arith

-- Forty bytes hold the first record and a part of the second, so nothing was committed.
recover_after_crash_example :
    recover (take 40 (frames (log_of one_logged))) start
    ≡ some (ok (unfinished 7 (put (1 ∷ []) (9 ∷ []) ∷ []) start))
unfolding whole_frames frame_body records_of whole_logged torn_id torn_mutations
recover_after_crash_example =
    recover_after_crash one_logged 40 start logged-IsRecord logged-IsBuffer refl (inr (omega arith))

-- Three bytes of a log are refused, and not taken for a cut frame.
three_bytes : recover (take 3 (frames (commit_record 7 ∷ []))) start ≡ some (err corrupt_message)
unfolding recover recover_records frame_body
three_bytes = refl
