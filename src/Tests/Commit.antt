-- ===== src/Tests/Commit.antt =====
-- Group commits of two requests, and a commit alone, on a file that appends.
use hat_p.Prelude.{
  ◌≡◌, refl, sym, ap, true, some, List, [], ◌∷◌, ◌++◌, arith, ◌==◌, if◌then◌else◌, All,
}
use hat_p.Engine.Types.{EngineResult, put, delete, io}
use hat_p.Prelude.Result.{ok, err}
use hat_p.Engine.Wal.{frame_body, encode_mutations, encode_mutation_frames, encode_frame}
use hat_p.Engine.Wal.Decode.{IsBuffer}
use hat_p.Engine.Wal.Log.{frames}
use hat_p.Engine.Memtable.{records_of, apply_mutations, apply_mutations_batch}
use hat_p.Engine.Recovery.{Recovered}
use hat_p.Engine.Recovery.Crash.{recover}
use hat_p.Engine.Snapshots.{next_commit_ts}
use hat_p.Engine.Recovery.Replay.{log_of}
use hat_p.Engine.Commit.Replies.{
  waiting_on, count_on, every_request_is_answered, flush_pending_batch-err,
}
use hat_p.Engine.Commit.{
  write_and_sync, sync_written, Messages, check_batch, flush_passed, apply_each, apply_commit,
  pre_commit, caught, append_batch, append_multi_mutations_commit_and_sync, append_multi_mutations,
  synced, synced_bytes, write_encoded, write_buffer, written_bytes, encode_each, append_one,
  append_mutations_commit_and_sync, EngineHook, LogFile, full, group, Engine, PendingWrite,
  commit_single, flush_pending_batch,
}
use hat_p.Engine.Commit.Frames.{IsLoggable, Appends}
use hat_p.Engine.Commit.Durable.{IsDurable, recover-IsDurable, flush_pending_batch-IsDurable}
use hat_p.Engine.Commit.Single.{commit_single-IsDurable}
use hat_p.Engine.Memtable

-- A hook that rejects transaction 9.
abbrev selective : EngineHook (Unit {0})
selective = record {
  on_pre_commit = λ tx_id mutations h. (some (if tx_id == 9 then err io else ok tt), h);
  on_put = λ key value tx_id h. (true, h);
  on_delete = λ key tx_id h. (true, h);
  on_tx_commit = λ tx_id commit_ts h. h;
}

abbrev appending : LogFile
appending = record { write_all = λ buffer wal. (ok tt, wal ++ buffer); sync_data = λ wal. ok tt }

-- A disk that is full.
abbrev failing : LogFile
failing = record { write_all = λ buffer wal. (err io, wal); sync_data = λ wal. ok tt }

appending-Appends : Appends appending
appending-Appends buffer wal after h = sym (ap (λ r. r.1) h)

abbrev start : Recovered
start = record { pending = []; highest_tx = 0; next_commit_ts = 5; memtable = Memtable.empty }

abbrev opened : Engine (Unit {0})
opened = record {
  wal = [];
  snapshots = record { next_tx_id = 1; commit_seq = 5; pinned_snapshots = [] };
  memtable = Memtable.empty;
  hook = tt;
  published = [];
}

abbrev two_requests : List PendingWrite
two_requests =
    record { tx_id = 9; mutations = put (1 ∷ []) (4 ∷ []) ∷ []; result_tx = 0 }
    ∷ record { tx_id = 7; mutations = put (1 ∷ []) (3 ∷ []) ∷ delete (2 ∷ []) ∷ []; result_tx = 1 }
    ∷ []

opened-IsDurable : IsDurable start opened
opened-IsDurable = record {
  txns = [];
  content = refl;
  fits = tt;
  agree = record { table = refl; next_ts = refl };
}

two_requests-IsLoggable : All IsLoggable two_requests
unfolding records_of
two_requests-IsLoggable = (
  (omega arith, omega arith, (((omega arith, omega arith, omega arith), refl), tt)),
  (
    (
      omega arith,
      omega arith,
      (
        ((omega arith, omega arith, omega arith), refl),
        (((omega arith, omega arith, omega arith), refl), tt),
      ),
    ),
    tt,
  ),
)

abbrev committed_two : EngineResult (Unit {0}) × Messages × Engine (Unit {0})
committed_two = flush_pending_batch selective appending full two_requests opened

-- The rejected request is told its error, the other its timestamp.
two_replies : committed_two.1 ≡ (0, err io) ∷ (1, ok 5) ∷ []
unfolding flush_pending_batch check_batch flush_passed apply_each apply_commit pre_commit caught
    append_batch append_multi_mutations_commit_and_sync append_multi_mutations synced synced_bytes
    write_encoded write_buffer written_bytes encode_each encode_mutations encode_mutation_frames
    encode_frame apply_mutations_batch next_commit_ts
two_replies = refl

committed_ok : committed_two.0 ≡ ok tt
unfolding flush_pending_batch check_batch flush_passed apply_each apply_commit pre_commit caught
    append_batch append_multi_mutations_commit_and_sync append_multi_mutations synced synced_bytes
    write_encoded write_buffer written_bytes encode_each encode_mutations encode_mutation_frames
    encode_frame apply_mutations_batch next_commit_ts
committed_ok = refl

flush_pending_batch-IsDurable_example : IsDurable start committed_two.2
flush_pending_batch-IsDurable_example =
    flush_pending_batch-IsDurable selective appending full two_requests start opened
      appending-Appends two_requests-IsLoggable (omega arith) opened-IsDurable committed_ok

every_request_is_answered_example : count_on 1 committed_two.1 ≡ 1
unfolding waiting_on
every_request_is_answered_example =
    every_request_is_answered selective 1 appending full two_requests opened

failed_two : (flush_pending_batch selective failing (group 100) two_requests opened).0 ≡ err io
unfolding flush_pending_batch check_batch flush_passed pre_commit caught append_batch
    append_multi_mutations write_encoded write_buffer written_bytes encode_each encode_mutations
    encode_mutation_frames encode_frame
failed_two = refl

flush_pending_batch-err_example :
    ((flush_pending_batch selective failing (group 100) two_requests opened).2.memtable
      ≡ Memtable.empty)
    × ((flush_pending_batch selective failing (group 100) two_requests opened).2.snapshots
        ≡ opened.snapshots)
    × ((flush_pending_batch selective failing (group 100) two_requests opened).2.published ≡ [])
flush_pending_batch-err_example =
    flush_pending_batch-err selective failing (group 100) two_requests opened io failed_two

single_ok : (commit_single selective appending full 7 (delete (2 ∷ []) ∷ []) opened).0 ≡ ok 5
unfolding commit_single apply_commit pre_commit caught append_one append_mutations_commit_and_sync
    write_and_sync sync_written synced synced_bytes write_encoded write_buffer written_bytes
    encode_mutations encode_mutation_frames encode_frame apply_mutations_batch next_commit_ts
single_ok = refl

commit_single-IsDurable_example :
    (opened.snapshots.commit_seq ≡ opened.snapshots.commit_seq)
    × IsDurable start (commit_single selective appending full 7 (delete (2 ∷ []) ∷ []) opened).1
unfolding records_of
commit_single-IsDurable_example =
    commit_single-IsDurable selective appending full 7 (delete (2 ∷ []) ∷ []) start opened 5
      appending-Appends (omega arith) (omega arith)
      (((omega arith, omega arith, omega arith), refl), tt) (omega arith) opened-IsDurable single_ok

-- One committed put in the log, and its version in the memtable.
abbrev held : Engine (Unit {0})
held = record opened {
  wal = frames (log_of ((7, put (1 ∷ []) (3 ∷ []), []) ∷ []));
  snapshots = record { next_tx_id = 8; commit_seq = 6; pinned_snapshots = [] };
  memtable = apply_mutations 7 (put (1 ∷ []) (3 ∷ []) ∷ []) 5 Memtable.empty;
}

held-IsDurable : IsDurable start held
unfolding records_of
held-IsDurable = record {
  txns = (7, put (1 ∷ []) (3 ∷ []), []) ∷ [];
  content = refl;
  fits = (
    ((omega arith, omega arith, omega arith), refl),
    (((omega arith, omega arith, omega arith), refl), tt),
  );
  agree = record { table = refl; next_ts = refl };
}

held-IsBuffer : IsBuffer held.wal
unfolding records_of frame_body
held-IsBuffer = omega arith

recover-IsDurable_example :
    (s : Recovered) × (recover held.wal start ≡ some (ok s))
    × (s.memtable ≡ held.memtable)
    × (s.next_commit_ts ≡ 6)
recover-IsDurable_example = recover-IsDurable start held refl held-IsBuffer held-IsDurable
