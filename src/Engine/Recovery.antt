-- ===== src/Engine/Recovery.antt =====
-- Recovery of the memtable from the log: the replay loop of `Engine::open_with_crash_test_and_hook`
-- (crates/hatp-engine/src/lib.rs). The laws are in the module below.
pub mod Replay
pub mod Crash
use hat_p.Prelude.{
  ℕ, zero, suc, ◌+◌, ◌-◌, ◌*◌, ◌/◌, ◌%◌, ◌^◌, ◌≤◌, ◌<◌, compare, Ordering, ◌≡◌, refl, sym, ap, ◌∙◌,
  subst, fun_ext, ◌≢◌, ◌↔◌, ◌⊎◌, inl, inr, Bool, true, false, not, ◌&&◌, ◌||◌, Option, none, some,
  List, [], ◌∷◌, ◌++◌, map, arith, Ord, Bytes, ltb, leb, ◌==◌, if◌then◌else◌, ltb→lt, lt→ltb,
  leb→le, ==_iff, Bool-cases, Option-cases, length, take, drop, get_elem?, any, All, Any,
  length-append, bytes_eq, in_range, contains, set_insert, nat_ord,
}
use Prim.Native.Nat.{max}
use hat_p.Prelude.Map.{Map, lookup, insert, remove}
use hat_p.Prelude.Result.{ok, err, ◌>>=◌}
use hat_p.Engine.Types.{EngineResult}
use hat_p.Engine.Wal.{OpType, put_op, delete_op, commit_op, abort_op, WalRecord}
use hat_p.Engine.Memtable.{BTreeMapTable, saturating_add, apply_records_batch}

-- The variables of the loop.
pub record Recovered : Type 0 where
  pub pending : Map ℕ (List WalRecord)
  pub highest_tx : ℕ
  pub next_commit_ts : ℕ
  pub memtable : BTreeMapTable

-- `pending.entry(record.tx_id).or_default().push(record)`
unfoldable pub push_pending : WalRecord → Map ℕ (List WalRecord) → Map ℕ (List WalRecord)
unfolding lookup insert
push_pending r pending = elim (lookup r.tx_id pending) [
  | none ↦ insert r.tx_id (r ∷ []) pending
  | some records ↦ insert r.tx_id (records ++ r ∷ []) pending
]

-- the part of the `Commit` arm behind `pending.remove`
unfoldable pub commit_pending : List WalRecord → Recovered → EngineResult Recovered
unfolding apply_records_batch
commit_pending records s =
    let (result, memtable) = apply_records_batch records s.next_commit_ts s.memtable in
    elim result [
      | err e ↦ err e
      | ok done ↦
          ok (record s { next_commit_ts = saturating_add s.next_commit_ts 1; memtable = memtable })
    ]

unfoldable pub replay_record : WalRecord → Recovered → EngineResult Recovered
unfolding push_pending commit_pending lookup remove
replay_record r s =
    let seen : Recovered = record s { highest_tx = max s.highest_tx r.tx_id } in
    let removed : Recovered = record seen { pending = remove r.tx_id s.pending } in
    elim r.op [
      | put_op ↦ ok (record seen { pending = push_pending r s.pending })
      | delete_op ↦ ok (record seen { pending = push_pending r s.pending })
      | commit_op ↦ elim (lookup r.tx_id s.pending) [
        | none ↦ ok removed
        | some records ↦ commit_pending records removed
      ]
      | abort_op ↦ ok removed
    ]

-- `for record in recovered { .. }`
unfoldable pub replay : List WalRecord → Recovered → EngineResult Recovered
unfolding replay_record
replay [] s = ok s
replay (r ∷ records) s = do s ← replay_record r s; replay records s
