-- ===== src/Tx/Hook.antt =====
-- `TxManagerHook` (crates/hatp-tx/src/hook.rs): what the engine calls before and after a commit.
-- The two probes and `record_write_and_validate` run under the engine's write guard.
pub mod Laws
use hat_p.Prelude.{
  ℕ, zero, suc, ◌+◌, ◌-◌, ◌*◌, ◌/◌, ◌%◌, ◌^◌, ◌≤◌, ◌<◌, compare, Ordering, ◌≡◌, refl, sym, ap, ◌∙◌,
  subst, fun_ext, ◌≢◌, ◌↔◌, ◌⊎◌, inl, inr, Bool, true, false, not, ◌&&◌, ◌||◌, Option, none, some,
  List, [], ◌∷◌, ◌++◌, map, arith, Ord, Bytes, ltb, leb, ◌==◌, if◌then◌else◌, ltb→lt, lt→ltb,
  leb→le, ==_iff, Bool-cases, Option-cases, length, take, drop, get_elem?, any, All, Any,
  length-append, bytes_eq, in_range, contains, set_insert,
}
use hat_p.Prelude.Result.{ok, err}
use hat_p.Engine.Types.{
  Mutation, put, delete, EngineError, write_conflict, read_write_conflict, corrupt, EngineResult,
}
use hat_p.Tx.Types.{
  TxnId, TxnTs, TxnState, aborted, TxnHandle, SsiTxn, TxError, Result, unknown_txn, invalid_state,
}
use hat_p.Prelude.Map.{Map, lookup}
use hat_p.Tx.Manager.{TxManager, get, get_ssi_txn, record_write_and_validate, commit_at}
use hat_p.Engine.Types

-- the texts of `EngineError::Corrupt` that the hook uses
unfoldable pub map_tx_error : TxError → EngineError
map_tx_error (TxError.write_conflict txn key) = EngineError.write_conflict txn key
map_tx_error (TxError.read_write_conflict txn key) = EngineError.read_write_conflict txn key
map_tx_error (TxError.invalid_state _ _ _) = corrupt "ssi pre-commit validation failed"
map_tx_error (TxError.unknown_txn _) = corrupt "ssi pre-commit validation failed"

unfoldable pub mutation_key : Mutation → Bytes
mutation_key (put key value) = key
mutation_key (delete key) = key

unfoldable pub mutation_keys : List Mutation → List Bytes
unfolding mutation_key
mutation_keys [] = []
mutation_keys (mutation ∷ mutations) = mutation_key mutation ∷ mutation_keys mutations

unfoldable pub is_aborted : Result TxnHandle → Bool
is_aborted (ok handle) = elim handle.state [ aborted ↦ true | _ ↦ false ]
is_aborted (err _) = false

-- An unknown transaction is no SSI transaction (any more) and passes.
unfoldable pub pre_commit_result : Result (Unit {0}) → EngineResult (Unit {0})
unfolding map_tx_error
pre_commit_result (ok tt) = ok tt
pre_commit_result (err (unknown_txn _)) = ok tt
pre_commit_result (err other) = err (map_tx_error other)

unfoldable pub on_pre_commit :
    TxnId → List Mutation → TxManager → EngineResult (Unit {0}) × TxManager
unfolding get is_aborted get_ssi_txn mutation_keys pre_commit_result record_write_and_validate
on_pre_commit tx_id mutations m =
    if is_aborted (get tx_id m)
    then (err (EngineError.write_conflict tx_id []), m)
    else elim (get_ssi_txn tx_id m) [
      | none ↦ (ok tt, m)
      | some _ ↦
          let (result, m') = record_write_and_validate tx_id (mutation_keys mutations) m in
          (pre_commit_result result, m')
    ]

unfoldable pub on_tx_commit : TxnId → TxnTs → TxManager → TxManager
unfolding commit_at
on_tx_commit tx_id commit_ts m = (commit_at tx_id commit_ts m).1
