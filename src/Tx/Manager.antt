-- ===== src/Tx/Manager.antt =====
-- `TxManager` (crates/hatp-tx/src/manager.rs): the transaction table, the SSI contexts and the
-- commit history. Each method maps the manager to its result and the manager that it leaves, as
-- one step: what another thread does where commit_at, abort or begin_ssi_with_id releases one lock
-- before it takes the next is not modelled. The laws are in the modules below.
pub mod Validation
pub mod Commit
pub mod Lifecycle
pub mod Terminal
use hat_p.Prelude.{
  ℕ, zero, suc, ◌+◌, ◌-◌, ◌*◌, ◌/◌, ◌%◌, ◌^◌, ◌≤◌, ◌<◌, compare, Ordering, ◌≡◌, refl, sym, ap, ◌∙◌,
  subst, fun_ext, ◌≢◌, ◌↔◌, ◌⊎◌, inl, inr, Bool, true, false, not, ◌&&◌, ◌||◌, Option, none, some,
  List, [], ◌∷◌, ◌++◌, map, arith, Ord, Bytes, ltb, leb, ◌==◌, if◌then◌else◌, ltb→lt, lt→ltb,
  leb→le, ==_iff, Bool-cases, Option-cases, length, take, drop, get_elem?, any, All, Any,
  length-append, bytes_eq, in_range, contains, set_insert, nat_ord,
}
use hat_p.Prelude.Map.{Map, lookup, insert, remove, values}
use hat_p.Tx.Types.{
  TxnId, TxnTs, IsolationHint, TxnState, active, committed, aborted, TxnHandle, SsiTxn, CommitEntry,
  Result, invalid_state, unknown_txn, new, record_write, snapshot,
}
use hat_p.Prelude.Result.{ok, err, ◌>>◌}
use hat_p.Tx.Conflict.{check_all}
use hat_p.Tx.Cahill.{validate_cahill}
use Prim.Native.Nat.{min}

pub record TxManager : Type 0 where
  pub transactions : Map TxnId TxnHandle
  pub ssi_contexts : Map TxnId SsiTxn
  pub commit_history : List CommitEntry
  pub provisional : List CommitEntry

-- `TxManager::default`
abbrev pub empty : TxManager
empty = record { transactions = []; ssi_contexts = []; commit_history = []; provisional = [] }

-- `CommitHistory::garbage_collect`: entries leave from the front only.
unfoldable pub garbage_collect : TxnTs → List CommitEntry → List CommitEntry
garbage_collect watermark [] = []
garbage_collect watermark (entry ∷ ring) =
    if leb entry.commit_ts watermark then garbage_collect watermark ring else entry ∷ ring

unfoldable pub begin_with_id : TxnId → IsolationHint → TxManager → TxnHandle × TxManager
unfolding insert
begin_with_id id isolation m =
    let handle : TxnHandle = record { id = id; isolation = isolation; state = active } in
    (handle, record m { transactions = insert id handle m.transactions })

unfoldable pub begin_ssi_with_id : TxnId → TxnTs → TxManager → SsiTxn × TxManager
unfolding begin_with_id new
begin_ssi_with_id id start_ts m =
    let (handle, m') = begin_with_id id snapshot m in
    let txn = new handle start_ts in
    (txn, record m' { ssi_contexts = insert id txn m'.ssi_contexts })

unfoldable pub get_ssi_txn : TxnId → TxManager → Option SsiTxn
unfolding lookup
get_ssi_txn id m = lookup id m.ssi_contexts

unfoldable pub update_ssi_txn : SsiTxn → TxManager → TxManager
unfolding insert
update_ssi_txn txn m = record m { ssi_contexts = insert txn.handle.id txn m.ssi_contexts }

-- `f` mutates the context in place and returns nothing.
unfoldable pub with_ssi_txn : TxnId → (SsiTxn → SsiTxn) → TxManager → Result (Unit {0}) × TxManager
unfolding lookup insert
with_ssi_txn id f m = elim (lookup id m.ssi_contexts) [
  | none ↦ (err (unknown_txn id), m)
  | some txn ↦ (ok tt, record m { ssi_contexts = insert id (f txn) m.ssi_contexts })
]

unfoldable pub validate_ssi_with_contexts :
    SsiTxn → Map TxnId SsiTxn → TxManager → Result (Unit {0})
unfolding check_all validate_cahill
validate_ssi_with_contexts txn contexts m = do
  check_all txn m.commit_history
  check_all txn m.provisional
  validate_cahill txn contexts

unfoldable pub validate_ssi : SsiTxn → TxManager → Result (Unit {0})
unfolding validate_ssi_with_contexts
validate_ssi txn m = validate_ssi_with_contexts txn m.ssi_contexts m

unfoldable pub get : TxnId → TxManager → Result TxnHandle
unfolding lookup
get id m = elim (lookup id m.transactions) [ none ↦ err (unknown_txn id) | some handle ↦ ok handle ]

-- `for key in keys { txn.record_write(key.clone()); }`
unfoldable pub record_writes : List Bytes → SsiTxn → SsiTxn
unfolding record_write
record_writes [] txn = txn
record_writes (key ∷ keys) txn = record_writes keys (record_write key txn)

-- `handle.state = state` on the entry of the table, if there is one
unfoldable pub set_state : TxnId → TxnState → Map TxnId TxnHandle → Map TxnId TxnHandle
unfolding lookup insert
set_state id state transactions = elim (lookup id transactions) [
  | none ↦ transactions
  | some handle ↦ insert id (record handle { state = state }) transactions
]

-- the context is gone: an aborted transaction is rejected, any other is unknown
unfoldable pub vanished : TxnId → TxManager → Result (Unit {0})
unfolding lookup
vanished id m = elim (lookup id m.transactions) [
  | none ↦ err (unknown_txn id)
  | some handle ↦ elim handle.state [
    | aborted ↦ err (invalid_state id active aborted)
    | _ ↦ err (unknown_txn id)
  ]
]

-- A rejected commit is terminal: the handle is aborted and the context removed.
unfoldable pub reject : TxnId → TxManager → TxManager
unfolding set_state remove
reject id m = record m {
  transactions = set_state id aborted m.transactions;
  ssi_contexts = remove id m.ssi_contexts;
}

unfoldable pub conclude : TxnId → Result (Unit {0}) → TxManager → Result (Unit {0}) × TxManager
unfolding reject
conclude id (ok tt) m = (ok tt, m)
conclude id (err e) m = (err e, reject id m)

unfoldable pub record_write_and_validate :
    TxnId → List Bytes → TxManager → Result (Unit {0}) × TxManager
unfolding lookup insert record_writes vanished validate_ssi_with_contexts conclude
record_write_and_validate id keys m = elim (lookup id m.ssi_contexts) [
  | none ↦ (vanished id m, m)
  | some txn ↦
      let txn' = record_writes keys txn in
      let m' : TxManager = record m { ssi_contexts = insert id txn' m.ssi_contexts } in
      conclude id (validate_ssi_with_contexts txn' m'.ssi_contexts m') m'
]

unfoldable pub stage_commit : TxnId → TxnTs → TxManager → Result (Unit {0}) × TxManager
unfolding lookup
stage_commit id commit_ts m = elim (lookup id m.ssi_contexts) [
  | none ↦ (err (unknown_txn id), m)
  | some ssi ↦ (
    ok tt,
    record m {
      provisional =
          m.provisional ++ record { write_set = ssi.write_set; commit_ts = commit_ts } ∷ [];
    },
  )
]

unfoldable pub discard_staged : TxManager → TxManager
discard_staged m = record m { provisional = [] }

-- `min(remaining active start_ts)`, `u64::MAX` when none
abbrev pub u64_max : ℕ
u64_max = 2 ^ 64 - 1

unfoldable pub watermark : List SsiTxn → TxnTs
watermark [] = u64_max
watermark (t ∷ []) = t.start_ts
watermark (t ∷ u ∷ rest) = min t.start_ts (watermark (u ∷ rest))

-- the part of `commit_at` behind the state change: promotes the write-set, then collects
unfoldable pub promote : TxnId → TxnTs → TxManager → TxManager
unfolding lookup remove garbage_collect watermark
promote id commit_ts m = elim (lookup id m.ssi_contexts) [
  | none ↦ m
  | some ssi ↦
      let contexts = remove id m.ssi_contexts in
      record m {
        ssi_contexts = contexts;
        commit_history =
            garbage_collect (watermark (values contexts)) (
              m.commit_history ++ record { write_set = ssi.write_set; commit_ts = commit_ts } ∷ []);
      }
]

-- `match handle.state`: only an active transaction moves to a terminal state.
unfoldable pub finish :
    TxnId
    → TxnState
    → TxnHandle
    → (TxManager → TxManager)
    → TxManager
    → Result TxnHandle × TxManager
unfolding insert
finish id target handle after m = elim handle.state [
  | active ↦
      let result : TxnHandle = record handle { state = target } in
      (ok result, after (record m { transactions = insert id result m.transactions }))
  | actual ↦ (err (invalid_state id active actual), m)
]

unfoldable pub commit_at : TxnId → TxnTs → TxManager → Result TxnHandle × TxManager
unfolding lookup finish promote
commit_at id commit_ts m = elim (lookup id m.transactions) [
  | none ↦ (err (unknown_txn id), m)
  | some handle ↦ finish id committed handle (promote id commit_ts) m
]

unfoldable pub drop_context : TxnId → TxManager → TxManager
unfolding remove
drop_context id m = record m { ssi_contexts = remove id m.ssi_contexts }

unfoldable pub abort : TxnId → TxManager → Result TxnHandle × TxManager
unfolding lookup finish drop_context
abort id m = elim (lookup id m.transactions) [
  | none ↦ (err (unknown_txn id), m)
  | some handle ↦ finish id aborted handle (drop_context id) m
]

abbrev pub is_active : TxnState → Bool
is_active active = true
is_active _ = false

unfoldable pub inflight_of : List TxnHandle → List TxnHandle
inflight_of [] = []
inflight_of (handle ∷ handles) =
    if is_active handle.state then handle ∷ inflight_of handles else inflight_of handles

unfoldable pub inflight : TxManager → List TxnHandle
unfolding inflight_of
inflight m = inflight_of (values m.transactions)

unfoldable pub active_of : List SsiTxn → List SsiTxn
active_of [] = []
active_of (txn ∷ txns) = if is_active txn.handle.state then txn ∷ active_of txns else active_of txns

unfoldable pub active_ssi_transactions : TxManager → List SsiTxn
unfolding active_of
active_ssi_transactions m = active_of (values m.ssi_contexts)
