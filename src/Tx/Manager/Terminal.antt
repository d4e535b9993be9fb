-- ===== src/Tx/Manager/Terminal.antt =====
-- A transaction that is committed or aborted stays so (crates/hatp-tx/src/manager.rs).
use hat_p.Prelude.{
  ◌≡◌, refl, ◌≢◌, inl, inr, true, false, some, List, arith, Bytes, Option-cases, nat_ord,
}
use hat_p.Tx.Types.{TxnId, TxnTs, TxnHandle, TxnState, committed, aborted, Result}
use hat_p.Prelude.Result.{ok, err}
use hat_p.Prelude.Map.{lookup, insert, lookup-insert}
use hat_p.Tx.Manager.{
  TxManager, is_active, begin_with_id, begin_ssi_with_id, update_ssi_txn, with_ssi_txn,
  record_write_and_validate, validate_ssi_with_contexts, conclude, reject, record_writes,
  stage_commit, discard_staged, commit_at, abort, set_state, promote, finish, drop_context,
}
use hat_p.Tx.Manager.Lifecycle.{
  Op, begin, begin_ssi, read, write, scan, update, validate, stage, discard, commit, rollback, step,
  IsValid, Allowed, step-IsValid, active_at,
}

-- The call does not begin the transaction again under the same id.
abbrev pub Spares : TxnId → Op → Type 0
Spares id (begin j isolation) = j ≢ id
Spares id (begin_ssi j start_ts) = j ≢ id
Spares id _ = Unit

-- The calls of a sequence, with what is asked of each.
pub data Run (P : Op → TxManager → Type 0) (m : TxManager) : TxManager → Type 0 where
  here : Run P m m
  after : {n : TxManager} (op : Op) → Run P m n → P op n → Run P m (step op n)

-- Over any sequence of calls that replaces only existing contexts, every SSI context stays filed
-- under the id of its own transaction, and that transaction is active.
pub Run-IsValid : {m n : TxManager} → Run Allowed m n → IsValid m → IsValid n
Run-IsValid here v = v
Run-IsValid (after {n = k} op r a) v = step-IsValid op k a (Run-IsValid r v)

module _ (id : TxnId) (handle : TxnHandle) (done : is_active handle.state ≡ false) where
  abbrev pub Holds : TxManager → Type 0
  Holds m = lookup id m.transactions ≡ some handle

  finish_keeps :
      (j : TxnId) (target : TxnState) (h : TxnHandle) (tail : TxManager → TxManager) (m : TxManager)
      → ((n : TxManager) → (tail n).transactions ≡ n.transactions)
      → lookup j m.transactions ≡ some h
      → Holds m
      → Holds (finish j target h tail m).1
  unfolding finish
  finish_keeps j target h tail m keeps found held = ground (
    arith,
    lookup-insert j id (record h { state = target }) m.transactions,
    keeps (record m { transactions = insert j (record h { state = target }) m.transactions }),
  )

  reject_keeps : (j : TxnId) (m : TxManager) → active_at m j ≡ true → Holds m → Holds (reject j m)
  unfolding reject set_state
  reject_keeps j m live held = elim (Option-cases (lookup j m.transactions)) [
    | inl gone ↦ ground arith
    | inr (h, found) ↦
        ground (arith, lookup-insert j id (record h { state = aborted }) m.transactions)
  ]

  conclude_keeps :
      (j : TxnId) (r : Result (Unit {0})) (m : TxManager)
      → active_at m j ≡ true
      → Holds m
      → Holds (conclude j r m).1
  unfolding conclude
  conclude_keeps j (ok tt) m live held = held
  conclude_keeps j (err e) m live held = reject_keeps j m live held

  transactions-promote :
      (j : TxnId) (commit_ts : TxnTs) (n : TxManager)
      → (promote j commit_ts n).transactions ≡ n.transactions
  unfolding promote
  transactions-promote j commit_ts n = ground arith

  validate_keeps :
      (j : TxnId) (keys : List Bytes) (m : TxManager)
      → IsValid m
      → Holds m
      → Holds (record_write_and_validate j keys m).1
  unfolding record_write_and_validate
  validate_keeps j keys m v held = elim (Option-cases (lookup j m.ssi_contexts)) [
    | inl gone ↦ rw (gone, record_write_and_validate) held
    | inr (t, found) ↦
        rw (found, record_write_and_validate)
          (conclude_keeps j
            (validate_ssi_with_contexts (record_writes keys t)
              (insert j (record_writes keys t) m.ssi_contexts)
              (record m { ssi_contexts = insert j (record_writes keys t) m.ssi_contexts }))
            (record m { ssi_contexts = insert j (record_writes keys t) m.ssi_contexts })
            (v.contexts j t found).1 held)
  ]

  commit_keeps :
      (j : TxnId) (commit_ts : TxnTs) (m : TxManager) → Holds m → Holds (commit_at j commit_ts m).1
  unfolding commit_at
  commit_keeps j commit_ts m held = elim (Option-cases (lookup j m.transactions)) [
    | inl gone ↦ rw (gone, commit_at) held
    | inr (h, found) ↦
        rw (found, commit_at)
          (finish_keeps j committed h (promote j commit_ts) m (transactions-promote j commit_ts)
            found held)
  ]

  abort_keeps : (j : TxnId) (m : TxManager) → Holds m → Holds (abort j m).1
  unfolding abort
  abort_keeps j m held = elim (Option-cases (lookup j m.transactions)) [
    | inl gone ↦ rw (gone, abort) held
    | inr (h, found) ↦
        rw (found, abort)
          (finish_keeps j aborted h (drop_context j) m (λ n. unfold drop_context in refl) found
            held)
  ]

  -- No call but a new begin under the same id changes a transaction that is over.
  pub step_keeps_terminal :
      (op : Op) (m : TxManager) → Spares id op → IsValid m → Holds m → Holds (step op m)
  unfolding step
  step_keeps_terminal (begin j isolation) m s v held =
      unfold begin_with_id in rw lookup-insert (ground arith)
  step_keeps_terminal (begin_ssi j start_ts) m s v held =
      unfold begin_ssi_with_id in rw lookup-insert (ground arith)
  step_keeps_terminal (read j key) m s v held = unfold with_ssi_txn in ground arith
  step_keeps_terminal (write j key) m s v held = unfold with_ssi_txn in ground arith
  step_keeps_terminal (scan j lower upper) m s v held = unfold with_ssi_txn in ground arith
  step_keeps_terminal (update txn) m s v held = unfold update_ssi_txn in held
  step_keeps_terminal (validate j keys) m s v held = validate_keeps j keys m v held
  step_keeps_terminal (stage j commit_ts) m s v held = unfold stage_commit in ground arith
  step_keeps_terminal discard m s v held = unfold discard_staged in held
  step_keeps_terminal (commit j commit_ts) m s v held = commit_keeps j commit_ts m held
  step_keeps_terminal (rollback j) m s v held = abort_keeps j m held

  abbrev pub Sparing : Op → TxManager → Type 0
  Sparing op m = Allowed op m × Spares id op

  Run-Allowed : {m n : TxManager} → Run Sparing m n → Run Allowed m n
  Run-Allowed here = here
  Run-Allowed (after op r p) = after op (Run-Allowed r) p.0

  -- From a valid manager, over any sequence of calls that replaces only existing contexts and
  -- does not begin the same id again, a transaction that is committed or aborted keeps its
  -- handle.
  pub terminal_is_final : {m n : TxManager} → Run Sparing m n → IsValid m → Holds m → Holds n
  terminal_is_final here v held = held
  terminal_is_final (after {n = k} op r p) v held =
      step_keeps_terminal op k p.1 (Run-IsValid (Run-Allowed r) v) (terminal_is_final r v held)
