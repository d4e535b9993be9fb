-- ===== src/Tx/Manager/Lifecycle.antt =====
-- Runs of the methods of `TxManager` (crates/hatp-tx/src/manager.rs): terminal states are final,
-- and only active transactions have an SSI context.
use hat_p.Prelude.{
  ◌≡◌, refl, sym, ap, ◌∙◌, subst, inl, inr, Bool, true, false, Option, none, some, List, [], ◌∷◌,
  arith, Bytes, Option-cases, nat_ord,
}
use hat_p.Tx.Manager.{
  validate_ssi_with_contexts, err, ok, committed, set_state, promote, aborted, Result, reject,
  record_writes, finish, conclude, drop_context, is_active, TxManager, begin_with_id,
  begin_ssi_with_id, update_ssi_txn, with_ssi_txn, record_write_and_validate, stage_commit,
  discard_staged, commit_at, abort, empty,
}
use hat_p.Prelude.Map.{insert, lookup-remove, lookup, lookup-insert}
use hat_p.Tx.Types.{
  TxnId, TxnTs, IsolationHint, TxnHandle, SsiTxn, record_read, record_write,
  add_read_conflict_range,
}

pub data Op : Type 0 where
  begin : TxnId → IsolationHint → Op
  begin_ssi : TxnId → TxnTs → Op
  read : TxnId → Bytes → Op
  write : TxnId → Bytes → Op
  scan : TxnId → Bytes → Bytes → Op
  update : SsiTxn → Op
  validate : TxnId → List Bytes → Op
  stage : TxnId → TxnTs → Op
  discard : Op
  commit : TxnId → TxnTs → Op
  rollback : TxnId → Op

unfoldable pub step : Op → TxManager → TxManager
step (begin id isolation) m = (begin_with_id id isolation m).1
step (begin_ssi id start_ts) m = (begin_ssi_with_id id start_ts m).1
step (read id key) m = (with_ssi_txn id (record_read key) m).1
step (write id key) m = (with_ssi_txn id (record_write key) m).1
step (scan id lower upper) m = (with_ssi_txn id (add_read_conflict_range lower upper) m).1
step (update txn) m = update_ssi_txn txn m
step (validate id keys) m = (record_write_and_validate id keys m).1
step (stage id commit_ts) m = (stage_commit id commit_ts m).1
step discard m = discard_staged m
step (commit id commit_ts) m = (commit_at id commit_ts m).1
step (rollback id) m = (abort id m).1

abbrev pub active_handle : Option TxnHandle → Bool
active_handle none = false
active_handle (some handle) = is_active handle.state

-- The table holds the transaction as active.
abbrev pub active_at : TxManager → TxnId → Bool
active_at m id = active_handle (lookup id m.transactions)

-- A context belongs to the transaction whose id it is filed under, and that one is active.
abbrev pub IsLive : TxManager → TxnId → SsiTxn → Type 0
IsLive m id txn = (txn.handle.id ≡ id) × (active_at m id ≡ true)

pub record IsValid (m : TxManager) : Type 0 where
  pub contexts : (id : TxnId) (txn : SsiTxn) → lookup id m.ssi_contexts ≡ some txn → IsLive m id txn

pub empty-IsValid : IsValid empty
empty-IsValid = record { contexts = λ id txn h. absurd (unfold lookup in cc) }

begin_with_id-IsValid :
    (id : TxnId) (isolation : IsolationHint) (m : TxManager)
    → IsValid m
    → IsValid (begin_with_id id isolation m).1
unfolding begin_with_id
begin_with_id-IsValid id isolation m v = record {
  contexts = λ j txn h. rw lookup-insert (ground (arith, v.contexts j txn));
}

begin_ssi_with_id-IsValid :
    (id : TxnId) (start_ts : TxnTs) (m : TxManager)
    → IsValid m
    → IsValid (begin_ssi_with_id id start_ts m).1
unfolding begin_ssi_with_id
begin_ssi_with_id-IsValid id start_ts m v = record {
  contexts = λ j txn h.
      rw lookup-insert (let h' = rw lookup-insert at h in ground (arith, v.contexts j txn));
}

-- A context may be replaced by one of the same transaction.
replace-IsValid :
    (id : TxnId) (t t' : SsiTxn) (m : TxManager)
    → lookup id m.ssi_contexts ≡ some t
    → t'.handle.id ≡ id
    → IsValid m
    → IsValid (record m { ssi_contexts = insert id t' m.ssi_contexts })
replace-IsValid id t t' m found same v = record {
  contexts = λ j txn h.
      let h' = rw lookup-insert at h in ground (arith, v.contexts j txn, v.contexts id t);
}

module _ (f : SsiTxn → SsiTxn) (same : (t : SsiTxn) → (f t).handle.id ≡ t.handle.id) where
  with_ssi_txn-IsValid : (id : TxnId) (m : TxManager) → IsValid m → IsValid (with_ssi_txn id f m).1
  unfolding with_ssi_txn
  with_ssi_txn-IsValid id m v = go (lookup id m.ssi_contexts) refl
    where
      go : (o : Option SsiTxn) → lookup id m.ssi_contexts ≡ o → IsValid (with_ssi_txn id f m).1
      go none gone = subst IsValid (sym (ground (arith, gone))) v
      go (some t) found =
          subst IsValid (sym (ground (arith, found)))
            (replace-IsValid id t (f t) m found (same t ∙ (v.contexts id t found).0) v)

update_ssi_txn-IsValid :
    (txn t : SsiTxn) (m : TxManager)
    → lookup txn.handle.id m.ssi_contexts ≡ some t
    → IsValid m
    → IsValid (update_ssi_txn txn m)
unfolding update_ssi_txn
update_ssi_txn-IsValid txn t m e v = replace-IsValid txn.handle.id t txn m e refl v

stage_commit-IsValid :
    (id : TxnId) (commit_ts : TxnTs) (m : TxManager)
    → IsValid m
    → IsValid (stage_commit id commit_ts m).1
unfolding stage_commit
stage_commit-IsValid id commit_ts m v = elim (Option-cases (lookup id m.ssi_contexts)) [
  | inl gone ↦ rw (gone, stage_commit) v
  | inr (t, found) ↦ rw (found, stage_commit) (record { contexts = v.contexts })
]

finish_commit-IsValid :
    (id : TxnId) (commit_ts : TxnTs) (handle : TxnHandle) (m : TxManager)
    → IsValid m
    → IsValid (finish id committed handle (promote id commit_ts) m).1
unfolding finish promote
finish_commit-IsValid id commit_ts handle m v = record {
  contexts = λ j txn h. ground (
    arith,
    v.contexts j txn,
    lookup-insert id j (record handle { state = committed }) m.transactions,
    lookup-remove id j m.ssi_contexts,
  );
}

commit_at-IsValid :
    (id : TxnId) (commit_ts : TxnTs) (m : TxManager)
    → IsValid m
    → IsValid (commit_at id commit_ts m).1
unfolding commit_at
commit_at-IsValid id commit_ts m v = elim (Option-cases (lookup id m.transactions)) [
  | inl gone ↦ rw (gone, commit_at) v
  | inr (handle, found) ↦ rw (found, commit_at) (finish_commit-IsValid id commit_ts handle m v)
]

finish_abort-IsValid :
    (id : TxnId) (handle : TxnHandle) (m : TxManager)
    → IsValid m
    → IsValid (finish id aborted handle (drop_context id) m).1
unfolding finish drop_context
finish_abort-IsValid id handle m v = record {
  contexts = λ j txn h. ground (
    arith,
    v.contexts j txn,
    lookup-insert id j (record handle { state = aborted }) m.transactions,
    lookup-remove id j m.ssi_contexts,
  );
}

abort-IsValid : (id : TxnId) (m : TxManager) → IsValid m → IsValid (abort id m).1
unfolding abort
abort-IsValid id m v = elim (Option-cases (lookup id m.transactions)) [
  | inl gone ↦ rw (gone, abort) v
  | inr (handle, found) ↦ rw (found, abort) (finish_abort-IsValid id handle m v)
]

reject-IsValid : (id : TxnId) (m : TxManager) → IsValid m → IsValid (reject id m)
unfolding reject set_state
reject-IsValid id m v = elim (Option-cases (lookup id m.transactions)) [
  | inl gone ↦ record {
    contexts = λ j txn h. ground (arith, v.contexts j txn, lookup-remove id j m.ssi_contexts);
  }
  | inr (handle, found) ↦ record {
    contexts = λ j txn h. ground (
      arith,
      v.contexts j txn,
      lookup-insert id j (record handle { state = aborted }) m.transactions,
      lookup-remove id j m.ssi_contexts,
    );
  }
]

conclude-IsValid :
    (id : TxnId) (r : Result (Unit {0})) (m : TxManager) → IsValid m → IsValid (conclude id r m).1
unfolding conclude
conclude-IsValid id (ok tt) m v = v
conclude-IsValid id (err e) m v = reject-IsValid id m v

id-record_writes : (keys : List Bytes) (txn : SsiTxn) → (record_writes keys txn).handle ≡ txn.handle
unfolding record_writes
id-record_writes [] txn = refl
id-record_writes (key ∷ keys) txn = id-record_writes keys (record_write key txn)

record_write_and_validate-IsValid :
    (id : TxnId) (keys : List Bytes) (m : TxManager)
    → IsValid m
    → IsValid (record_write_and_validate id keys m).1
unfolding record_write_and_validate
record_write_and_validate-IsValid id keys m v = elim (Option-cases (lookup id m.ssi_contexts)) [
  | inl gone ↦ rw (gone, record_write_and_validate) v
  | inr (t, found) ↦
      rw (found, record_write_and_validate)
        (conclude-IsValid id
          (validate_ssi_with_contexts (record_writes keys t)
            (insert id (record_writes keys t) m.ssi_contexts)
            (record m { ssi_contexts = insert id (record_writes keys t) m.ssi_contexts }))
          (record m { ssi_contexts = insert id (record_writes keys t) m.ssi_contexts })
          (replace-IsValid id t (record_writes keys t) m found
            (ap (λ (h : TxnHandle). h.id) (id-record_writes keys t) ∙ (v.contexts id t found).0) v))
]

-- `update_ssi_txn` is only asked to replace a context that is there.
abbrev pub Allowed : Op → TxManager → Type 0
Allowed (update txn) m = (t : SsiTxn) × (lookup txn.handle.id m.ssi_contexts ≡ some t)
Allowed _ m = Unit

pub step-IsValid : (op : Op) (m : TxManager) → Allowed op m → IsValid m → IsValid (step op m)
unfolding step
step-IsValid (begin id isolation) m a v = begin_with_id-IsValid id isolation m v
step-IsValid (begin_ssi id start_ts) m a v = begin_ssi_with_id-IsValid id start_ts m v
step-IsValid (read id key) m a v =
    with_ssi_txn-IsValid (record_read key) (λ t. unfold record_read in refl) id m v
step-IsValid (write id key) m a v =
    with_ssi_txn-IsValid (record_write key) (λ t. unfold record_write in refl) id m v
step-IsValid (scan id lower upper) m a v =
    with_ssi_txn-IsValid (add_read_conflict_range lower upper)
      (λ t. unfold add_read_conflict_range in refl) id m v
step-IsValid (update txn) m a v = update_ssi_txn-IsValid txn a.0 m a.1 v
step-IsValid (validate id keys) m a v = record_write_and_validate-IsValid id keys m v
step-IsValid (stage id commit_ts) m a v = stage_commit-IsValid id commit_ts m v
step-IsValid discard m a v = unfold discard_staged in record { contexts = v.contexts }
step-IsValid (commit id commit_ts) m a v = commit_at-IsValid id commit_ts m v
step-IsValid (rollback id) m a v = abort-IsValid id m v
