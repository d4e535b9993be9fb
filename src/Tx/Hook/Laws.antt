-- ===== src/Tx/Hook/Laws.antt =====
-- The hook of crates/hatp-tx/src/hook.rs: what an accepted pre-commit guarantees, and that a
-- rejected one is final.
use hat_p.Prelude.{
  ◌≡◌, refl, sym, ap, ◌∙◌, ◌≢◌, ◌↔◌, ◌⊎◌, inl, inr, Bool, true, false, some, List, [], ◌∷◌, arith,
  Bytes, Bool-cases, Option-cases, Any, bytes_eq, contains, nat_ord, contains-set_insert,
  eq_of_bytes_eq, bytes_eq_refl,
}
use hat_p.Prelude.Result.{ok, err}
use hat_p.Tx.Types.{record_write, TxError, unknown_txn, Result, TxnId, aborted, SsiTxn}
use hat_p.Engine.Types.{put, delete, Mutation, EngineError}
use hat_p.Tx.Hook.{
  mutation_key, unknown_txn, mutation_keys, is_aborted, pre_commit_result, on_pre_commit,
}
use hat_p.Prelude.Map.{lookup, insert, lookup-insert}
use hat_p.Tx.Manager.{
  TxManager, get, conclude, reject, set_state, record_writes, record_write_and_validate,
  validate_ssi,
}
use hat_p.Tx.Manager.Validation.{validate_ssi-known, IsClear, validate_ssi_iff}
use hat_p.Tx.Manager.Lifecycle.{IsValid, active_at}

-- The manager holds the transaction as aborted.
abbrev aborted_at : TxManager → TxnId → Bool
aborted_at m id = is_aborted (get id m)

aborted_at-reject :
    (id : TxnId) (m : TxManager) → active_at m id ≡ true → aborted_at (reject id m) id ≡ true
unfolding reject set_state get is_aborted
aborted_at-reject id m live = elim (Option-cases (lookup id m.transactions)) [
  | inl gone ↦ ground arith
  | inr (h, found) ↦
      ground (arith, lookup-insert id id (record h { state = aborted }) m.transactions)
]

aborted_at-conclude :
    (id : TxnId) (r : Result (Unit {0})) (m : TxManager) (e : EngineError)
    → active_at m id ≡ true
    → pre_commit_result r ≡ err e
    → aborted_at (conclude id r m).1 id ≡ true
unfolding conclude pre_commit_result
aborted_at-conclude id (ok tt) m e live h = absurd (cc)
aborted_at-conclude id (err f) m e live h = aborted_at-reject id m live

conclude_result : (id : TxnId) (r : Result (Unit {0})) (m : TxManager) → (conclude id r m).0 ≡ r
unfolding conclude
conclude_result id (ok tt) m = refl
conclude_result id (err e) m = refl

on_pre_commit_open :
    (tx_id : TxnId) (txn : SsiTxn) (m : TxManager) (mutations : List Mutation)
    → aborted_at m tx_id ≡ false
    → lookup tx_id m.ssi_contexts ≡ some txn
    → on_pre_commit tx_id mutations m ≡ (
      pre_commit_result (record_write_and_validate tx_id (mutation_keys mutations) m).0,
      (record_write_and_validate tx_id (mutation_keys mutations) m).1,
    )
unfolding on_pre_commit
on_pre_commit_open tx_id txn m mutations live context =
    rw (live, on_pre_commit) (rw (context, on_pre_commit))

rejected_retry :
    (tx_id : TxnId) (retry : List Mutation) (m : TxManager)
    → aborted_at m tx_id ≡ true
    → (on_pre_commit tx_id retry m).0 ≡ err (EngineError.write_conflict tx_id [])
unfolding on_pre_commit
rejected_retry tx_id retry m h = rw (h, on_pre_commit)

pre_commit_result-ok :
    (r : Result (Unit {0}))
    → ((id : TxnId) → r ≢ err (unknown_txn id))
    → pre_commit_result r ≡ ok tt
    → r ≡ ok tt
unfolding pre_commit_result
pre_commit_result-ok (ok tt) n h = refl
pre_commit_result-ok (err (TxError.unknown_txn id)) n h = absurd (n id refl)
pre_commit_result-ok (err (TxError.invalid_state _ _ _)) n h = absurd (cc)
pre_commit_result-ok (err (TxError.write_conflict _ _)) n h = absurd (cc)
pre_commit_result-ok (err (TxError.read_write_conflict _ _)) n h = absurd (cc)

-- The mutation puts or deletes the key.
abbrev pub Changes : Bytes → Mutation → Type 0
Changes key (put other value) = other ≡ key
Changes key (delete other) = other ≡ key

-- Two contexts that agree but for their write-sets.
pub record IsSameExceptWrites (txn written : SsiTxn) : Type 0 where
  pub handle : written.handle ≡ txn.handle
  pub start_ts : written.start_ts ≡ txn.start_ts
  pub read_set : written.read_set ≡ txn.read_set
  pub read_conflict_ranges : written.read_conflict_ranges ≡ txn.read_conflict_ranges

record_writes-IsSameExceptWrites :
    (keys : List Bytes) (txn : SsiTxn) → IsSameExceptWrites txn (record_writes keys txn)
unfolding record_writes record_write
record_writes-IsSameExceptWrites [] txn = record {
  handle = refl;
  start_ts = refl;
  read_set = refl;
  read_conflict_ranges = refl;
}
record_writes-IsSameExceptWrites (key ∷ keys) txn =
    let more = record_writes-IsSameExceptWrites keys (record_write key txn) in
    record {
      handle = more.handle;
      start_ts = more.start_ts;
      read_set = more.read_set;
      read_conflict_ranges = more.read_conflict_ranges;
    }

-- One more key in the write-set.
contains-record_write :
    (key other : Bytes) (txn : SsiTxn)
    → (contains key (record_write other txn).write_set ≡ true)
      ↔ ((contains key txn.write_set ≡ true) ⊎ (other ≡ key))
unfolding record_write
contains-record_write key other txn =
    let inserted = contains-set_insert key other txn.write_set in
    (
      λ h. elim (Bool-cases (bytes_eq key other)) [
        | inl e ↦ inr (sym (eq_of_bytes_eq key other e))
        | inr e ↦ inl (ground (arith, h, e, inserted))
      ],
      λ h. elim h [
        | inl e ↦ ground (arith, e, inserted)
        | inr e ↦ inserted ∙ rw (e, bytes_eq_refl key) refl
      ],
    )

-- The key of the first mutation, and what the others add.
with_first :
    (key other : Bytes) (mutations : List Mutation) (txn : SsiTxn) {Holds : Type 0}
    → Holds
      ↔ ((contains key (record_write other txn).write_set ≡ true) ⊎ Any (Changes key) mutations)
    → Holds ↔ ((contains key txn.write_set ≡ true) ⊎ ((other ≡ key) ⊎ Any (Changes key) mutations))
with_first key other mutations txn more =
    let first = contains-record_write key other txn in
    (
      λ h. elim (more.0 h) [
        | inl e ↦ elim (first.0 e) [ inl g ↦ inl g | inr g ↦ inr (inl g) ]
        | inr e ↦ inr (inr e)
      ],
      λ h. elim h [
        | inl e ↦ more.1 (inl (first.1 (inl e)))
        | inr (inl e) ↦ more.1 (inl (first.1 (inr e)))
        | inr (inr e) ↦ more.1 (inr e)
      ],
    )

contains-record_writes :
    (key : Bytes) (mutations : List Mutation) (txn : SsiTxn)
    → (contains key (record_writes (mutation_keys mutations) txn).write_set ≡ true)
      ↔ ((contains key txn.write_set ≡ true) ⊎ Any (Changes key) mutations)
unfolding record_writes mutation_keys mutation_key
contains-record_writes key [] txn = (inl, λ h. elim h [ inl e ↦ e | inr e ↦ absurd e ])
contains-record_writes key (put other value ∷ mutations) txn =
    with_first key other mutations txn
      (contains-record_writes key mutations (record_write other txn))
contains-record_writes key (delete other ∷ mutations) txn =
    with_first key other mutations txn
      (contains-record_writes key mutations (record_write other txn))

module _ (tx_id : TxnId) (txn : SsiTxn) (m : TxManager) (v : IsValid m)
    (context : lookup tx_id m.ssi_contexts ≡ some txn) where
  with_writes : List Bytes → TxManager
  with_writes keys = record m {
    ssi_contexts = insert tx_id (record_writes keys txn) m.ssi_contexts;
  }

  not_aborted : aborted_at m tx_id ≡ false
  unfolding get is_aborted
  not_aborted = ground (arith, (v.contexts tx_id txn context).1)

  verdict : List Bytes → Result (Unit {0})
  verdict keys = validate_ssi (record_writes keys txn) (with_writes keys)

  abbrev concluded : (keys : List Bytes) → Result (Unit {0}) × TxManager
  concluded keys = conclude tx_id (verdict keys) (with_writes keys)

  record_write_and_validate_lem :
      (keys : List Bytes) → record_write_and_validate tx_id keys m ≡ concluded keys
  unfolding record_write_and_validate verdict with_writes validate_ssi
  record_write_and_validate_lem keys = rw (context, record_write_and_validate)

  on_pre_commit_lem :
      (mutations : List Mutation)
      → on_pre_commit tx_id mutations m ≡ (
        pre_commit_result (verdict (mutation_keys mutations)),
        (concluded (mutation_keys mutations)).1,
      )
  on_pre_commit_lem mutations =
      on_pre_commit_open tx_id txn m mutations not_aborted context
      ∙ ap (λ (c : Result (Unit {0}) × TxManager). (pre_commit_result c.0, c.1))
          (record_write_and_validate_lem (mutation_keys mutations))
      ∙ ap
          (λ (r : Result (Unit {0})).
            (pre_commit_result r, (concluded (mutation_keys mutations)).1))
          (conclude_result tx_id (verdict (mutation_keys mutations))
            (with_writes (mutation_keys mutations)))

  active_at-with_writes : (keys : List Bytes) → active_at (with_writes keys) tx_id ≡ true
  unfolding with_writes
  active_at-with_writes keys = (v.contexts tx_id txn context).1

  verdict-known : (keys : List Bytes) (id : TxnId) → verdict keys ≢ err (unknown_txn id)
  unfolding verdict
  verdict-known keys id = validate_ssi-known (record_writes keys txn) (with_writes keys) id

  accepted :
      (keys : List Bytes)
      → pre_commit_result (verdict keys) ≡ ok tt
      → (lookup tx_id (concluded keys).1.ssi_contexts ≡ some (record_writes keys txn))
        × IsClear (record_writes keys txn) (concluded keys).1
  accepted keys h =
      let passed = pre_commit_result-ok (verdict keys) (verdict-known keys) h in
      rw passed (
        unfold conclude with_writes verdict in
        (
          lookup-insert tx_id tx_id (record_writes keys txn) m.ssi_contexts ∙ ground arith,
          (validate_ssi_iff (record_writes keys txn) (with_writes keys)).0 passed,
        ))

  -- In a valid manager, an accepted pre-commit of an SSI transaction leaves a context of the
  -- transaction whose write-set holds exactly the keys that were in it before and the keys that
  -- the mutations put or delete, whose other fields are those of the old context, and which is
  -- clear of conflicts in the manager that is left.
  pub on_pre_commit-IsClear :
      (mutations : List Mutation)
      → (on_pre_commit tx_id mutations m).0 ≡ ok tt
      → (written : SsiTxn) × (lookup tx_id (on_pre_commit tx_id mutations m).1.ssi_contexts
          ≡ some written)
        × ((key : Bytes)
            → (contains key written.write_set ≡ true)
              ↔ ((contains key txn.write_set ≡ true) ⊎ Any (Changes key) mutations))
        × IsSameExceptWrites txn written
        × IsClear written (on_pre_commit tx_id mutations m).1
  on_pre_commit-IsClear mutations h =
      let keys = mutation_keys mutations in
      let (found, clear) : (lookup tx_id (on_pre_commit tx_id mutations m).1.ssi_contexts
            ≡ some (record_writes keys txn))
          × IsClear (record_writes keys txn) (on_pre_commit tx_id mutations m).1 =
        rw on_pre_commit_lem (accepted keys (rw on_pre_commit_lem at h)) in
      (
        record_writes keys txn,
        found,
        λ key. contains-record_writes key mutations txn,
        record_writes-IsSameExceptWrites keys txn,
        clear,
      )

  -- In a valid manager, once the pre-commit of an SSI transaction is rejected, every retry under
  -- its id is rejected with WriteConflict and the empty key.
  pub rejection_is_final :
      (mutations retry : List Mutation) (e : EngineError)
      → (on_pre_commit tx_id mutations m).0 ≡ err e
      → (on_pre_commit tx_id retry (on_pre_commit tx_id mutations m).1).0
        ≡ err (EngineError.write_conflict tx_id [])
  rejection_is_final mutations retry e h =
      rejected_retry tx_id retry (on_pre_commit tx_id mutations m).1 (
        rw on_pre_commit_lem (
          aborted_at-conclude tx_id (verdict (mutation_keys mutations))
            (with_writes (mutation_keys mutations)) e
            (active_at-with_writes (mutation_keys mutations)) (rw on_pre_commit_lem at h)))
