-- ===== src/Tx/Manager/Validation.antt =====
-- When `validate_ssi` (crates/hatp-tx/src/manager.rs) lets a transaction pass, and why collecting
-- the commit history changes no verdict.
use hat_p.Prelude.{
  ◌≤◌, ◌≡◌, refl, ◌≢◌, ◌↔◌, inl, inr, some, List, [], ◌∷◌, arith, Bytes, leb, Bool-cases, All, Any,
  nat_ord,
}
use hat_p.Tx.Conflict.Laws.{check_all-Accuses, Accuses, check_all_none, check_conflict-Explains}
use hat_p.Tx.Types.{unknown_txn, TxnId, TxnTs, SsiTxn, CommitEntry, TxError, Result, Result-cases}
use hat_p.Prelude.Result.{ok, err, ◌>>◌}
use hat_p.Prelude.Map.{Map, lookup, values}
use hat_p.Tx.Conflict.{check_conflict, check_all}
use hat_p.Tx.Cahill.{validate_cahill}
use hat_p.Tx.Cahill.Laws.{IsOnCycle, validate_cahill-ok, validate_cahill-err}
use hat_p.Tx.Manager.{
  TxManager, garbage_collect, watermark, validate_ssi_with_contexts, validate_ssi,
}

-- Nothing that a transaction must give way to: no entry accuses it, and it is on no rw-cycle.
pub record IsClear (txn : SsiTxn) (m : TxManager) : Type 0 where
  pub history : All (λ entry. (e : TxError) → ¬ Accuses txn e entry) m.commit_history
  pub staged : All (λ entry. (e : TxError) → ¬ Accuses txn e entry) m.provisional
  pub acyclic : ¬ IsOnCycle txn m.ssi_contexts

check_all-ok :
    (txn : SsiTxn) (entries : List CommitEntry)
    → All (λ entry. (e : TxError) → ¬ Accuses txn e entry) entries
    → check_all txn entries ≡ ok tt
unfolding check_all
check_all-ok txn [] h = refl
check_all-ok txn (x ∷ entries) h =
    elim (Result-cases (check_conflict txn x.commit_ts x.write_set)) [
      | inl passed ↦ rw passed (check_all-ok txn entries h.1)
      | inr (e, failed) ↦
          absurd (h.0 e (check_conflict-Explains txn x.commit_ts x.write_set e failed))
    ]

>>-ok : (r s : Result (Unit {0})) → (r >> s) ≡ ok tt → (r ≡ ok tt) × (s ≡ ok tt)
>>-ok (ok tt) s h = (refl, h)
>>-ok (err e) s h = absurd (cc)

validate_cahill-cases :
    (txn : SsiTxn) (contexts : Map TxnId SsiTxn)
    → validate_cahill txn contexts ≡ ok tt
    → ¬ IsOnCycle txn contexts
validate_cahill-cases txn contexts h cycle = cc (validate_cahill-err txn contexts cycle)

-- validate_ssi accepts a transaction exactly if no entry of the commit history and none of the
-- provisional staging gives a reason to reject it and it lies on no rw-cycle.
pub validate_ssi_iff : (txn : SsiTxn) (m : TxManager) → (validate_ssi txn m ≡ ok tt) ↔ IsClear txn m
unfolding validate_ssi validate_ssi_with_contexts
validate_ssi_iff txn m = (
  λ h.
      let p = >>-ok (check_all txn m.commit_history) _ h in
      let q = >>-ok (check_all txn m.provisional) _ p.1 in
      record {
        history = check_all_none txn m.commit_history p.0;
        staged = check_all_none txn m.provisional q.0;
        acyclic = validate_cahill-cases txn m.ssi_contexts q.1;
      },
  λ c.
      rw (check_all-ok txn m.commit_history c.history, check_all-ok txn m.provisional c.staged)
        (validate_cahill-ok txn m.ssi_contexts c.acyclic),
)

Any-absurd {ℓ} : {A : Type ℓ} (P : A → Type 0) (xs : List A) → ((x : A) → ¬ P x) → ¬ Any P xs
Any-absurd P [] n h = h
Any-absurd P (x ∷ xs) n (inl p) = n x p
Any-absurd P (x ∷ xs) n (inr p) = Any-absurd P xs n p

check_all-known :
    (txn : SsiTxn) (entries : List CommitEntry) (id : TxnId)
    → check_all txn entries ≢ err (unknown_txn id)
check_all-known txn entries id h =
    Any-absurd (Accuses txn (unknown_txn id)) entries (λ x p. p)
      (check_all-Accuses txn entries (unknown_txn id) h)

validate_cahill-known :
    (txn : SsiTxn) (contexts : Map TxnId SsiTxn) (id : TxnId)
    → validate_cahill txn contexts ≢ err (unknown_txn id)
unfolding validate_cahill
validate_cahill-known txn contexts id h = ground arith

>>-err : (r s : Result (Unit {0})) (e : TxError) → r ≢ err e → s ≢ err e → (r >> s) ≢ err e
>>-err (ok tt) s e p q = q
>>-err (err f) s e p q = p

-- Validation knows only conflicts: it never reports an unknown transaction.
pub validate_ssi-known :
    (txn : SsiTxn) (m : TxManager) (id : TxnId) → validate_ssi txn m ≢ err (unknown_txn id)
unfolding validate_ssi validate_ssi_with_contexts
validate_ssi-known txn m id =
    >>-err (check_all txn m.commit_history) _ (unknown_txn id)
      (check_all-known txn m.commit_history id)
      (>>-err (check_all txn m.provisional) _ (unknown_txn id)
        (check_all-known txn m.provisional id) (validate_cahill-known txn m.ssi_contexts id))

pub check_all-validate_ssi :
    (txn : SsiTxn) (m : TxManager)
    → validate_ssi txn m ≡ ok tt
    → check_all txn m.commit_history ≡ ok tt
unfolding validate_ssi validate_ssi_with_contexts
check_all-validate_ssi txn m h = (>>-ok (check_all txn m.commit_history) _ h).0

check_conflict_before :
    (txn : SsiTxn) (commit_ts : TxnTs) (write_set : List Bytes)
    → commit_ts ≤ txn.start_ts
    → check_conflict txn commit_ts write_set ≡ ok tt
unfolding check_conflict
check_conflict_before txn commit_ts write_set h = ground arith

-- Collecting behind a transaction's start changes nothing that is found against it.
pub check_all-garbage_collect :
    (txn : SsiTxn) (w : TxnTs) (entries : List CommitEntry)
    → w ≤ txn.start_ts
    → check_all txn (garbage_collect w entries) ≡ check_all txn entries
unfolding check_all garbage_collect
check_all-garbage_collect txn w [] h = refl
check_all-garbage_collect txn w (x ∷ entries) h = elim (Bool-cases (leb x.commit_ts w)) [
  | inl old ↦
      rw (old, check_conflict_before txn x.commit_ts x.write_set (ground arith))
        (check_all-garbage_collect txn w entries h)
  | inr new ↦ rw new
]

watermark-le-head : (t : SsiTxn) (rest : List SsiTxn) → watermark (t ∷ rest) ≤ t.start_ts
unfolding watermark
watermark-le-head t [] = omega arith
watermark-le-head t (u ∷ rest) = omega arith

watermark-le-tail :
    (t u : SsiTxn) (rest : List SsiTxn) → watermark (t ∷ u ∷ rest) ≤ watermark (u ∷ rest)
unfolding watermark
watermark-le-tail t u rest = omega arith

-- The watermark is at or below the start of every active transaction.
pub watermark-le :
    (id : TxnId) (t : SsiTxn) (contexts : Map TxnId SsiTxn)
    → lookup id contexts ≡ some t
    → watermark (values contexts) ≤ t.start_ts
unfolding lookup
watermark-le id t [] h = absurd (cc)
watermark-le id t ((j, u) ∷ []) h = ground (arith, watermark-le-head u [])
watermark-le id t ((j, u) ∷ (k, v) ∷ contexts) h = ground (
  arith,
  watermark-le-head u (v ∷ values contexts),
  watermark-le-tail u v (values contexts),
  watermark-le id t ((k, v) ∷ contexts),
)
