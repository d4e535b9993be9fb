-- ===== src/Tx/Manager/Commit.antt =====
-- First committer wins: what `commit_at` (crates/hatp-tx/src/manager.rs) promotes is seen by every
-- transaction that is still active.
use hat_p.Prelude.{◌≤◌, ◌≡◌, refl, sym, ◌∙◌, ◌≢◌, some, List, [], ◌∷◌, ◌++◌, arith, All, nat_ord}
use hat_p.Tx.Types.{TxnId, TxnTs, TxnHandle, active, SsiTxn, CommitEntry, TxError}
use hat_p.Prelude.Result.{ok}
use hat_p.Prelude.Map.{lookup, values, remove, lookup-remove}
use hat_p.Tx.Conflict.{check_all}
use hat_p.Tx.Conflict.Laws.{Accuses, check_all_none, Explains}
use hat_p.Tx.Manager.{u64_max, watermark, garbage_collect, TxManager, validate_ssi, commit_at}
use hat_p.Tx.Manager.Validation.{check_all-validate_ssi, check_all-garbage_collect, watermark-le}

All-last {ℓ} : {A : Type ℓ} (P : A → Type 0) (xs : List A) (x : A) → All P (xs ++ x ∷ []) → P x
All-last P [] x h = h.0
All-last P (y ∷ xs) x h = All-last P xs x h.1

abbrev entry_of : SsiTxn → TxnTs → CommitEntry
entry_of a commit_ts = record { write_set = a.write_set; commit_ts = commit_ts }

-- Every commit timestamp of the history is a `u64`.
abbrev pub AllBounded : List CommitEntry → Type 0
AllBounded = All (λ (entry : CommitEntry). entry.commit_ts ≤ u64_max)

garbage_collect-max :
    (entries : List CommitEntry) → AllBounded entries → garbage_collect u64_max entries ≡ []
unfolding garbage_collect
garbage_collect-max [] h = refl
garbage_collect-max (x ∷ entries) h = ground (arith, garbage_collect-max entries)

All-append {ℓ} :
    {A : Type ℓ} (P : A → Type 0) (xs ys : List A) → All P xs → All P ys → All P (xs ++ ys)
All-append P [] ys h k = k
All-append P (x ∷ xs) ys h k = (h.0, All-append P xs ys h.1 k)

module _ (m : TxManager) (id : TxnId) (commit_ts : TxnTs) (handle : TxnHandle) (a : SsiTxn)
    (known : lookup id m.transactions ≡ some handle) (live : handle.state ≡ active)
    (context : lookup id m.ssi_contexts ≡ some a) where
  contexts-commit_at : (commit_at id commit_ts m).1.ssi_contexts ≡ remove id m.ssi_contexts
  unfolding commit_at
  contexts-commit_at = ground arith

  history-commit_at :
      (commit_at id commit_ts m).1.commit_history
      ≡ garbage_collect
          (watermark (values (remove id m.ssi_contexts)))
          (m.commit_history ++ entry_of a commit_ts ∷ [])
  unfolding commit_at
  history-commit_at = ground arith

  -- A commit with no other active transaction leaves a history that accuses no transaction, so a
  -- context that is created afterwards with an older snapshot passes the history check.
  pub commit_alone_forgets :
      remove id m.ssi_contexts ≡ []
      → AllBounded m.commit_history
      → commit_ts ≤ u64_max
      → (late : SsiTxn) → check_all late (commit_at id commit_ts m).1.commit_history ≡ ok tt
  commit_alone_forgets alone bounded h late = rw history-commit_at (
      rw alone (
        unfold watermark in
        rw
          (garbage_collect-max (m.commit_history ++ entry_of a commit_ts ∷ []) (
            All-append (λ (e : CommitEntry). e.commit_ts ≤ u64_max) m.commit_history
              (entry_of a commit_ts ∷ []) bounded (h, tt)))
          (unfold check_all in refl)))

  module _ (peer_id : TxnId) (b : SsiTxn) (other : peer_id ≢ id)
      (peer : lookup peer_id m.ssi_contexts ≡ some b) where
    peer_stays : lookup peer_id (remove id m.ssi_contexts) ≡ some b
    peer_stays = ground (arith, lookup-remove id peer_id m.ssi_contexts)

    -- For every other active transaction, the history that commit_at leaves after collecting
    -- gives the same verdict as the whole history with the new entry.
    check_all-commit_at :
        check_all b (commit_at id commit_ts m).1.commit_history
        ≡ check_all b (m.commit_history ++ entry_of a commit_ts ∷ [])
    check_all-commit_at = rw history-commit_at (
        check_all-garbage_collect b (watermark (values (remove id m.ssi_contexts)))
          (m.commit_history ++ entry_of a commit_ts ∷ [])
          (watermark-le peer_id b (remove id m.ssi_contexts) peer_stays))

    -- After commit_at of a transaction, an active peer that began before that commit timestamp
    -- and that wrote, read or range-scanned a key the committed transaction wrote is no longer
    -- accepted by validate_ssi, whatever the history and its collection.
    pub first_committer_wins :
        (e : TxError)
        → Explains b commit_ts a.write_set e
        → validate_ssi b (commit_at id commit_ts m).1 ≢ ok tt
    first_committer_wins e x h =
        All-last (λ entry. (f : TxError) → ¬ Accuses b f entry) m.commit_history
          (entry_of a commit_ts)
          (check_all_none b (m.commit_history ++ entry_of a commit_ts ∷ [])
            (sym check_all-commit_at ∙ check_all-validate_ssi b (commit_at id commit_ts m).1 h))
          e x
