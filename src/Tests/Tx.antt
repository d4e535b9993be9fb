-- ===== src/Tests/Tx.antt =====
-- Two transactions that start at 0: the first writes "a", the second reads "a" and writes "b".
-- (crates/hatp-tx)
use hat_p.Prelude.{
  ◌≡◌, refl, ◌≢◌, ◌↔◌, ◌⊎◌, true, none, some, List, [], ◌∷◌, arith, Bytes, Any, contains, nat_ord,
}
use hat_p.Prelude.Result.{ok, err}
use hat_p.Engine.Types.{Mutation, put, EngineError}
use hat_p.Prelude.Map.{lookup, remove, values}
use hat_p.Tx.Types.{TxnId, TxnHandle, active, committed, snapshot, SsiTxn, read_write_conflict}
use hat_p.Tx.Conflict.{check_all}
use hat_p.Tx.Cahill.{finds_cycle, validate_cahill, representative_key}
use hat_p.Tx.Cahill.Fuel.{finds_cycle-ne-none}
use hat_p.Tx.Cahill.Laws.{IsOnCycle, validate_cahill_exact}
use hat_p.Tx.Manager.{TxManager, empty, begin_ssi_with_id, commit_at, validate_ssi}
use hat_p.Tx.Manager.Validation.{IsClear, validate_ssi_iff}
use hat_p.Tx.Manager.Commit.{first_committer_wins, commit_alone_forgets}
use hat_p.Tx.Manager.Lifecycle.{Op, step, IsValid, empty-IsValid, Allowed}
use hat_p.Tx.Manager.Terminal.{Run, here, after, Run-IsValid, terminal_is_final}
use hat_p.Tx.Hook.{on_pre_commit}
use hat_p.Tx.Hook.Laws.{Changes, IsSameExceptWrites, on_pre_commit-IsClear, rejection_is_final}

abbrev handle_of : TxnId → TxnHandle
handle_of id = record { id = id; isolation = snapshot; state = active }

abbrev writer : SsiTxn
writer = record {
  handle = handle_of 1;
  start_ts = 0;
  read_set = (98 ∷ []) ∷ [];
  write_set = (97 ∷ []) ∷ [];
  read_conflict_ranges = [];
}

abbrev reader : SsiTxn
reader = record {
  handle = handle_of 2;
  start_ts = 0;
  read_set = (97 ∷ []) ∷ [];
  write_set = (98 ∷ []) ∷ [];
  read_conflict_ranges = [];
}

abbrev both : TxManager
both = record {
  transactions = (1, handle_of 1) ∷ (2, handle_of 2) ∷ [];
  ssi_contexts = (1, writer) ∷ (2, reader) ∷ [];
  commit_history = [];
  provisional = [];
}

abbrev alone : TxManager
alone = record both { ssi_contexts = (1, writer) ∷ [] }

-- write skew: each reads what the other writes
skew_found : validate_ssi writer both ≡ err (read_write_conflict 1 (97 ∷ []))
unfolding validate_ssi
skew_found = refl

committed_peer_found :
    validate_ssi reader (commit_at 1 1 both).1 ≡ err (read_write_conflict 2 (97 ∷ []))
unfolding validate_ssi commit_at
committed_peer_found = refl

validate_ssi_iff_example : (validate_ssi writer alone ≡ ok tt) ↔ IsClear writer alone
validate_ssi_iff_example = validate_ssi_iff writer alone

finds_cycle-ne-none_example : finds_cycle writer both.ssi_contexts ≢ none
finds_cycle-ne-none_example = finds_cycle-ne-none writer both.ssi_contexts

validate_cahill_exact_example :
    (IsOnCycle writer both.ssi_contexts
      → validate_cahill writer both.ssi_contexts
        ≡ err (
            read_write_conflict 1 (representative_key writer.write_set (values both.ssi_contexts))))
    × (¬ IsOnCycle writer both.ssi_contexts → validate_cahill writer both.ssi_contexts ≡ ok tt)
validate_cahill_exact_example = validate_cahill_exact writer both.ssi_contexts

first_committer_wins_example : validate_ssi reader (commit_at 1 1 both).1 ≢ ok tt
unfolding lookup contains
first_committer_wins_example =
    first_committer_wins both 1 1 (handle_of 1) writer refl refl refl 2 reader (omega arith) refl
      (read_write_conflict 2 (97 ∷ [])) (refl, omega arith, refl, refl)

commit_alone_forgets_example : check_all reader (commit_at 1 1 alone).1.commit_history ≡ ok tt
unfolding lookup remove
commit_alone_forgets_example =
    commit_alone_forgets alone 1 1 (handle_of 1) writer refl refl refl refl tt (omega arith) reader

abbrev begun : TxManager
begun = step (Op.commit 1 1) (step (Op.begin_ssi 1 0) empty)

abbrev begin_and_commit : Run Allowed empty begun
begin_and_commit = after (Op.commit 1 1) (after (Op.begin_ssi 1 0) here tt) tt

Run-IsValid_example : IsValid begun
Run-IsValid_example = Run-IsValid begin_and_commit empty-IsValid

abbrev over : TxnHandle
over = record { id = 1; isolation = snapshot; state = committed }

begun_over : lookup 1 begun.transactions ≡ some over
unfolding lookup step begin_ssi_with_id commit_at
begun_over = refl

begun-IsValid : IsValid begun
begun-IsValid = Run-IsValid begin_and_commit empty-IsValid

terminal_is_final_example : lookup 1 (step (Op.rollback 1) begun).transactions ≡ some over
terminal_is_final_example =
    terminal_is_final 1 over refl (after (Op.rollback 1) here (tt, tt)) begun-IsValid begun_over

abbrev one_begun : TxManager
one_begun = step (Op.begin_ssi 1 0) empty

abbrev fresh : SsiTxn
fresh = record {
  handle = handle_of 1;
  start_ts = 0;
  read_set = [];
  write_set = [];
  read_conflict_ranges = [];
}

one_begun-IsValid : IsValid one_begun
one_begun-IsValid = Run-IsValid (after (Op.begin_ssi 1 0) here tt) empty-IsValid

one_context : lookup 1 one_begun.ssi_contexts ≡ some fresh
unfolding lookup step begin_ssi_with_id
one_context = refl

abbrev put_a : List Mutation
put_a = put (97 ∷ []) (1 ∷ []) ∷ []

one_passes : (on_pre_commit 1 put_a one_begun).0 ≡ ok tt
unfolding lookup step begin_ssi_with_id on_pre_commit
one_passes = refl

on_pre_commit-IsClear_example :
    (written : SsiTxn) × (lookup 1 (on_pre_commit 1 put_a one_begun).1.ssi_contexts ≡ some written)
    × ((key : Bytes)
        → (contains key written.write_set ≡ true)
          ↔ ((contains key fresh.write_set ≡ true) ⊎ Any (Changes key) put_a))
    × IsSameExceptWrites fresh written
    × IsClear written (on_pre_commit 1 put_a one_begun).1
on_pre_commit-IsClear_example =
    on_pre_commit-IsClear 1 fresh one_begun one_begun-IsValid one_context put_a one_passes

abbrev beaten : TxManager
beaten = record {
  transactions = (2, handle_of 2) ∷ [];
  ssi_contexts = (2, reader) ∷ [];
  commit_history = record { write_set = (97 ∷ []) ∷ []; commit_ts = 1 } ∷ [];
  provisional = [];
}

beaten-IsValid : IsValid beaten
unfolding lookup
beaten-IsValid = record { contexts = λ id txn h. ground arith }

beaten_rejected : (on_pre_commit 2 put_a beaten).0 ≡ err (EngineError.write_conflict 2 (97 ∷ []))
unfolding lookup on_pre_commit
beaten_rejected = refl

rejection_is_final_example :
    (on_pre_commit 2 [] (on_pre_commit 2 put_a beaten).1).0 ≡ err (EngineError.write_conflict 2 [])
unfolding lookup
rejection_is_final_example =
    rejection_is_final 2 reader beaten beaten-IsValid refl put_a []
      (EngineError.write_conflict 2 (97 ∷ [])) beaten_rejected
