-- ===== src/Tx/Cahill/Laws.antt =====
-- `validate_cahill` (crates/hatp-tx/src/manager.rs) rejects a transaction on an rw-cycle, and no
-- other.
use hat_p.Prelude.{◌≡◌, refl, ◌∙◌, inr, true, false, some, [], ◌∷◌, arith}
use hat_p.Tx.Types.{SsiTxn, read_write_conflict, TxnId}
use hat_p.Prelude.Result.{ok, err}
use hat_p.Prelude.Map.{Map, values}
use hat_p.Tx.Cahill.Edges.{outgoing-Edge}
use hat_p.Tx.Cahill.{
  outgoing, mem_id, push_all, search_fuel, finds_cycle, representative_key, validate_cahill,
}
use hat_p.Tx.Cahill.Fuel.{finds_cycle-ne-none}
use hat_p.Tx.Cahill.Reach.{Reaches, mem_id-push_all, search_cycle_sound, search_cycle_complete}

module _ (txn : SsiTxn) (contexts : Map TxnId SsiTxn) where
  abbrev pub IsOnCycle : Type 0
  IsOnCycle = Reaches txn contexts txn.handle.id

  finds_cycle-IsOnCycle : finds_cycle txn contexts ≡ some true → IsOnCycle
  unfolding finds_cycle
  finds_cycle-IsOnCycle h =
      search_cycle_sound txn contexts txn.handle.id (search_fuel txn contexts) (txn.handle.id ∷ [])
        (push_all (outgoing txn contexts) [])
        (λ b m. Reaches.first b (
          outgoing-Edge txn contexts b
            (unfold mem_id in ground (arith, mem_id-push_all b (outgoing txn contexts) []))))
        h

  not-IsOnCycle : finds_cycle txn contexts ≡ some false → ¬ IsOnCycle
  unfolding finds_cycle
  not-IsOnCycle h r =
      search_cycle_complete txn contexts txn.handle.id (search_fuel txn contexts)
        (txn.handle.id ∷ []) (push_all (outgoing txn contexts) [])
        (λ b m. inr (mem_id-push_all b (outgoing txn contexts) [] ∙ rw m))
        (λ a b peer m ne e edge. absurd (ne (unfold mem_id in ground arith))) h txn.handle.id r refl

  -- The error on a cycle, with the key that it names.
  pub validate_cahill-err :
      IsOnCycle
      → validate_cahill txn contexts
        ≡ err
            (read_write_conflict txn.handle.id (representative_key txn.write_set (values contexts)))
  unfolding validate_cahill
  validate_cahill-err r = ground (
    arith,
    finds_cycle-ne-none txn contexts,
    λ (h : finds_cycle txn contexts ≡ some false). not-IsOnCycle h r,
  )

  pub validate_cahill-ok : ¬ IsOnCycle → validate_cahill txn contexts ≡ ok tt
  unfolding validate_cahill
  validate_cahill-ok n =
      ground (arith, λ (h : finds_cycle txn contexts ≡ some true). n (finds_cycle-IsOnCycle h))

  -- validate_cahill returns the read-write conflict, with the representative key, when the
  -- transaction can reach itself over rw-edges through active peers, and ok when it cannot.
  pub validate_cahill_exact :
      (IsOnCycle
        → validate_cahill txn contexts
          ≡ err (
              read_write_conflict txn.handle.id
                (representative_key txn.write_set (values contexts))))
      × (¬ IsOnCycle → validate_cahill txn contexts ≡ ok tt)
  validate_cahill_exact = (validate_cahill-err, validate_cahill-ok)
