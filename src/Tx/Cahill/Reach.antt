-- ===== src/Tx/Cahill/Reach.antt =====
-- The search of `validate_cahill` (crates/hatp-tx/src/manager.rs) against reachability in the
-- graph of rw-antidependencies.
use hat_p.Prelude.{
  ℕ, zero, suc, ◌≡◌, refl, sym, ap, ◌∙◌, subst, ◌≢◌, ◌⊎◌, inl, inr, true, false, ◌||◌, Option, none,
  some, List, [], ◌∷◌, arith, ◌==◌, ==_iff, Bool-cases, nat_ord,
}
use hat_p.Tx.Cahill.Edges.{Edge, outgoing-Edge, Edge-outgoing}
use hat_p.Tx.Cahill.{lookup, Map, TxnId, SsiTxn, outgoing, mem_id, push_all, extend, search_cycle}

-- An rw-path from the committing transaction through active peers.
pub data Reaches (txn : SsiTxn) (contexts : Map TxnId SsiTxn) : TxnId → Type 0 where
  first : (b : TxnId) → Edge contexts txn b → Reaches txn contexts b
  next :
      (a b : TxnId) (peer : SsiTxn)
      → Reaches txn contexts a
      → lookup a contexts ≡ some peer
      → Edge contexts peer b
      → Reaches txn contexts b

pub mem_id-push_all :
    (b : TxnId) (ids frontier : List TxnId)
    → mem_id b (push_all ids frontier) ≡ (mem_id b ids || mem_id b frontier)
unfolding push_all mem_id
mem_id-push_all b [] frontier = refl
mem_id-push_all b (id ∷ ids) frontier = ground (arith, mem_id-push_all b ids (id ∷ frontier))

module _ (txn : SsiTxn) (contexts : Map TxnId SsiTxn) (self_id : TxnId) where
  abbrev AllReached : List TxnId → Type 0
  AllReached frontier = (b : TxnId) → mem_id b frontier ≡ true → Reaches txn contexts b

  AllReached-extend :
      (a : TxnId) (o : Option SsiTxn) (frontier : List TxnId)
      → lookup a contexts ≡ o
      → Reaches txn contexts a
      → AllReached frontier
      → AllReached (extend o contexts frontier)
  unfolding extend
  AllReached-extend a none frontier e r h b m = h b m
  AllReached-extend a (some peer) frontier e r h b m =
      elim (Bool-cases (mem_id b (outgoing peer contexts))) [
        | inl edge ↦ next a b peer r e (outgoing-Edge peer contexts b edge)
        | inr other ↦ h b (ground (arith, mem_id-push_all b (outgoing peer contexts) frontier))
      ]

  -- What the search finds is a path back to the transaction.
  pub search_cycle_sound :
      (fuel : ℕ) (visited frontier : List TxnId)
      → AllReached frontier
      → search_cycle fuel self_id contexts visited frontier ≡ some true
      → Reaches txn contexts self_id
  unfolding search_cycle
  search_cycle_sound zero visited frontier h e = absurd (cc)
  search_cycle_sound (suc fuel) visited [] h e = absurd (cc)
  search_cycle_sound (suc fuel) visited (x ∷ frontier) h e = elim (Bool-cases (x == self_id)) [
    | inl same ↦ subst (Reaches txn contexts) ((==_iff x self_id).0 same) (h x (ground arith))
    | inr other ↦ elim (Bool-cases (mem_id x visited)) [
      | inl seen ↦
          search_cycle_sound fuel visited frontier (λ b m. h b (ground arith)) (ground arith)
      | inr fresh ↦
          search_cycle_sound fuel (x ∷ visited) (extend (lookup x contexts) contexts frontier)
            (AllReached-extend x (lookup x contexts) frontier refl (h x (ground arith))
              (λ b m. h b (ground arith)))
            (ground arith)
    ]
  ]

  -- b is processed, or waits in the frontier
  abbrev Seen : List TxnId → List TxnId → TxnId → Type 0
  Seen visited frontier b = ((mem_id b visited ≡ true) × (b ≢ self_id)) ⊎ (mem_id b frontier ≡ true)

  abbrev IsClosed : List TxnId → List TxnId → Type 0
  IsClosed visited frontier =
      (a b : TxnId) (peer : SsiTxn)
      → mem_id a visited ≡ true
      → a ≢ self_id
      → lookup a contexts ≡ some peer
      → mem_id b (outgoing peer contexts) ≡ true
      → Seen visited frontier b

  abbrev IsStarted : List TxnId → List TxnId → Type 0
  IsStarted visited frontier =
      (b : TxnId) → mem_id b (outgoing txn contexts) ≡ true → Seen visited frontier b

  Seen-skip :
      (visited frontier : List TxnId) (x b : TxnId)
      → (x == self_id) ≡ false
      → mem_id x visited ≡ true
      → Seen visited (x ∷ frontier) b
      → Seen visited frontier b
  unfolding mem_id
  Seen-skip visited frontier x b other seen (inl s) = inl s
  Seen-skip visited frontier x b other seen (inr s) = ground arith

  Seen-visit :
      (visited frontier : List TxnId) (x b : TxnId) (o : Option SsiTxn)
      → (x == self_id) ≡ false
      → Seen visited (x ∷ frontier) b
      → Seen (x ∷ visited) (extend o contexts frontier) b
  unfolding mem_id extend
  Seen-visit visited frontier x b none other (inl s) = inl (ground arith, s.1)
  Seen-visit visited frontier x b (some peer) other (inl s) = inl (ground arith, s.1)
  Seen-visit visited frontier x b none other (inr s) = ground arith
  Seen-visit visited frontier x b (some peer) other (inr s) =
      ground (arith, mem_id-push_all b (outgoing peer contexts) frontier)

  IsClosed-visit :
      (visited frontier : List TxnId) (x : TxnId)
      → (x == self_id) ≡ false
      → IsClosed visited (x ∷ frontier)
      → IsClosed (x ∷ visited) (extend (lookup x contexts) contexts frontier)
  IsClosed-visit visited frontier x other closed a b peer m ne e edge = elim (Bool-cases (a == x)) [
    | inl same ↦ inr (
        unfold extend in
        rw (ap (λ y. lookup y contexts) (sym ((==_iff a x).0 same)) ∙ e, extend)
          (ground (arith, mem_id-push_all b (outgoing peer contexts) frontier)))
    | inr differ ↦
        Seen-visit visited frontier x b (lookup x contexts) other
          (closed a b peer (unfold mem_id in ground arith) ne e edge)
  ]

  Reaches-visited :
      (visited : List TxnId)
      → IsStarted visited []
      → IsClosed visited []
      → (b : TxnId) → Reaches txn contexts b
      → (mem_id b visited ≡ true) × (b ≢ self_id)
  Reaches-visited visited started closed b (first _ edge) =
      settled (started b (Edge-outgoing txn contexts b edge))
    where
      settled : Seen visited [] b → (mem_id b visited ≡ true) × (b ≢ self_id)
      settled (inl s) = s
      settled (inr s) = absurd (unfold mem_id in cc)
  Reaches-visited visited started closed b (next a _ peer r e edge) =
      let ih = Reaches-visited visited started closed a r in
      settled (closed a b peer ih.0 ih.1 e (Edge-outgoing peer contexts b edge))
    where
      settled : Seen visited [] b → (mem_id b visited ≡ true) × (b ≢ self_id)
      settled (inl s) = s
      settled (inr s) = absurd (unfold mem_id in cc)

  -- Where the search ends without a cycle there is no path back.
  pub search_cycle_complete :
      (fuel : ℕ) (visited frontier : List TxnId)
      → IsStarted visited frontier
      → IsClosed visited frontier
      → search_cycle fuel self_id contexts visited frontier ≡ some false
      → (b : TxnId) → Reaches txn contexts b
      → b ≢ self_id
  unfolding search_cycle
  search_cycle_complete zero visited frontier started closed e b r = absurd (cc)
  search_cycle_complete (suc fuel) visited [] started closed e b r =
      (Reaches-visited visited started closed b r).1
  search_cycle_complete (suc fuel) visited (x ∷ frontier) started closed e b r =
      elim (Bool-cases (x == self_id)) [
        | inl same ↦ absurd (ground arith)
        | inr other ↦ elim (Bool-cases (mem_id x visited)) [
          | inl seen ↦
              search_cycle_complete fuel visited frontier
                (λ b m. Seen-skip visited frontier x b other seen (started b m))
                (λ a b peer m ne l d.
                  Seen-skip visited frontier x b other seen (closed a b peer m ne l d))
                (ground arith) b r
          | inr fresh ↦
              search_cycle_complete fuel (x ∷ visited)
                (extend (lookup x contexts) contexts frontier)
                (λ b m. Seen-visit visited frontier x b (lookup x contexts) other (started b m))
                (IsClosed-visit visited frontier x other closed) (ground arith) b r
        ]
      ]
