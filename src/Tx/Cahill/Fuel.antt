-- ===== src/Tx/Cahill/Fuel.antt =====
-- The fuel of `search_cycle` is enough: a round for each edge that waits or that an unvisited peer
-- can still add (crates/hatp-tx/src/manager.rs, `validate_cahill`).
use hat_p.Prelude.{
  ℕ, zero, suc, ◌+◌, ◌≤◌, ◌<◌, ◌≡◌, ◌≢◌, false, Option, none, some, List, [], ◌∷◌, arith,
  if◌then◌else◌, length, nat_ord,
}
use hat_p.Prelude.Map.{lookup}
use hat_p.Tx.Cahill.{
  TxnId, SsiTxn, Map, outgoing, mem_id, push_all, extend, search_cycle, edge_count, search_fuel,
  finds_cycle,
}

length-push_all :
    (ids frontier : List TxnId) → length (push_all ids frontier) ≡ length ids + length frontier
unfolding push_all
length-push_all [] frontier = omega arith
length-push_all (id ∷ ids) frontier = omega (arith, length-push_all ids (id ∷ frontier))

-- the edges that leave peers of the list that are not visited
unvisited_edges : List TxnId → Map TxnId SsiTxn → Map TxnId SsiTxn → ℕ
unvisited_edges visited all [] = 0
unvisited_edges visited all ((id, peer) ∷ contexts) =
    (if mem_id id visited then 0 else length (outgoing peer all))
    + unvisited_edges visited all contexts

module _ (all : Map TxnId SsiTxn) where
  unvisited_edges-cons :
      (visited : List TxnId) (x : TxnId) (contexts : Map TxnId SsiTxn)
      → unvisited_edges (x ∷ visited) all contexts ≤ unvisited_edges visited all contexts
  unfolding unvisited_edges mem_id
  unvisited_edges-cons visited x [] = omega arith
  unvisited_edges-cons visited x ((id, peer) ∷ contexts) =
      ground (arith, unvisited_edges-cons visited x contexts)

  unvisited_edges-le :
      (visited : List TxnId) (contexts : Map TxnId SsiTxn)
      → unvisited_edges visited all contexts ≤ edge_count all contexts
  unfolding unvisited_edges edge_count
  unvisited_edges-le visited [] = omega arith
  unvisited_edges-le visited ((id, peer) ∷ contexts) =
      ground (arith, unvisited_edges-le visited contexts)

  unvisited_edges-visit :
      (visited : List TxnId) (x : TxnId) (peer : SsiTxn) (contexts : Map TxnId SsiTxn)
      → mem_id x visited ≡ false
      → lookup x contexts ≡ some peer
      → unvisited_edges (x ∷ visited) all contexts + length (outgoing peer all)
        ≤ unvisited_edges visited all contexts
  unfolding unvisited_edges mem_id lookup
  unvisited_edges-visit visited x peer [] fresh e = absurd (cc)
  unvisited_edges-visit visited x peer ((id, p) ∷ contexts) fresh e = ground (
    arith,
    unvisited_edges-visit visited x peer contexts fresh,
    unvisited_edges-cons visited x contexts,
  )

  length-extend :
      (visited frontier : List TxnId) (x : TxnId) (o : Option SsiTxn)
      → mem_id x visited ≡ false
      → lookup x all ≡ o
      → length (extend o all frontier) + unvisited_edges (x ∷ visited) all all
        ≤ length frontier + unvisited_edges visited all all
  unfolding extend
  length-extend visited frontier x none fresh e = omega (arith, unvisited_edges-cons visited x all)
  length-extend visited frontier x (some peer) fresh e = omega (
    arith,
    length-push_all (outgoing peer all) frontier,
    unvisited_edges-visit visited x peer all fresh e,
  )

  search_cycle-ne-none :
      (fuel : ℕ) (self_id : TxnId) (visited frontier : List TxnId)
      → length frontier + unvisited_edges visited all all < fuel
      → search_cycle fuel self_id all visited frontier ≢ none
  unfolding search_cycle
  search_cycle-ne-none zero self_id visited frontier h = elim h [ ]
  search_cycle-ne-none (suc fuel) self_id visited [] h = cc
  search_cycle-ne-none (suc fuel) self_id visited (x ∷ frontier) h = ground (
    arith,
    search_cycle-ne-none fuel self_id visited frontier,
    search_cycle-ne-none fuel self_id (x ∷ visited) (extend (lookup x all) all frontier),
    length-extend visited frontier x (lookup x all),
  )

-- The cycle search ends before its fuel runs out, for every transaction and every set of
-- contexts.
pub finds_cycle-ne-none :
    (txn : SsiTxn) (contexts : Map TxnId SsiTxn) → finds_cycle txn contexts ≢ none
unfolding finds_cycle search_fuel
finds_cycle-ne-none txn contexts =
    search_cycle-ne-none contexts (search_fuel txn contexts) txn.handle.id (txn.handle.id ∷ [])
      (push_all (outgoing txn contexts) [])
      (omega (
        arith,
        length-push_all (outgoing txn contexts) [],
        unvisited_edges-le contexts (txn.handle.id ∷ []) contexts,
      ))
