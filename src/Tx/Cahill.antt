-- ===== src/Tx/Cahill.antt =====
-- `TxManager::validate_cahill` (crates/hatp-tx/src/manager.rs): the search for an rw-cycle among
-- the active transactions. `frontier` is the `Vec` with its end first, so `pop` takes the head.
pub mod Edges
pub mod Reach
pub mod Fuel
pub mod Laws
use hat_p.Prelude.{
  ℕ, zero, suc, ◌+◌, ◌-◌, ◌*◌, ◌/◌, ◌%◌, ◌^◌, ◌≤◌, ◌<◌, compare, Ordering, ◌≡◌, refl, sym, ap, ◌∙◌,
  subst, fun_ext, ◌≢◌, ◌↔◌, ◌⊎◌, inl, inr, Bool, true, false, not, ◌&&◌, ◌||◌, Option, none, some,
  List, [], ◌∷◌, ◌++◌, map, arith, Ord, Bytes, ltb, leb, ◌==◌, if◌then◌else◌, ltb→lt, lt→ltb,
  leb→le, ==_iff, Bool-cases, Option-cases, length, take, drop, get_elem?, any, All, Any,
  length-append, bytes_eq, in_range, contains, set_insert, nat_ord,
}
use mathlib.Core.List.{reverse}
use hat_p.Prelude.Map.{Map, lookup, values}
use hat_p.Tx.Types.{TxnId, SsiTxn, Result, read_write_conflict}
use hat_p.Prelude.Result.{ok, err}
use hat_p.Tx.Conflict.{write_set_hits_reads}
use hat_p.Tx.Conflict.Laws.{scanned}

-- the closure `outgoing`: the peers that read what `from` wrote, in identifier order
unfoldable pub outgoing : SsiTxn → Map TxnId SsiTxn → List TxnId
unfolding write_set_hits_reads
outgoing from [] = []
outgoing from ((peer_id, peer) ∷ contexts) =
    let rest = outgoing from contexts in
    if peer_id == from.handle.id
    then rest
    else if write_set_hits_reads from.write_set peer.read_set peer.read_conflict_ranges
    then peer_id ∷ rest
    else rest

-- `visited` as a `HashSet<TxnId>`
unfoldable pub mem_id : TxnId → List TxnId → Bool
mem_id x [] = false
mem_id x (y ∷ ys) = x == y || mem_id x ys

-- The key that the error names: the first one written that some peer reads, else the empty key.
unfoldable pub representative_key : List Bytes → List SsiTxn → Bytes
unfolding contains
representative_key [] peers = []
representative_key (key ∷ keys) peers =
    if any (λ (peer : SsiTxn). contains key peer.read_set || scanned peer.read_conflict_ranges key)
      peers
    then key
    else representative_key keys peers

-- `frontier.extend(ids)`: the last id is the first that `pop` returns
unfoldable pub push_all : List TxnId → List TxnId → List TxnId
push_all [] frontier = frontier
push_all (id ∷ ids) frontier = push_all ids (id ∷ frontier)

-- `if let Some(peer) = contexts.get(&next) { frontier.extend(outgoing(peer)) }`
unfoldable pub extend : Option SsiTxn → Map TxnId SsiTxn → List TxnId → List TxnId
unfolding outgoing push_all
extend none contexts frontier = frontier
extend (some peer) contexts frontier = push_all (outgoing peer contexts) frontier

-- The `while let` loop. `none`: out of fuel; `some true`: the search came back to `self_id`.
unfoldable pub search_cycle : ℕ → TxnId → Map TxnId SsiTxn → List TxnId → List TxnId → Option Bool
unfolding mem_id extend lookup
search_cycle zero self_id contexts visited frontier = none
search_cycle (suc fuel) self_id contexts visited [] = some false
search_cycle (suc fuel) self_id contexts visited (next ∷ frontier) =
    let skip = search_cycle fuel self_id contexts visited frontier in
    let visit =
      search_cycle fuel self_id contexts (next ∷ visited)
        (extend (lookup next contexts) contexts frontier) in
    if next == self_id then some true else if mem_id next visited then skip else visit

-- One round for each edge of the graph, and a last one that finds the frontier empty.
unfoldable pub edge_count : Map TxnId SsiTxn → Map TxnId SsiTxn → ℕ
edge_count all [] = 0
edge_count all ((id, peer) ∷ contexts) = length (outgoing peer all) + edge_count all contexts

unfoldable pub search_fuel : SsiTxn → Map TxnId SsiTxn → ℕ
unfolding edge_count
search_fuel txn contexts = suc (length (outgoing txn contexts) + edge_count contexts contexts)

unfoldable pub finds_cycle : SsiTxn → Map TxnId SsiTxn → Option Bool
unfolding search_cycle search_fuel
finds_cycle txn contexts =
    search_cycle (search_fuel txn contexts) txn.handle.id contexts (txn.handle.id ∷ [])
      (push_all (outgoing txn contexts) [])

unfoldable pub validate_cahill : SsiTxn → Map TxnId SsiTxn → Result (Unit {0})
unfolding finds_cycle representative_key
validate_cahill txn contexts = elim (finds_cycle txn contexts) [
  | some true ↦
      err (read_write_conflict txn.handle.id (representative_key txn.write_set (values contexts)))
  | _ ↦ ok tt
]
