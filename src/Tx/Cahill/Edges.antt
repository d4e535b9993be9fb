-- ===== src/Tx/Cahill/Edges.antt =====
-- The edges of the rw-antidependency graph, and that the closure `outgoing` of `validate_cahill`
-- (crates/hatp-tx/src/manager.rs) lists them.
use hat_p.Prelude.{
  ◌≡◌, sym, ap, ◌∙◌, ◌≢◌, inl, inr, Bool, true, List, [], ◌∷◌, arith, Bytes, ◌==◌, Bool-cases, any,
  Any, bytes_eq, contains, eq_of_bytes_eq, bytes_eq_refl,
}
use hat_p.Prelude.Map.{Map}
use hat_p.Tx.Types.{TxnId, SsiTxn}
use hat_p.Tx.Conflict.{write_set_hits_reads}
use hat_p.Tx.Conflict.Laws.{is_read}
use hat_p.Tx.Cahill.{outgoing, mem_id}

-- The peer read a key, by itself or in a range, that the transaction wrote.
abbrev pub Hits : SsiTxn → SsiTxn → Type 0
Hits from peer = (key : Bytes) × (contains key from.write_set ≡ true) × (is_read peer key ≡ true)

-- b is another active transaction, and its reads are hit.
abbrev pub Edge : Map TxnId SsiTxn → SsiTxn → TxnId → Type 0
Edge contexts from b =
    Any (λ (e : TxnId × SsiTxn). (e.0 ≡ b) × (b ≢ from.handle.id) × Hits from e.1) contexts

any-contains :
    (p : Bytes → Bool) (xs : List Bytes)
    → any p xs ≡ true
    → (x : Bytes) × (contains x xs ≡ true) × (p x ≡ true)
unfolding contains
any-contains p [] h = absurd (cc)
any-contains p (x ∷ xs) h = elim (Bool-cases (p x)) [
  | inl here ↦ (x, ground (arith, bytes_eq_refl x), here)
  | inr not_here ↦ let (y, m, q) = any-contains p xs (ground arith) in (y, ground arith, q)
]

contains-any :
    (p : Bytes → Bool) (x : Bytes) (xs : List Bytes)
    → contains x xs ≡ true
    → p x ≡ true
    → any p xs ≡ true
unfolding contains
contains-any p x [] h q = absurd (cc)
contains-any p x (y ∷ xs) h q = elim (Bool-cases (bytes_eq x y)) [
  | inl same ↦ rw (ap p (sym (eq_of_bytes_eq x y same)) ∙ q)
  | inr other ↦ ground (arith, contains-any p x xs)
]

reads_are_hit :
    (from peer : SsiTxn)
    → write_set_hits_reads from.write_set peer.read_set peer.read_conflict_ranges ≡ true
    → Hits from peer
unfolding write_set_hits_reads
reads_are_hit from peer h = any-contains (λ key. is_read peer key) from.write_set h

hit_reads_found :
    (from peer : SsiTxn)
    → Hits from peer
    → write_set_hits_reads from.write_set peer.read_set peer.read_conflict_ranges ≡ true
unfolding write_set_hits_reads
hit_reads_found from peer (key, m, r) = contains-any (λ k. is_read peer k) key from.write_set m r

pub outgoing-Edge :
    (from : SsiTxn) (contexts : Map TxnId SsiTxn) (b : TxnId)
    → mem_id b (outgoing from contexts) ≡ true
    → Edge contexts from b
unfolding outgoing mem_id
outgoing-Edge from [] b h = absurd (cc)
outgoing-Edge from ((id, peer) ∷ contexts) b h = elim (Bool-cases (id == from.handle.id)) [
  | inl self ↦ inr (outgoing-Edge from contexts b (rw self at h))
  | inr other ↦
      elim (Bool-cases
        (write_set_hits_reads from.write_set peer.read_set peer.read_conflict_ranges)) [
          | inl hit ↦ elim (Bool-cases (b == id)) [
            | inl same ↦ inl (ground arith, ground arith, reads_are_hit from peer hit)
            | inr differ ↦ inr (outgoing-Edge from contexts b (ground arith))
          ]
          | inr miss ↦ inr (outgoing-Edge from contexts b (ground arith))
        ]
]

pub Edge-outgoing :
    (from : SsiTxn) (contexts : Map TxnId SsiTxn) (b : TxnId)
    → Edge contexts from b
    → mem_id b (outgoing from contexts) ≡ true
unfolding outgoing mem_id
Edge-outgoing from ((id, peer) ∷ contexts) b (inl (same, differ, hit)) =
    ground (arith, hit_reads_found from peer hit)
Edge-outgoing from ((id, peer) ∷ contexts) b (inr rest) =
    ground (arith, Edge-outgoing from contexts b rest)
Edge-outgoing from [] b h = absurd h
