-- ===== src/Engine/Recovery/Replay.antt =====
-- What the replay makes of a log of transactions: those with a commit marker, each as one batch.
use hat_p.Engine.Wal.{commit_record, WalRecord, put_record, delete_record}
use hat_p.Engine.Memtable.Apply.{apply_records-records_of, batch_records}
use hat_p.Prelude.{
  ℕ, ◌≡◌, refl, sym, ap, ◌∙◌, subst, List, [], ◌∷◌, ◌++◌, arith, append_nil, append_assoc, nat_ord,
}
use hat_p.Prelude.Map.{remove, lookup, Map, insert}
use hat_p.Engine.Recovery.{
  ok, remove, commit_pending, Recovered, push_pending, replay_record, replay,
}
use hat_p.Engine.Memtable.{
  apply_records_batch, apply_mutations, saturating_add, BTreeMapTable, records_of,
}
use Prim.Native.Nat.{max}
use hat_p.Engine.Types.{Mutation, put, delete}

-- The mutations so far of one transaction, as they stand in `pending`.
abbrev pub pending_of : ℕ → List WalRecord → Map ℕ (List WalRecord)
pending_of tx_id [] = []
pending_of tx_id (r ∷ records) = (tx_id, r ∷ records) ∷ []

push-pending_of :
    (r : WalRecord) (records : List WalRecord)
    → push_pending r (pending_of r.tx_id records) ≡ pending_of r.tx_id (records ++ r ∷ [])
unfolding push_pending lookup insert
push-pending_of r [] = refl
push-pending_of r (x ∷ records) = ground (arith, nat_ord.cmp_refl r.tx_id)

-- The state while the records of one transaction come in.
abbrev during : ℕ → List WalRecord → Recovered → Recovered
during tx_id records s = record s {
  pending = pending_of tx_id records;
  highest_tx = max s.highest_tx tx_id;
}

max_twice : (h t : ℕ) → max (max h t) t ≡ max h t
max_twice h t = omega arith

replay_step :
    (tx_id : ℕ) (m : Mutation) (before : List WalRecord) (s : Recovered) (rest : List WalRecord)
    → replay (records_of tx_id (m ∷ []) ++ rest) (during tx_id before s)
      ≡ replay rest (during tx_id (before ++ records_of tx_id (m ∷ [])) s)
unfolding replay replay_record records_of
replay_step tx_id (put key value) before s rest =
    rw (push-pending_of (put_record tx_id key value) before, max_twice s.highest_tx tx_id) refl
replay_step tx_id (delete key) before s rest =
    rw (push-pending_of (delete_record tx_id key) before, max_twice s.highest_tx tx_id) refl

split_first :
    (tx_id : ℕ) (m : Mutation) (mutations : List Mutation)
    → records_of tx_id (m ∷ mutations) ≡ records_of tx_id (m ∷ []) ++ records_of tx_id mutations
unfolding records_of
split_first tx_id (put key value) mutations = refl
split_first tx_id (delete key) mutations = refl

no_records : (tx_id : ℕ) → records_of tx_id [] ≡ []
unfolding records_of
no_records tx_id = refl

replay_mutations :
    (tx_id : ℕ) (mutations : List Mutation) (before : List WalRecord) (s : Recovered)
    (rest : List WalRecord)
    → replay (records_of tx_id mutations ++ rest) (during tx_id before s)
      ≡ replay rest (during tx_id (before ++ records_of tx_id mutations) s)
replay_mutations tx_id [] before s rest = rw (no_records tx_id, append_nil before) refl
replay_mutations tx_id (m ∷ mutations) before s rest =
    let one = records_of tx_id (m ∷ []) in
    let more = records_of tx_id mutations in
    ap (λ rs. replay (rs ++ rest) (during tx_id before s)) (split_first tx_id m mutations)
    ∙ (ap (λ rs. replay rs (during tx_id before s)) (append_assoc one more rest)
        ∙ (replay_step tx_id m before s (more ++ rest)
            ∙ (replay_mutations tx_id mutations (before ++ one) s rest
                ∙ ap (λ rs. replay rest (during tx_id rs s))
                    (append_assoc before one more
                      ∙ ap (λ rs. before ++ rs) (sym (split_first tx_id m mutations))))))

-- Nothing is pending.
abbrev pub idle : Recovered → Recovered
idle s = record s { pending = [] }

replay_first :
    (tx_id : ℕ) (m : Mutation) (s : Recovered) (rest : List WalRecord)
    → replay (records_of tx_id (m ∷ []) ++ rest) (idle s)
      ≡ replay rest (during tx_id (records_of tx_id (m ∷ [])) s)
unfolding replay replay_record records_of push_pending lookup insert
replay_first tx_id (put key value) s rest = refl
replay_first tx_id (delete key) s rest = refl

-- A transaction that begins when nothing is pending.
replay_transaction :
    (tx_id : ℕ) (m : Mutation) (mutations : List Mutation) (s : Recovered) (rest : List WalRecord)
    → replay (records_of tx_id (m ∷ mutations) ++ rest) (idle s)
      ≡ replay rest (during tx_id (records_of tx_id (m ∷ mutations)) s)
replay_transaction tx_id m mutations s rest =
    let one = records_of tx_id (m ∷ []) in
    let more = records_of tx_id mutations in
    ap (λ rs. replay (rs ++ rest) (idle s)) (split_first tx_id m mutations)
    ∙ (ap (λ rs. replay rs (idle s)) (append_assoc one more rest)
        ∙ (replay_first tx_id m s (more ++ rest)
            ∙ (replay_mutations tx_id mutations one s rest
                ∙ ap (λ rs. replay rest (during tx_id rs s))
                    (sym (split_first tx_id m mutations)))))

-- The state after one committed transaction: its mutations at the next timestamp.
abbrev pub after_commit : ℕ → List Mutation → Recovered → Recovered
after_commit tx_id mutations s = record {
  pending = [];
  highest_tx = max s.highest_tx tx_id;
  next_commit_ts = saturating_add s.next_commit_ts 1;
  memtable = apply_mutations tx_id mutations s.next_commit_ts s.memtable;
}

batch_of :
    (tx_id : ℕ) (mutations : List Mutation) (ts : ℕ) (table : BTreeMapTable)
    → apply_records_batch (records_of tx_id mutations) ts table
      ≡ (ok tt, apply_mutations tx_id mutations ts table)
batch_of tx_id mutations ts table =
    batch_records (records_of tx_id mutations) ts table
    ∙ apply_records-records_of tx_id mutations ts table

commit-during :
    (tx_id : ℕ) (m : Mutation) (mutations : List Mutation) (s : Recovered)
    → replay_record (commit_record tx_id) (during tx_id (records_of tx_id (m ∷ mutations)) s)
      ≡ ok (after_commit tx_id (m ∷ mutations) s)
unfolding replay_record commit_pending lookup remove records_of
commit-during tx_id (put key value) mutations s = ground (
  arith,
  nat_ord.cmp_refl tx_id,
  max_twice s.highest_tx tx_id,
  batch_of tx_id (put key value ∷ mutations) s.next_commit_ts s.memtable,
)
commit-during tx_id (delete key) mutations s = ground (
  arith,
  nat_ord.cmp_refl tx_id,
  max_twice s.highest_tx tx_id,
  batch_of tx_id (delete key ∷ mutations) s.next_commit_ts s.memtable,
)

-- A transaction of the log: its identifier and its mutations, one at least.
abbrev pub Logged : Type 0
Logged = ℕ × Mutation × List Mutation

-- The records that the engine appends for committed transactions.
abbrev pub log_of : List Logged → List WalRecord
log_of [] = []
log_of ((tx_id, m, mutations) ∷ txns) =
    records_of tx_id (m ∷ mutations) ++ commit_record tx_id ∷ log_of txns

-- The transactions, committed one after the other.
abbrev pub replayed : List Logged → Recovered → Recovered
replayed [] s = s
replayed ((tx_id, m, mutations) ∷ txns) s = replayed txns (after_commit tx_id (m ∷ mutations) s)

-- What is left of a transaction without its commit marker.
abbrev pub unfinished : ℕ → List Mutation → Recovered → Recovered
unfinished tx_id [] s = s
unfinished tx_id (m ∷ mutations) s = during tx_id (records_of tx_id (m ∷ mutations)) s

replay-unfinished :
    (tx_id : ℕ) (mutations : List Mutation) (s : Recovered)
    → replay (records_of tx_id mutations) (idle s) ≡ ok (unfinished tx_id mutations (idle s))
unfolding replay
replay-unfinished tx_id [] s = ap (λ rs. replay rs (idle s)) (no_records tx_id)
replay-unfinished tx_id (m ∷ mutations) s =
    ap (λ rs. replay rs (idle s)) (sym (append_nil (records_of tx_id (m ∷ mutations))))
    ∙ replay_transaction tx_id m mutations s []

replay_commit :
    (tx_id : ℕ) (m : Mutation) (mutations : List Mutation) (s : Recovered) (rest : List WalRecord)
    → replay (commit_record tx_id ∷ rest) (during tx_id (records_of tx_id (m ∷ mutations)) s)
      ≡ replay rest (after_commit tx_id (m ∷ mutations) s)
unfolding replay
replay_commit tx_id m mutations s rest = rw (commit-during tx_id m mutations s) refl

replay_from_idle :
    (txns : List Logged) (tx_id : ℕ) (torn : List Mutation) (s : Recovered)
    → replay (log_of txns ++ records_of tx_id torn) (idle s)
      ≡ ok (unfinished tx_id torn (replayed txns (idle s)))
replay_from_idle [] tx_id torn s = replay-unfinished tx_id torn s
replay_from_idle ((id, m, mutations) ∷ txns) tx_id torn s =
    ap (λ rs. replay rs (idle s))
      (append_assoc (records_of id (m ∷ mutations)) (commit_record id ∷ log_of txns)
        (records_of tx_id torn))
    ∙ (replay_transaction id m mutations s
          (commit_record id ∷ (log_of txns ++ records_of tx_id torn))
        ∙ (replay_commit id m mutations s (log_of txns ++ records_of tx_id torn)
            ∙ replay_from_idle txns tx_id torn (after_commit id (m ∷ mutations) s)))

-- When nothing is pending, the replay of the records of committed transactions with one mutation
-- at least, followed by those of a transaction without a commit marker, succeeds: each committed
-- transaction is applied to the memtable as one batch at the next timestamp, in the order of the
-- log, and the mutations of the last one stay pending and are not applied.
pub replay-log_of :
    (txns : List Logged) (tx_id : ℕ) (torn : List Mutation) (s : Recovered)
    → s.pending ≡ []
    → replay (log_of txns ++ records_of tx_id torn) s ≡ ok (unfinished tx_id torn (replayed txns s))
replay-log_of txns tx_id torn s h =
    subst
      (λ pending.
        (λ (t : Recovered).
            replay (log_of txns ++ records_of tx_id torn) t
            ≡ ok (unfinished tx_id torn (replayed txns t)))
          (record s { pending = pending }))
      (sym h) (replay_from_idle txns tx_id torn s)
