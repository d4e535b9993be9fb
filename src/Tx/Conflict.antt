-- ===== src/Tx/Conflict.antt =====
-- `TxManager::check_conflict` and `write_set_hits_reads` (crates/hatp-tx/src/manager.rs): one
-- transaction against one committed write-set. The laws are in the module below.
pub mod Laws
use hat_p.Prelude.{
  ℕ, zero, suc, ◌+◌, ◌-◌, ◌*◌, ◌/◌, ◌%◌, ◌^◌, ◌≤◌, ◌<◌, compare, Ordering, ◌≡◌, refl, sym, ap, ◌∙◌,
  subst, fun_ext, ◌≢◌, ◌↔◌, ◌⊎◌, inl, inr, Bool, true, false, not, ◌&&◌, ◌||◌, Option, none, some,
  List, [], ◌∷◌, ◌++◌, map, arith, Ord, Bytes, ltb, leb, ◌==◌, if◌then◌else◌, ltb→lt, lt→ltb,
  leb→le, ==_iff, Bool-cases, Option-cases, length, take, drop, get_elem?, any, All, Any,
  length-append, bytes_eq, in_range, contains, set_insert,
}
use hat_p.Tx.Types.{TxnTs, SsiTxn, CommitEntry, Result, write_conflict, read_write_conflict}
use hat_p.Prelude.Result.{ok, err, ◌>>=◌, ◌>>◌}

-- `for my_key in keys { if write_set.contains(my_key) { return Err(..) } }`: the key reported.
unfoldable pub find_contained : List Bytes → List Bytes → Option Bytes
unfolding contains
find_contained [] write_set = none
find_contained (key ∷ keys) write_set =
    if contains key write_set then some key else find_contained keys write_set

-- `for peer_key in write_set { if lower <= peer_key && peer_key < upper { return Err(..) } }`
unfoldable pub find_within : Bytes → Bytes → List Bytes → Option Bytes
find_within lower upper [] = none
find_within lower upper (key ∷ keys) =
    if in_range lower upper key then some key else find_within lower upper keys

unfoldable pub find_in_ranges : List (Bytes × Bytes) → List Bytes → Option Bytes
unfolding find_within
find_in_ranges [] write_set = none
find_in_ranges ((lower, upper) ∷ ranges) write_set = elim (find_within lower upper write_set) [
  | some key ↦ some key
  | none ↦ find_in_ranges ranges write_set
]

unfoldable pub check_conflict : SsiTxn → TxnTs → List Bytes → Result (Unit {0})
unfolding find_contained find_in_ranges
check_conflict txn commit_ts write_set =
    if leb commit_ts txn.start_ts then ok tt else elim (find_contained txn.write_set write_set) [
      | some key ↦ err (write_conflict txn.handle.id key)
      | none ↦ elim (find_contained txn.read_set write_set) [
        | some key ↦ err (read_write_conflict txn.handle.id key)
        | none ↦ elim (find_in_ranges txn.read_conflict_ranges write_set) [
          | some key ↦ err (read_write_conflict txn.handle.id key)
          | none ↦ ok tt
        ]
      ]
    ]

-- `for entry in history.iter() { Self::check_conflict(..)?; }`
unfoldable pub check_all : SsiTxn → List CommitEntry → Result (Unit {0})
unfolding check_conflict
check_all txn [] = ok tt
check_all txn (entry ∷ entries) = do
  check_conflict txn entry.commit_ts entry.write_set
  check_all txn entries

unfoldable pub write_set_hits_reads : List Bytes → List Bytes → List (Bytes × Bytes) → Bool
unfolding contains
write_set_hits_reads write_set read_set read_ranges =
    any (λ key. contains key read_set || any (λ range. in_range range.0 range.1 key) read_ranges)
      write_set
