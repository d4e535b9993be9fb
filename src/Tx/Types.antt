-- ===== src/Tx/Types.antt =====
-- Types of crates/hatp-tx/src/manager.rs and error.rs, and the methods of `SsiTxn`.
use hat_p.Prelude.{
  ℕ, ◌≡◌, refl, ◌⊎◌, inl, inr, Bool, List, [], ◌∷◌, ◌++◌, Bytes, any, contains, set_insert,
}
use hat_p.Prelude.Result.{StdResult, ok, err}

-- `pub struct TxnId(pub u64)`
abbrev pub TxnId : Type 0
TxnId = ℕ

abbrev pub TxnTs : Type 0
TxnTs = ℕ

pub data IsolationHint : Type 0 where
  snapshot : IsolationHint

pub data TxnState : Type 0 where
  active committed aborted : TxnState

pub record TxnHandle : Type 0 where
  pub id : TxnId
  pub isolation : IsolationHint
  pub state : TxnState

pub record SsiTxn : Type 0 where
  pub handle : TxnHandle
  pub start_ts : TxnTs
  pub read_set : List Bytes
  pub write_set : List Bytes
  pub read_conflict_ranges : List (Bytes × Bytes)

pub record CommitEntry : Type 0 where
  pub write_set : List Bytes
  pub commit_ts : TxnTs

pub data TxError : Type 0 where
  invalid_state : TxnId → TxnState → TxnState → TxError
  unknown_txn : TxnId → TxError
  write_conflict : TxnId → Bytes → TxError
  read_write_conflict : TxnId → Bytes → TxError

-- `pub type Result<T> = std::result::Result<T, TxError>`
abbrev pub Result {ℓ} : Type ℓ → Type ℓ
Result A = StdResult TxError A

unfoldable pub new : TxnHandle → TxnTs → SsiTxn
new handle start_ts = record {
  handle = handle;
  start_ts = start_ts;
  read_set = [];
  write_set = [];
  read_conflict_ranges = [];
}

unfoldable pub record_read : Bytes → SsiTxn → SsiTxn
unfolding set_insert
record_read key txn = record txn { read_set = set_insert key txn.read_set }

unfoldable pub record_write : Bytes → SsiTxn → SsiTxn
unfolding set_insert
record_write key txn = record txn { write_set = set_insert key txn.write_set }

unfoldable pub add_read_conflict_range : Bytes → Bytes → SsiTxn → SsiTxn
add_read_conflict_range lower upper txn = record txn {
  read_conflict_ranges = txn.read_conflict_ranges ++ (lower, upper) ∷ [];
}

unfoldable pub has_write_conflict : SsiTxn → SsiTxn → Bool
unfolding contains
has_write_conflict txn other = any (λ key. contains key other.write_set) txn.write_set

pub Result-cases : (r : Result (Unit {0})) → (r ≡ ok tt) ⊎ ((e : TxError) × (r ≡ err e))
Result-cases (ok tt) = inl refl
Result-cases (err e) = inr (e, refl)
