-- ===== src/Tx/Conflict/Laws.antt =====
-- What `check_conflict` and `check_all` (crates/hatp-tx/src/manager.rs) accept and report.
use hat_p.Prelude.{
  ◌<◌, ◌≡◌, refl, ◌∙◌, inl, inr, Bool, true, false, ◌||◌, none, some, List, [], ◌∷◌, arith, Bytes,
  any, All, Any, in_range, contains, eq_of_bytes_eq, bytes_eq_refl,
}
use hat_p.Tx.Types.{
  Result-cases, TxnTs, SsiTxn, TxError, write_conflict, read_write_conflict, invalid_state,
  unknown_txn,
}
use hat_p.Prelude.Result.{ok, err}
use hat_p.Tx.Conflict.{
  check_all, CommitEntry, find_contained, find_within, find_in_ranges, check_conflict,
}

-- a range that the transaction has scanned holds the key
abbrev pub scanned : List (Bytes × Bytes) → Bytes → Bool
scanned ranges key = any (λ range. in_range range.0 range.1 key) ranges

abbrev pub is_read : SsiTxn → Bytes → Bool
is_read txn key = contains key txn.read_set || scanned txn.read_conflict_ranges key

-- A committed write-set tells why the transaction must not commit.
abbrev pub Explains : SsiTxn → TxnTs → List Bytes → TxError → Type 0
Explains txn commit_ts write_set (write_conflict t key) =
    (t ≡ txn.handle.id)
    × (txn.start_ts < commit_ts)
    × (contains key txn.write_set ≡ true)
    × (contains key write_set ≡ true)
Explains txn commit_ts write_set (read_write_conflict t key) =
    (t ≡ txn.handle.id)
    × (txn.start_ts < commit_ts)
    × (is_read txn key ≡ true)
    × (contains key write_set ≡ true)
Explains txn commit_ts write_set (invalid_state _ _ _) = ⊥
Explains txn commit_ts write_set (unknown_txn _) = ⊥

find_contained-some :
    (keys write_set : List Bytes) (key : Bytes)
    → find_contained keys write_set ≡ some key
    → (contains key keys ≡ true) × (contains key write_set ≡ true)
unfolding find_contained
find_contained-some [] write_set key h = absurd (cc)
find_contained-some (k ∷ keys) write_set key h =
    ground (arith, find_contained-some keys write_set key, bytes_eq_refl key)

find_contained-none :
    (keys write_set : List Bytes) (key : Bytes)
    → find_contained keys write_set ≡ none
    → contains key keys ≡ true
    → contains key write_set ≡ false
unfolding find_contained
find_contained-none [] write_set key h c = absurd (cc)
find_contained-none (k ∷ keys) write_set key h c =
    ground (arith, find_contained-none keys write_set key, eq_of_bytes_eq key k)

find_within-some :
    (lower upper : Bytes) (write_set : List Bytes) (key : Bytes)
    → find_within lower upper write_set ≡ some key
    → (in_range lower upper key ≡ true) × (contains key write_set ≡ true)
unfolding find_within contains
find_within-some lower upper [] key h = absurd (cc)
find_within-some lower upper (k ∷ keys) key h =
    ground (arith, find_within-some lower upper keys key, bytes_eq_refl key)

find_within-none :
    (lower upper : Bytes) (write_set : List Bytes) (key : Bytes)
    → find_within lower upper write_set ≡ none
    → contains key write_set ≡ true
    → in_range lower upper key ≡ false
unfolding find_within contains
find_within-none lower upper [] key h c = absurd (cc)
find_within-none lower upper (k ∷ keys) key h c =
    ground (arith, find_within-none lower upper keys key, eq_of_bytes_eq key k)

find_in_ranges-some :
    (ranges : List (Bytes × Bytes)) (write_set : List Bytes) (key : Bytes)
    → find_in_ranges ranges write_set ≡ some key
    → (scanned ranges key ≡ true) × (contains key write_set ≡ true)
unfolding find_in_ranges
find_in_ranges-some [] write_set key h = absurd (cc)
find_in_ranges-some ((lower, upper) ∷ ranges) write_set key h =
    ground
      (arith, find_in_ranges-some ranges write_set key, find_within-some lower upper write_set key)

find_in_ranges-none :
    (ranges : List (Bytes × Bytes)) (write_set : List Bytes) (key : Bytes)
    → find_in_ranges ranges write_set ≡ none
    → contains key write_set ≡ true
    → scanned ranges key ≡ false
unfolding find_in_ranges
find_in_ranges-none [] write_set key h c = refl
find_in_ranges-none ((lower, upper) ∷ ranges) write_set key h c =
    ground
      (arith, find_in_ranges-none ranges write_set key, find_within-none lower upper write_set key)

module _ (txn : SsiTxn) (commit_ts : TxnTs) (write_set : List Bytes) where
  pub check_conflict-Explains :
      (e : TxError)
      → check_conflict txn commit_ts write_set ≡ err e
      → Explains txn commit_ts write_set e
  unfolding check_conflict
  check_conflict-Explains (write_conflict t key) h =
      ground (arith, find_contained-some txn.write_set write_set key)
  check_conflict-Explains (read_write_conflict t key) h = ground (
    arith,
    find_contained-some txn.read_set write_set key,
    find_in_ranges-some txn.read_conflict_ranges write_set key,
  )
  check_conflict-Explains (invalid_state _ _ _) h = ground arith
  check_conflict-Explains (unknown_txn _) h = ground arith

  pub check_conflict_none :
      check_conflict txn commit_ts write_set ≡ ok tt
      → (e : TxError) → ¬ (Explains txn commit_ts write_set e)
  unfolding check_conflict
  check_conflict_none h (write_conflict t key) x =
      ground (arith, find_contained-none txn.write_set write_set key)
  check_conflict_none h (read_write_conflict t key) x = ground (
    arith,
    find_contained-none txn.read_set write_set key,
    find_in_ranges-none txn.read_conflict_ranges write_set key,
  )
  check_conflict_none h (invalid_state _ _ _) x = x
  check_conflict_none h (unknown_txn _) x = x

module _ (txn : SsiTxn) where
  abbrev pub Accuses : TxError → CommitEntry → Type 0
  Accuses e entry = Explains txn entry.commit_ts entry.write_set e

  pub check_all-Accuses :
      (entries : List CommitEntry) (e : TxError)
      → check_all txn entries ≡ err e
      → Any (Accuses e) entries
  unfolding check_all
  check_all-Accuses [] e h = absurd (cc)
  check_all-Accuses (x ∷ entries) e h =
      elim (Result-cases (check_conflict txn x.commit_ts x.write_set)) [
        | inl passed ↦ inr (check_all-Accuses entries e (rw passed at h))
        | inr (f, failed) ↦
            inl (check_conflict-Explains txn x.commit_ts x.write_set e (failed ∙ (rw failed at h)))
      ]

  pub check_all_none :
      (entries : List CommitEntry)
      → check_all txn entries ≡ ok tt
      → All (λ entry. (e : TxError) → ¬ Accuses e entry) entries
  unfolding check_all
  check_all_none [] h = tt
  check_all_none (x ∷ entries) h =
      elim (Result-cases (check_conflict txn x.commit_ts x.write_set)) [
        | inl passed ↦ (
          check_conflict_none txn x.commit_ts x.write_set passed,
          check_all_none entries (rw passed at h),
        )
        | inr (f, failed) ↦ absurd (cc)
      ]
