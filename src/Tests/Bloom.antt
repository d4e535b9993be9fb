-- ===== src/Tests/Bloom.antt =====
-- The theorems on the Bloom filter at a filter of two words.
use hat_p.Prelude.{◌<◌, ◌≡◌, refl, inl, inr, true, false, some, [], ◌∷◌, arith, length}
use hat_p.Engine.Bloom.{BloomFilter, with_sizes, insert, contains, to_bytes, from_bytes}
use hat_p.Engine.Bloom.Members.{IsSized, insert_all, contains-insert_all}
use hat_p.Engine.Bloom.File.{IsStored, from_bytes-to_bytes}

abbrev small : BloomFilter
small = with_sizes 128 3

small-IsSized : IsSized small
small-IsSized = (refl, omega arith, omega arith)

contains-insert_all_example :
    contains (1 ∷ []) (insert_all ((2 ∷ []) ∷ (1 ∷ []) ∷ (3 ∷ []) ∷ []) small) ≡ true
contains-insert_all_example =
    contains-insert_all (1 ∷ []) ((2 ∷ []) ∷ (1 ∷ []) ∷ (3 ∷ []) ∷ []) small small-IsSized
      (inr (inl refl))

-- A key that was not inserted is not found.
absent : contains (9 ∷ 9 ∷ []) (insert (1 ∷ []) small) ≡ false
unfolding contains insert
absent = refl

small-IsStored : IsStored small
small-IsStored = (refl, omega arith, omega arith, (omega arith, (omega arith, tt)))

from_bytes-to_bytes_example : from_bytes (to_bytes small) ≡ some small
from_bytes-to_bytes_example = from_bytes-to_bytes small small-IsStored

small-length : 20 < length (to_bytes small)
unfolding to_bytes
small-length = omega arith
