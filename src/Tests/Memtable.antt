-- ===== src/Tests/Memtable.antt =====
-- The theorems on `BTreeMapTable` at a table of three keys.
use hat_p.Prelude.{◌≡◌, refl, some, List, [], ◌∷◌, arith}
use hat_p.Engine.Types.{Mutation, put, delete}
use hat_p.Engine.Version.{live}
use hat_p.Engine.Version.Visible.{overlay}
use hat_p.Engine.Memtable.{
  BTreeMapTable, apply_mutations, bump_last, starts_with, scan_prefix_versions, visible_in,
  erase_prefix, garbage_collect, get,
}
use hat_p.Engine.Memtable.Scan.{
  KeysAreBytes, matching, ErasedAs, scan_prefix_versions_exact, erase_prefix_exact,
}
use hat_p.Engine.Memtable.Apply.{IsValid, read, last_write, with_last, read-apply_mutations}
use hat_p.Engine.Memtable.Collect.{read-garbage_collect}

abbrev sample : BTreeMapTable
sample = record {
  entries =
      (1 ∷ 0 ∷ [], live (5 ∷ []) 10 3 ∷ [])
      ∷ (1 ∷ 255 ∷ 4 ∷ [], live (6 ∷ []) 12 4 ∷ [])
      ∷ (2 ∷ [], live (7 ∷ []) 10 3 ∷ [])
      ∷ [];
  bytes = 81;
}

sample-IsValid : IsValid sample
sample-IsValid = ((refl, omega arith, tt), ((refl, omega arith, tt), ((refl, omega arith, tt), tt)))

sample-KeysAreBytes : KeysAreBytes sample.entries
sample-KeysAreBytes = (
  (omega arith, (omega arith, tt)),
  ((omega arith, (omega arith, (omega arith, tt))), ((omega arith, tt), tt)),
)

bumped : bump_last (1 ∷ 255 ∷ []) ≡ some (2 ∷ [])
unfolding bump_last
bumped = refl

scan_prefix_versions_exact_example :
    scan_prefix_versions (1 ∷ 255 ∷ []) 15 sample
    ≡ some ((1 ∷ 255 ∷ 4 ∷ [], live (6 ∷ []) 12 4) ∷ [])
unfolding visible_in matching starts_with
scan_prefix_versions_exact_example =
    scan_prefix_versions_exact (1 ∷ 255 ∷ []) (2 ∷ []) 15 sample bumped sample-KeysAreBytes

erase_prefix_exact_example : ErasedAs (1 ∷ 255 ∷ []) sample (erase_prefix (1 ∷ 255 ∷ []) sample)
erase_prefix_exact_example =
    erase_prefix_exact (1 ∷ 255 ∷ []) (2 ∷ []) sample bumped sample-KeysAreBytes

-- The second mutation of the key is the one that is read.
abbrev batch : List Mutation
batch = put (2 ∷ []) (8 ∷ []) ∷ delete (1 ∷ 0 ∷ []) ∷ put (2 ∷ []) (9 ∷ []) ∷ []

read-apply_mutations_example :
    read (2 ∷ []) 30 (apply_mutations 5 batch 20 sample) ≡ some (some (9 ∷ []), 20, 5)
unfolding last_write with_last overlay get
read-apply_mutations_example =
    read-apply_mutations (2 ∷ []) 30 5 batch 20 sample sample-IsValid (omega arith) (omega arith)

read-garbage_collect_example :
    read (2 ∷ []) 30 (garbage_collect 15 sample).1 ≡ read (2 ∷ []) 30 sample
read-garbage_collect_example =
    read-garbage_collect 15 (2 ∷ []) 30 sample sample-IsValid (omega arith) (omega arith)
