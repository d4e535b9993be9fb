-- ===== src/Tests/Version.antt =====
-- The theorems on version chains at a chain of two versions.
use hat_p.Prelude.{◌≡◌, refl, some, [], ◌∷◌, arith}
use hat_p.Engine.Version.{VersionChain, live, closed_at, insert, get, garbage_collect}
use hat_p.Engine.Version.Splice.{IsContiguous}
use hat_p.Engine.Version.Visible.{overlay, map_write, get-insert}

abbrev two_versions : VersionChain
two_versions = live (2 ∷ []) 20 8 ∷ closed_at 20 (live (1 ∷ []) 10 7) ∷ []

two_versions-IsContiguous : IsContiguous two_versions
two_versions-IsContiguous = (refl, omega arith, (refl, omega arith, tt))

-- A version between the two is what a snapshot between them sees.
get-insert_example :
    map_write (get 17 (insert (live (3 ∷ []) 15 9) two_versions)) ≡ some (some (3 ∷ []), 15, 9)
unfolding overlay get
get-insert_example =
    get-insert 17 (live (3 ∷ []) 15 9) two_versions two_versions-IsContiguous refl (omega arith)
      (omega arith)

-- The older version is dropped, and counted.
collected : garbage_collect 20 two_versions ≡ (1, live (2 ∷ []) 20 8 ∷ [])
unfolding garbage_collect
collected = refl
