-- ===== src/Tests/KeyIndex.antt =====
-- The key index of three rows, two of them versions of one key.
use hat_p.Engine.KeyIndex.{from_bytes, from_rows, get, entry}
use hat_p.Prelude.{◌^◌, ◌<◌, ◌≡◌, refl, Option, some, List, [], ◌∷◌, arith, length, All}
use hat_p.Engine.Version.{VersionedValue, live, tombstone}
use hat_p.Engine.Memtable.{VersionedRow}
use hat_p.Engine.KeyIndex.File.{from_bytes-from_rows}
use hat_p.Engine.KeyIndex.Entries.{Fits, index_bytes, entries}
use hat_p.Engine.KeyIndex.Search.{KeysAscend, Answers, get-from_rows}

abbrev rows : List VersionedRow
rows =
    record { key = 1 ∷ []; version = live (10 ∷ []) 7 7 }
    ∷ record { key = 1 ∷ []; version = live (11 ∷ []) 3 3 }
    ∷ record { key = 2 ∷ []; version = tombstone 5 5 }
    ∷ []

rows-KeysAscend : KeysAscend rows
rows-KeysAscend = (((λ e. cc), ((λ e. cc), tt)), (((λ e. cc), tt), (tt, tt)))

rows-Fits : All Fits rows
rows-Fits = (omega arith, (omega arith, (omega arith, tt)))

rows_small : length (index_bytes rows) < 2 ^ 32
unfolding entries entry
rows_small = omega arith

get-from_rows_example :
    (answer : Option VersionedValue) × (get (2 ∷ []) (from_rows rows) ≡ some answer)
    × Answers (2 ∷ []) rows answer
get-from_rows_example = get-from_rows (2 ∷ []) rows rows-KeysAscend rows-Fits rows_small

-- The probe in the middle meets the older version of the key first.
middle : get (1 ∷ []) (from_rows rows) ≡ some (some (live (11 ∷ []) 3 0))
unfolding get from_rows
middle = refl

from_bytes-from_rows_example : from_bytes (from_rows rows).data_bytes ≡ some (from_rows rows)
from_bytes-from_rows_example = from_bytes-from_rows rows rows-Fits rows_small
