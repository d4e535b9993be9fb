-- ===== src/Engine/Memtable/Collect.antt =====
-- Garbage collection of `BTreeMapTable`.
use hat_p.Prelude.{ℕ, ◌≤◌, ◌<◌, ◌≡◌, refl, ap, ◌∙◌, [], ◌∷◌, arith, Bytes, bytes_ord}
use hat_p.Prelude.Map.{lookup}
use hat_p.Engine.Version.{VersionChain, open_ended_ts}
use hat_p.Engine.Version.Visible.{map_write}
use hat_p.Engine.Version.Collect.{get-garbage_collect}
use hat_p.Engine.Memtable.{Entries, BTreeMapTable, chain_of, collect_entries, garbage_collect}
use hat_p.Engine.Memtable.Apply.{IsValid, read, get-chain_of, chain_of-IsContiguous}
use hat_p.Engine.Version

chain_of-collect_entries :
    (oldest : ℕ) (key : Bytes) (entries : Entries)
    → chain_of key (collect_entries oldest entries).1
      ≡ (Version.garbage_collect oldest (chain_of key entries)).1
unfolding chain_of collect_entries lookup Version.garbage_collect
chain_of-collect_entries oldest key [] = refl
chain_of-collect_entries oldest key ((j, chain) ∷ entries) =
    ground (arith, chain_of-collect_entries oldest key entries)

-- In a table of contiguous chains, garbage_collect does not change what a reader finds under any
-- key at a snapshot from the oldest one on and below OPEN_ENDED_TS.
pub read-garbage_collect :
    (oldest : ℕ) (key : Bytes) (snapshot : ℕ) (table : BTreeMapTable)
    → IsValid table
    → oldest ≤ snapshot
    → snapshot < open_ended_ts
    → read key snapshot (garbage_collect oldest table).1 ≡ read key snapshot table
unfolding garbage_collect
read-garbage_collect oldest key snapshot table h o s =
    ap map_write (get-chain_of key snapshot (garbage_collect oldest table).1)
    ∙ rw (chain_of-collect_entries oldest key table.entries, get-chain_of key snapshot table)
        (get-garbage_collect oldest snapshot (chain_of key table.entries)
          (chain_of-IsContiguous key table h) o s)
