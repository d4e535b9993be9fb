-- ===== src/Engine/Version/Collect.antt =====
-- What `VersionChain::garbage_collect` keeps: a front part of the chain.
use hat_p.Prelude.{ℕ, ◌≤◌, ◌<◌, ◌≡◌, refl, ◌∙◌, Bool, ◌||◌, [], ◌∷◌, arith, ltb, ◌==◌}
use hat_p.Engine.Version.{VersionedValue, VersionChain, open_ended_ts, get, retain, garbage_collect}
use hat_p.Engine.Version.Splice.{Linked, IsContiguous}
use hat_p.Engine.Version.Visible.{latest, map_write, get-latest}

-- `version.begin_ts == newest_ts || version.end_ts > oldest_snapshot`
abbrev pub kept_by : ℕ → ℕ → VersionedValue → Bool
kept_by newest_ts oldest_snapshot version =
    version.begin_ts == newest_ts || ltb oldest_snapshot version.end_ts

-- Versions older than one that ended already ended earlier still.
retain_none :
    (newest oldest upper : ℕ) (chain : VersionChain)
    → Linked upper chain
    → upper ≤ oldest
    → upper ≤ newest
    → retain (kept_by newest oldest) chain ≡ []
unfolding retain
retain_none newest oldest upper [] h b n = refl
retain_none newest oldest upper (x ∷ chain) (ends, below, linked) b n =
    ground (arith, retain_none newest oldest x.begin_ts chain linked)

-- Behind the head no version has its timestamp.
retain-Linked :
    (newest oldest upper : ℕ) (chain : VersionChain)
    → Linked upper chain
    → upper ≤ newest
    → Linked upper (retain (kept_by newest oldest) chain)
unfolding retain
retain-Linked newest oldest upper [] h n = tt
retain-Linked newest oldest upper (x ∷ chain) (ends, below, linked) n = ground (
  arith,
  retain-Linked newest oldest x.begin_ts chain linked,
  retain_none newest oldest x.begin_ts chain linked,
)

latest-retain :
    (newest oldest snapshot upper : ℕ) (chain : VersionChain)
    → Linked upper chain
    → upper ≤ newest
    → oldest ≤ snapshot
    → snapshot < upper
    → latest snapshot (retain (kept_by newest oldest) chain) ≡ latest snapshot chain
unfolding retain latest
latest-retain newest oldest snapshot upper [] h n o s = refl
latest-retain newest oldest snapshot upper (x ∷ chain) (ends, below, linked) n o s =
    ground (arith, latest-retain newest oldest snapshot x.begin_ts chain linked)

-- garbage_collect leaves a contiguous chain contiguous.
garbage_collect-IsContiguous :
    (oldest : ℕ) (chain : VersionChain)
    → IsContiguous chain
    → IsContiguous (garbage_collect oldest chain).1
unfolding garbage_collect retain
garbage_collect-IsContiguous oldest [] h = tt
garbage_collect-IsContiguous oldest (x ∷ chain) (ends, below, linked) =
    ground (arith, retain-Linked x.begin_ts oldest x.begin_ts chain linked)

latest-garbage_collect :
    (oldest snapshot : ℕ) (chain : VersionChain)
    → IsContiguous chain
    → oldest ≤ snapshot
    → latest snapshot (garbage_collect oldest chain).1 ≡ latest snapshot chain
unfolding garbage_collect retain latest
latest-garbage_collect oldest snapshot [] h o = refl
latest-garbage_collect oldest snapshot (x ∷ chain) (ends, below, linked) o =
    ground (arith, latest-retain x.begin_ts oldest snapshot x.begin_ts chain linked)

-- On a contiguous chain, garbage_collect does not change what get finds at a snapshot from the
-- oldest one on and below OPEN_ENDED_TS.
pub get-garbage_collect :
    (oldest snapshot : ℕ) (chain : VersionChain)
    → IsContiguous chain
    → oldest ≤ snapshot
    → snapshot < open_ended_ts
    → map_write (get snapshot (garbage_collect oldest chain).1) ≡ map_write (get snapshot chain)
get-garbage_collect oldest snapshot chain h o s =
    get-latest snapshot (garbage_collect oldest chain).1
      (garbage_collect-IsContiguous oldest chain h) s
    ∙ rw (get-latest snapshot chain h s) (latest-garbage_collect oldest snapshot chain h o)
