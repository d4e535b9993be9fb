-- ===== src/Engine/Manifest/Handle.antt =====
-- The handle of the manifest: `open`, `append_batch` and `rewrite` of `Manifest`, and what a later
-- `open` finds. Writes and syncs succeed; the errors are those of the encoding.
use hat_p.Prelude.{
  ℕ, ◌+◌, ◌<◌, ◌≡◌, refl, ap, ◌∙◌, ◌≢◌, Option, none, some, List, [], ◌∷◌, ◌++◌, arith, Bytes, leb,
  if◌then◌else◌, length, All, length-append, append_assoc,
}
use hat_p.Prelude.Result.{ok, err}
use hat_p.Engine.Types.{EngineResult, corrupt_message}
use hat_p.Engine.Memtable.{saturating_add, starts_with}
use hat_p.Engine.VersionSet.Tidy.{apply_all-append}
use hat_p.Engine.VersionSet.{
  VersionEdit, VersionSet, empty, apply, apply_all, applied, rebuild_indexes, to_edits,
}
use hat_p.Engine.Manifest.{magic, snapshot_threshold, encode_frames, decode_all}
use hat_p.Engine.Manifest.Frames.{Fits}
use hat_p.Engine.Manifest.Log.{frame, log, encode_frames-log, decode_all-log_ok}

pub record Manifest : Type 0 where
  pub file : Bytes
  pub version_set : VersionSet
  pub edit_count : ℕ

-- A file that is not there is empty here. `none`: out of fuel.
unfoldable pub read_manifest_file : Bytes → Option (EngineResult (List VersionEdit))
unfolding starts_with decode_all
read_manifest_file [] = some (ok [])
read_manifest_file (b ∷ bytes) =
    if starts_with magic (b ∷ bytes) then decode_all (b ∷ bytes) else some (err corrupt_message)

unfoldable pub open_file : Bytes → Option (EngineResult Manifest)
unfolding read_manifest_file applied
open_file file = elim (read_manifest_file file) [
  | none ↦ none
  | some (err e) ↦ some (err e)
  | some (ok edits) ↦
      some
        (ok (record { file = file; version_set = applied edits empty; edit_count = length edits }))
]

-- The file is replaced as a whole, by a rename.
unfoldable pub rewrite : Manifest → EngineResult (Unit {0}) × Manifest
unfolding encode_frames to_edits
rewrite manifest = elim (encode_frames [] (to_edits manifest.version_set)) [
  | err e ↦ (err e, manifest)
  | ok buf ↦ (ok tt, record manifest { file = buf; edit_count = 0 })
]

-- the part of `append_batch` behind the write
unfoldable pub publish : Bytes → List VersionEdit → Manifest → EngineResult (Unit {0}) × Manifest
unfolding applied rewrite
publish buf edits manifest =
    let appended = record manifest {
      file = manifest.file ++ buf;
      version_set = applied edits manifest.version_set;
      edit_count = saturating_add manifest.edit_count (length edits);
    } in
    if leb snapshot_threshold appended.edit_count then rewrite appended else (ok tt, appended)

unfoldable pub append_batch : List VersionEdit → Manifest → EngineResult (Unit {0}) × Manifest
unfolding encode_frames publish
append_batch [] manifest = (ok tt, manifest)
append_batch (edit ∷ edits) manifest = elim (encode_frames [] (edit ∷ edits)) [
  | err e ↦ (err e, manifest)
  | ok buf ↦ publish buf (edit ∷ edits) manifest
]

with_indexes : List (Bytes × ℕ) → List (ℕ × ℕ) → VersionSet → VersionSet
with_indexes files levels set = record set { files_by_key = files; file_level = levels }

apply-with_indexes :
    (files : List (Bytes × ℕ)) (levels : List (ℕ × ℕ)) (edit : VersionEdit) (set : VersionSet)
    → apply edit (with_indexes files levels set) ≡ with_indexes files levels (apply edit set)
unfolding apply with_indexes
apply-with_indexes files levels (VersionEdit.add_file a b c d e f) set = refl
apply-with_indexes files levels (VersionEdit.delete_file a b) set = refl
apply-with_indexes files levels (VersionEdit.next_file_id_edit a) set = refl
apply-with_indexes files levels (VersionEdit.dropped_prefix a) set = refl
apply-with_indexes files levels (VersionEdit.undropped_prefix a) set = refl

apply_all-with_indexes :
    (files : List (Bytes × ℕ)) (levels : List (ℕ × ℕ)) (edits : List VersionEdit) (set : VersionSet)
    → apply_all edits (with_indexes files levels set)
      ≡ with_indexes files levels (apply_all edits set)
unfolding apply_all
apply_all-with_indexes files levels [] set = refl
apply_all-with_indexes files levels (edit ∷ edits) set =
    ap (apply_all edits) (apply-with_indexes files levels edit set)
    ∙ apply_all-with_indexes files levels edits (apply edit set)

rebuild-with_indexes :
    (files : List (Bytes × ℕ)) (levels : List (ℕ × ℕ)) (set : VersionSet)
    → rebuild_indexes (with_indexes files levels set) ≡ rebuild_indexes set
unfolding rebuild_indexes with_indexes
rebuild-with_indexes files levels set = refl

rebuild_is_with_indexes :
    (set : VersionSet)
    → rebuild_indexes set
      ≡ with_indexes (rebuild_indexes set).files_by_key (rebuild_indexes set).file_level set
unfolding rebuild_indexes with_indexes
rebuild_is_with_indexes set = refl

-- Batch by batch or all at once: the version set is the same.
pub applied-append :
    (a b : List VersionEdit) (set : VersionSet) → applied b (applied a set) ≡ applied (a ++ b) set
unfolding applied
applied-append a b set =
    ap (λ s. rebuild_indexes (apply_all b s)) (rebuild_is_with_indexes (apply_all a set))
    ∙ ap rebuild_indexes (apply_all-with_indexes _ _ b (apply_all a set))
    ∙ rebuild-with_indexes _ _ (apply_all b (apply_all a set))
    ∙ ap rebuild_indexes (apply_all-append a b set)

-- The file holds the frames of the edits, and their replay is the version set. The edit count is
-- left open: a rewrite sets it to 0.
pub record Logs (edits : List VersionEdit) (manifest : Manifest) : Type 0 where
  pub fits : All Fits edits
  pub content : manifest.file ≡ log edits
  pub replay : manifest.version_set ≡ applied edits empty

read_manifest_file-log :
    (edits : List VersionEdit) → All Fits edits → read_manifest_file (log edits) ≡ some (ok edits)
unfolding read_manifest_file log frame starts_with
read_manifest_file-log [] f = refl
read_manifest_file-log (edit ∷ edits) f = decode_all-log_ok (edit ∷ edits) f

open_file-Logs :
    (edits : List VersionEdit) (manifest : Manifest)
    → Logs edits manifest
    → open_file manifest.file ≡ some (ok (record manifest { edit_count = length edits }))
unfolding open_file
open_file-Logs edits manifest l =
    ground (arith, ap read_manifest_file l.content ∙ read_manifest_file-log edits l.fits, l.replay)

log-append : (a b : List VersionEdit) → log a ++ log b ≡ log (a ++ b)
unfolding log
log-append [] b = refl
log-append (edit ∷ a) b =
    append_assoc (frame edit) (log a) (log b) ∙ ap (λ xs. frame edit ++ xs) (log-append a b)

All-append : (a b : List VersionEdit) → All Fits a → All Fits b → All Fits (a ++ b)
All-append [] b f g = g
All-append (edit ∷ a) b (p, f) g = (p, All-append a b f g)

publish_below :
    (buf : Bytes) (edits : List VersionEdit) (manifest : Manifest)
    → manifest.edit_count + length edits < snapshot_threshold
    → publish buf edits manifest ≡ (
      ok tt,
      record manifest {
        file = manifest.file ++ buf;
        version_set = applied edits manifest.version_set;
        edit_count = manifest.edit_count + length edits;
      },
    )
unfolding publish
publish_below buf edits manifest h = ground arith

append_batch-publish :
    (edits : List VersionEdit) (buf : Bytes) (manifest : Manifest)
    → edits ≢ []
    → encode_frames [] edits ≡ ok buf
    → append_batch edits manifest ≡ publish buf edits manifest
unfolding append_batch
append_batch-publish [] buf manifest n e = absurd (n refl)
append_batch-publish (edit ∷ edits) buf manifest n e = ground arith

-- Let the file of a manifest hold the frames of old edits, which fit and whose replay is its
-- version set. Then append_batch of edits that fit, which are not none and keep the edit count
-- below the snapshot threshold, succeeds; the version set has the edits applied, the edit count
-- is raised by their number, and the file holds the frames of the old edits and the new ones,
-- whose replay is the version set. Opening the new file gives the new handle, but with the
-- number of all these edits as its edit count.
pub open_file-append_batch :
    (manifest : Manifest) (old edits : List VersionEdit)
    → Logs old manifest
    → All Fits edits
    → edits ≢ []
    → manifest.edit_count + length edits < snapshot_threshold
    → (manifest' : Manifest) × (append_batch edits manifest ≡ (ok tt, manifest'))
      × (manifest'.version_set ≡ applied edits manifest.version_set)
      × (manifest'.edit_count ≡ manifest.edit_count + length edits)
      × Logs (old ++ edits) manifest'
      × (open_file manifest'.file
          ≡ some (ok (record manifest' { edit_count = length old + length edits })))
open_file-append_batch manifest old edits l g n below =
    let manifest' : Manifest = record manifest {
      file = manifest.file ++ log edits;
      version_set = applied edits manifest.version_set;
      edit_count = manifest.edit_count + length edits;
    } in
    let logged : Logs (old ++ edits) manifest' = record {
      fits = All-append old edits l.fits g;
      content = ap (λ xs. xs ++ log edits) l.content ∙ log-append old edits;
      replay = ap (applied edits) l.replay ∙ applied-append old edits empty;
    } in
    (
      manifest',
      append_batch-publish edits (log edits) manifest n (encode_frames-log [] edits g)
          ∙ publish_below (log edits) edits manifest below,
      refl,
      refl,
      logged,
      open_file-Logs (old ++ edits) manifest' logged
          ∙ ap (λ n. some (ok (record manifest' { edit_count = n }))) (length-append old edits),
    )
