-- ===== src/Tests/Manifest.antt =====
-- The manifest and its version set on concrete edits.
use hat_p.Prelude.{
  ℕ, ◌≡◌, refl, ◌≢◌, none, some, List, [], ◌∷◌, ◌++◌, arith, length, take, All, Any, nat_ord,
}
use hat_p.Prelude.Map.{lookup}
use hat_p.Engine.VersionSet.{
  VersionEdit, add_file, next_file_id_edit, dropped_prefix, empty, applied, rebuild_indexes,
  candidate_files, to_edits, metadata_or_empty, FileMetadata,
}
use hat_p.Prelude.Result.{ok}
use hat_p.Engine.VersionSet.Candidates.{candidate_files_complete}
use hat_p.Engine.VersionSet.Snapshot.{applied-to_edits}
use hat_p.Engine.VersionSet.Rewrite.{live}
use hat_p.Engine.Manifest.{encode_frames, decode_all, edit_payload_len}
use hat_p.Engine.Manifest.Frames.{Fits}
use hat_p.Engine.Manifest.Log.{log, frame}
use hat_p.Engine.Manifest.Torn.{outcome, decode_all_torn}
use hat_p.Engine.Manifest.Handle.{Manifest, Logs, append_batch, open_file, open_file-append_batch}

-- A flush and the drop of the table `u`.
abbrev flushed : VersionEdit
flushed = add_file 1 0 (117 ∷ 0 ∷ 1 ∷ []) (117 ∷ 0 ∷ 9 ∷ []) 64 100

abbrev dropped_u : VersionEdit
dropped_u = dropped_prefix (117 ∷ 0 ∷ [])

abbrev flushed_meta : FileMetadata
flushed_meta = record {
  min_key = 117 ∷ 0 ∷ 1 ∷ [];
  max_key = 117 ∷ 0 ∷ 9 ∷ [];
  bytes = 64;
  created_at = 100;
}

abbrev two_edits : List VersionEdit
two_edits = flushed ∷ dropped_u ∷ []

-- The frame of a new id: magic, tag, eight bytes, and the checksum.
frame_of_id : length (frame (next_file_id_edit 2)) ≡ 17
unfolding frame hat_p.Engine.Manifest.Frames.payload
frame_of_id = refl

prefix_ne_nil : ◌≢◌ {A = List ℕ} (117 ∷ 0 ∷ []) []
prefix_ne_nil e = cc

two_edits-Fits : All Fits two_edits
two_edits-Fits = (omega arith, ((prefix_ne_nil, omega arith), tt))

-- Ten bytes of the frame of a new id: the payload is cut, and the log does not open.
decode_all_torn_example :
    outcome (decode_all (log two_edits ++ take 10 (frame (next_file_id_edit 2)))) ≡ some none
unfolding edit_payload_len
decode_all_torn_example =
    decode_all_torn two_edits (next_file_id_edit 2) 10 two_edits-Fits (omega arith)
      (omega (arith, frame_of_id))

-- The file holds the key range of the flushed rows, so a key inside may lie in it.
candidate_files_complete_example :
    Any
      (λ i. i ≡ 1)
      (candidate_files (117 ∷ 0 ∷ 5 ∷ []) (rebuild_indexes (applied two_edits empty)))
unfolding applied
candidate_files_complete_example =
    candidate_files_complete (117 ∷ 0 ∷ 5 ∷ []) 1 flushed_meta (applied two_edits empty) refl refl
      refl

-- The snapshot of the same version set, by the theorem at the live file.
applied-to_edits_example :
    ((applied (to_edits (applied two_edits empty)) empty).levels ≡ (applied two_edits empty).levels)
    × ((applied (to_edits (applied two_edits empty)) empty).dropped
        ≡ (applied two_edits empty).dropped)
    × ((applied (to_edits (applied two_edits empty)) empty).next_file_id
        ≡ (applied two_edits empty).next_file_id)
    × (lookup 1 (applied (to_edits (applied two_edits empty)) empty).file_meta ≡ some flushed_meta)
unfolding applied live metadata_or_empty
applied-to_edits_example = applied-to_edits two_edits (applied two_edits empty) 1 refl

-- A manifest behind a rewrite, with one logged edit that its count leaves out, takes two more.
abbrev new_id : VersionEdit
new_id = next_file_id_edit 2

abbrev rewritten : Manifest
rewritten = record {
  file = log (new_id ∷ []);
  version_set = applied (new_id ∷ []) empty;
  edit_count = 0;
}

rewritten-Logs : Logs (new_id ∷ []) rewritten
rewritten-Logs = record { fits = (omega arith, tt); content = refl; replay = refl }

two_edits-ne-nil : two_edits ≢ []
two_edits-ne-nil e = cc

open_file-append_batch_example :
    (manifest' : Manifest) × (append_batch two_edits rewritten ≡ (ok tt, manifest'))
    × (manifest'.version_set ≡ applied two_edits (applied (new_id ∷ []) empty))
    × (manifest'.edit_count ≡ 2)
    × Logs (new_id ∷ two_edits) manifest'
    × (open_file manifest'.file ≡ some (ok (record manifest' { edit_count = 3 })))
open_file-append_batch_example =
    open_file-append_batch rewritten (new_id ∷ []) two_edits rewritten-Logs two_edits-Fits
      two_edits-ne-nil (omega arith)
