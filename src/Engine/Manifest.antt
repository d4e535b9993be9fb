-- ===== src/Engine/Manifest.antt =====
-- The manifest (crates/hatp-engine/src/manifest.rs): the frames of its edit log and the handle that
-- appends to it. The file is the sequence of its bytes. The laws are in the modules below.
pub mod Frames
pub mod Payload
pub mod Log
pub mod Torn
pub mod Handle
use hat_p.Prelude.{
  ℕ, zero, suc, ◌+◌, ◌-◌, ◌*◌, ◌/◌, ◌%◌, ◌^◌, ◌≤◌, ◌<◌, compare, Ordering, ◌≡◌, refl, sym, ap, ◌∙◌,
  subst, fun_ext, ◌≢◌, ◌↔◌, ◌⊎◌, inl, inr, Bool, true, false, not, ◌&&◌, ◌||◌, Option, none, some,
  List, [], ◌∷◌, ◌++◌, map, arith, Ord, Bytes, ltb, leb, ◌==◌, if◌then◌else◌, ltb→lt, lt→ltb,
  leb→le, ==_iff, Bool-cases, Option-cases, length, take, drop, get_elem?, any, All, Any,
  length-append, bytes_eq, in_range, contains, set_insert,
}
use Prim.Native.String.{String}
use hat_p.Prelude.Result.{StdResult, ok, err, ◌>>=◌, ◌>>◌}
use hat_p.Prelude.Digits.{le_bytes, from_le}
use hat_p.Engine.Types.{corrupt, corrupt_message, out_of_range, EngineResult}
use hat_p.Engine.Crc32c.{crc32c_software}
use hat_p.Engine.Memtable.{saturating_add, starts_with}
use hat_p.Engine.VersionSet.{
  VersionEdit, add_file, delete_file, next_file_id_edit, dropped_prefix, undropped_prefix,
  VersionSet, empty, apply_all, applied, rebuild_indexes, to_edits,
}

-- `MAGIC`: the bytes of "MAN1"
abbrev pub magic : Bytes
magic = 77 ∷ 65 ∷ 78 ∷ 49 ∷ []

abbrev pub frame_overhead : ℕ
frame_overhead = 9

abbrev pub snapshot_threshold : ℕ
snapshot_threshold = 1024

-- `write_len_prefixed_raw`: the bytes that it writes at `pos`
unfoldable pub write_len_prefixed : Bytes → EngineResult Bytes
write_len_prefixed bytes =
    if ltb (length bytes) (2 ^ 32)
    then ok (le_bytes 4 (length bytes) ++ bytes)
    else err (out_of_range "manifest field > u32::MAX")

-- The `match` of `encode_frame`: the tag and the payload.
unfoldable pub encode_edit : VersionEdit → EngineResult Bytes
unfolding write_len_prefixed
encode_edit (add_file file_id level min_key max_key bytes created_at) = do
  min_bytes ← write_len_prefixed min_key
  max_bytes ← write_len_prefixed max_key
  ok (
      1
      ∷ (le_bytes 8 file_id
          ++ (le_bytes 4 level
              ++ (min_bytes ++ (max_bytes ++ (le_bytes 8 bytes ++ le_bytes 8 created_at))))))
encode_edit (delete_file file_id level) = ok (2 ∷ (le_bytes 8 file_id ++ le_bytes 4 level))
encode_edit (next_file_id_edit file_id) = ok (3 ∷ le_bytes 8 file_id)
encode_edit (dropped_prefix prefix) = do bytes ← write_len_prefixed prefix; ok (4 ∷ bytes)
encode_edit (undropped_prefix prefix) = do bytes ← write_len_prefixed prefix; ok (5 ∷ bytes)

unfoldable pub edit_payload_len : VersionEdit → ℕ
edit_payload_len (add_file file_id level min_key max_key bytes created_at) =
    8 + 4 + 4 + length min_key + 4 + length max_key + 8 + 8
edit_payload_len (delete_file file_id level) = 8 + 4
edit_payload_len (next_file_id_edit file_id) = 8
edit_payload_len (dropped_prefix prefix) = 4 + length prefix
edit_payload_len (undropped_prefix prefix) = 4 + length prefix

abbrev pub with_crc : Bytes → Bytes
with_crc body = body ++ le_bytes 4 (crc32c_software body 0)

unfoldable pub encode_frame : Bytes → VersionEdit → EngineResult Bytes
unfolding encode_edit
encode_frame out edit = do payload ← encode_edit edit; ok (out ++ with_crc (magic ++ payload))

-- `for edit in &edits { encode_frame(&mut buf, edit)?; }`
unfoldable pub encode_frames : Bytes → List VersionEdit → EngineResult Bytes
unfolding encode_frame
encode_frames out [] = ok out
encode_frames out (edit ∷ edits) = do out ← encode_frame out edit; encode_frames out edits

-- `buf.get(pos..pos + len)`; positions in a buffer and a `u32` stay below 2^64.
unfoldable pub get_range : Bytes → ℕ → ℕ → Option Bytes
get_range buf pos len =
    if leb (pos + len) (length buf) then some (take len (drop pos buf)) else none

unfoldable pub take_bytes : String → Bytes → ℕ → ℕ → EngineResult (Bytes × ℕ)
unfolding get_range
take_bytes message buf pos len = elim (get_range buf pos len) [
  | none ↦ err (corrupt message)
  | some bytes ↦ ok (bytes, pos + len)
]

unfoldable pub take_u64 : Bytes → ℕ → EngineResult (ℕ × ℕ)
unfolding take_bytes
take_u64 buf pos = do
  (bytes, next) ← take_bytes "manifest: truncated u64" buf pos 8
  ok (from_le bytes, next)

unfoldable pub take_u32 : Bytes → ℕ → EngineResult (ℕ × ℕ)
unfolding take_bytes
take_u32 buf pos = do
  (bytes, next) ← take_bytes "manifest: truncated u32" buf pos 4
  ok (from_le bytes, next)

unfoldable pub take_len_prefixed : Bytes → ℕ → EngineResult (Bytes × ℕ)
unfolding take_u32 take_bytes
take_len_prefixed buf pos = do
  (len, pos1) ← take_u32 buf pos
  take_bytes "manifest: truncated payload" buf pos1 len

unfoldable pub decode_add_file : Bytes → ℕ → EngineResult (VersionEdit × ℕ)
unfolding take_u64 take_u32 take_len_prefixed
decode_add_file buf pos = do
  (file_id, pos1) ← take_u64 buf pos
  (level, pos2) ← take_u32 buf pos1
  (min_key, pos3) ← take_len_prefixed buf pos2
  (max_key, pos4) ← take_len_prefixed buf pos3
  (bytes, pos5) ← take_u64 buf pos4
  (created_at, pos6) ← take_u64 buf pos5
  ok (add_file file_id level min_key max_key bytes created_at, pos6)

unfoldable pub decode_delete_file : Bytes → ℕ → EngineResult (VersionEdit × ℕ)
unfolding take_u64 take_u32
decode_delete_file buf pos = do
  (file_id, pos1) ← take_u64 buf pos
  (level, pos2) ← take_u32 buf pos1
  ok (delete_file file_id level, pos2)

unfoldable pub decode_next_file_id : Bytes → ℕ → EngineResult (VersionEdit × ℕ)
unfolding take_u64
decode_next_file_id buf pos = do
  (file_id, pos1) ← take_u64 buf pos
  ok (next_file_id_edit file_id, pos1)

-- `if prefix.is_empty() { return Err(..) }`
unfoldable pub prefix_edit : ℕ → Bytes → EngineResult VersionEdit
prefix_edit op [] = err (corrupt "manifest drop-prefix frame has an empty prefix")
prefix_edit op (b ∷ prefix) =
    ok (if op == 4 then dropped_prefix (b ∷ prefix) else undropped_prefix (b ∷ prefix))

unfoldable pub decode_prefix : ℕ → Bytes → ℕ → EngineResult (VersionEdit × ℕ)
unfolding take_len_prefixed prefix_edit
decode_prefix op buf pos = do
  (prefix, pos1) ← take_len_prefixed buf pos
  edit ← prefix_edit op prefix
  ok (edit, pos1)

-- `match op`
unfoldable pub decode_edit : ℕ → Bytes → ℕ → EngineResult (VersionEdit × ℕ)
unfolding decode_add_file decode_delete_file decode_next_file_id decode_prefix
decode_edit op buf pos =
    if op == 1
    then decode_add_file buf pos
    else if op == 2
    then decode_delete_file buf pos
    else if op == 3
    then decode_next_file_id buf pos
    else if op == 4 || op == 5
    then decode_prefix op buf pos
    else err corrupt_message

-- The part of `decode_frame` behind the payload: the checksum over `cursor..crc_end`.
unfoldable pub check_crc : Bytes → ℕ → VersionEdit → ℕ → EngineResult (Option (VersionEdit × ℕ))
unfolding get_range
check_crc buf cursor edit crc_end = elim (get_range buf crc_end 4) [
  | none ↦ ok none
  | some crc_bytes ↦ elim (get_range buf cursor (crc_end - cursor)) [
    | none ↦ err (corrupt "manifest: crc range out of bounds")
    | some body ↦
        if from_le crc_bytes == crc32c_software body 0
        then ok (some (edit, crc_end + 4))
        else ok none
  ]
]

unfoldable pub decode_frame : Bytes → ℕ → EngineResult (Option (VersionEdit × ℕ))
unfolding get_range decode_edit check_crc
decode_frame buf cursor =
    if ltb (length buf) (cursor + frame_overhead)
    then ok none
    else if bytes_eq (take 4 (drop cursor buf)) magic
    then elim (get_elem? buf (cursor + 4)) [
      | none ↦ ok none
      | some op ↦ (do (edit, pos) ← decode_edit op buf (cursor + 5); check_crc buf cursor edit pos)
    ]
    else ok none

-- The `while` loop. `none`: out of fuel.
unfoldable pub decode_from :
    ℕ → Bytes → ℕ → List VersionEdit → Option (EngineResult (List VersionEdit))
unfolding decode_frame
decode_from zero buf cursor edits = none
decode_from (suc fuel) buf cursor edits =
    if ltb cursor (length buf)
    then elim (decode_frame buf cursor) [
      | err e ↦ some (err e)
      | ok none ↦ some (ok edits)
      | ok (some (edit, next)) ↦ decode_from fuel buf next (edits ++ edit ∷ [])
    ]
    else some (ok edits)

-- A round moves the cursor on, so one round for each byte and a last one are enough.
unfoldable pub decode_all : Bytes → Option (EngineResult (List VersionEdit))
unfolding decode_from
decode_all buf = decode_from (suc (length buf)) buf 0 []
