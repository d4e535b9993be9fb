-- ===== src/Engine/Manifest/Log.antt =====
-- The edit log as the sequence of its frames, and `decode_all` over a log that is complete.
use hat_p.Prelude.{
  ℕ, zero, suc, ◌+◌, ◌-◌, ◌≤◌, ◌<◌, ◌≡◌, refl, sym, ap, ◌∙◌, subst, some, List, [], ◌∷◌, ◌++◌,
  arith, Bytes, length, take, drop, get_elem?, All, length-append, drop_add, append_assoc,
  append_nil,
}
use hat_p.Prelude.Result.{ok, ◌>>=◌}
use hat_p.Prelude.Digits.{le_bytes, from_le, from_le-le_bytes, length-le_bytes}
use hat_p.Engine.Crc32c.{crc32c_software}
use hat_p.Engine.Crc32c.Laws.{crc32c_software-IsWord}
use hat_p.Engine.VersionSet.{VersionEdit}
use hat_p.Engine.Manifest.{
  magic, frame_overhead, get_range, decode_edit, check_crc, decode_frame, decode_from, decode_all,
  with_crc, encode_frame, encode_frames, edit_payload_len,
}
use hat_p.Prelude.Slices.{At, At-next, At-zero}
use hat_p.Engine.Manifest.Frames.{At-get_range, Fits, payload, op_of, encode_edit-payload}
use hat_p.Engine.Manifest.Payload.{length-payload, decode_edit-payload}

abbrev pub body_of : VersionEdit → Bytes
body_of edit = magic ++ (op_of edit ∷ payload edit)

abbrev pub crc_of : VersionEdit → Bytes
crc_of edit = le_bytes 4 (crc32c_software (body_of edit) 0)

unfoldable pub frame : VersionEdit → Bytes
frame edit = body_of edit ++ crc_of edit

unfoldable pub log : List VersionEdit → Bytes
log [] = []
log (edit ∷ edits) = frame edit ++ log edits

pub frame-append :
    (edit : VersionEdit) (rest : Bytes) → frame edit ++ rest ≡ body_of edit ++ (crc_of edit ++ rest)
unfolding frame
frame-append edit rest = append_assoc (body_of edit) (crc_of edit) rest

pub encode_frame-frame :
    (out : Bytes) (edit : VersionEdit) → Fits edit → encode_frame out edit ≡ ok (out ++ frame edit)
unfolding encode_frame frame
encode_frame-frame out edit h =
    ap (λ r. do payload ← r; ok (out ++ with_crc (magic ++ payload))) (encode_edit-payload edit h)

pub encode_frames-log :
    (out : Bytes) (edits : List VersionEdit)
    → All Fits edits
    → encode_frames out edits ≡ ok (out ++ log edits)
unfolding encode_frames log
encode_frames-log out [] h = ap (λ xs. ok xs) (sym (append_nil out))
encode_frames-log out (edit ∷ edits) (f, h) =
    ap (λ r. do out ← r; encode_frames out edits) (encode_frame-frame out edit f)
    ∙ encode_frames-log (out ++ frame edit) edits h
    ∙ ap (λ xs. ok xs) (append_assoc out (frame edit) (log edits))

pub length-frame : (edit : VersionEdit) → length (frame edit) ≡ 9 + edit_payload_len edit
unfolding frame
length-frame edit = omega (arith, length-append (payload edit) (crc_of edit), length-payload edit)

get_elem-At :
    (buf : Bytes) (pos : ℕ) (x : ℕ) (rest : Bytes)
    → drop pos buf ≡ x ∷ rest
    → get_elem? buf pos ≡ some x
get_elem-At [] zero x rest h = cc
get_elem-At [] (suc pos) x rest h = cc
get_elem-At (b ∷ buf) zero x rest h = cc
get_elem-At (b ∷ buf) (suc pos) x rest h = get_elem-At buf pos x rest h

check_crc_accepts :
    (buf crc body : Bytes) (cursor crc_end : ℕ) (edit : VersionEdit)
    → get_range buf crc_end 4 ≡ some crc
    → get_range buf cursor (crc_end - cursor) ≡ some body
    → from_le crc ≡ crc32c_software body 0
    → check_crc buf cursor edit crc_end ≡ ok (some (edit, crc_end + 4))
unfolding check_crc
check_crc_accepts buf crc body cursor crc_end edit c b e = ground arith

pub length-body_of : (edit : VersionEdit) → length (body_of edit) ≡ 5 + edit_payload_len edit
length-body_of edit = omega (arith, length-payload edit)

check_crc-frame :
    (buf rest : Bytes) (cursor : ℕ) (edit : VersionEdit)
    → At buf cursor (body_of edit ++ (crc_of edit ++ rest))
    → check_crc buf cursor edit (cursor + (5 + edit_payload_len edit))
      ≡ ok (some (edit, cursor + (5 + edit_payload_len edit) + 4))
check_crc-frame buf rest cursor edit h =
    check_crc_accepts buf (crc_of edit) (body_of edit) cursor (cursor + (5 + edit_payload_len edit))
      edit
      (At-get_range buf _ 4 (crc_of edit) rest
        (At-next buf cursor _ (body_of edit) (crc_of edit ++ rest) h (length-body_of edit))
        (length-le_bytes 4 (crc32c_software (body_of edit) 0)))
      (At-get_range buf cursor _ (body_of edit) (crc_of edit ++ rest) h
        (omega (arith, length-body_of edit)))
      (from_le-le_bytes 4 _ (crc32c_software-IsWord (body_of edit) 0 (omega arith)))

-- Behind the magic and the tag, `decode_frame` decodes the payload and checks the checksum.
pub decode_frame-At :
    (buf rest : Bytes) (cursor op : ℕ)
    → At buf cursor (magic ++ (op ∷ rest))
    → cursor + frame_overhead ≤ length buf
    → decode_frame buf cursor
      ≡ (do (edit, pos) ← decode_edit op buf (cursor + 5); check_crc buf cursor edit pos)
unfolding decode_frame
decode_frame-At buf rest cursor op (e, l) m = ground (
  arith,
  ap (λ xs. take 4 xs) e,
  get_elem-At buf (cursor + 4) op rest (drop_add cursor 4 buf ∙ ap (λ xs. drop 4 xs) e),
)

pub decode_frame-payload :
    (buf rest : Bytes) (cursor : ℕ) (edit : VersionEdit)
    → Fits edit
    → At buf cursor (body_of edit ++ rest)
    → cursor + frame_overhead ≤ length buf
    → decode_frame buf cursor ≡ check_crc buf cursor edit (cursor + (5 + edit_payload_len edit))
decode_frame-payload buf rest cursor edit f h m =
    decode_frame-At buf (payload edit ++ rest) cursor (op_of edit) h m
    ∙ ap (λ r. do (edit, pos) ← r; check_crc buf cursor edit pos)
        (decode_edit-payload buf rest (cursor + 5) edit f
          (At-next buf cursor 5 (magic ++ (op_of edit ∷ [])) (payload edit ++ rest) h refl))
    ∙ ap (λ n. check_crc buf cursor edit n) (omega arith)

pub decode_frame-frame :
    (buf rest : Bytes) (cursor : ℕ) (edit : VersionEdit)
    → Fits edit
    → At buf cursor (frame edit ++ rest)
    → decode_frame buf cursor ≡ ok (some (edit, cursor + length (frame edit)))
decode_frame-frame buf rest cursor edit f h =
    let h' : At buf cursor (body_of edit ++ (crc_of edit ++ rest)) =
      subst (λ xs. At buf cursor xs) (frame-append edit rest) h in
    decode_frame-payload buf (crc_of edit ++ rest) cursor edit f h'
      (omega (arith, length-append (frame edit) rest, length-frame edit, h.1))
    ∙ check_crc-frame buf rest cursor edit h'
    ∙ ap (λ n. ok (some (edit, n))) (omega (arith, length-frame edit))

decode_from-suc :
    (k : ℕ) (buf : Bytes) (cursor next : ℕ) (edit : VersionEdit) (acc : List VersionEdit)
    → cursor < length buf
    → decode_frame buf cursor ≡ ok (some (edit, next))
    → decode_from (suc k) buf cursor acc ≡ decode_from k buf next (acc ++ edit ∷ [])
unfolding decode_from
decode_from-suc k buf cursor next edit acc h e = ground arith

-- The loop goes through the whole frames at the front.
pub decode_from-log :
    (k n : ℕ) (edits : List VersionEdit) (buf rest : Bytes) (cursor : ℕ) (acc : List VersionEdit)
    → n ≡ length edits + k
    → All Fits edits
    → At buf cursor (log edits ++ rest)
    → decode_from n buf cursor acc ≡ decode_from k buf (cursor + length (log edits)) (acc ++ edits)
unfolding log
decode_from-log k n [] buf rest cursor acc m f h =
    ap (λ n. decode_from n buf cursor acc) (omega arith)
    ∙ ap (λ c. decode_from k buf c acc) (omega arith)
    ∙ ap (λ xs. decode_from k buf (cursor + 0) xs) (sym (append_nil acc))
decode_from-log k zero (edit ∷ edits) buf rest cursor acc m f h = absurd (omega arith)
decode_from-log k (suc n) (edit ∷ edits) buf rest cursor acc m (f, fs) h =
    let h' : At buf cursor (frame edit ++ (log edits ++ rest)) =
      subst (λ xs. At buf cursor xs) (append_assoc (frame edit) (log edits) rest) h in
    decode_from-suc n buf cursor (cursor + length (frame edit)) edit acc
      (omega (arith, length-append (frame edit) (log edits ++ rest), length-frame edit, h'.1))
      (decode_frame-frame buf (log edits ++ rest) cursor edit f h')
    ∙ decode_from-log k n edits buf rest (cursor + length (frame edit)) (acc ++ edit ∷ [])
        (omega arith) fs
        (At-next buf cursor (length (frame edit)) (frame edit) (log edits ++ rest) h' refl)
    ∙ ap (λ c. decode_from k buf c ((acc ++ edit ∷ []) ++ edits))
        (omega (arith, length-append (frame edit) (log edits)))
    ∙ ap (λ xs. decode_from k buf (cursor + length (frame edit ++ log edits)) xs)
        (append_assoc acc (edit ∷ []) edits)

length-log : (edits : List VersionEdit) → length edits ≤ length (log edits)
unfolding log
length-log [] = omega arith
length-log (edit ∷ edits) =
    omega (arith, length-log edits, length-append (frame edit) (log edits), length-frame edit)

-- `decode_all` reaches what follows the whole frames, with fuel left.
pub decode_all-log :
    (edits : List VersionEdit) (rest : Bytes)
    → All Fits edits
    → (k : ℕ) × (decode_all (log edits ++ rest)
        ≡ decode_from (suc k) (log edits ++ rest) (length (log edits)) edits)
unfolding decode_all
decode_all-log edits rest f = (
  length (log edits ++ rest) - length edits,
  decode_from-log (suc (length (log edits ++ rest) - length edits))
        (suc (length (log edits ++ rest))) edits (log edits ++ rest) rest 0 []
        (omega (arith, length-append (log edits) rest, length-log edits)) f
        (At-zero (log edits ++ rest))
      ∙ ap
          (λ c.
            decode_from (suc (length (log edits ++ rest) - length edits)) (log edits ++ rest) c
              edits)
          (omega arith),
)

pub decode_from_end :
    (k : ℕ) (buf : Bytes) (cursor : ℕ) (acc : List VersionEdit)
    → length buf ≤ cursor
    → decode_from (suc k) buf cursor acc ≡ some (ok acc)
unfolding decode_from
decode_from_end k buf cursor acc h = ground arith

pub decode_all-log_ok :
    (edits : List VersionEdit) → All Fits edits → decode_all (log edits) ≡ some (ok edits)
decode_all-log_ok edits f =
    subst (λ buf. decode_all buf ≡ some (ok edits)) (append_nil (log edits))
      (let (k, e) = decode_all-log edits [] f in
        e
        ∙ decode_from_end k (log edits ++ []) (length (log edits)) edits
            (omega (arith, length-append (log edits) [])))

-- The frames of edits that fit are encoded without an error, and decode_all reads the same edits
-- from them.
decode_all-encode_frames :
    (edits : List VersionEdit)
    → All Fits edits
    → (buf : Bytes) × (encode_frames [] edits ≡ ok buf) × (decode_all buf ≡ some (ok edits))
decode_all-encode_frames edits f =
    (log edits, encode_frames-log [] edits f, decode_all-log_ok edits f)
