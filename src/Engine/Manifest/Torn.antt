-- ===== src/Engine/Manifest/Torn.antt =====
-- An edit log that was cut in its last frame: where `decode_all` stops, and where it fails.
use hat_p.Prelude.{
  ℕ, suc, ◌+◌, ◌-◌, ◌≤◌, ◌<◌, ◌≡◌, refl, sym, ap, ◌∙◌, subst, ◌≢◌, inl, inr, Bool, true, false,
  ◌||◌, Option, none, some, List, [], ◌∷◌, ◌++◌, arith, Bytes, ltb, leb, if◌then◌else◌, ltb→lt,
  leb→le, Bool-cases, length, take, All, length-append, drop_all, take_beyond, slice_take,
  length-take,
}
use hat_p.Engine.Manifest.Log.{
  length-body_of, length-frame, frame, log, crc_of, decode_frame-payload, decode_all-log,
  decode_frame-At, body_of,
}
use hat_p.Prelude.Slices.{At, At-next}
use hat_p.Engine.Manifest.Frames.{Fits, payload, op_of}
use hat_p.Engine.Manifest.{
  decode_all, edit_payload_len, magic, get_range, take_bytes, take_u64, take_u32, take_len_prefixed,
  decode_add_file, decode_delete_file, decode_next_file_id, prefix_edit, decode_prefix, decode_edit,
  check_crc, decode_frame, decode_from,
}
use hat_p.Engine.Manifest.Payload.{decode_edit-payload}
use Prim.Native.String.{String}
use hat_p.Prelude.Result.{ok, err, ◌>>=◌}
use hat_p.Prelude.Digits.{from_le}
use hat_p.Engine.Types.{EngineError, EngineResult}
use hat_p.Engine.VersionSet.{VersionEdit}

-- What `short` reads, `full` reads too, up to `end` at most.
abbrev Reads : {A : Type 0} → ℕ → EngineResult (A × ℕ) → EngineResult (A × ℕ) → Type 0
Reads {A} end short full =
    (a : A) (pos : ℕ) → short ≡ ok (a, pos) → (full ≡ ok (a, pos)) × (pos ≤ end)

Reads->>= :
    {A B : Type 0} (end : ℕ) (short full : EngineResult (A × ℕ))
    (f g : A × ℕ → EngineResult (B × ℕ))
    → Reads end short full
    → ((a : A) (pos : ℕ) → pos ≤ end → Reads end (f (a, pos)) (g (a, pos)))
    → Reads end (short >>= f) (full >>= g)
Reads->>= end (ok (a, p)) full f g h k b pos e =
    let (same, bound) = h a p refl in
    let (next, last) = k a p bound b pos e in (ap (λ r. r >>= g) same ∙ next, last)
Reads->>= end (err x) full f g h k b pos e = absurd (cc)

Reads-ok :
    {A : Type 0} (end : ℕ) (a : A) (pos : ℕ)
    → pos ≤ end
    → Reads {A = A} end (ok (a, pos)) (ok (a, pos))
Reads-ok end a pos h b p e = (e, ground arith)

module _ (full : Bytes) (end : ℕ) (inside : end ≤ length full) where
  take_bytes-Reads :
      (message : String) (pos len : ℕ)
      → Reads end (take_bytes message (take end full) pos len) (take_bytes message full pos len)
  unfolding take_bytes get_range
  take_bytes-Reads message pos len bytes next e =
      ground (arith, length-take end full inside, slice_take len end pos full)

  take_u64-Reads : (pos : ℕ) → Reads end (take_u64 (take end full) pos) (take_u64 full pos)
  unfolding take_u64
  take_u64-Reads pos =
      Reads->>= end _ _ _ _ (take_bytes-Reads "manifest: truncated u64" pos 8)
        (λ bytes next h. Reads-ok end (from_le bytes) next h)

  take_u32-Reads : (pos : ℕ) → Reads end (take_u32 (take end full) pos) (take_u32 full pos)
  unfolding take_u32
  take_u32-Reads pos =
      Reads->>= end _ _ _ _ (take_bytes-Reads "manifest: truncated u32" pos 4)
        (λ bytes next h. Reads-ok end (from_le bytes) next h)

  take_len_prefixed-Reads :
      (pos : ℕ) → Reads end (take_len_prefixed (take end full) pos) (take_len_prefixed full pos)
  unfolding take_len_prefixed
  take_len_prefixed-Reads pos =
      Reads->>= end _ _ _ _ (take_u32-Reads pos)
        (λ len next h. take_bytes-Reads "manifest: truncated payload" next len)

  decode_add_file-Reads :
      (pos : ℕ) → Reads end (decode_add_file (take end full) pos) (decode_add_file full pos)
  unfolding decode_add_file
  decode_add_file-Reads pos = Reads->>= end _ _ _ _ (take_u64-Reads pos) (λ file_id pos1 h1.
      Reads->>= end _ _ _ _ (take_u32-Reads pos1) (λ level pos2 h2.
        Reads->>= end _ _ _ _ (take_len_prefixed-Reads pos2) (λ min_key pos3 h3.
          Reads->>= end _ _ _ _ (take_len_prefixed-Reads pos3) (λ max_key pos4 h4.
            Reads->>= end _ _ _ _ (take_u64-Reads pos4) (λ bytes pos5 h5.
              Reads->>= end _ _ _ _ (take_u64-Reads pos5)
                (λ created_at pos6 h6. Reads-ok end _ pos6 h6))))))

  decode_delete_file-Reads :
      (pos : ℕ) → Reads end (decode_delete_file (take end full) pos) (decode_delete_file full pos)
  unfolding decode_delete_file
  decode_delete_file-Reads pos = Reads->>= end _ _ _ _ (take_u64-Reads pos) (λ file_id pos1 h1.
      Reads->>= end _ _ _ _ (take_u32-Reads pos1) (λ level pos2 h2. Reads-ok end _ pos2 h2))

  decode_next_file_id-Reads :
      (pos : ℕ) → Reads end (decode_next_file_id (take end full) pos) (decode_next_file_id full pos)
  unfolding decode_next_file_id
  decode_next_file_id-Reads pos =
      Reads->>= end _ _ _ _ (take_u64-Reads pos) (λ file_id pos1 h1. Reads-ok end _ pos1 h1)

  prefix_edit-Reads :
      (op pos : ℕ) (prefix : Bytes)
      → pos ≤ end
      → Reads end
          (do edit ← prefix_edit op prefix; ok (edit, pos))
          (do edit ← prefix_edit op prefix; ok (edit, pos))
  unfolding prefix_edit
  prefix_edit-Reads op pos [] h a p e = absurd (cc)
  prefix_edit-Reads op pos (b ∷ prefix) h a p e = Reads-ok end _ pos h a p e

  decode_prefix-Reads :
      (op pos : ℕ) → Reads end (decode_prefix op (take end full) pos) (decode_prefix op full pos)
  unfolding decode_prefix
  decode_prefix-Reads op pos =
      Reads->>= end _ _ _ _ (take_len_prefixed-Reads pos)
        (λ prefix pos1 h. prefix_edit-Reads op pos1 prefix h)

  decode_edit-Reads :
      (edit : VersionEdit) (pos : ℕ)
      → Reads end (decode_edit (op_of edit) (take end full) pos) (decode_edit (op_of edit) full pos)
  unfolding decode_edit
  decode_edit-Reads (VersionEdit.add_file a b c d e f) pos = decode_add_file-Reads pos
  decode_edit-Reads (VersionEdit.delete_file a b) pos = decode_delete_file-Reads pos
  decode_edit-Reads (VersionEdit.next_file_id_edit a) pos = decode_next_file_id-Reads pos
  decode_edit-Reads (VersionEdit.dropped_prefix a) pos = decode_prefix-Reads 4 pos
  decode_edit-Reads (VersionEdit.undropped_prefix a) pos = decode_prefix-Reads 5 pos

-- A result without the message of its error.
abbrev pub outcome : {A : Type 0} → Option (EngineResult A) → Option (Option A)
outcome none = none
outcome (some (ok a)) = some (some a)
outcome (some (err e)) = some none

decode_from_torn :
    (k : ℕ) (buf : Bytes) (cursor : ℕ) (acc : List VersionEdit)
    → decode_frame buf cursor ≡ ok none
    → decode_from (suc k) buf cursor acc ≡ some (ok acc)
unfolding decode_from
decode_from_torn k buf cursor acc h = ground arith

decode_from_fails :
    (k : ℕ) (buf : Bytes) (cursor : ℕ) (acc : List VersionEdit) (e : EngineError)
    → cursor < length buf
    → decode_frame buf cursor ≡ err e
    → outcome (decode_from (suc k) buf cursor acc) ≡ some none
unfolding decode_from
decode_from_fails k buf cursor acc e b h = ground arith

decode_frame_short :
    (buf : Bytes) (cursor : ℕ) → length buf < cursor + 9 → decode_frame buf cursor ≡ ok none
unfolding decode_frame
decode_frame_short buf cursor h = ground arith

check_crc_torn :
    (buf : Bytes) (cursor crc_end : ℕ) (edit : VersionEdit)
    → length buf < crc_end + 4
    → check_crc buf cursor edit crc_end ≡ ok none
unfolding check_crc get_range
check_crc_torn buf cursor crc_end edit h = ground arith

take-frame :
    (edit : VersionEdit) (j : ℕ)
    → take (suc (suc (suc (suc (suc j))))) (frame edit)
      ≡ magic ++ (op_of edit ∷ take j (payload edit ++ crc_of edit))
unfolding frame
take-frame edit j = refl

frame-append_nil : (edit : VersionEdit) → frame edit ≡ body_of edit ++ crc_of edit
unfolding frame
frame-append_nil edit = refl

rest_true : (a b : Bool) → a ≡ false → a || b ≡ true → b ≡ true
rest_true a b e h = ground arith

both_false : (a b : Bool) → a || b ≡ false → (a ≡ false) × (b ≡ false)
both_false false b h = (refl, h)
both_false true b h = absurd (cc)

not_le : (n j : ℕ) → leb n j ≡ false → j < n
not_le n j h = ground arith

not_short : (j : ℕ) → ltb j 9 ≡ false → 9 ≤ j
not_short j h = ground arith

frame_parts :
    (edit : VersionEdit) → frame edit ≡ magic ++ (op_of edit ∷ (payload edit ++ crc_of edit))
unfolding frame
frame_parts edit = refl

fails :
    (r : EngineResult (VersionEdit × ℕ))
    → ((edit : VersionEdit) (pos : ℕ) → r ≢ ok (edit, pos))
    → (e : EngineError) × (r ≡ err e)
fails (ok (edit, pos)) h = absurd (h edit pos refl)
fails (err e) h = (e, refl)

module _ (edits : List VersionEdit) (edit : VersionEdit) (j : ℕ) where
  abbrev cursor : ℕ
  cursor = length (log edits)

  abbrev torn : Bytes
  torn = log edits ++ take j (frame edit)

  abbrev whole : Bytes
  whole = log edits ++ frame edit

  torn-take : torn ≡ take (cursor + j) whole
  torn-take =
      ap (λ n. log edits ++ take n (frame edit)) (omega arith)
      ∙ sym (take_beyond (log edits) (frame edit) (cursor + j) (omega arith))

  length-whole : length whole ≡ cursor + (9 + edit_payload_len edit)
  length-whole = omega (arith, length-append (log edits) (frame edit), length-frame edit)

  length-torn : j < length (frame edit) → length torn ≡ cursor + j
  length-torn h =
      omega (arith, length-append (log edits) (take j (frame edit)), length-take j (frame edit))

  At-torn : At torn cursor (take j (frame edit))
  At-torn = (
    drop_all (log edits) (take j (frame edit)) cursor refl,
    sym (length-append (log edits) (take j (frame edit))),
  )

  take_whole_body :
      5 ≤ j
      → take j (frame edit) ≡ magic ++ (op_of edit ∷ take (j - 5) (payload edit ++ crc_of edit))
  take_whole_body h =
      ap (λ n. take n (frame edit)) {y = suc (suc (suc (suc (suc (j - 5)))))} (omega arith)
      ∙ take-frame edit (j - 5)

  decode_whole :
      Fits edit
      → decode_edit (op_of edit) whole (cursor + 5) ≡ ok (edit, cursor + 5 + edit_payload_len edit)
  decode_whole fits = decode_edit-payload whole (crc_of edit) (cursor + 5) edit fits (
      At-next whole cursor 5 (magic ++ (op_of edit ∷ [])) (payload edit ++ crc_of edit)
        (
          drop_all (log edits) (frame edit) cursor refl ∙ frame_parts edit,
          omega (arith, length-append (log edits) (frame edit), ap length (frame_parts edit)),
        )
        refl)

  -- The payload is cut: no edit that `decode_edit` could return ends inside.
  decode_torn :
      Fits edit
      → j < 5 + edit_payload_len edit
      → (e : EngineError) × (decode_edit (op_of edit) torn (cursor + 5) ≡ err e)
  decode_torn fits h = fails (decode_edit (op_of edit) torn (cursor + 5)) λ got pos e.
      let (same, inside) =
        decode_edit-Reads whole (cursor + j) (omega (arith, length-whole)) edit (cursor + 5) got pos
          (ap (λ b. decode_edit (op_of edit) b (cursor + 5)) (sym torn-take) ∙ e) in
      ground (arith, decode_whole fits)

  take_after_body :
      5 + edit_payload_len edit ≤ j
      → take j (frame edit) ≡ body_of edit ++ take (j - (5 + edit_payload_len edit)) (crc_of edit)
  take_after_body h =
      ap (λ xs. take j xs) (frame-append_nil edit)
      ∙ take_beyond (body_of edit) (crc_of edit) j (omega (arith, length-body_of edit))
      ∙ ap (λ n. body_of edit ++ take n (crc_of edit)) (omega (arith, length-body_of edit))

  -- What the loop meets at the torn frame.
  decode_frame-torn :
      Fits edit
      → j < length (frame edit)
      → ltb j 9 || leb (5 + edit_payload_len edit) j ≡ true
      → decode_frame torn cursor ≡ ok none
  decode_frame-torn fits h t = elim (Bool-cases (ltb j 9)) [
    | inl short ↦ decode_frame_short torn cursor (omega (arith, length-torn h, ltb→lt j 9 short))
    | inr long ↦
        decode_frame-payload torn (take (j - (5 + edit_payload_len edit)) (crc_of edit)) cursor edit
          fits
          (subst (λ xs. At torn cursor xs) (take_after_body (leb→le _ j (rest_true _ _ long t)))
            At-torn)
          (omega (arith, length-torn h, not_short j long))
        ∙ check_crc_torn torn cursor (cursor + (5 + edit_payload_len edit)) edit
            (omega (arith, length-torn h, length-frame edit))
  ]

  decode_frame_fails :
      Fits edit
      → j < length (frame edit)
      → ltb j 9 || leb (5 + edit_payload_len edit) j ≡ false
      → (e : EngineError) × (decode_frame torn cursor ≡ err e)
  decode_frame_fails fits h t =
      let (long, cut) = both_false (ltb j 9) (leb (5 + edit_payload_len edit) j) t in
      let (e, d) = decode_torn fits (not_le _ j cut) in
      (
        e,
        decode_frame-At torn (take (j - 5) (payload edit ++ crc_of edit)) cursor (op_of edit)
              (subst (λ xs. At torn cursor xs) (take_whole_body (omega (arith, not_short j long)))
                At-torn)
              (omega (arith, length-torn h, not_short j long))
            ∙ ap (λ r. do (edit, pos) ← r; check_crc torn cursor edit pos) d,
      )

  -- When a log of edits that fit is cut in its last frame, after j bytes of it, decode_all
  -- returns the edits of the whole frames if fewer than nine bytes or at least the whole payload
  -- are left, and fails if the cut is in the payload behind the ninth byte.
  pub decode_all_torn :
      All Fits edits
      → Fits edit
      → j < length (frame edit)
      → outcome (decode_all (log edits ++ take j (frame edit)))
        ≡ some (if ltb j 9 || leb (5 + edit_payload_len edit) j then some edits else none)
  decode_all_torn all fits h =
      let (k, whole_frames) = decode_all-log edits (take j (frame edit)) all in
      ap outcome whole_frames ∙ elim (Bool-cases (ltb j 9 || leb (5 + edit_payload_len edit) j)) [
        | inl kept ↦
            ap outcome (decode_from_torn k torn cursor edits (decode_frame-torn fits h kept))
            ∙ sym (ap (λ b. some (if b then some edits else none)) kept)
        | inr lost ↦
            let (e, d) = decode_frame_fails fits h lost in
            decode_from_fails k torn cursor edits e
              (omega (
                arith,
                length-torn h,
                not_short j (both_false (ltb j 9) (leb (5 + edit_payload_len edit) j) lost).0,
              ))
              d
            ∙ sym (ap (λ b. some (if b then some edits else none)) lost)
      ]
