-- ===== src/Engine/Manifest/Payload.antt =====
-- `decode_edit` at the place of an encoded payload.
use hat_p.Prelude.{
  ℕ, ◌+◌, ◌^◌, ◌<◌, ◌≡◌, refl, ap, ◌∙◌, subst, ◌≢◌, [], ◌∷◌, ◌++◌, arith, Bytes, ◌==◌,
  if◌then◌else◌, length, length-append, append_assoc,
}
use hat_p.Prelude.Result.{ok, ◌>>=◌}
use hat_p.Prelude.Digits.{le_bytes, length-le_bytes}
use hat_p.Engine.Types.{EngineResult}
use hat_p.Engine.VersionSet.{
  VersionEdit, add_file, delete_file, next_file_id_edit, dropped_prefix, undropped_prefix,
}
use hat_p.Engine.Manifest.{
  decode_add_file, decode_delete_file, decode_next_file_id, decode_prefix, decode_edit, prefix_edit,
  edit_payload_len,
}
use hat_p.Prelude.Slices.{At, At-next}
use hat_p.Engine.Manifest.Frames.{
  take_u64-At, take_u32-At, take_len_prefixed-At, prefixed, length-prefixed, Fits, payload, op_of,
}

>>=-ok {ℓ κ} :
    {A : Type ℓ} {B : Type κ} (m : EngineResult A) (a : A) (f : A → EngineResult B)
    → m ≡ ok a
    → (m >>= f) ≡ f a
>>=-ok m a f e = ap (λ r. r >>= f) e

-- What is left behind a field.
module _ (buf rest : Bytes) (pos : ℕ) where
  behind_u64 : (n : ℕ) → At buf pos (le_bytes 8 n ++ rest) → At buf (pos + 8) rest
  behind_u64 n h = At-next buf pos 8 (le_bytes 8 n) rest h (length-le_bytes 8 n)

  behind_u32 : (n : ℕ) → At buf pos (le_bytes 4 n ++ rest) → At buf (pos + 4) rest
  behind_u32 n h = At-next buf pos 4 (le_bytes 4 n) rest h (length-le_bytes 4 n)

  behind_prefixed :
      (bytes : Bytes) → At buf pos (prefixed bytes ++ rest) → At buf (pos + (4 + length bytes)) rest
  behind_prefixed bytes h =
      At-next buf pos (4 + length bytes) (prefixed bytes) rest h (length-prefixed bytes)

decode_add_file-payload :
    (buf rest : Bytes) (pos file_id level : ℕ) (min_key max_key : Bytes) (bytes created_at : ℕ)
    → Fits (add_file file_id level min_key max_key bytes created_at)
    → At buf pos (
        le_bytes 8 file_id
        ++ (le_bytes 4 level
            ++ (prefixed min_key
                ++ (prefixed max_key ++ (le_bytes 8 bytes ++ (le_bytes 8 created_at ++ rest))))))
    → decode_add_file buf pos
      ≡ ok (
        add_file file_id level min_key max_key bytes created_at,
        pos + 8 + 4 + (4 + length min_key) + (4 + length max_key) + 8 + 8,
      )
unfolding decode_add_file
decode_add_file-payload buf rest pos file_id level min_key max_key bytes created_at
      (a, b, c, d, e, f) h =
    let h1 = behind_u64 buf _ pos file_id h in
    let h2 = behind_u32 buf _ (pos + 8) level h1 in
    let h3 = behind_prefixed buf _ (pos + 8 + 4) min_key h2 in
    let h4 = behind_prefixed buf _ (pos + 8 + 4 + (4 + length min_key)) max_key h3 in
    let h5 =
      behind_u64 buf _ (pos + 8 + 4 + (4 + length min_key) + (4 + length max_key)) bytes h4 in
    >>=-ok _ _ _ (take_u64-At buf _ pos file_id h a)
    ∙ >>=-ok _ _ _ (take_u32-At buf _ (pos + 8) level h1 b)
    ∙ >>=-ok _ _ _ (take_len_prefixed-At buf _ min_key (pos + 8 + 4) h2 c)
    ∙ >>=-ok _ _ _ (take_len_prefixed-At buf _ max_key (pos + 8 + 4 + (4 + length min_key)) h3 d)
    ∙ >>=-ok _ _ _
        (take_u64-At buf _ (pos + 8 + 4 + (4 + length min_key) + (4 + length max_key)) bytes h4 e)
    ∙ >>=-ok _ _ _ (
        take_u64-At buf rest (pos + 8 + 4 + (4 + length min_key) + (4 + length max_key) + 8)
          created_at h5 f)

decode_prefix-payload :
    (buf rest : Bytes) (pos op : ℕ) (prefix : Bytes)
    → prefix ≢ []
    → length prefix < 2 ^ 32
    → At buf pos (prefixed prefix ++ rest)
    → decode_prefix op buf pos
      ≡ ok (
        (if op == 4 then dropped_prefix prefix else undropped_prefix prefix),
        pos + (4 + length prefix),
      )
unfolding decode_prefix prefix_edit
decode_prefix-payload buf rest pos op [] n b h = absurd (n refl)
decode_prefix-payload buf rest pos op (x ∷ prefix) n b h =
    >>=-ok _ _ _ (take_len_prefixed-At buf rest (x ∷ prefix) pos h b)

pub length-payload : (edit : VersionEdit) → length (payload edit) ≡ edit_payload_len edit
unfolding payload edit_payload_len
length-payload (add_file file_id level min_key max_key bytes created_at) = omega (
  arith,
  length-append min_key (prefixed max_key ++ (le_bytes 8 bytes ++ le_bytes 8 created_at)),
  length-append max_key (le_bytes 8 bytes ++ le_bytes 8 created_at),
)
length-payload (delete_file file_id level) = refl
length-payload (next_file_id_edit file_id) = refl
length-payload (dropped_prefix prefix) = length-prefixed prefix
length-payload (undropped_prefix prefix) = length-prefixed prefix

add_file-append :
    (rest : Bytes) (file_id level : ℕ) (min_key max_key : Bytes) (bytes created_at : ℕ)
    → payload (add_file file_id level min_key max_key bytes created_at) ++ rest
      ≡ le_bytes 8 file_id
        ++ (le_bytes 4 level
            ++ (prefixed min_key
                ++ (prefixed max_key ++ (le_bytes 8 bytes ++ (le_bytes 8 created_at ++ rest)))))
unfolding payload
add_file-append rest file_id level min_key max_key bytes created_at =
    ap (λ r. le_bytes 8 file_id ++ (le_bytes 4 level ++ r))
      (append_assoc (prefixed min_key) _ rest
        ∙ ap (λ r. prefixed min_key ++ r) (append_assoc (prefixed max_key) _ rest))

pub decode_edit-payload :
    (buf rest : Bytes) (pos : ℕ) (edit : VersionEdit)
    → Fits edit
    → At buf pos (payload edit ++ rest)
    → decode_edit (op_of edit) buf pos ≡ ok (edit, pos + edit_payload_len edit)
unfolding decode_edit payload decode_delete_file decode_next_file_id edit_payload_len
decode_edit-payload buf rest pos (add_file file_id level min_key max_key bytes created_at) fits h =
    decode_add_file-payload buf rest pos file_id level min_key max_key bytes created_at fits (
      subst (λ xs. At buf pos xs)
        (add_file-append rest file_id level min_key max_key bytes created_at) h)
    ∙ ap (λ n. ok (add_file file_id level min_key max_key bytes created_at, n)) (omega arith)
decode_edit-payload buf rest pos (delete_file file_id level) (a, b) h =
    >>=-ok _ _ _ (take_u64-At buf (le_bytes 4 level ++ rest) pos file_id h a)
    ∙ >>=-ok _ _ _ (
        take_u32-At buf rest (pos + 8) level
          (behind_u64 buf (le_bytes 4 level ++ rest) pos file_id h) b)
    ∙ ap (λ n. ok (delete_file file_id level, n)) (omega arith)
decode_edit-payload buf rest pos (next_file_id_edit file_id) a h =
    >>=-ok _ _ _ (take_u64-At buf rest pos file_id h a)
decode_edit-payload buf rest pos (dropped_prefix prefix) (n, b) h =
    decode_prefix-payload buf rest pos 4 prefix n b h
decode_edit-payload buf rest pos (undropped_prefix prefix) (n, b) h =
    decode_prefix-payload buf rest pos 5 prefix n b h
