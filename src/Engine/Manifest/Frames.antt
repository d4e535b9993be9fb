-- ===== src/Engine/Manifest/Frames.antt =====
-- The round trip of the edit log: what `decode_frame` reads at the place of an encoded frame.
use hat_p.Prelude.{
  ℕ, ◌+◌, ◌^◌, ◌<◌, ◌≡◌, refl, ap, ◌∙◌, subst, ◌≢◌, some, [], ◌∷◌, ◌++◌, arith, Bytes, length,
  length-append, append_assoc,
}
use Prim.Native.String.{String}
use hat_p.Prelude.Result.{ok, ◌>>=◌}
use hat_p.Prelude.Slices.{At, At-fits, At-take, At-next}
use hat_p.Prelude.Digits.{le_bytes, from_le, from_le-le_bytes, length-le_bytes}
use hat_p.Engine.VersionSet.{
  VersionEdit, add_file, delete_file, next_file_id_edit, dropped_prefix, undropped_prefix,
}
use hat_p.Engine.Manifest.{
  get_range, take_bytes, take_u64, take_u32, take_len_prefixed, write_len_prefixed, encode_edit,
}

pub At-get_range :
    (buf : Bytes) (pos len : ℕ) (bytes rest : Bytes)
    → At buf pos (bytes ++ rest)
    → length bytes ≡ len
    → get_range buf pos len ≡ some bytes
unfolding get_range
At-get_range buf pos len bytes rest at l =
    ground (arith, At-fits buf pos len bytes rest at l, At-take buf pos len bytes rest at l)

module _ (buf rest : Bytes) (pos : ℕ) where
  take_bytes-At :
      (message : String) (bytes : Bytes) (len : ℕ)
      → At buf pos (bytes ++ rest)
      → length bytes ≡ len
      → take_bytes message buf pos len ≡ ok (bytes, pos + len)
  unfolding take_bytes
  take_bytes-At message bytes len h l = ground (arith, At-get_range buf pos len bytes rest h l)

  pub take_u64-At :
      (n : ℕ) → At buf pos (le_bytes 8 n ++ rest) → n < 2 ^ 64 → take_u64 buf pos ≡ ok (n, pos + 8)
  unfolding take_u64
  take_u64-At n h b =
      ap (λ r. do (bytes, next) ← r; ok (from_le bytes, next))
        (take_bytes-At "manifest: truncated u64" (le_bytes 8 n) 8 h (length-le_bytes 8 n))
      ∙ ap (λ m. ok (m, pos + 8)) (from_le-le_bytes 8 n b)

  pub take_u32-At :
      (n : ℕ) → At buf pos (le_bytes 4 n ++ rest) → n < 2 ^ 32 → take_u32 buf pos ≡ ok (n, pos + 4)
  unfolding take_u32
  take_u32-At n h b =
      ap (λ r. do (bytes, next) ← r; ok (from_le bytes, next))
        (take_bytes-At "manifest: truncated u32" (le_bytes 4 n) 4 h (length-le_bytes 4 n))
      ∙ ap (λ m. ok (m, pos + 4)) (from_le-le_bytes 4 n b)

-- The bytes of a field with its length.
abbrev pub prefixed : Bytes → Bytes
prefixed bytes = le_bytes 4 (length bytes) ++ bytes

pub length-prefixed : (bytes : Bytes) → length (prefixed bytes) ≡ 4 + length bytes
length-prefixed bytes =
    omega (arith, length-append (le_bytes 4 (length bytes)) bytes, length-le_bytes 4 (length bytes))

pub take_len_prefixed-At :
    (buf rest bytes : Bytes) (pos : ℕ)
    → At buf pos (prefixed bytes ++ rest)
    → length bytes < 2 ^ 32
    → take_len_prefixed buf pos ≡ ok (bytes, pos + (4 + length bytes))
unfolding take_len_prefixed
take_len_prefixed-At buf rest bytes pos h b =
    let h' : At buf pos (le_bytes 4 (length bytes) ++ (bytes ++ rest)) =
      subst (λ xs. At buf pos xs) (append_assoc (le_bytes 4 (length bytes)) bytes rest) h in
    ap (λ r. do (len, pos1) ← r; take_bytes "manifest: truncated payload" buf pos1 len)
      (take_u32-At buf (bytes ++ rest) pos (length bytes) h' b)
    ∙ take_bytes-At buf rest (pos + 4) "manifest: truncated payload" bytes (length bytes)
        (At-next buf pos 4 (le_bytes 4 (length bytes)) (bytes ++ rest) h'
          (length-le_bytes 4 (length bytes)))
        refl
    ∙ ap (λ p. ok (bytes, p)) (omega arith)

-- Numbers of the widths of their fields, and keys whose length a `u32` holds; a prefix is not empty.
abbrev pub Fits : VersionEdit → Type 0
Fits (add_file file_id level min_key max_key bytes created_at) =
    (file_id < 2 ^ 64)
    × (level < 2 ^ 32)
    × (length min_key < 2 ^ 32)
    × (length max_key < 2 ^ 32)
    × (bytes < 2 ^ 64)
    × (created_at < 2 ^ 64)
Fits (delete_file file_id level) = (file_id < 2 ^ 64) × (level < 2 ^ 32)
Fits (next_file_id_edit file_id) = file_id < 2 ^ 64
Fits (dropped_prefix prefix) = (prefix ≢ []) × (length prefix < 2 ^ 32)
Fits (undropped_prefix prefix) = (prefix ≢ []) × (length prefix < 2 ^ 32)

abbrev pub op_of : VersionEdit → ℕ
op_of (add_file file_id level min_key max_key bytes created_at) = 1
op_of (delete_file file_id level) = 2
op_of (next_file_id_edit file_id) = 3
op_of (dropped_prefix prefix) = 4
op_of (undropped_prefix prefix) = 5

unfoldable pub payload : VersionEdit → Bytes
payload (add_file file_id level min_key max_key bytes created_at) =
    le_bytes 8 file_id
    ++ (le_bytes 4 level
        ++ (prefixed min_key ++ (prefixed max_key ++ (le_bytes 8 bytes ++ le_bytes 8 created_at))))
payload (delete_file file_id level) = le_bytes 8 file_id ++ le_bytes 4 level
payload (next_file_id_edit file_id) = le_bytes 8 file_id
payload (dropped_prefix prefix) = prefixed prefix
payload (undropped_prefix prefix) = prefixed prefix

write_len_prefixed-prefixed :
    (bytes : Bytes) → length bytes < 2 ^ 32 → write_len_prefixed bytes ≡ ok (prefixed bytes)
unfolding write_len_prefixed
write_len_prefixed-prefixed bytes h = ground arith

pub encode_edit-payload :
    (edit : VersionEdit) → Fits edit → encode_edit edit ≡ ok (op_of edit ∷ payload edit)
unfolding encode_edit payload
encode_edit-payload (add_file file_id level min_key max_key bytes created_at) (a, b, c, d, e, f) =
    ground (arith, write_len_prefixed-prefixed min_key c, write_len_prefixed-prefixed max_key d)
encode_edit-payload (delete_file file_id level) h = refl
encode_edit-payload (next_file_id_edit file_id) h = refl
encode_edit-payload (dropped_prefix prefix) (n, h) =
    ground (arith, write_len_prefixed-prefixed prefix h)
encode_edit-payload (undropped_prefix prefix) (n, h) =
    ground (arith, write_len_prefixed-prefixed prefix h)
