-- ===== src/Engine/Crc32c/Laws.antt =====
-- The CRC32C loops: the chunked loop against the plain one, streaming, and the width of the state.
use hat_p.Prelude.{
  ℕ, zero, suc, ◌+◌, ◌/◌, ◌%◌, ◌^◌, ◌<◌, ◌≡◌, refl, ap, ◌∙◌, [], ◌∷◌, ◌++◌, arith, Bytes,
}
use Prim.Native.Nat.{bit_xor}
use hat_p.Prelude.Digits.{bit_xor_lt}
use hat_p.Engine.Crc32c.{
  poly, init_crc, fold_bit, fold_bits, build_table, crc_table, entry_at, fold_byte, fold_bytes,
  fold_chunks, crc32c_software, crc32c, new_hasher, update, finish,
}

fold_chunks-fold_bytes : (bytes : Bytes) (crc : ℕ) → fold_chunks bytes crc ≡ fold_bytes bytes crc
unfolding fold_chunks fold_bytes
fold_chunks-fold_bytes (b0 ∷ b1 ∷ b2 ∷ b3 ∷ b4 ∷ b5 ∷ b6 ∷ b7 ∷ bytes) crc =
    fold_chunks-fold_bytes bytes _
fold_chunks-fold_bytes [] crc = refl
fold_chunks-fold_bytes (b0 ∷ []) crc = refl
fold_chunks-fold_bytes (b0 ∷ b1 ∷ []) crc = refl
fold_chunks-fold_bytes (b0 ∷ b1 ∷ b2 ∷ []) crc = refl
fold_chunks-fold_bytes (b0 ∷ b1 ∷ b2 ∷ b3 ∷ []) crc = refl
fold_chunks-fold_bytes (b0 ∷ b1 ∷ b2 ∷ b3 ∷ b4 ∷ []) crc = refl
fold_chunks-fold_bytes (b0 ∷ b1 ∷ b2 ∷ b3 ∷ b4 ∷ b5 ∷ []) crc = refl
fold_chunks-fold_bytes (b0 ∷ b1 ∷ b2 ∷ b3 ∷ b4 ∷ b5 ∷ b6 ∷ []) crc = refl

-- The software path computes what its plain byte loop computes, for inputs on either side of the
-- 1024-byte threshold.
pub crc32c_software-fold_bytes :
    (bytes : Bytes) (init : ℕ) → crc32c_software bytes init ≡ fold_bytes bytes init
unfolding crc32c_software
crc32c_software-fold_bytes bytes init = ground (arith, fold_chunks-fold_bytes bytes init)

fold_bytes-append :
    (front back : Bytes) (crc : ℕ)
    → fold_bytes (front ++ back) crc ≡ fold_bytes back (fold_bytes front crc)
unfolding fold_bytes
fold_bytes-append [] back crc = refl
fold_bytes-append (byte ∷ front) back crc = fold_bytes-append front back (fold_byte crc byte)

-- A Hasher that is fed two pieces returns the one-shot CRC32C of their concatenation, on the
-- software path.
finish-update :
    (front back : Bytes) → finish (update back (update front new_hasher)) ≡ crc32c (front ++ back)
unfolding update crc32c
finish-update front back =
    rw
      (
        crc32c_software-fold_bytes front init_crc,
        crc32c_software-fold_bytes back (fold_bytes front init_crc),
        crc32c_software-fold_bytes (front ++ back) init_crc,
        fold_bytes-append front back init_crc,
      )
      refl

abbrev pub IsWord : ℕ → Type 0
IsWord n = n < 2 ^ 32

fold_bit-IsWord : (crc : ℕ) → IsWord crc → IsWord (fold_bit crc)
unfolding fold_bit
fold_bit-IsWord crc h = ground (arith, bit_xor_lt 32 (crc / 2) poly (omega arith) (omega arith))

fold_bits-IsWord : (count crc : ℕ) → IsWord crc → IsWord (fold_bits count crc)
unfolding fold_bits
fold_bits-IsWord zero crc h = h
fold_bits-IsWord (suc count) crc h = fold_bits-IsWord count (fold_bit crc) (fold_bit-IsWord crc h)

-- The table holds, at each byte, eight rounds of the byte.
entry_at-build_table :
    (count first i : ℕ) → i < count → entry_at (build_table count first) i ≡ fold_bits 8 (first + i)
unfolding entry_at build_table
entry_at-build_table zero first i h = absurd (omega arith)
entry_at-build_table (suc count) first zero h = ap (fold_bits 8) (omega arith)
entry_at-build_table (suc count) first (suc i) h =
    entry_at-build_table count (suc first) i (omega arith) ∙ ap (fold_bits 8) (omega arith)

pub entry_at-crc_table : (i : ℕ) → i < 256 → entry_at crc_table i ≡ fold_bits 8 i
unfolding crc_table
entry_at-crc_table i h = entry_at-build_table 256 0 i h ∙ ap (fold_bits 8) (omega arith)

fold_byte-IsWord : (crc byte : ℕ) → IsWord crc → IsWord (fold_byte crc byte)
unfolding fold_byte
fold_byte-IsWord crc byte h =
    bit_xor_lt 32 (crc / 256) (entry_at crc_table (bit_xor crc byte % 256)) (omega arith) (
      rw (entry_at-crc_table (bit_xor crc byte % 256) (omega arith))
        (fold_bits-IsWord 8 (bit_xor crc byte % 256) (omega arith)))

fold_bytes-IsWord : (bytes : Bytes) (crc : ℕ) → IsWord crc → IsWord (fold_bytes bytes crc)
unfolding fold_bytes
fold_bytes-IsWord [] crc h = h
fold_bytes-IsWord (byte ∷ bytes) crc h =
    fold_bytes-IsWord bytes (fold_byte crc byte) (fold_byte-IsWord crc byte h)

pub crc32c_software-IsWord :
    (bytes : Bytes) (init : ℕ) → IsWord init → IsWord (crc32c_software bytes init)
crc32c_software-IsWord bytes init h =
    rw (crc32c_software-fold_bytes bytes init) (fold_bytes-IsWord bytes init h)
