-- ===== src/Engine/Crc32c/Bitwise.antt =====
-- The table-driven loops against the division by the polynomial, bit by bit.
use hat_p.Prelude.{
  ℕ, zero, suc, ◌+◌, ◌*◌, ◌/◌, ◌%◌, ◌<◌, ◌≡◌, refl, sym, ap, ◌∙◌, ◌⊎◌, inl, inr, [], ◌∷◌, arith,
  Bytes, All,
}
use Prim.Native.Nat.{bit_xor, differ}
use hat_p.Prelude.Digits.{bit_xor_lt, shift_left, zero-bit_xor}
use hat_p.Prelude.Xor.{xor_half, xor_digit, xor_comm, xor_assoc, xor_self, xor_disjoint}
use hat_p.Engine.Crc32c.{
  poly, fold_bit, fold_bits, crc_table, entry_at, fold_byte, fold_bytes, crc32c_software,
}
use hat_p.Engine.Crc32c.Laws.{crc32c_software-fold_bytes, entry_at-crc_table}

-- CRC32C without a table: each byte is added to the low digits, then eight digits are divided off.
unfoldable pub crc_by_bits : Bytes → ℕ → ℕ
crc_by_bits [] crc = crc
crc_by_bits (byte ∷ bytes) crc = crc_by_bits bytes (fold_bits 8 (bit_xor crc byte))

fold_even : (a : ℕ) → a % 2 ≡ 0 → fold_bit a ≡ a / 2
unfolding fold_bit
fold_even a h = ground arith

fold_odd : (a : ℕ) → a % 2 ≡ 1 → fold_bit a ≡ bit_xor (a / 2) poly
unfolding fold_bit
fold_odd a h = ground arith

parity : (a : ℕ) → (a % 2 ≡ 0) ⊎ (a % 2 ≡ 1)
parity a = ground arith

-- x ^ y with y between the other two, moved to the end
xor_swap : (a b c : ℕ) → bit_xor (bit_xor a b) c ≡ bit_xor (bit_xor a c) b
xor_swap a b c = xor_assoc a b c ∙ (ap (bit_xor a) (xor_comm b c) ∙ sym (xor_assoc a c b))

xor_zero : (a : ℕ) → bit_xor a 0 ≡ a
xor_zero a = xor_comm a 0 ∙ zero-bit_xor a

xor_cancel : (a b c : ℕ) → bit_xor (bit_xor a c) (bit_xor b c) ≡ bit_xor a b
xor_cancel a b c =
    sym (xor_assoc (bit_xor a c) b c)
    ∙ (ap (λ x. bit_xor x c) (xor_swap a c b)
        ∙ (xor_assoc (bit_xor a b) c c
            ∙ (ap (bit_xor (bit_xor a b)) (xor_self c) ∙ xor_zero (bit_xor a b))))

sum : (a b d e : ℕ) → a % 2 ≡ d → b % 2 ≡ e → bit_xor a b % 2 ≡ differ d e
sum a b d e h k = xor_digit a b ∙ (ap (λ x. differ x (b % 2)) h ∙ ap (differ d) k)

fold_bit_linear : (a b : ℕ) → fold_bit (bit_xor a b) ≡ bit_xor (fold_bit a) (fold_bit b)
fold_bit_linear a b = elim (parity a) [
  | inl e ↦ elim (parity b) [
    | inl f ↦
        rw (fold_even a e, fold_even b f) (fold_even (bit_xor a b) (sum a b 0 0 e f) ∙ xor_half a b)
    | inr f ↦
        rw (fold_even a e, fold_odd b f)
          (fold_odd (bit_xor a b) (sum a b 0 1 e f)
            ∙ (ap (λ x. bit_xor x poly) (xor_half a b) ∙ xor_assoc (a / 2) (b / 2) poly))
  ]
  | inr e ↦ elim (parity b) [
    | inl f ↦
        rw (fold_odd a e, fold_even b f)
          (fold_odd (bit_xor a b) (sum a b 1 0 e f)
            ∙ (ap (λ x. bit_xor x poly) (xor_half a b) ∙ xor_swap (a / 2) (b / 2) poly))
    | inr f ↦
        rw (fold_odd a e, fold_odd b f)
          (fold_even (bit_xor a b) (sum a b 1 1 e f)
            ∙ (xor_half a b ∙ sym (xor_cancel (a / 2) (b / 2) poly)))
  ]
]

fold_bits_linear : (k a b : ℕ) → fold_bits k (bit_xor a b) ≡ bit_xor (fold_bits k a) (fold_bits k b)
unfolding fold_bits
fold_bits_linear zero a b = refl
fold_bits_linear (suc k) a b =
    ap (fold_bits k) (fold_bit_linear a b) ∙ fold_bits_linear k (fold_bit a) (fold_bit b)

-- Digits above the divided ones only move down.
fold_bits_shift : (k h : ℕ) → fold_bits k (shift_left k h) ≡ h
unfolding fold_bits
fold_bits_shift zero h = refl
fold_bits_shift (suc k) h =
    ap (fold_bits k) (fold_even (shift_left k h * 2) (omega arith) ∙ omega arith)
    ∙ fold_bits_shift k h

shift_sum : (crc : ℕ) → crc ≡ shift_left 8 (crc / 256) + crc % 256
shift_sum crc = omega arith

split_byte : (crc : ℕ) → crc ≡ bit_xor (shift_left 8 (crc / 256)) (crc % 256)
split_byte crc = shift_sum crc ∙ sym (xor_disjoint 8 (crc / 256) (crc % 256) (omega arith))

added :
    (crc byte : ℕ)
    → bit_xor crc byte ≡ bit_xor (shift_left 8 (crc / 256)) (bit_xor (crc % 256) byte)
added crc byte =
    ap (λ x. bit_xor x byte) (split_byte crc)
    ∙ xor_assoc (shift_left 8 (crc / 256)) (crc % 256) byte

low_digits : (crc byte : ℕ) → byte < 256 → bit_xor crc byte % 256 ≡ bit_xor (crc % 256) byte
low_digits crc byte h = omega (
  arith,
  added crc byte,
  xor_disjoint 8 (crc / 256) (bit_xor (crc % 256) byte)
      (bit_xor_lt 8 (crc % 256) byte (omega arith) h),
  bit_xor_lt 8 (crc % 256) byte (omega arith) h,
)

fold_byte-fold_bits :
    (crc byte : ℕ) → byte < 256 → fold_byte crc byte ≡ fold_bits 8 (bit_xor crc byte)
unfolding fold_byte
fold_byte-fold_bits crc byte h =
    ap (λ i. bit_xor (crc / 256) (entry_at crc_table i)) (low_digits crc byte h)
    ∙ (ap (bit_xor (crc / 256)) (
          entry_at-crc_table (bit_xor (crc % 256) byte)
            (bit_xor_lt 8 (crc % 256) byte (omega arith) h))
        ∙ (ap (λ x. bit_xor x (fold_bits 8 (bit_xor (crc % 256) byte)))
              (sym (fold_bits_shift 8 (crc / 256)))
            ∙ (sym (fold_bits_linear 8 (shift_left 8 (crc / 256)) (bit_xor (crc % 256) byte))
                ∙ ap (fold_bits 8) (sym (added crc byte)))))

fold_bytes-crc_by_bits :
    (bytes : Bytes) (crc : ℕ)
    → All (λ byte. byte < 256) bytes
    → fold_bytes bytes crc ≡ crc_by_bits bytes crc
unfolding fold_bytes crc_by_bits
fold_bytes-crc_by_bits [] crc h = refl
fold_bytes-crc_by_bits (byte ∷ bytes) crc (b, h) =
    ap (fold_bytes bytes) (fold_byte-fold_bits crc byte b)
    ∙ fold_bytes-crc_by_bits bytes (fold_bits 8 (bit_xor crc byte)) h

-- On bytes, the software path with its table and its chunked loop computes the CRC that divides
-- bit by bit by the reflected Castagnoli polynomial, from any initial state.
pub crc32c_software-crc_by_bits :
    (bytes : Bytes) (init : ℕ)
    → All (λ byte. byte < 256) bytes
    → crc32c_software bytes init ≡ crc_by_bits bytes init
crc32c_software-crc_by_bits bytes init h =
    crc32c_software-fold_bytes bytes init ∙ fold_bytes-crc_by_bits bytes init h
