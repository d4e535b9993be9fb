-- ===== src/Engine/Crc32c.antt =====
-- CRC32C (crates/hatp-engine/src/crc32c.rs): the software path. The SSE4.2 path calls intrinsics.
use hat_p.Prelude.{
  ℕ, zero, suc, ◌/◌, ◌%◌, none, some, List, [], ◌∷◌, Bytes, ltb, ◌==◌, if◌then◌else◌, length,
  get_elem?,
}
pub mod Laws
pub mod Bitwise
use Prim.Native.Nat.{bit_xor}

-- `const POLY`
abbrev pub poly : ℕ
poly = 0x82F63B78

-- `const INIT`
abbrev pub init_crc : ℕ
init_crc = 0xFFFFFFFF

-- one round of the `while j < 8` loop: `crc & 1 != 0`, then a shift and a fold
unfoldable pub fold_bit : ℕ → ℕ
fold_bit crc = if crc % 2 == 0 then crc / 2 else bit_xor (crc / 2) poly

unfoldable pub fold_bits : ℕ → ℕ → ℕ
unfolding fold_bit
fold_bits zero crc = crc
fold_bits (suc j) crc = fold_bits j (fold_bit crc)

-- `build_table`: the entries from `i` on, `count` of them
unfoldable pub build_table : ℕ → ℕ → List ℕ
unfolding fold_bits
build_table zero i = []
build_table (suc count) i = fold_bits 8 i ∷ build_table count (suc i)

-- `const TABLE`
unfoldable pub crc_table : List ℕ
unfolding build_table
crc_table = build_table 256 0

unfoldable pub entry_at : List ℕ → ℕ → ℕ
entry_at table i = elim (get_elem? table i) [ none ↦ 0 | some entry ↦ entry ]

-- `crc = (crc >> 8) ^ TABLE[((crc ^ byte) & 0xFF) as usize]`
unfoldable pub fold_byte : ℕ → ℕ → ℕ
unfolding crc_table entry_at
fold_byte crc byte = bit_xor (crc / 256) (entry_at crc_table (bit_xor crc byte % 256))

-- the loop of slicing-by-1
unfoldable pub fold_bytes : Bytes → ℕ → ℕ
unfolding fold_byte
fold_bytes [] crc = crc
fold_bytes (byte ∷ bytes) crc = fold_bytes bytes (fold_byte crc byte)

-- the loop over chunks of 8 bytes, then the tail
unfoldable pub fold_chunks : Bytes → ℕ → ℕ
unfolding fold_byte fold_bytes
fold_chunks (b0 ∷ b1 ∷ b2 ∷ b3 ∷ b4 ∷ b5 ∷ b6 ∷ b7 ∷ bytes) crc =
    let crc0 = fold_byte crc b0 in
    let crc1 = fold_byte crc0 b1 in
    let crc2 = fold_byte crc1 b2 in
    let crc3 = fold_byte crc2 b3 in
    let crc4 = fold_byte crc3 b4 in
    let crc5 = fold_byte crc4 b5 in
    let crc6 = fold_byte crc5 b6 in fold_chunks bytes (fold_byte crc6 b7)
fold_chunks bytes crc = fold_bytes bytes crc

unfoldable pub crc32c_software : Bytes → ℕ → ℕ
unfolding fold_bytes fold_chunks
crc32c_software bytes init =
    if ltb (length bytes) 1024 then fold_bytes bytes init else fold_chunks bytes init

-- `finalize`: `crc ^ 0xFFFF_FFFF`
abbrev pub finalize : ℕ → ℕ
finalize crc = bit_xor crc 0xFFFFFFFF

unfoldable pub crc32c : Bytes → ℕ
unfolding crc32c_software
crc32c bytes = finalize (crc32c_software bytes init_crc)

-- `Hasher`: its state is the running CRC.
pub record Hasher : Type 0 where
  pub state : ℕ

-- `Hasher::new`
abbrev pub new_hasher : Hasher
new_hasher = record { state = init_crc }

unfoldable pub update : Bytes → Hasher → Hasher
unfolding crc32c_software
update bytes hasher = record { state = crc32c_software bytes hasher.state }

abbrev pub finish : Hasher → ℕ
finish hasher = finalize hasher.state
