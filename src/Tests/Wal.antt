-- ===== src/Tests/Wal.antt =====
-- The theorems on the write-ahead log and its checksum, and runs, at a batch of two records.
use hat_p.Prelude.{◌≡◌, refl, ◌≢◌, none, some, List, [], ◌∷◌, ◌++◌, arith, Bytes, length, take, All}
use hat_p.Prelude.Result.{ok, err}
use hat_p.Engine.Wal.{
  WalRecord, put_record, delete_record, commit_record, encode_batch, decode_all, frame_body,
}
use hat_p.Engine.Wal.Decode.{IsBuffer}
use hat_p.Engine.Wal.Log.{IsRecord, frames}
use hat_p.Engine.Wal.Recovery.{whole_frames, decode_all_cut, decode_all-encode_batch}
use hat_p.Engine.Wal.Progress.{decode_all-ne-none}
use hat_p.Engine.Crc32c.{crc32c, crc32c_software}
use hat_p.Engine.Crc32c.Bitwise.{crc_by_bits, crc32c_software-crc_by_bits}

abbrev two_records : List WalRecord
two_records = put_record 7 (1 ∷ 2 ∷ []) (9 ∷ []) ∷ delete_record 7 (3 ∷ []) ∷ []

two_records-IsRecord : All IsRecord two_records
two_records-IsRecord = (
  ((omega arith, omega arith, omega arith), refl),
  (((omega arith, omega arith, omega arith), refl), tt),
)

-- The bytes that the batch is encoded to.
abbrev batch_bytes : Bytes
batch_bytes = elim (encode_batch [] two_records 7) [ ok bytes ↦ bytes | err e ↦ [] ]

encoded : encode_batch [] two_records 7 ≡ ok batch_bytes
unfolding encode_batch
encoded = refl

batch_bytes-IsBuffer : IsBuffer batch_bytes
unfolding encode_batch
batch_bytes-IsBuffer = omega arith

decode_all-encode_batch_example :
    decode_all batch_bytes ≡ some (ok (two_records ++ commit_record 7 ∷ [], length batch_bytes))
decode_all-encode_batch_example =
    decode_all-encode_batch two_records 7 batch_bytes two_records-IsRecord (omega arith) encoded
      batch_bytes-IsBuffer

frames-IsBuffer : IsBuffer (frames two_records)
unfolding frame_body
frames-IsBuffer = omega arith

-- Forty bytes hold the first frame and a part of the second.
decode_all_cut_example :
    decode_all (take 40 (frames two_records))
    ≡ some (ok (take 1 two_records, length (frames (take 1 two_records))))
unfolding whole_frames frame_body
decode_all_cut_example = decode_all_cut two_records 40 two_records-IsRecord frames-IsBuffer

decode_all-ne-none_example : decode_all (87 ∷ 65 ∷ 76 ∷ []) ≢ none
decode_all-ne-none_example = decode_all-ne-none (87 ∷ 65 ∷ 76 ∷ [])

crc32c_software-crc_by_bits_example :
    crc32c_software (49 ∷ 50 ∷ []) 5 ≡ crc_by_bits (49 ∷ 50 ∷ []) 5
crc32c_software-crc_by_bits_example =
    crc32c_software-crc_by_bits (49 ∷ 50 ∷ []) 5 (omega arith, (omega arith, tt))

-- The check value of CRC32C: the digits from 1 to 9.
check_value : crc32c (49 ∷ 50 ∷ 51 ∷ 52 ∷ 53 ∷ 54 ∷ 55 ∷ 56 ∷ 57 ∷ []) ≡ 0xE3069283
unfolding crc32c
check_value = refl
