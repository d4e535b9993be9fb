-- ===== src/Engine/Wal.antt =====
-- The write-ahead log (crates/hatp-engine/src/wal.rs): records, frames and their decoding. The
-- file itself is I/O; `buf` is its content. The laws are in the modules below.
use hat_p.Prelude.{
  ℕ, zero, suc, ◌+◌, ◌-◌, ◌^◌, Option, none, some, List, [], ◌∷◌, ◌++◌, Bytes, ltb, leb, ◌==◌,
  if◌then◌else◌, length, take, drop,
}
pub mod Frames
pub mod Decode
pub mod Torn
pub mod Log
pub mod Progress
pub mod Recovery
use Prim.Native.String.{String}
use hat_p.Engine.Types.{corrupt, corrupt_message, out_of_range, Mutation, put, delete, EngineResult}
use hat_p.Prelude.Result.{ok, err, ◌>>=◌}
use hat_p.Prelude.Digits.{le_bytes, from_le}
use hat_p.Engine.Crc32c.{crc32c_software}

pub data OpType : Type 0 where
  put_op delete_op commit_op abort_op : OpType

unfoldable pub encode_op : OpType → ℕ
encode_op put_op = 1
encode_op delete_op = 2
encode_op commit_op = 3
encode_op abort_op = 4

unfoldable pub decode_op : ℕ → EngineResult OpType
decode_op value =
    if value == 1
    then ok put_op
    else if value == 2
    then ok delete_op
    else if value == 3
    then ok commit_op
    else if value == 4
    then ok abort_op
    else err corrupt_message

pub record WalRecord : Type 0 where
  pub tx_id : ℕ
  pub op : OpType
  pub key : Bytes
  pub value : Option Bytes

-- `WalRecord::put`, `delete`, `commit` and `abort`
abbrev pub put_record : ℕ → Bytes → Bytes → WalRecord
put_record tx_id key value = record { tx_id = tx_id; op = put_op; key = key; value = some value }

abbrev pub delete_record : ℕ → Bytes → WalRecord
delete_record tx_id key = record { tx_id = tx_id; op = delete_op; key = key; value = none }

abbrev pub commit_record : ℕ → WalRecord
commit_record tx_id = record { tx_id = tx_id; op = commit_op; key = []; value = none }

abbrev pub abort_record : ℕ → WalRecord
abort_record tx_id = record { tx_id = tx_id; op = abort_op; key = []; value = none }

-- `MAGIC_WAL1`: the bytes of "WAL1"
abbrev pub magic_wal1 : Bytes
magic_wal1 = 87 ∷ 65 ∷ 76 ∷ 49 ∷ []

abbrev pub frame_header_len : ℕ
frame_header_len = 4 + 8 + 1 + 4 + 4

abbrev pub frame_crc_len : ℕ
frame_crc_len = 4

-- `VALUE_NONE`, which is also `u32::MAX`
abbrev pub value_none : ℕ
value_none = 0xFFFFFFFF

-- `u32::try_from(len)`
unfoldable pub checked_len : String → ℕ → EngineResult ℕ
checked_len message len = if leb len value_none then ok len else err (out_of_range message)

unfoldable pub value_len_of : Option Bytes → EngineResult ℕ
unfolding checked_len
value_len_of (some v) = checked_len "WAL value length exceeds u32::MAX" (length v)
value_len_of none = ok value_none

abbrev pub value_bytes : Option Bytes → Bytes
value_bytes none = []
value_bytes (some v) = v

-- The bytes that the CRC covers: the header and the payload.
unfoldable pub frame_body : ℕ → OpType → Bytes → Option Bytes → ℕ → ℕ → Bytes
unfolding encode_op
frame_body tx_id op key value key_len value_len =
    magic_wal1
    ++ le_bytes 8 tx_id
    ++ (encode_op op ∷ [])
    ++ le_bytes 4 key_len
    ++ le_bytes 4 value_len
    ++ key
    ++ value_bytes value

abbrev pub with_crc : Bytes → Bytes
with_crc body = body ++ le_bytes 4 (crc32c_software body 0)

unfoldable pub encode_frame : Bytes → ℕ → OpType → Bytes → Option Bytes → EngineResult Bytes
unfolding value_len_of checked_len frame_body
encode_frame out tx_id op key value = do
  value_len ← value_len_of value
  key_len ← checked_len "WAL key length exceeds u32::MAX" (length key)
  ok (out ++ with_crc (frame_body tx_id op key value key_len value_len))

-- `for record in records { encode_frame(out, ..)?; }`
unfoldable pub encode_records : Bytes → List WalRecord → EngineResult Bytes
unfolding encode_frame
encode_records out [] = ok out
encode_records out (record_ ∷ records) = do
  out ← encode_frame out record_.tx_id record_.op record_.key record_.value
  encode_records out records

unfoldable pub encode_batch : Bytes → List WalRecord → ℕ → EngineResult Bytes
unfolding encode_records encode_frame
encode_batch out records commit_tx_id = do
  out ← encode_records out records
  encode_frame out commit_tx_id commit_op [] none

-- `for mutation in mutations { .. }`
unfoldable pub encode_mutation_frames : Bytes → ℕ → List Mutation → EngineResult Bytes
unfolding encode_frame
encode_mutation_frames out tx_id [] = ok out
encode_mutation_frames out tx_id (put key value ∷ mutations) = do
  out ← encode_frame out tx_id put_op key (some value)
  encode_mutation_frames out tx_id mutations
encode_mutation_frames out tx_id (delete key ∷ mutations) = do
  out ← encode_frame out tx_id delete_op key none
  encode_mutation_frames out tx_id mutations

unfoldable pub encode_mutations : Bytes → ℕ → List Mutation → EngineResult Bytes
unfolding encode_mutation_frames encode_frame
encode_mutations out tx_id mutations = do
  out ← encode_mutation_frames out tx_id mutations
  encode_frame out tx_id commit_op [] none

pub record DecodedFrame : Type 0 where
  pub tx_id : ℕ
  pub op : OpType
  pub key : Bytes
  pub value : Option Bytes
  pub next_offset : Option ℕ

-- `buf[offset..offset + len]`
abbrev pub slice : Bytes → ℕ → ℕ → Bytes
slice buf offset len = take len (drop offset buf)

-- `read_array` and `from_le_bytes`
abbrev pub read_le : ℕ → Bytes → ℕ → ℕ
read_le width buf offset = from_le (slice buf offset width)

-- `if len == VALUE_NONE { 0 } else { len }`
abbrev pub payload_len : ℕ → ℕ
payload_len len = if len == value_none then 0 else len

-- `usize::checked_add` on a 64-bit target
abbrev pub checked_add : ℕ → ℕ → EngineResult ℕ
checked_add a b =
    if ltb (a + b) (2 ^ 64) then ok (a + b) else err (corrupt "WAL frame length overflow")

-- the part of `decode_frame` behind the bounds and the checksum
unfoldable pub decoded : ℕ → OpType → ℕ → ℕ → ℕ → ℕ → ℕ → Bytes → DecodedFrame
decoded tx_id op key_len value_len body_start body_end crc_end buf = record {
  tx_id = tx_id;
  op = op;
  key = slice buf body_start (payload_len key_len);
  value =
      if value_len == value_none
      then none
      else some (
          slice buf (body_start + payload_len key_len)
            (body_end - (body_start + payload_len key_len)));
  next_offset = if crc_end == length buf then none else some crc_end;
}

-- the bounds test and the checksum
unfoldable pub decode_checked :
    ℕ → OpType → ℕ → ℕ → ℕ → ℕ → ℕ → Bytes → ℕ → EngineResult (Option DecodedFrame)
unfolding decoded
decode_checked tx_id op key_len value_len body_start body_end crc_end buf cursor =
    if ltb (length buf) crc_end
    then ok none
    else if crc32c_software (slice buf cursor (body_end - cursor)) 0 == read_le 4 buf body_end
    then ok (some (decoded tx_id op key_len value_len body_start body_end crc_end buf))
    else ok none

-- the part of `decode_frame` behind the header
unfoldable pub decode_payload : ℕ → OpType → ℕ → ℕ → Bytes → ℕ → EngineResult (Option DecodedFrame)
unfolding decode_checked
decode_payload tx_id op key_len value_len buf cursor = do
  key_end ← checked_add (cursor + frame_header_len) (payload_len key_len)
  body_end ← checked_add key_end (payload_len value_len)
  crc_end ← checked_add body_end frame_crc_len
  decode_checked tx_id op key_len value_len (cursor + frame_header_len) body_end crc_end buf cursor

-- the part of `decode_frame` behind the magic
unfoldable pub decode_header : Bytes → ℕ → EngineResult (Option DecodedFrame)
unfolding decode_op decode_payload
decode_header buf cursor = do
  op ← decode_op (read_le 1 buf (cursor + 12))
  decode_payload (read_le 8 buf (cursor + 4)) op (read_le 4 buf (cursor + 13))
      (read_le 4 buf (cursor + 17)) buf cursor

unfoldable pub decode_frame : Bytes → ℕ → EngineResult (Option DecodedFrame)
unfolding decode_header
decode_frame buf cursor =
    if ltb (length buf) (cursor + frame_header_len)
    then ok none
    else if read_le 4 buf cursor == from_le magic_wal1
    then decode_header buf cursor
    else ok none

-- `match decoded.op`: a record that is no put has no value.
unfoldable pub record_of : DecodedFrame → WalRecord
record_of frame = record {
  tx_id = frame.tx_id;
  op = frame.op;
  key = frame.key;
  value = elim frame.op [ put_op ↦ frame.value | _ ↦ none ];
}

abbrev pub frame_end : ℕ → DecodedFrame → ℕ
frame_end cursor frame =
    cursor + frame_header_len + length frame.key + length (value_bytes frame.value) + frame_crc_len

-- The `while let` loop. `none`: out of fuel. Lengths and offsets of a buffer fit in 64 bits.
unfoldable pub decode_from :
    ℕ → Bytes → ℕ → List WalRecord → ℕ → Option (EngineResult (List WalRecord × ℕ))
unfolding decode_frame record_of
decode_from zero buf cursor out last_valid = none
decode_from (suc fuel) buf cursor out last_valid = elim (decode_frame buf cursor) [
  | err e ↦ some (err e)
  | ok none ↦ some (ok (out, last_valid))
  | ok (some frame) ↦
      let out' = out ++ record_of frame ∷ [] in
      let last_valid' = frame_end cursor frame in
      elim frame.next_offset [
        | none ↦ some (ok (out', last_valid'))
        | some next ↦ decode_from fuel buf next out' last_valid'
      ]
]

-- A round moves the cursor on, so one round for each byte and a last one are enough.
unfoldable pub decode_all : Bytes → Option (EngineResult (List WalRecord × ℕ))
unfolding decode_from
decode_all buf = decode_from (suc (length buf)) buf 0 [] 0
