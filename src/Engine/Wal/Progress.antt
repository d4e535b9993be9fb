-- ===== src/Engine/Wal/Progress.antt =====
-- The loop of `decode_all` ends on every buffer.
use hat_p.Prelude.{
  ℕ, zero, suc, ◌+◌, ◌^◌, ◌≤◌, ◌<◌, ◌≡◌, refl, ◌≢◌, inl, inr, Bool, true, false, Option, none, some,
  List, [], ◌∷◌, ◌++◌, arith, Bytes, ltb, ◌==◌, if◌then◌else◌, Bool-cases, Option-cases, length,
}
use hat_p.Engine.Types.{EngineResult}
use hat_p.Prelude.Result.{ok, err, ◌>>=◌}
use hat_p.Prelude.Digits.{from_le}
use hat_p.Engine.Wal.{
  magic_wal1, read_le, OpType, WalRecord, frame_header_len, frame_crc_len, DecodedFrame,
  payload_len, checked_add, decoded, decode_op, decode_checked, decode_payload, decode_header,
  decode_frame, decode_from, decode_all, record_of, frame_end,
}

-- The offset that a frame leads on to lies behind the frame and in the buffer.
abbrev Leads : ℕ → Bytes → EngineResult (Option DecodedFrame) → Type 0
Leads cursor buf (err e) = Unit
Leads cursor buf (ok none) = Unit
Leads cursor buf (ok (some frame)) = elim frame.next_offset [
  | none ↦ Unit
  | some next ↦ (cursor < next) × (next ≤ length buf)
]

decode_checked-Leads :
    (tx_id : ℕ) (op : OpType) (key_len value_len body_start body_end crc_end : ℕ) (buf : Bytes)
    (cursor : ℕ)
    → cursor < crc_end
    → Leads cursor buf
        (decode_checked tx_id op key_len value_len body_start body_end crc_end buf cursor)
unfolding decode_checked decoded
decode_checked-Leads tx_id op key_len value_len body_start body_end crc_end buf cursor h =
    ground arith

-- A sum that does not overflow is at least its first part.
bind_add :
    (cursor : ℕ) (buf : Bytes) (a b : ℕ) (next : ℕ → EngineResult (Option DecodedFrame))
    → Leads cursor buf (next (a + b))
    → Leads cursor buf (checked_add a b >>= next)
bind_add cursor buf a b next h = elim (Bool-cases (ltb (a + b) (2 ^ 64))) [
  | inl e ↦ rw e h
  | inr e ↦ rw e tt
]

decode_payload-Leads :
    (tx_id : ℕ) (op : OpType) (key_len value_len : ℕ) (buf : Bytes) (cursor : ℕ)
    → Leads cursor buf (decode_payload tx_id op key_len value_len buf cursor)
unfolding decode_payload
decode_payload-Leads tx_id op key_len value_len buf cursor =
    bind_add cursor buf (cursor + frame_header_len) (payload_len key_len) _ (
      bind_add cursor buf (cursor + frame_header_len + payload_len key_len) (payload_len value_len)
        _
        (bind_add cursor buf
          (cursor + frame_header_len + payload_len key_len + payload_len value_len) frame_crc_len _
          (decode_checked-Leads tx_id op key_len value_len (cursor + frame_header_len) _ _ buf
            cursor (omega arith))))

Leads-if :
    (cursor : ℕ) (buf : Bytes) (c : Bool) (a b : EngineResult (Option DecodedFrame))
    → Leads cursor buf a
    → Leads cursor buf b
    → Leads cursor buf (if c then a else b)
Leads-if cursor buf true a b h k = h
Leads-if cursor buf false a b h k = k

Leads-bind :
    (cursor : ℕ) (buf : Bytes) (result : EngineResult OpType)
    (next : OpType → EngineResult (Option DecodedFrame))
    → ((op : OpType) → Leads cursor buf (next op))
    → Leads cursor buf (result >>= next)
Leads-bind cursor buf (ok op) next h = h op
Leads-bind cursor buf (err e) next h = tt

decode_header-Leads : (buf : Bytes) (cursor : ℕ) → Leads cursor buf (decode_header buf cursor)
unfolding decode_header
decode_header-Leads buf cursor =
    Leads-bind cursor buf (decode_op (read_le 1 buf (cursor + 12)))
      (λ op.
        decode_payload (read_le 8 buf (cursor + 4)) op (read_le 4 buf (cursor + 13))
          (read_le 4 buf (cursor + 17)) buf cursor)
      (λ op.
        decode_payload-Leads (read_le 8 buf (cursor + 4)) op (read_le 4 buf (cursor + 13))
          (read_le 4 buf (cursor + 17)) buf cursor)

decode_frame-Leads : (buf : Bytes) (cursor : ℕ) → Leads cursor buf (decode_frame buf cursor)
unfolding decode_frame
decode_frame-Leads buf cursor =
    Leads-if cursor buf (ltb (length buf) (cursor + frame_header_len)) (ok none)
      (if read_le 4 buf cursor == from_le magic_wal1 then decode_header buf cursor else ok none) tt
      (Leads-if cursor buf (read_le 4 buf cursor == from_le magic_wal1) (decode_header buf cursor)
        (ok none) (decode_header-Leads buf cursor) tt)

-- One round, given that the loop ends from every later offset.
decode_from_step :
    (fuel : ℕ) (buf : Bytes) (cursor : ℕ) (out : List WalRecord) (last : ℕ)
    (result : EngineResult (Option DecodedFrame))
    → decode_frame buf cursor ≡ result
    → Leads cursor buf result
    → length buf < suc fuel + cursor
    → ((next last' : ℕ) (out' : List WalRecord)
        → length buf < fuel + next
        → next ≤ length buf
        → decode_from fuel buf next out' last' ≢ none)
    → decode_from (suc fuel) buf cursor out last ≢ none
unfolding decode_from
decode_from_step fuel buf cursor out last (err e) q l h ih = ground arith
decode_from_step fuel buf cursor out last (ok none) q l h ih = ground arith
decode_from_step fuel buf cursor out last (ok (some frame)) q l h ih =
    elim (Option-cases frame.next_offset) [
      | inl e ↦ ground arith
      | inr (next, e) ↦
          ground (arith, ih next (frame_end cursor frame) (out ++ record_of frame ∷ []))
    ]

decode_from-ne-none :
    (fuel : ℕ) (buf : Bytes) (cursor : ℕ) (out : List WalRecord) (last : ℕ)
    → length buf < fuel + cursor
    → cursor ≤ length buf
    → decode_from fuel buf cursor out last ≢ none
decode_from-ne-none zero buf cursor out last h b = absurd (omega arith)
decode_from-ne-none (suc fuel) buf cursor out last h b =
    decode_from_step fuel buf cursor out last (decode_frame buf cursor) refl
      (decode_frame-Leads buf cursor) h
      (λ next last' out'. decode_from-ne-none fuel buf next out' last')

-- The loop of decode_all ends on every buffer before its fuel runs out.
pub decode_all-ne-none : (buf : Bytes) → decode_all buf ≢ none
unfolding decode_all
decode_all-ne-none buf =
    decode_from-ne-none (suc (length buf)) buf 0 [] 0 (omega arith) (omega arith)
