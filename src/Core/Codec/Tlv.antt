-- ===== src/Core/Codec/Tlv.antt =====
-- The attribute area: `encodeAttributes` and `decodeAttributes` of src/core/codec.ts. The decoder's
-- offset into the area is the part of it that is left.
use pure_reactive_protocol.Prelude.{
  ℕ, zero, suc, ◌+◌, ◌/◌, ◌%◌, ◌||◌, Option, none, some, List, [], ◌∷◌, ◌++◌, length, take, drop,
  ltb, leb, ◌==◌, ◌/=◌, if◌then◌else◌,
}
use pure_reactive_protocol.Failure.{
  Result, ok, err, ◌>>=◌, ◌>>◌, throw_if, range_error, protocol_violation,
}
use pure_reactive_protocol.Bytes.{set_u16, set_u32, get_u8, get_u16, get_u32}
use pure_reactive_protocol.Core.Limits.{ProtocolLimits}
use pure_reactive_protocol.Core.Attributes.{ProtocolAttribute, TextCodec, bytes}

-- An attribute with the bytes of its id.
pub record EncodedAttribute : Type 0 where
  pub item : ProtocolAttribute
  pub id_bytes : List ℕ

-- The first loop of `encodeAttributes`: the checks, with the area's length so far.
unfoldable pub measure : ProtocolLimits → ℕ → List EncodedAttribute → Result ℕ
measure limits so_far [] = ok so_far
measure limits so_far (e ∷ rest) = do
  throw_if (length e.id_bytes == 0) range_error
  throw_if (ltb limits.max_attribute_id_bytes (length e.id_bytes)) range_error
  throw_if (ltb limits.max_attribute_value_bytes (length e.item.value)) range_error
  throw_if (ltb limits.max_attribute_bytes (so_far + (7 + length e.id_bytes + length e.item.value)))
      range_error
  measure limits (so_far + (7 + length e.id_bytes + length e.item.value)) rest

-- The second loop: flags, lengths, id and value of each.
unfoldable pub write_attributes : List EncodedAttribute → List ℕ
write_attributes [] = []
write_attributes (e ∷ rest) =
    (if e.item.required then 1 else 0)
    ∷ (set_u16 (length e.id_bytes)
        ++ (set_u32 (length e.item.value)
            ++ (e.id_bytes ++ (e.item.value ++ write_attributes rest))))

-- `strictText` of an id, a failure and the empty text being violations.
unfoldable pub nonempty_id : Option (List ℕ) → Result (List ℕ)
nonempty_id none = err protocol_violation
nonempty_id (some []) = err protocol_violation
nonempty_id (some (c ∷ s)) = ok (c ∷ s)

module _ (codec : TextCodec) where
  unfoldable pub encode_ids : List ProtocolAttribute → Result (List EncodedAttribute)
  unfolding bytes
  encode_ids [] = ok []
  encode_ids (item ∷ rest) = do
    id_bytes ← bytes codec item.id
    others ← encode_ids rest
    ok (record { item = item; id_bytes = id_bytes } ∷ others)

  unfoldable pub encode_attributes : List ProtocolAttribute → ProtocolLimits → Result (List ℕ)
  encode_attributes attributes limits = do
    throw_if (ltb limits.max_attributes (length attributes)) range_error
    encoded ← encode_ids attributes
    _ ← measure limits 0 encoded
    ok (write_attributes encoded)

  unfoldable pub measure_attribute_bytes : List ProtocolAttribute → ProtocolLimits → Result ℕ
  unfolding encode_attributes
  measure_attribute_bytes attributes limits = do
    area ← encode_attributes attributes limits
    ok (length area)

  -- The end of a round: id and value from what follows the seven bytes of lengths.
  unfoldable pub attribute_body : ℕ → ℕ → ℕ → List ℕ → Result (ProtocolAttribute × List ℕ)
  unfolding nonempty_id
  attribute_body flags id_length value_length body = do
    id ← nonempty_id (codec.decode_strict (take id_length body))
    let from_value = drop id_length body
    ok (
      record { id = id; value = take value_length from_value; required = flags % 2 == 1 },
      drop value_length from_value,
    )

  -- One round of the decoder's loop: an attribute, and what is left of the area.
  unfoldable pub decode_attribute : ProtocolLimits → List ℕ → Result (ProtocolAttribute × List ℕ)
  decode_attribute limits area = do
    throw_if (ltb (length area) 7) protocol_violation
    let flags = get_u8 area 0
    throw_if (flags / 2 /= 0) protocol_violation
    let id_length = get_u16 area 1
    let value_length = get_u32 area 3
    throw_if (id_length == 0 || ltb limits.max_attribute_id_bytes id_length) protocol_violation
    throw_if (ltb limits.max_attribute_value_bytes value_length) protocol_violation
    throw_if (ltb (length area) (7 + id_length + value_length)) protocol_violation
    attribute_body flags id_length value_length (drop 7 area)

  -- The loop: each round takes at least eight bytes, so the area's length is enough fuel. The
  -- second number is `attributes.length`.
  unfoldable pub decode_loop : ProtocolLimits → ℕ → ℕ → List ℕ → Result (List ProtocolAttribute)
  decode_loop limits fuel count [] = ok []
  decode_loop limits zero count (b ∷ area) = err protocol_violation
  decode_loop limits (suc fuel) count (b ∷ area) = do
    throw_if (leb limits.max_attributes count) protocol_violation
    (item, rest) ← decode_attribute limits (b ∷ area)
    others ← decode_loop limits fuel (count + 1) rest
    ok (item ∷ others)

  unfoldable pub decode_attributes : List ℕ → ProtocolLimits → Result (List ProtocolAttribute)
  unfolding decode_loop
  decode_attributes area limits = do
    throw_if (ltb limits.max_attribute_bytes (length area)) protocol_violation
    decode_loop limits (length area) 0 area
