-- ===== src/Core/Compact/Dictionary.antt =====
-- The attribute area of src/core/compact.ts: `prepareAttributes`, what `encodeCompactFrame` writes of
-- it, and what `decodeCompactFrame` reads. Ids of the dictionary are sent as a code.
pub mod RoundTrip
use pure_reactive_protocol.Prelude.{
  ℕ, zero, suc, ◌+◌, ◌*◌, ◌/◌, ◌%◌, Bool, ◌||◌, Option, none, some, List, [], ◌∷◌, ◌++◌, length,
  take, drop, ltb, leb, ◌==◌, if◌then◌else◌, text_eq, codes,
}
use pure_reactive_protocol.Failure.{
  Result, ok, err, ◌>>=◌, ◌>>◌, throw_if, range_error, protocol_violation,
}
use pure_reactive_protocol.Core.Limits.{ProtocolLimits}
use pure_reactive_protocol.Core.Attributes.{ProtocolAttribute, TextCodec, bytes}
use pure_reactive_protocol.Core.Compact.Varint.{varint_bytes, write_varint, read_varint_32}

-- `ATTRIBUTE_IDS`, without the entry of index 0.
abbrev pub attribute_id_of : ℕ → Option (List ℕ)
attribute_id_of code =
    if code == 1
    then some (codes "prp.profile")
    else if code == 2
    then some (codes "prp.rpc.target")
    else if code == 3
    then some (codes "prp.rpc.pattern")
    else if code == 4
    then some (codes "prp.error.code")
    else if code == 5
    then some (codes "prp.session.id")
    else none

-- `ATTRIBUTE_CODES.get(id) ?? 0`.
abbrev pub attribute_code_of : List ℕ → ℕ
attribute_code_of id =
    if text_eq id (codes "prp.profile")
    then 1
    else if text_eq id (codes "prp.rpc.target")
    then 2
    else if text_eq id (codes "prp.rpc.pattern")
    then 3
    else if text_eq id (codes "prp.error.code")
    then 4
    else if text_eq id (codes "prp.session.id")
    then 5
    else 0

-- `literal` is the encoded id, if the code is 0.
pub record PreparedAttribute : Type 0 where
  pub code : ℕ
  pub item : ProtocolAttribute
  pub literal : List ℕ

-- `idBytes`.
abbrev pub prepared_id_bytes : PreparedAttribute → ℕ
prepared_id_bytes p = if p.code == 0 then length p.literal else length p.item.id

abbrev pub attribute_tag : PreparedAttribute → ℕ
attribute_tag p = p.code * 2 + (if p.item.required then 1 else 0)

-- The physical length of one attribute.
abbrev pub prepared_bytes : PreparedAttribute → ℕ
prepared_bytes p =
    varint_bytes (attribute_tag p)
    + (if p.code == 0 then varint_bytes (length p.literal) + length p.literal else 0)
    + varint_bytes (length p.item.value)
    + length p.item.value

unfoldable pub prepared_total : List PreparedAttribute → ℕ
prepared_total [] = 0
prepared_total (p ∷ rest) = prepared_bytes p + prepared_total rest

-- `encodedBytes`, with the count in front.
unfoldable pub encoded_bytes : List PreparedAttribute → ℕ
unfolding prepared_total
encoded_bytes [] = 0
encoded_bytes (p ∷ rest) = varint_bytes (length (p ∷ rest)) + prepared_total (p ∷ rest)

-- What `encodeCompactFrame` writes for one attribute.
unfoldable pub write_prepared : PreparedAttribute → List ℕ
write_prepared p =
    write_varint (attribute_tag p)
    ++ ((if p.code == 0 then write_varint (length p.literal) ++ p.literal else [])
        ++ (write_varint (length p.item.value) ++ p.item.value))

unfoldable pub write_all_prepared : List PreparedAttribute → List ℕ
write_all_prepared [] = []
write_all_prepared (p ∷ rest) = write_prepared p ++ write_all_prepared rest

unfoldable pub write_area : List PreparedAttribute → List ℕ
unfolding write_all_prepared
write_area [] = []
write_area (p ∷ rest) = write_varint (length (p ∷ rest)) ++ write_all_prepared (p ∷ rest)

abbrev or_violation {ℓ} : {A : Type ℓ} → Option A → Result A
or_violation none = err protocol_violation
or_violation (some value) = ok value

module _ (codec : TextCodec) where
  unfoldable pub prepare_one : ProtocolAttribute → Result PreparedAttribute
  prepare_one item = do
    let code = attribute_code_of item.id
    literal ← if code == 0 then bytes codec item.id else ok []
    ok (record { code = code; item = item; literal = literal })

  -- The loop of `prepareAttributes`, with `logicalBytes` so far.
  unfoldable pub prepare_loop :
      ProtocolLimits → ℕ → List ProtocolAttribute → Result (List PreparedAttribute)
  prepare_loop limits logical [] = ok []
  prepare_loop limits logical (item ∷ rest) = do
    p ← prepare_one item
    throw_if (prepared_id_bytes p == 0 || ltb limits.max_attribute_id_bytes (prepared_id_bytes p))
        range_error
    throw_if (ltb limits.max_attribute_value_bytes (length item.value)) range_error
    throw_if
        (ltb limits.max_attribute_bytes (logical + (7 + prepared_id_bytes p + length item.value)))
        range_error
    others ← prepare_loop limits (logical + (7 + prepared_id_bytes p + length item.value)) rest
    ok (p ∷ others)

  unfoldable pub prepare_attributes :
      List ProtocolAttribute → ProtocolLimits → Result (List PreparedAttribute)
  prepare_attributes attributes limits = do
    throw_if (ltb limits.max_attributes (length attributes)) range_error
    prepare_loop limits 0 attributes

  -- `measureCompactAttributeBytes`.
  unfoldable pub measure_compact_attribute_bytes :
      List ProtocolAttribute → ProtocolLimits → Result ℕ
  measure_compact_attribute_bytes attributes limits = do
    prepared ← prepare_attributes attributes limits
    ok (encoded_bytes prepared)

  -- The id of an attribute whose code is `code`, with the bytes that it counts for, and the rest.
  unfoldable pub read_id : ProtocolLimits → ℕ → List ℕ → Result (List ℕ × ℕ × List ℕ)
  read_id limits zero input = do
    (id_bytes, rest) ← read_varint_32 input
    throw_if
        (id_bytes == 0 || ltb limits.max_attribute_id_bytes id_bytes || ltb (length rest) id_bytes)
        protocol_violation
    id ← or_violation (codec.decode_strict (take id_bytes rest))
    ok (id, id_bytes, drop id_bytes rest)
  read_id limits (suc code) input = do
    id ← or_violation (attribute_id_of (suc code))
    throw_if (ltb limits.max_attribute_id_bytes (length id)) protocol_violation
    ok (id, length id, input)

  -- The loop over `count` attributes, with `logicalBytes` so far.
  unfoldable pub read_attributes :
      ProtocolLimits → ℕ → ℕ → List ℕ → Result (List ProtocolAttribute × List ℕ)
  read_attributes limits zero logical input = ok ([], input)
  read_attributes limits (suc count) logical input = do
    (tag, after_tag) ← read_varint_32 input
    (id, id_bytes, after_id) ← read_id limits (tag / 2) after_tag
    (value_bytes, rest) ← read_varint_32 after_id
    throw_if (ltb limits.max_attribute_value_bytes value_bytes || ltb (length rest) value_bytes)
        protocol_violation
    throw_if (ltb limits.max_attribute_bytes (logical + (7 + id_bytes + value_bytes)))
        protocol_violation
    (others, left) ←
        read_attributes limits count (logical + (7 + id_bytes + value_bytes))
          (drop value_bytes rest)
    ok (record { id = id; value = take value_bytes rest; required = tag % 2 == 1 } ∷ others, left)
