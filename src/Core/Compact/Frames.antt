-- ===== src/Core/Compact/Frames.antt =====
-- `encodeCompactFrame` and `decodeCompactFrame` of src/core/compact.ts.
use pure_reactive_protocol.Prelude.{
  ℕ, ◌+◌, ◌/◌, ◌%◌, Bool, true, false, ◌&&◌, ◌||◌, not, Option, none, some, List, [], ◌∷◌, ◌++◌,
  length, drop, ltb, leb, ◌==◌, ◌/=◌, if◌then◌else◌,
}
use pure_reactive_protocol.Failure.{
  Result, ok, err, ◌>>=◌, ◌>>◌, throw_if, range_error, protocol_violation,
}
use pure_reactive_protocol.Bytes.{get_u8}
use pure_reactive_protocol.Core.Limits.{ProtocolLimits, max_u64}
use pure_reactive_protocol.Core.Attributes.{ProtocolAttribute, TextCodec}
use pure_reactive_protocol.Core.Frame.{
  FrameKind, hello, welcome, kind_code, known_kind, ProtocolFrame,
}
use pure_reactive_protocol.Core.Codec.Validate.{has_fragmented_flag, validate_frame}
use pure_reactive_protocol.Core.Codec.Frames.{is_data, is_demand}
use pure_reactive_protocol.Core.Compact.Varint.{
  varint_bytes, write_varint, read_varint_32, read_varint_64,
}
use pure_reactive_protocol.Core.Compact.Dictionary.{
  encoded_bytes, write_area, prepare_attributes, read_attributes,
}

abbrev pub compact_frame_magic : ℕ
compact_frame_magic = 0xc1

abbrev pub is_handshake : FrameKind → Bool
is_handshake hello = true
is_handshake welcome = true
is_handshake _ = false

abbrev pub compact_header_value : ProtocolFrame → ℕ
compact_header_value f = if has_fragmented_flag f.flags then f.fragment_length else f.credit

-- The second byte: the kind, and a bit for attributes, for a header value, and for a first fragment.
abbrev pub control_byte : ProtocolFrame → ℕ
control_byte f =
    kind_code f.kind
    + (if length f.attributes == 0 then 0 else 0x20)
    + (if compact_header_value f == 0 then 0 else 0x40)
    + (if has_fragmented_flag f.flags then 0x80 else 0)

abbrev pub has_attributes_bit : ℕ → Bool
has_attributes_bit control = control / 0x20 % 2 == 1

abbrev pub has_header_value_bit : ℕ → Bool
has_header_value_bit control = control / 0x40 % 2 == 1

abbrev pub has_fragmented_bit : ℕ → Bool
has_fragmented_bit control = control / 0x80 % 2 == 1

abbrev pub compact_kind : Option FrameKind → Result FrameKind
compact_kind none = err protocol_violation
compact_kind (some kind) = if is_handshake kind then err protocol_violation else ok kind

unfoldable pub read_header_value : Bool → List ℕ → Result (ℕ × List ℕ)
read_header_value false input = ok (0, input)
read_header_value true input = do
  (value, rest) ← read_varint_32 input
  throw_if (value == 0) protocol_violation
  ok (value, rest)

abbrev pub compact_frame_of :
    FrameKind → ℕ → ℕ → ℕ → Bool → List ProtocolAttribute → List ℕ → ProtocolFrame
compact_frame_of kind stream_id sequence value fragmented attributes payload = record {
  kind = kind;
  stream_id = stream_id;
  sequence = sequence;
  flags = if fragmented then 1 else 0;
  credit = if is_demand kind && value /= 0 then value else 0;
  fragment_length = if fragmented then value else 0;
  attributes = attributes;
  payload = payload;
}

-- The end of `decodeCompactFrame`.
unfoldable pub finish_compact_frame :
    FrameKind → ℕ → ℕ → ℕ → Bool → List ProtocolAttribute → List ℕ → Result ProtocolFrame
finish_compact_frame kind stream_id sequence value fragmented attributes payload = do
  throw_if (value /= 0 && not (is_demand kind) && not (is_data kind && fragmented))
      protocol_violation
  validate_frame (compact_frame_of kind stream_id sequence value fragmented attributes payload)
  ok (compact_frame_of kind stream_id sequence value fragmented attributes payload)

module _ (codec : TextCodec) where
  unfoldable pub encode_compact_frame : ProtocolFrame → ProtocolLimits → Result (List ℕ)
  encode_compact_frame f limits = do
    throw_if (is_handshake f.kind) protocol_violation
    throw_if (ltb max_u64 f.stream_id) range_error
    throw_if (leb f.sequence 0 || ltb max_u64 f.sequence) range_error
    validate_frame f
    prepared ← prepare_attributes codec f.attributes limits
    let value = compact_header_value f
    let frame_bytes =
        2
        + varint_bytes f.stream_id
        + varint_bytes f.sequence
        + (if value == 0 then 0 else varint_bytes value)
        + encoded_bytes prepared
        + length f.payload
    throw_if (ltb limits.max_frame_bytes frame_bytes) range_error
    ok (
        compact_frame_magic
        ∷ control_byte f
        ∷ (write_varint f.stream_id
            ++ (write_varint f.sequence
                ++ ((if value == 0 then [] else write_varint value)
                    ++ (write_area prepared ++ f.payload)))))

  unfoldable pub read_area :
      ProtocolLimits → Bool → List ℕ → Result (List ProtocolAttribute × List ℕ)
  read_area limits false input = ok ([], input)
  read_area limits true input = do
    (count, rest) ← read_varint_32 input
    throw_if (count == 0 || ltb limits.max_attributes count) protocol_violation
    read_attributes codec limits count 0 rest

  unfoldable pub decode_compact_frame : List ℕ → ProtocolLimits → Result ProtocolFrame
  decode_compact_frame input limits = do
    throw_if (ltb limits.max_frame_bytes (length input)) protocol_violation
    throw_if (ltb (length input) 4 || get_u8 input 0 /= compact_frame_magic) protocol_violation
    let control = get_u8 input 1
    kind ← compact_kind (known_kind (control % 32))
    (stream_id, r1) ← read_varint_64 (drop 2 input)
    (sequence, r2) ← read_varint_64 r1
    throw_if (sequence == 0) protocol_violation
    (value, r3) ← read_header_value (has_header_value_bit control) r2
    (attributes, payload) ← read_area limits (has_attributes_bit control) r3
    finish_compact_frame kind stream_id sequence value (has_fragmented_bit control) attributes
        payload
