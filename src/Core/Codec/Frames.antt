-- ===== src/Core/Codec/Frames.antt =====
-- `encodeFrame` and `decodeFrame` of src/core/codec.ts.
use pure_reactive_protocol.Prelude.{
  ℕ, ◌+◌, Bool, true, false, ◌&&◌, ◌||◌, not, Option, none, some, List, ◌∷◌, ◌++◌, length, take,
  drop, ltb, leb, ◌==◌, ◌/=◌, if◌then◌else◌,
}
use pure_reactive_protocol.Failure.{
  Result, ok, err, ◌>>=◌, ◌>>◌, throw_if, range_error, protocol_violation,
}
use pure_reactive_protocol.Bytes.{set_u16, set_u32, set_u64, get_u8, get_u16, get_u32, get_u64}
use pure_reactive_protocol.Core.Limits.{ProtocolLimits, max_u64, frame_header_bytes}
use pure_reactive_protocol.Core.Attributes.{ProtocolAttribute, TextCodec}
use pure_reactive_protocol.Core.Frame.{
  FrameKind, data_item, demand, kind_code, known_kind, ProtocolFrame, protocol_magic,
  protocol_major, protocol_minor,
}
use pure_reactive_protocol.Core.Codec.Tlv.{encode_attributes, decode_attributes}
use pure_reactive_protocol.Core.Codec.Validate.{has_fragmented_flag, validate_frame}

-- `kind === FrameKind.DATA`, `kind === FrameKind.DEMAND`.
abbrev pub is_data : FrameKind → Bool
is_data data_item = true
is_data _ = false

abbrev pub is_demand : FrameKind → Bool
is_demand demand = true
is_demand _ = false

abbrev pub is_fragmented_data : FrameKind → ℕ → Bool
is_fragmented_data kind flags = is_data kind && has_fragmented_flag flags

-- The field that the header's value carries.
unfoldable pub header_value : ProtocolFrame → ℕ
header_value f = if is_fragmented_data f.kind f.flags then f.fragment_length else f.credit

-- The 36 bytes of the header.
unfoldable pub write_header : ProtocolFrame → ℕ → List ℕ
write_header f attribute_bytes =
    set_u32 protocol_magic
    ++ (protocol_major
        ∷ protocol_minor
        ∷ kind_code f.kind
        ∷ f.flags
        ∷ (set_u16 frame_header_bytes
            ++ (set_u64 f.stream_id
                ++ (set_u64 f.sequence
                    ++ (set_u32 (header_value f) ++ (set_u32 attribute_bytes ++ set_u16 0))))))

pub record Header : Type 0 where
  pub magic : ℕ
  pub major : ℕ
  pub minor : ℕ
  pub kind_value : ℕ
  pub flags : ℕ
  pub header_bytes : ℕ
  pub stream_id : ℕ
  pub sequence : ℕ
  pub value : ℕ
  pub attribute_bytes : ℕ
  pub reserved : ℕ

unfoldable pub read_header : List ℕ → Header
read_header input = record {
  magic = get_u32 input 0;
  major = get_u8 input 4;
  minor = get_u8 input 5;
  kind_value = get_u8 input 6;
  flags = get_u8 input 7;
  header_bytes = get_u16 input 8;
  stream_id = get_u64 input 10;
  sequence = get_u64 input 18;
  value = get_u32 input 26;
  attribute_bytes = get_u32 input 30;
  reserved = get_u16 input 34;
}

or_violation : Option FrameKind → Result FrameKind
or_violation none = err protocol_violation
or_violation (some kind) = ok kind

-- The checks of the header alone, with the kind that it names.
unfoldable pub check_header : Header → Result FrameKind
unfolding or_violation
check_header h = do
  throw_if (h.magic /= protocol_magic) protocol_violation
  throw_if (h.major /= protocol_major) protocol_violation
  throw_if (h.minor /= protocol_minor) protocol_violation
  kind ← or_violation (known_kind h.kind_value)
  throw_if (h.reserved /= 0) protocol_violation
  throw_if (h.header_bytes /= frame_header_bytes) protocol_violation
  throw_if (h.sequence == 0) protocol_violation
  ok kind

unfoldable pub frame_of : FrameKind → Header → List ProtocolAttribute → List ℕ → ProtocolFrame
frame_of kind h attributes payload = record {
  kind = kind;
  stream_id = h.stream_id;
  sequence = h.sequence;
  flags = h.flags;
  credit = if is_demand kind && h.value /= 0 then h.value else 0;
  fragment_length = if is_fragmented_data kind h.flags then h.value else 0;
  attributes = attributes;
  payload = payload;
}

-- The end of `decodeFrame`: the frame, the check of its header value, and its validation.
unfoldable pub finish_frame :
    FrameKind → Header → List ProtocolAttribute → List ℕ → Result ProtocolFrame
unfolding frame_of
finish_frame kind h attributes payload = do
  throw_if (h.value /= 0 && not (is_demand kind) && not (is_fragmented_data kind h.flags))
      protocol_violation
  validate_frame (frame_of kind h attributes payload)
  ok (frame_of kind h attributes payload)

module _ (codec : TextCodec) where
  unfoldable pub encode_frame : ProtocolFrame → ProtocolLimits → Result (List ℕ)
  encode_frame f limits = do
    throw_if (ltb max_u64 f.stream_id) range_error
    throw_if (leb f.sequence 0 || ltb max_u64 f.sequence) range_error
    validate_frame f
    attributes ← encode_attributes codec f.attributes limits
    let frame_bytes = frame_header_bytes + length attributes + length f.payload
    throw_if (ltb limits.max_frame_bytes frame_bytes) range_error
    ok (write_header f (length attributes) ++ (attributes ++ f.payload))

  unfoldable pub decode_frame : List ℕ → ProtocolLimits → Result ProtocolFrame
  decode_frame input limits = do
    throw_if (ltb limits.max_frame_bytes (length input)) protocol_violation
    throw_if (ltb (length input) frame_header_bytes) protocol_violation
    let h = read_header input
    kind ← check_header h
    throw_if
        (ltb limits.max_attribute_bytes h.attribute_bytes
          || ltb (length input) (h.header_bytes + h.attribute_bytes))
        protocol_violation
    attributes ← decode_attributes codec (take h.attribute_bytes (drop h.header_bytes input)) limits
    finish_frame kind h attributes (drop (h.header_bytes + h.attribute_bytes) input)
