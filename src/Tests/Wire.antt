-- ===== src/Tests/Wire.antt =====
-- Frames, attributes and datagrams on the wire, with a text codec of two bytes for each code unit.
use pure_reactive_protocol.Prelude.{
  ℕ, ◌+◌, ◌*◌, ◌/◌, ◌%◌, ◌≤◌, ◌≡◌, refl, true, false, Option, none, some, List, [], ◌∷◌, All,
  length, arith,
}
use pure_reactive_protocol.Failure.{ok}
use pure_reactive_protocol.Bytes.{IsBytes}
use pure_reactive_protocol.Core.Limits.{
  ProtocolLimits, default_protocol_limits, LimitOverrides, resolve_protocol_limits,
}
use pure_reactive_protocol.Core.Limits.Exchange.{IsResolved, resolve-IsResolved}
use pure_reactive_protocol.Core.Attributes.{
  ProtocolAttribute, TextCodec, IsUtf8, IsText, IsSendable, well_formed,
}
use pure_reactive_protocol.Core.Frame.{ProtocolFrame, data_item}
use pure_reactive_protocol.Core.Codec.Tlv.{encode_attributes, decode_attributes}
use pure_reactive_protocol.Core.Codec.TlvRoundTrip.{decode-encode_attributes}
use pure_reactive_protocol.Core.Codec.Frames.{encode_frame, decode_frame}
use pure_reactive_protocol.Core.Codec.RoundTrip.{decode-encode_frame}
use pure_reactive_protocol.Core.Codec.Tlv.{encode_ids, measure, write_attributes}
use pure_reactive_protocol.Core.Codec.Frames.{write_header, header_value}
use pure_reactive_protocol.Core.Codec.Validate.{validate_frame, bad_shape}
use pure_reactive_protocol.Core.Attributes.{bytes}

abbrev pub encode_units : List ℕ → List ℕ
encode_units [] = []
encode_units (c ∷ s) = (c / 256) % 256 ∷ c % 256 ∷ encode_units s

abbrev pub prepend : ℕ → Option (List ℕ) → Option (List ℕ)
prepend c none = none
prepend c (some s) = some (c ∷ s)

abbrev pub decode_units : List ℕ → Option (List ℕ)
decode_units [] = some []
decode_units (x ∷ []) = none
decode_units (x ∷ y ∷ rest) = prepend (x * 256 + y) (decode_units rest)

abbrev pub pairs : TextCodec
pairs = record { encode = encode_units; decode_strict = decode_units }

encode_units-IsBytes : (s : List ℕ) → IsBytes (encode_units s)
encode_units-IsBytes [] = tt
encode_units-IsBytes (c ∷ s) = (omega arith, (omega arith, encode_units-IsBytes s))

decode-encode_units : (s : List ℕ) → IsText s → decode_units (encode_units s) ≡ some s
decode-encode_units [] t = refl
decode-encode_units (c ∷ s) t =
    let same : (c / 256) % 256 * 256 + c % 256 ≡ c = omega (arith, t.0) in
    rw (decode-encode_units s t.1, same) refl

pub pairs-IsUtf8 : IsUtf8 pairs
pairs-IsUtf8 = record {
  encode_bytes = encode_units-IsBytes;
  encode_nil = refl;
  decode-encode = λ s t w b. decode-encode_units s t;
}

abbrev pub small_overrides : LimitOverrides
small_overrides = record {
  max_frame_bytes = some 60;
  max_attribute_bytes = some 24;
  max_attributes = none;
  max_attribute_id_bytes = none;
  max_attribute_value_bytes = some 24;
  max_inbound_item_bytes = none;
  max_in_flight_reassembly_bytes = none;
  max_inbound_streams = none;
  max_pending_incoming_streams = none;
  max_pending_signals = none;
  max_in_flight_signal_bytes = none;
  max_retained_stream_attribute_bytes = none;
  max_retired_streams = none;
}

abbrev small_limits : ProtocolLimits
small_limits = record default_protocol_limits {
  max_frame_bytes = 60;
  max_attribute_bytes = 24;
  max_attribute_value_bytes = 24;
}

small_limits-IsResolved : IsResolved small_limits
unfolding resolve_protocol_limits
small_limits-IsResolved = resolve-IsResolved small_overrides small_limits refl

abbrev pub note : ProtocolAttribute
note = record { id = 0x6e ∷ 0x6f ∷ []; value = 5 ∷ 6 ∷ 7 ∷ []; required = true }

abbrev items : List ProtocolAttribute
items = note ∷ record { id = 0x78 ∷ []; value = []; required = false } ∷ []

items-IsSendable : All (λ (item : ProtocolAttribute). IsSendable item.id) items
items-IsSendable = (
  record { is_text = (omega arith, (omega arith, tt)); no_bom = refl },
  (record { is_text = (omega arith, tt); no_bom = refl }, tt),
)

abbrev pub frame : ProtocolFrame
frame = record {
  kind = data_item;
  stream_id = 5;
  sequence = 7;
  flags = 0;
  credit = 0;
  fragment_length = 0;
  attributes = note ∷ [];
  payload = 9 ∷ 8 ∷ [];
}

abbrev frame_bytes : List ℕ
frame_bytes =
    80 ∷ 82 ∷ 80 ∷ 49 ∷ 1 ∷ 0 ∷ 17 ∷ 0 ∷ 0 ∷ 36 ∷ 0 ∷ 0 ∷ 0 ∷ 0 ∷ 0 ∷ 0 ∷ 0 ∷ 5 ∷ 0 ∷ 0 ∷ 0 ∷ 0 ∷ 0
    ∷ 0 ∷ 0 ∷ 7 ∷ 0 ∷ 0 ∷ 0 ∷ 0 ∷ 0 ∷ 0 ∷ 0 ∷ 14 ∷ 0 ∷ 0 ∷ 1 ∷ 0 ∷ 4 ∷ 0 ∷ 0 ∷ 0 ∷ 3 ∷ 0 ∷ 110 ∷ 0
    ∷ 111 ∷ 5 ∷ 6 ∷ 7 ∷ 9 ∷ 8 ∷ []

abbrev area_bytes : List ℕ
area_bytes =
    1 ∷ 0 ∷ 4 ∷ 0 ∷ 0 ∷ 0 ∷ 3 ∷ 0 ∷ 110 ∷ 0 ∷ 111 ∷ 5 ∷ 6 ∷ 7 ∷ 0 ∷ 0 ∷ 2 ∷ 0 ∷ 0 ∷ 0 ∷ 0 ∷ 0 ∷ 120
    ∷ []

frame_encodes : encode_frame pairs frame small_limits ≡ ok frame_bytes
unfolding encode_frame encode_attributes encode_ids bytes measure write_attributes write_header
    header_value well_formed validate_frame bad_shape
frame_encodes = refl

items_encode : encode_attributes pairs items small_limits ≡ ok area_bytes
unfolding encode_attributes encode_ids bytes measure write_attributes well_formed
items_encode = refl

decode-encode_frame_example :
    (length frame_bytes ≤ small_limits.max_frame_bytes)
    × (decode_frame pairs frame_bytes small_limits ≡ ok frame)
decode-encode_frame_example =
    decode-encode_frame pairs pairs-IsUtf8 small_limits frame frame_bytes small_limits-IsResolved
      (items-IsSendable.0, tt) frame_encodes

decode-encode_attributes_example : decode_attributes pairs area_bytes small_limits ≡ ok items
decode-encode_attributes_example =
    decode-encode_attributes pairs pairs-IsUtf8 small_limits items area_bytes
      small_limits-IsResolved items-IsSendable items_encode
