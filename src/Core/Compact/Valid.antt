-- ===== src/Core/Compact/Valid.antt =====
-- What is decoded from a compact frame is a valid frame.
use pure_reactive_protocol.Prelude.{ℕ, ◌%◌, ◌||◌, ◌==◌, ◌/=◌, ltb, drop, length, Bool, List, arith}
use pure_reactive_protocol.Failure.{throw_if, protocol_violation}
use pure_reactive_protocol.Bytes.{get_u8}
use pure_reactive_protocol.Core.Limits.{ProtocolLimits}
use pure_reactive_protocol.Core.Attributes.{ProtocolAttribute, TextCodec}
use pure_reactive_protocol.Core.Frame.{FrameKind, known_kind}
use pure_reactive_protocol.Core.Codec.Valid.{IsChecked, >>=-IsChecked}
use pure_reactive_protocol.Core.Compact.Varint.{read_varint_64}
use pure_reactive_protocol.Core.Compact.Frames.{
  compact_frame_magic, compact_kind, read_header_value, has_header_value_bit, has_attributes_bit,
  has_fragmented_bit, read_area, finish_compact_frame, decode_compact_frame,
}

finish_compact_frame-IsChecked :
    (kind : FrameKind) (stream_id sequence value : ℕ) (fragmented : Bool)
    (attributes : List ProtocolAttribute) (payload : List ℕ)
    → IsChecked (finish_compact_frame kind stream_id sequence value fragmented attributes payload)
unfolding finish_compact_frame
finish_compact_frame-IsChecked kind stream_id sequence value fragmented attributes payload =
    record { valid = λ f e. ground arith }

pub decode_compact_frame-IsChecked :
    (codec : TextCodec) (limits : ProtocolLimits) (input : List ℕ)
    → IsChecked (decode_compact_frame codec input limits)
unfolding decode_compact_frame
decode_compact_frame-IsChecked codec limits input =
    let control = get_u8 input 1 in
    >>=-IsChecked (throw_if (ltb limits.max_frame_bytes (length input)) protocol_violation) _ (λ u.
      >>=-IsChecked
        (throw_if (ltb (length input) 4 || get_u8 input 0 /= compact_frame_magic)
          protocol_violation)
        _
        (λ u'. >>=-IsChecked (compact_kind (known_kind (control % 32))) _ (λ kind.
          >>=-IsChecked (read_varint_64 (drop 2 input)) _ (λ stream.
            >>=-IsChecked (read_varint_64 stream.1) _ (λ sequence.
              >>=-IsChecked (throw_if (sequence.0 == 0) protocol_violation) _ (λ u''.
                >>=-IsChecked (read_header_value (has_header_value_bit control) sequence.1) _
                  (λ value.
                    >>=-IsChecked (read_area codec limits (has_attributes_bit control) value.1) _
                      (λ area.
                        finish_compact_frame-IsChecked kind stream.0 sequence.0 value.0
                          (has_fragmented_bit control) area.0 area.1))))))))
