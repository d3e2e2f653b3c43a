-- ===== src/Core/Codec/Valid.antt =====
-- What is decoded is a valid frame.
use pure_reactive_protocol.Prelude.{◌≡◌, ℕ, ◌+◌, ◌||◌, ltb, take, drop, length, List, arith}
use pure_reactive_protocol.Failure.{Result, ok, err, ◌>>=◌, throw_if, protocol_violation}
use pure_reactive_protocol.Core.Limits.{ProtocolLimits, frame_header_bytes}
use pure_reactive_protocol.Core.Attributes.{ProtocolAttribute, TextCodec}
use pure_reactive_protocol.Core.Frame.{FrameKind, ProtocolFrame}
use pure_reactive_protocol.Core.Codec.Validate.{validate_frame}
use pure_reactive_protocol.Core.Codec.Frames.{
  Header, read_header, check_header, finish_frame, decode_frame,
}
use pure_reactive_protocol.Core.Codec.Tlv.{decode_attributes}

-- The frame, if there is one, is valid.
pub record IsChecked (r : Result ProtocolFrame) : Type 0 where
  pub valid : (f : ProtocolFrame) → r ≡ ok f → validate_frame f ≡ ok tt

-- Only the last step of a decoder counts.
pub >>=-IsChecked {ℓ} :
    {A : Type ℓ} (r : Result A) (next : A → Result ProtocolFrame)
    → ((a : A) → IsChecked (next a))
    → IsChecked (r >>= next)
>>=-IsChecked (ok a) next checked = checked a
>>=-IsChecked (err e) next checked = record { valid = λ f h. ground arith }

finish_frame-IsChecked :
    (kind : FrameKind) (h : Header) (attributes : List ProtocolAttribute) (payload : List ℕ)
    → IsChecked (finish_frame kind h attributes payload)
unfolding finish_frame
finish_frame-IsChecked kind h attributes payload = record { valid = λ f e. ground arith }

pub decode_frame-IsChecked :
    (codec : TextCodec) (limits : ProtocolLimits) (input : List ℕ)
    → IsChecked (decode_frame codec input limits)
unfolding decode_frame
decode_frame-IsChecked codec limits input =
    let h = read_header input in
    >>=-IsChecked (throw_if (ltb limits.max_frame_bytes (length input)) protocol_violation) _ (λ u.
      >>=-IsChecked (throw_if (ltb (length input) frame_header_bytes) protocol_violation) _ (λ u'.
        >>=-IsChecked (check_header h) _ (λ kind.
          >>=-IsChecked
            (throw_if
              (ltb limits.max_attribute_bytes h.attribute_bytes
                || ltb (length input) (h.header_bytes + h.attribute_bytes))
              protocol_violation)
            _
            (λ u''.
              >>=-IsChecked
                (decode_attributes codec (take h.attribute_bytes (drop h.header_bytes input))
                  limits)
                _ (λ attributes. finish_frame-IsChecked kind h attributes _)))))
