-- ===== src/Core/Codec/Wider.antt =====
-- What is decoded under limits is decoded under wider ones.
use pure_reactive_protocol.Prelude.{
  ℕ, zero, suc, ◌+◌, ◌≤◌, ◌≡◌, false, ◌||◌, List, [], ◌∷◌, length, take, drop, ltb, leb, arith,
}
use pure_reactive_protocol.Failure.{ok, throw_if, protocol_violation, >>=-eq-ok}
use pure_reactive_protocol.Core.Limits.{ProtocolLimits, frame_header_bytes}
use pure_reactive_protocol.Core.Attributes.{ProtocolAttribute, TextCodec}
use pure_reactive_protocol.Core.Frame.{ProtocolFrame}
use pure_reactive_protocol.Core.Codec.Tlv.{decode_attribute, decode_loop, decode_attributes}
use pure_reactive_protocol.Core.Codec.Frames.{read_header, check_header, decode_frame}

-- The bounds of frames and attributes are no smaller.
pub record IsWider (limits wider : ProtocolLimits) : Type 0 where
  pub frame : limits.max_frame_bytes ≤ wider.max_frame_bytes
  pub area : limits.max_attribute_bytes ≤ wider.max_attribute_bytes
  pub count : limits.max_attributes ≤ wider.max_attributes
  pub id : limits.max_attribute_id_bytes ≤ wider.max_attribute_id_bytes
  pub value : limits.max_attribute_value_bytes ≤ wider.max_attribute_value_bytes

module _ (codec : TextCodec) (limits wider : ProtocolLimits) (w : IsWider limits wider) where
  decode_attribute-IsWider :
      (area : List ℕ) (read : ProtocolAttribute × List ℕ)
      → decode_attribute codec limits area ≡ ok read
      → decode_attribute codec wider area ≡ ok read
  unfolding decode_attribute
  decode_attribute-IsWider area read h = ground arith

  decode_loop-IsWider :
      (fuel count : ℕ) (area : List ℕ) (items : List ProtocolAttribute)
      → decode_loop codec limits fuel count area ≡ ok items
      → decode_loop codec wider fuel count area ≡ ok items
  unfolding decode_loop
  decode_loop-IsWider fuel count [] items h = h
  decode_loop-IsWider zero count (b ∷ area) items h = cc
  decode_loop-IsWider (suc fuel) count (b ∷ area) items h =
      let (u, few, h1) =
        >>=-eq-ok (throw_if (leb limits.max_attributes count) protocol_violation) _ h in
      let ((item, rest), one, h2) = >>=-eq-ok (decode_attribute codec limits (b ∷ area)) _ h1 in
      let (others, more, h3) = >>=-eq-ok (decode_loop codec limits fuel (count + 1) rest) _ h2 in
      let few' : leb wider.max_attributes count ≡ false = ground arith in
      rw
        (
          few',
          decode_attribute-IsWider (b ∷ area) (item, rest) one,
          decode_loop-IsWider fuel (count + 1) rest others more,
        )
        h3

  decode_attributes-IsWider :
      (area : List ℕ) (items : List ProtocolAttribute)
      → decode_attributes codec area limits ≡ ok items
      → decode_attributes codec area wider ≡ ok items
  unfolding decode_attributes
  decode_attributes-IsWider area items h =
      ground (arith, decode_loop-IsWider (length area) 0 area items)

  pub decode_frame-IsWider :
      (input : List ℕ) (f : ProtocolFrame)
      → decode_frame codec input limits ≡ ok f
      → decode_frame codec input wider ≡ ok f
  unfolding decode_frame
  decode_frame-IsWider input f h =
      let head = read_header input in
      let (u, short, h1) =
        >>=-eq-ok (throw_if (ltb limits.max_frame_bytes (length input)) protocol_violation) _ h in
      let (u', long, h2) =
        >>=-eq-ok (throw_if (ltb (length input) frame_header_bytes) protocol_violation) _ h1 in
      let (kind, checked, h3) = >>=-eq-ok (check_header head) _ h2 in
      let (u'', inside, h4) =
        >>=-eq-ok
          (throw_if
            (ltb limits.max_attribute_bytes head.attribute_bytes
              || ltb (length input) (head.header_bytes + head.attribute_bytes))
            protocol_violation)
          _ h3 in
      let (items, read, h5) =
        >>=-eq-ok
          (decode_attributes codec (take head.attribute_bytes (drop head.header_bytes input))
            limits)
          _ h4 in
      let short' : ltb wider.max_frame_bytes (length input) ≡ false = ground arith in
      let inside' : (ltb wider.max_attribute_bytes head.attribute_bytes
            || ltb (length input) (head.header_bytes + head.attribute_bytes))
          ≡ false =
        ground arith in
      rw
        (
          short',
          long,
          checked,
          inside',
          decode_attributes-IsWider (take head.attribute_bytes (drop head.header_bytes input)) items
              read,
        )
        h5
