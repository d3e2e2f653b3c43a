-- ===== src/Core/Compact/Wider.antt =====
-- What is decoded from compact frames under limits is decoded under wider ones.
use pure_reactive_protocol.Prelude.{
  ℕ, zero, suc, ◌+◌, ◌/◌, ◌%◌, ◌≡◌, Bool, true, false, ◌||◌, List, length, drop, ltb, ◌==◌, ◌/=◌,
  arith,
}
use pure_reactive_protocol.Failure.{ok, throw_if, protocol_violation, >>=-eq-ok}
use pure_reactive_protocol.Bytes.{get_u8}
use pure_reactive_protocol.Core.Limits.{ProtocolLimits}
use pure_reactive_protocol.Core.Attributes.{ProtocolAttribute, TextCodec}
use pure_reactive_protocol.Core.Frame.{ProtocolFrame, known_kind}
use pure_reactive_protocol.Core.Codec.Wider.{IsWider}
use pure_reactive_protocol.Core.Compact.Varint.{read_varint_32, read_varint_64}
use pure_reactive_protocol.Core.Compact.Dictionary.{read_id, read_attributes}
use pure_reactive_protocol.Core.Compact.Frames.{
  compact_frame_magic, compact_kind, read_header_value, has_header_value_bit, has_attributes_bit,
  read_area, decode_compact_frame,
}

module _ (codec : TextCodec) (limits wider : ProtocolLimits) (w : IsWider limits wider) where
  read_id-IsWider :
      (code : ℕ) (input : List ℕ) (read : List ℕ × ℕ × List ℕ)
      → read_id codec limits code input ≡ ok read
      → read_id codec wider code input ≡ ok read
  unfolding read_id
  read_id-IsWider code input read h = ground arith

  read_attributes-IsWider :
      (count logical : ℕ) (input : List ℕ) (read : List ProtocolAttribute × List ℕ)
      → read_attributes codec limits count logical input ≡ ok read
      → read_attributes codec wider count logical input ≡ ok read
  unfolding read_attributes
  read_attributes-IsWider zero logical input read h = h
  read_attributes-IsWider (suc count) logical input read h =
      let ((tag, after_tag), tagged, h1) = >>=-eq-ok (read_varint_32 input) _ h in
      let ((id, id_bytes, after_id), named, h2) =
        >>=-eq-ok (read_id codec limits (tag / 2) after_tag) _ h1 in
      let ((value_bytes, rest), valued, h3) = >>=-eq-ok (read_varint_32 after_id) _ h2 in
      let (u, fits, h4) =
        >>=-eq-ok
          (throw_if
            (ltb limits.max_attribute_value_bytes value_bytes || ltb (length rest) value_bytes)
            protocol_violation)
          _ h3 in
      let (u', room, h5) =
        >>=-eq-ok
          (throw_if (ltb limits.max_attribute_bytes (logical + (7 + id_bytes + value_bytes)))
            protocol_violation)
          _ h4 in
      let ((others, left), more, h6) =
        >>=-eq-ok
          (read_attributes codec limits count (logical + (7 + id_bytes + value_bytes))
            (drop value_bytes rest))
          _ h5 in
      let fits' : (ltb wider.max_attribute_value_bytes value_bytes || ltb (length rest) value_bytes)
          ≡ false =
        ground arith in
      let room' : ltb wider.max_attribute_bytes (logical + (7 + id_bytes + value_bytes)) ≡ false =
        ground arith in
      rw
        (
          tagged,
          read_id-IsWider (tag / 2) after_tag (id, id_bytes, after_id) named,
          valued,
          fits',
          room',
          read_attributes-IsWider count (logical + (7 + id_bytes + value_bytes))
              (drop value_bytes rest) (others, left) more,
        )
        h6

  read_area-IsWider :
      (some_attributes : Bool) (input : List ℕ) (read : List ProtocolAttribute × List ℕ)
      → read_area codec limits some_attributes input ≡ ok read
      → read_area codec wider some_attributes input ≡ ok read
  unfolding read_area
  read_area-IsWider false input read h = h
  read_area-IsWider true input read h =
      let ((count, rest), counted, h1) = >>=-eq-ok (read_varint_32 input) _ h in
      let (u, few, h2) =
        >>=-eq-ok (throw_if (count == 0 || ltb limits.max_attributes count) protocol_violation) _
          h1 in
      let few' : (count == 0 || ltb wider.max_attributes count) ≡ false = ground arith in
      rw (counted, few') (read_attributes-IsWider count 0 rest read h2)

  pub decode_compact_frame-IsWider :
      (input : List ℕ) (f : ProtocolFrame)
      → decode_compact_frame codec input limits ≡ ok f
      → decode_compact_frame codec input wider ≡ ok f
  unfolding decode_compact_frame
  decode_compact_frame-IsWider input f h =
      let control = get_u8 input 1 in
      let (u, short, h1) =
        >>=-eq-ok (throw_if (ltb limits.max_frame_bytes (length input)) protocol_violation) _ h in
      let (u', begins, h2) =
        >>=-eq-ok
          (throw_if (ltb (length input) 4 || get_u8 input 0 /= compact_frame_magic)
            protocol_violation)
          _ h1 in
      let (kind, known, h3) = >>=-eq-ok (compact_kind (known_kind (control % 32))) _ h2 in
      let ((stream_id, r1), e1, h4) = >>=-eq-ok (read_varint_64 (drop 2 input)) _ h3 in
      let ((sequence, r2), e2, h5) = >>=-eq-ok (read_varint_64 r1) _ h4 in
      let (u'', positive, h6) = >>=-eq-ok (throw_if (sequence == 0) protocol_violation) _ h5 in
      let ((value, r3), e3, h7) =
        >>=-eq-ok (read_header_value (has_header_value_bit control) r2) _ h6 in
      let ((items, payload), read, h8) =
        >>=-eq-ok (read_area codec limits (has_attributes_bit control) r3) _ h7 in
      let short' : ltb wider.max_frame_bytes (length input) ≡ false = ground arith in
      rw
        (
          short',
          begins,
          known,
          e1,
          e2,
          positive,
          e3,
          read_area-IsWider (has_attributes_bit control) r3 (items, payload) read,
        )
        h8
