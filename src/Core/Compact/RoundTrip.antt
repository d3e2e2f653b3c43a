-- ===== src/Core/Compact/RoundTrip.antt =====
-- A compact frame that the encoder accepts is decoded to itself.
use pure_reactive_protocol.Prelude.{
  ℕ, ◌+◌, ◌%◌, ◌≤◌, ◌<◌, ◌≡◌, refl, subst, true, false, ◌||◌, not, List, [], ◌∷◌, ◌++◌,
  append_assoc, All, length, length-append, ltb, leb, ◌==◌, if◌then◌else◌, arith, Bool-cases, inl,
  inr,
}
use pure_reactive_protocol.Failure.{ok, throw_if, >>=-eq-ok, range_error, protocol_violation}
use pure_reactive_protocol.Core.Limits.{ProtocolLimits, max_u32, max_u64}
use pure_reactive_protocol.Core.Limits.Exchange.{IsResolved}
use pure_reactive_protocol.Core.Attributes.{ProtocolAttribute, TextCodec, IsUtf8, IsSendable}
use pure_reactive_protocol.Core.Frame.{
  FrameKind, hello, kind_code, known_kind, known_kind-kind_code, ProtocolFrame,
}
use pure_reactive_protocol.Core.Codec.Validate.{bad_shape, validate_frame, has_fragmented_flag}
use pure_reactive_protocol.Core.Compact.Varint.{
  varint_bytes, count_groups, write_varint, read-write_varint_32, read-write_varint_64,
  length-write_varint,
}
use pure_reactive_protocol.Core.Compact.Dictionary.{
  PreparedAttribute, encoded_bytes, write_area, write_all_prepared, prepare_attributes,
  read_attributes,
}
use pure_reactive_protocol.Core.Compact.Dictionary.RoundTrip.{
  read_attributes_lem, length-write_area,
}
use pure_reactive_protocol.Core.Compact.Frames.{
  is_handshake, compact_header_value, control_byte, compact_kind, has_attributes_bit,
  has_header_value_bit, has_fragmented_bit, read_header_value, finish_compact_frame,
  encode_compact_frame, read_area, decode_compact_frame, compact_frame_magic,
}

kind_code_bound : (k : FrameKind) → kind_code k < 32
kind_code_bound hello = omega arith
kind_code_bound _ = omega arith

compact_header_value_bound :
    (f : ProtocolFrame) → validate_frame f ≡ ok tt → compact_header_value f ≤ max_u32
unfolding validate_frame
compact_header_value_bound f h = ground arith

-- The parts of the second byte.
control_parts :
    (f : ProtocolFrame)
    → (control_byte f % 32 ≡ kind_code f.kind)
      × (has_attributes_bit (control_byte f) ≡ not (length f.attributes == 0))
      × (has_header_value_bit (control_byte f) ≡ not (compact_header_value f == 0))
      × (has_fragmented_bit (control_byte f) ≡ has_fragmented_flag f.flags)
control_parts f = ground (arith, kind_code_bound f.kind)

compact_kind-kind_code :
    (k : FrameKind) → is_handshake k ≡ false → compact_kind (known_kind (kind_code k)) ≡ ok k
compact_kind-kind_code k h = rw (known_kind-kind_code, h) refl

finish_compact_of :
    (k : FrameKind) (f : ProtocolFrame)
    → f.kind ≡ k
    → validate_frame f ≡ ok tt
    → finish_compact_frame k f.stream_id f.sequence
        (compact_header_value f)
        (has_fragmented_flag f.flags)
        f.attributes
        f.payload
      ≡ ok f
unfolding finish_compact_frame validate_frame bad_shape
finish_compact_of hello f e h = ground arith
finish_compact_of _ f e h = ground arith

read-header_value :
    (v : ℕ) (rest : List ℕ)
    → v ≤ max_u32
    → read_header_value (not (v == 0)) ((if v == 0 then [] else write_varint v) ++ rest)
      ≡ ok (v, rest)
unfolding read_header_value
read-header_value v rest h = elim (Bool-cases (v == 0)) [
  | inl none' ↦ ground arith
  | inr some' ↦ rw (some', read-write_varint_32 v rest (omega arith)) (ground arith)
]

varint_bytes_pos : (v : ℕ) → 1 ≤ varint_bytes v
unfolding varint_bytes count_groups
varint_bytes_pos v = ground arith

module _ (codec : TextCodec) (utf8 : IsUtf8 codec) (limits : ProtocolLimits)
    (r : IsResolved limits) where
  area_read :
      (items : List ProtocolAttribute) (ps : List PreparedAttribute) (tail : List ℕ)
      → length items ≤ limits.max_attributes
      → length ps ≡ length items
      → read_attributes codec limits (length ps) 0 (write_all_prepared ps ++ tail)
        ≡ ok (items, tail)
      → read_area codec limits (not (length items == 0)) (write_area ps ++ tail) ≡ ok (items, tail)
  unfolding read_area write_area
  area_read [] [] tail few count read = refl
  area_read [] (p ∷ ps) tail few count read = absurd (omega (arith, count))
  area_read (item ∷ items) [] tail few count read = absurd (omega (arith, count))
  area_read (item ∷ items) (p ∷ ps) tail few count read =
      let some' : not (length (item ∷ items) == 0) ≡ true = ground arith in
      rw
        (
          some',
          append_assoc (write_varint (length (p ∷ ps))) (write_all_prepared (p ∷ ps)) tail,
          read-write_varint_32 (length (p ∷ ps)) (write_all_prepared (p ∷ ps) ++ tail)
              (omega (arith, r.count_fits)),
        )
        (ground arith)

  read-write_area :
      (items : List ProtocolAttribute) (ps : List PreparedAttribute) (tail : List ℕ)
      → prepare_attributes codec items limits ≡ ok ps
      → All (λ item. IsSendable item.id) items
      → read_area codec limits (not (length items == 0)) (write_area ps ++ tail) ≡ ok (items, tail)
  unfolding prepare_attributes
  read-write_area items ps tail made sendable =
      let (u1, c1, h1) =
        >>=-eq-ok (throw_if (ltb limits.max_attributes (length items)) range_error) _ made in
      let (count, read) = read_attributes_lem codec utf8 limits r items ps 0 tail h1 sendable in
      area_read items ps tail (ground arith) count read

  -- What the encoder writes after the first two bytes.
  abbrev body : ProtocolFrame → List PreparedAttribute → List ℕ
  body f ps =
      write_varint f.stream_id
      ++ (write_varint f.sequence
          ++ ((if compact_header_value f == 0 then [] else write_varint (compact_header_value f))
              ++ (write_area ps ++ f.payload)))

  length-body :
      (f : ProtocolFrame) (ps : List PreparedAttribute)
      → length (body f ps)
        ≡ varint_bytes f.stream_id
          + varint_bytes f.sequence
          + (if compact_header_value f == 0 then 0 else varint_bytes (compact_header_value f))
          + encoded_bytes ps
          + length f.payload
  length-body f ps =
      let v = compact_header_value f in
      ground (
        arith,
        length-append (write_varint f.stream_id) (
            write_varint f.sequence
            ++ ((if v == 0 then [] else write_varint v) ++ (write_area ps ++ f.payload))),
        length-append (write_varint f.sequence)
            ((if v == 0 then [] else write_varint v) ++ (write_area ps ++ f.payload)),
        length-append (if v == 0 then [] else write_varint v) (write_area ps ++ f.payload),
        length-append (write_area ps) f.payload,
        length-write_varint f.stream_id,
        length-write_varint f.sequence,
        length-write_varint v,
        length-write_area ps,
      )

  decode_written_compact :
      (f : ProtocolFrame) (ps : List PreparedAttribute)
      → is_handshake f.kind ≡ false
      → f.stream_id ≤ max_u64
      → 1 ≤ f.sequence
      → f.sequence ≤ max_u64
      → validate_frame f ≡ ok tt
      → prepare_attributes codec f.attributes limits ≡ ok ps
      → All (λ item. IsSendable item.id) f.attributes
      → 2 + length (body f ps) ≤ limits.max_frame_bytes
      → decode_compact_frame codec (compact_frame_magic ∷ control_byte f ∷ body f ps) limits ≡ ok f
  unfolding decode_compact_frame
  decode_written_compact f ps kind hs pos hq valid made sendable fits =
      let v = compact_header_value f in
      let (p1, p2, p3, p4) = control_parts f in
      rw
        (
          p1,
          p2,
          p3,
          p4,
          compact_kind-kind_code f.kind kind,
          read-write_varint_64 f.stream_id
              (write_varint f.sequence
                ++ ((if v == 0 then [] else write_varint v) ++ (write_area ps ++ f.payload)))
              (omega arith),
          read-write_varint_64 f.sequence
              ((if v == 0 then [] else write_varint v) ++ (write_area ps ++ f.payload))
              (omega arith),
          read-header_value v (write_area ps ++ f.payload) (compact_header_value_bound f valid),
          read-write_area f.attributes ps f.payload made sendable,
          finish_compact_of f.kind f refl valid,
        )
        (ground
          (arith, length-body f ps, varint_bytes_pos f.stream_id, varint_bytes_pos f.sequence))

  -- Under resolved limits, bytes that `encodeCompactFrame` returns for a frame with sendable
  -- attribute ids are within the frame bound, and `decodeCompactFrame` returns that frame for them.
  pub decode-encode_compact_frame :
      (f : ProtocolFrame) (bs : List ℕ)
      → All (λ item. IsSendable item.id) f.attributes
      → encode_compact_frame codec f limits ≡ ok bs
      → (length bs ≤ limits.max_frame_bytes) × (decode_compact_frame codec bs limits ≡ ok f)
  unfolding encode_compact_frame
  decode-encode_compact_frame f bs sendable h =
      let (u0, c0, h0) = >>=-eq-ok (throw_if (is_handshake f.kind) protocol_violation) _ h in
      let (u1, c1, h1) = >>=-eq-ok (throw_if (ltb max_u64 f.stream_id) range_error) _ h0 in
      let (u2, c2, h2) =
        >>=-eq-ok (throw_if (leb f.sequence 0 || ltb max_u64 f.sequence) range_error) _ h1 in
      let (u3, c3, h3) = >>=-eq-ok (validate_frame f) _ h2 in
      let (ps, c4, h4) = >>=-eq-ok (prepare_attributes codec f.attributes limits) _ h3 in
      let same : compact_frame_magic ∷ control_byte f ∷ body f ps ≡ bs = ground arith in
      let fits : 2 + length (body f ps) ≤ limits.max_frame_bytes =
        ground (arith, length-body f ps) in
      subst
        (λ s. (length s ≤ limits.max_frame_bytes) × (decode_compact_frame codec s limits ≡ ok f))
        same
        (
          omega (arith, fits),
          decode_written_compact f ps (ground arith) (ground arith) (ground arith) (ground arith) c3
              c4 sendable fits,
        )
