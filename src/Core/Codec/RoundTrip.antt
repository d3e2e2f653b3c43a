-- ===== src/Core/Codec/RoundTrip.antt =====
-- A frame that the encoder accepts is decoded to itself.
use pure_reactive_protocol.Prelude.{
  ℕ, ◌+◌, ◌≤◌, ◌≡◌, refl, ◌||◌, List, ◌++◌, All, length, length-append, drop, take-append,
  drop-append, drop-add, ltb, leb, arith,
}
use pure_reactive_protocol.Failure.{ok, throw_if, >>=-eq-ok, range_error}
use pure_reactive_protocol.Bytes.{be16, be32, be32-set_u32, get_u64-set_u64}
use pure_reactive_protocol.Core.Limits.{ProtocolLimits, max_u32, max_u64}
use pure_reactive_protocol.Core.Limits.Exchange.{IsResolved}
use pure_reactive_protocol.Core.Attributes.{TextCodec, IsUtf8, IsSendable}
use pure_reactive_protocol.Core.Frame.{
  FrameKind, hello, kind_code, known_kind-kind_code, ProtocolFrame,
}
use pure_reactive_protocol.Core.Codec.Tlv.{encode_attributes}
use pure_reactive_protocol.Core.Codec.TlvRoundTrip.{
  decode-encode_attributes, length-encode_attributes,
}
use pure_reactive_protocol.Core.Codec.Validate.{bad_shape, validate_frame}
use pure_reactive_protocol.Core.Codec.Frames.{
  Header, header_value, write_header, read_header, check_header, finish_frame, encode_frame,
  decode_frame,
}

-- The header that a frame is sent under.
abbrev header_of : ProtocolFrame → ℕ → Header
header_of f attribute_bytes = record {
  magic = 0x50525031;
  major = 1;
  minor = 0;
  kind_value = kind_code f.kind;
  flags = f.flags;
  header_bytes = 36;
  stream_id = f.stream_id;
  sequence = f.sequence;
  value = header_value f;
  attribute_bytes = attribute_bytes;
  reserved = 0;
}

header_value_bound : (f : ProtocolFrame) → validate_frame f ≡ ok tt → header_value f ≤ max_u32
unfolding validate_frame header_value
header_value_bound f h = ground arith

read-write_header :
    (f : ProtocolFrame) (n : ℕ) (rest : List ℕ)
    → f.stream_id ≤ max_u64
    → f.sequence ≤ max_u64
    → header_value f ≤ max_u32
    → n ≤ max_u32
    → read_header (write_header f n ++ rest) ≡ header_of f n
unfolding read_header write_header
read-write_header f n rest hs hq hv hn =
    rw
      (
        get_u64-set_u64 f.stream_id (omega arith),
        get_u64-set_u64 f.sequence (omega arith),
        be32-set_u32 (header_value f) (omega arith),
        be32-set_u32 n (omega arith),
      )
      (unfold be16 be32 in refl)

-- What follows the header, and where the header ends.
drop-write_header :
    (f : ProtocolFrame) (n : ℕ) (rest : List ℕ) → drop 36 (write_header f n ++ rest) ≡ rest
unfolding write_header
drop-write_header f n rest = refl

length-write_header :
    (f : ProtocolFrame) (n : ℕ) (rest : List ℕ)
    → length (write_header f n ++ rest) ≡ 36 + length rest
unfolding write_header
length-write_header f n rest = omega arith

finish_header_of :
    (k : FrameKind) (f : ProtocolFrame) (n : ℕ)
    → f.kind ≡ k
    → validate_frame f ≡ ok tt
    → finish_frame k (header_of f n) f.attributes f.payload ≡ ok f
unfolding finish_frame header_value bad_shape validate_frame
finish_header_of hello f n e h = ground arith
finish_header_of _ f n e h = ground arith

check_header_of :
    (f : ProtocolFrame) (n : ℕ) → 1 ≤ f.sequence → check_header (header_of f n) ≡ ok f.kind
unfolding check_header
check_header_of f n pos = rw known_kind-kind_code (ground arith)

-- What the checks of `encodeFrame` establish.
pub record IsEncodable (limits : ProtocolLimits) (f : ProtocolFrame) (area : List ℕ) : Type 0 where
  stream_fits : f.stream_id ≤ max_u64
  sequence_pos : 1 ≤ f.sequence
  sequence_fits : f.sequence ≤ max_u64
  valid : validate_frame f ≡ ok tt
  frame_fits : 36 + length area + length f.payload ≤ limits.max_frame_bytes

module _ (codec : TextCodec) where
  pub encode_frame-eq-ok :
      (limits : ProtocolLimits) (f : ProtocolFrame) (bs : List ℕ)
      → encode_frame codec f limits ≡ ok bs
      → (area : List ℕ) × (encode_attributes codec f.attributes limits ≡ ok area)
        × IsEncodable limits f area
        × (bs ≡ write_header f (length area) ++ (area ++ f.payload))
  unfolding encode_frame
  encode_frame-eq-ok limits f bs h =
      let (u1, c1, h1) = >>=-eq-ok (throw_if (ltb max_u64 f.stream_id) range_error) _ h in
      let (u2, c2, h2) =
        >>=-eq-ok (throw_if (leb f.sequence 0 || ltb max_u64 f.sequence) range_error) _ h1 in
      let (u3, c3, h3) = >>=-eq-ok (validate_frame f) _ h2 in
      let (area, c4, h4) = >>=-eq-ok (encode_attributes codec f.attributes limits) _ h3 in
      (area, c4, ground arith, ground arith)

  decode_written :
      (utf8 : IsUtf8 codec) (limits : ProtocolLimits) (f : ProtocolFrame) (area : List ℕ)
      → IsResolved limits
      → All (λ item. IsSendable item.id) f.attributes
      → encode_attributes codec f.attributes limits ≡ ok area
      → IsEncodable limits f area
      → decode_frame codec (write_header f (length area) ++ (area ++ f.payload)) limits ≡ ok f
  unfolding decode_frame
  decode_written utf8 limits f area r sendable e v =
      let small = length-encode_attributes codec limits f.attributes area e in
      rw
        (
          read-write_header f (length area) (area ++ f.payload) v.stream_fits v.sequence_fits
              (header_value_bound f v.valid) (omega arith),
          drop-add 36 (length area) (write_header f (length area) ++ (area ++ f.payload)),
          drop-write_header f (length area) (area ++ f.payload),
          length-write_header f (length area) (area ++ f.payload),
          take-append area f.payload,
          drop-append area f.payload,
          check_header_of f (length area) v.sequence_pos,
          decode-encode_attributes codec utf8 limits f.attributes area r sendable e,
          length-append area f.payload,
        )
        (ground (arith, finish_header_of f.kind f (length area) refl v.valid))

  -- Under resolved limits, bytes that `encodeFrame` returns for a frame with sendable attribute ids
  -- are within the frame bound, and `decodeFrame` returns that frame for them.
  pub decode-encode_frame :
      (utf8 : IsUtf8 codec) (limits : ProtocolLimits) (f : ProtocolFrame) (bs : List ℕ)
      → IsResolved limits
      → All (λ item. IsSendable item.id) f.attributes
      → encode_frame codec f limits ≡ ok bs
      → (length bs ≤ limits.max_frame_bytes) × (decode_frame codec bs limits ≡ ok f)
  decode-encode_frame utf8 limits f bs r sendable h =
      let (area, e, v, same) = encode_frame-eq-ok limits f bs h in
      rw same (
        omega (
          arith,
          length-write_header f (length area) (area ++ f.payload),
          length-append area f.payload,
        ),
        decode_written utf8 limits f area r sendable e v,
      )
