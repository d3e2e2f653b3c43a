-- ===== src/Rsocket/Codec/RoundTrip.antt =====
-- What the peer sees of a frame that was encoded.
use pure_reactive_protocol.Prelude.{
  ℕ, ◌+◌, ◌*◌, ◌/◌, ◌%◌, ◌≤◌, ◌<◌, ◌≡◌, refl, subst, ap, ◌∙◌, Option, none, some, List, ◌++◌,
  length, ltb, arith,
}
use pure_reactive_protocol.Failure.{ok, throw_if, range_error, from_ok, >>=-eq-ok}
use pure_reactive_protocol.Bytes.{be16-set_u16, be32-set_u32}
use pure_reactive_protocol.Core.Attributes.{TextCodec, IsUtf8}
use pure_reactive_protocol.Transport.Framing.{rsocket_max_frame_bytes}
use pure_reactive_protocol.Rsocket.Frame.{
  RsocketFrameType, setup, lease, keepalive, request_response, request_fnf, request_stream,
  request_channel, request_n, cancel, payload, error, metadata_push, other, type_code, type_of_code,
  RsocketSetupFields, RsocketFrame, max_u31, flag_metadata, has_flag,
}
use pure_reactive_protocol.Rsocket.Body.{encode_body, decode_body, setup_body, metadata_push_body}
use pure_reactive_protocol.Rsocket.Codec.{
  own_flags, write_rsocket_header, encode_rsocket_frame, decode_rsocket_frame,
}
use pure_reactive_protocol.Rsocket.Codec.Arrival.{
  arriving, sent_flags, is_some, IsMime, IsConsistent,
}
use pure_reactive_protocol.Rsocket.Codec.Sent.{Decoded, own_bit}
use pure_reactive_protocol.Rsocket.Codec.Requests.{
  decode_sent_response, decode_sent_fnf, decode_sent_stream, decode_sent_channel,
  decode_sent_payload, push_arrives,
}
use pure_reactive_protocol.Rsocket.Codec.Setup.{setup_arrives}
use pure_reactive_protocol.Rsocket.Codec.Plain.{
  decode_sent_keepalive, decode_sent_request_n, decode_sent_cancel, decode_sent_error,
  decode_sent_lease,
}

module _ (codec : TextCodec) (utf8 : IsUtf8 codec) where
  decode_written :
      (f : RsocketFrame) (flags : ℕ) (body : List ℕ)
      → type_of_code (type_code f.frame_type) ≡ f.frame_type
      → type_code f.frame_type < 64
      → f.stream_id ≤ max_u31
      → 6 + length body ≤ rsocket_max_frame_bytes
      → decode_rsocket_frame codec (write_rsocket_header f flags ++ body)
        ≡ decode_body codec f.frame_type f.stream_id (flags % 1024) body
  unfolding decode_rsocket_frame write_rsocket_header
  decode_written f flags body known small id fits =
      let v = type_code f.frame_type * 1024 + flags % 1024 in
      let code : v / 1024 ≡ type_code f.frame_type = omega arith in
      let low : v % 1024 ≡ flags % 1024 = omega arith in
      rw (be32-set_u32 f.stream_id (omega arith), be16-set_u16 v (omega arith), code, low, known)
        (ground arith)

decode_sent :
    (codec : TextCodec) (f : RsocketFrame) (flags : ℕ) (t : RsocketFrameType)
    → IsUtf8 codec
    → IsMime f.setup_fields
    → has_flag (flags % 1024) flag_metadata ≡ is_some f.metadata
    → (sent : List ℕ × ℕ) → encode_body codec t f flags ≡ ok sent
    → Decoded codec t f sent
unfolding encode_body
decode_sent codec f flags setup utf8 mime bit sent h =
    setup_arrives codec f flags bit f.setup_fields sent utf8 mime refl h
decode_sent codec f flags lease utf8 mime bit sent h = decode_sent_lease codec f flags sent h
decode_sent codec f flags keepalive utf8 mime bit sent h =
    decode_sent_keepalive codec f flags sent h
decode_sent codec f flags request_response utf8 mime bit sent h =
    decode_sent_response codec f flags bit sent h
decode_sent codec f flags request_fnf utf8 mime bit sent h =
    decode_sent_fnf codec f flags bit sent h
decode_sent codec f flags request_stream utf8 mime bit sent h =
    decode_sent_stream codec f flags bit sent h
decode_sent codec f flags request_channel utf8 mime bit sent h =
    decode_sent_channel codec f flags bit sent h
decode_sent codec f flags request_n utf8 mime bit sent h =
    decode_sent_request_n codec f flags sent h
decode_sent codec f flags cancel utf8 mime bit sent h = decode_sent_cancel codec f flags sent h
decode_sent codec f flags payload utf8 mime bit sent h =
    decode_sent_payload codec f flags bit sent h
decode_sent codec f flags error utf8 mime bit sent h = decode_sent_error codec f flags sent h
decode_sent codec f flags metadata_push utf8 mime bit sent h =
    push_arrives codec f flags bit f.metadata sent refl h
decode_sent codec f flags (other n) utf8 mime bit sent h = ground arith

sent_type :
    (codec : TextCodec) (f : RsocketFrame) (flags : ℕ) (t : RsocketFrameType) (sent : List ℕ × ℕ)
    → encode_body codec t f flags ≡ ok sent
    → (type_of_code (type_code t) ≡ t) × (type_code t < 64)
unfolding encode_body type_of_code
sent_type codec f flags (other n) sent h = ground arith
sent_type codec f flags t sent h = (refl, omega arith)

-- The flags that the encoder writes.
setup_flags :
    (codec : TextCodec) (f : RsocketFrame) (flags : ℕ) (fields : Option RsocketSetupFields)
    (sent : List ℕ × ℕ)
    → setup_body codec f flags fields ≡ ok sent
    → sent.1 ≡ flags
unfolding setup_body
setup_flags codec f flags fields sent h = ground arith

push_flags :
    (codec : TextCodec) (f : RsocketFrame) (flags : ℕ) (metadata : Option (List ℕ))
    (sent : List ℕ × ℕ)
    → has_flag (flags % 1024) flag_metadata ≡ is_some metadata
    → metadata_push_body codec f flags metadata ≡ ok sent
    → sent.1 ≡ flags
unfolding metadata_push_body
push_flags codec f flags none sent bit h = ground arith
push_flags codec f flags (some m) sent bit h = ground arith

sent_flags_lem :
    (codec : TextCodec) (f : RsocketFrame) (flags : ℕ) (t : RsocketFrameType)
    → has_flag (flags % 1024) flag_metadata ≡ is_some f.metadata
    → (sent : List ℕ × ℕ) → encode_body codec t f flags ≡ ok sent
    → sent.1 % 1024 ≡ sent_flags t flags
unfolding encode_body
sent_flags_lem codec f flags setup bit sent h =
    ap (λ n. n % 1024) (setup_flags codec f flags f.setup_fields sent h)
sent_flags_lem codec f flags metadata_push bit sent h =
    ap (λ n. n % 1024) (push_flags codec f flags f.metadata sent bit h)
sent_flags_lem codec f flags t bit sent h = ground arith

-- Bytes that `encodeRSocketFrame` returns for a frame, of any type, are within the frame bound, and
-- `decodeRSocketFrame` returns for them the fields that a frame of this type carries, under the
-- flags that it is sent with. The frame has no metadata bit without metadata, and the MIME types of
-- its setup fields are well-formed texts without a leading byte order mark.
pub decode-encode_rsocket_frame :
    (codec : TextCodec) (f : RsocketFrame) (bs : List ℕ)
    → IsUtf8 codec
    → IsConsistent f
    → encode_rsocket_frame codec f ≡ ok bs
    → (length bs ≤ rsocket_max_frame_bytes)
      × (decode_rsocket_frame codec bs
          ≡ ok (arriving f.frame_type f (sent_flags f.frame_type (own_flags f.metadata f.flags))))
unfolding encode_rsocket_frame write_rsocket_header
decode-encode_rsocket_frame codec f bs utf8 c h =
    let flags = own_flags f.metadata f.flags in
    let bit = own_bit f.metadata f.flags c.no_stray_bit in
    let (_, id, h₁) = >>=-eq-ok (throw_if (ltb max_u31 f.stream_id) range_error) _ h in
    let (sent, e, h₂) = >>=-eq-ok (encode_body codec f.frame_type f flags) _ h₁ in
    let (_, fits, h₃) =
      >>=-eq-ok (throw_if (ltb rsocket_max_frame_bytes (6 + length sent.0)) range_error) _ h₂ in
    let (known, small) = sent_type codec f flags f.frame_type sent e in
    let arrives = decode_sent codec f flags f.frame_type utf8 c.mime bit sent e in
    let read =
      decode_written codec utf8 f sent.1 sent.0 known small (ground arith) (ground arith) in
    subst
      (λ b.
        (length b ≤ rsocket_max_frame_bytes)
        × (decode_rsocket_frame codec b
            ≡ ok (arriving f.frame_type f (sent_flags f.frame_type flags))))
      (from_ok h₃)
      (
        ground arith,
        subst
            (λ n.
              decode_rsocket_frame codec (write_rsocket_header f sent.1 ++ sent.0)
              ≡ ok (arriving f.frame_type f n))
            (sent_flags_lem codec f flags f.frame_type bit sent e) (read ∙ arrives),
      )
