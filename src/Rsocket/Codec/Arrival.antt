-- ===== src/Rsocket/Codec/Arrival.antt =====
-- How the receiver sees the parts of a frame that the types share.
use pure_reactive_protocol.Prelude.{
  ℕ, ◌/◌, ◌%◌, ◌≤◌, ◌≡◌, refl, subst, Bool, true, false, ◌&&◌, Option, none, some, List, [], ◌∷◌,
  ◌++◌, length, length-append, take-append, drop-append, ltb, if◌then◌else◌, arith,
}
use pure_reactive_protocol.Failure.{ok, throw_if, range_error, >>=-eq-ok}
use pure_reactive_protocol.Bytes.{set_u16, be16, be16-set_u16}
use pure_reactive_protocol.Core.Attributes.{TextCodec, IsUtf8, IsSendable, well_formed}
use pure_reactive_protocol.Transport.Framing.{set_u24}
use pure_reactive_protocol.Rsocket.Frame.{
  RsocketFrameType, setup, lease, keepalive, request_stream, request_channel, request_n, cancel,
  error, metadata_push, RsocketSetupFields, RsocketFrame, blank_frame, flag_metadata, flag_follows,
  has_flag, without_flag, encode_metadata_data, decode_metadata_data, encode_mime, decode_mime, u24,
  get_u24,
}
use pure_reactive_protocol.Rsocket.Body.{or_empty, some_if_nonempty, decode_token}

-- The setup fields that a SETUP with these flags carries.
abbrev pub arriving_setup : ℕ → Option RsocketSetupFields → Option RsocketSetupFields
arriving_setup flags none = none
arriving_setup flags (some s) = some (record s {
  major = s.major % 65536;
  minor = s.minor % 65536;
  resume_token = if has_flag flags flag_follows then s.resume_token else [];
})

-- The fields that a frame of a type carries, under the flags that it is sent with.
abbrev pub arriving : RsocketFrameType → RsocketFrame → ℕ → RsocketFrame
arriving setup f flags = record (blank_frame setup f.stream_id flags) {
  metadata = f.metadata;
  content = f.content;
  setup_fields = arriving_setup flags f.setup_fields;
}
arriving keepalive f flags = record (blank_frame keepalive f.stream_id flags) {
  last_received_position = f.last_received_position;
  content = f.content;
}
arriving request_n f flags = record (blank_frame request_n f.stream_id flags) {
  request_count = f.request_count;
}
arriving cancel f flags = blank_frame cancel f.stream_id flags
arriving error f flags = record (blank_frame error f.stream_id flags) {
  error_code = f.error_code;
  content = f.content;
}
arriving lease f flags = record (blank_frame lease f.stream_id flags) {
  lease_ttl_ms = f.lease_ttl_ms;
  lease_requests = f.lease_requests;
  metadata = some_if_nonempty (or_empty f.metadata);
}
arriving metadata_push f flags = record (blank_frame metadata_push f.stream_id flags) {
  metadata = f.metadata;
}
arriving request_stream f flags = record (blank_frame request_stream f.stream_id flags) {
  metadata = f.metadata;
  content = f.content;
  initial_request_n = f.initial_request_n;
}
arriving request_channel f flags = record (blank_frame request_channel f.stream_id flags) {
  metadata = f.metadata;
  content = f.content;
  initial_request_n = f.initial_request_n;
}
arriving k f flags = record (blank_frame k f.stream_id flags) {
  metadata = f.metadata;
  content = f.content;
}

-- The flags on the wire.
abbrev pub sent_flags : RsocketFrameType → ℕ → ℕ
sent_flags cancel flags = 0
sent_flags error flags = 0
sent_flags request_n flags = without_flag flags flag_metadata % 1024
sent_flags _ flags = flags % 1024

abbrev pub is_some : Option (List ℕ) → Bool
is_some none = false
is_some (some bytes) = true

-- A caller sets no metadata bit without metadata, and its MIME types are texts that arrive as sent.
abbrev pub IsMime : Option RsocketSetupFields → Type 0
IsMime none = Unit
IsMime (some s) =
    (IsSendable s.metadata_mime_type × (well_formed s.metadata_mime_type ≡ true))
    × (IsSendable s.data_mime_type × (well_formed s.data_mime_type ≡ true))

pub record IsConsistent (f : RsocketFrame) : Type 0 where
  pub no_stray_bit : f.metadata ≡ none → has_flag f.flags flag_metadata ≡ false
  pub mime : IsMime f.setup_fields

pub get_u24-set_u24 : (n : ℕ) (rest : List ℕ) → n ≤ 0xffffff → get_u24 (set_u24 n ++ rest) ≡ n
get_u24-set_u24 n rest h = omega arith

pub decode-encode_metadata_data :
    (metadata : Option (List ℕ)) (content body : List ℕ)
    → encode_metadata_data metadata content ≡ ok body
    → decode_metadata_data (is_some metadata) body ≡ ok (metadata, content)
unfolding encode_metadata_data decode_metadata_data
decode-encode_metadata_data none content body h = ground arith
decode-encode_metadata_data (some metadata) content body h =
    let (size, e, h') = >>=-eq-ok (u24 (length metadata)) _ h in
    let small : length metadata ≤ 0xffffff = unfold u24 in ground arith in
    let prefix : set_u24 (length metadata) ≡ size = unfold u24 in ground arith in
    let same : set_u24 (length metadata) ++ (metadata ++ content) ≡ body = ground arith in
    subst (λ b. decode_metadata_data true b ≡ ok (some metadata, content)) same
      (rw
        (
          get_u24-set_u24 (length metadata) (metadata ++ content) small,
          take-append metadata content,
          drop-append metadata content,
        )
        (ground (arith, length-append metadata content)))

module _ (codec : TextCodec) (utf8 : IsUtf8 codec) where
  pub decode-encode_mime :
      (mime value rest : List ℕ)
      → encode_mime codec mime ≡ ok value
      → IsSendable mime
      → well_formed mime ≡ true
      → decode_mime codec (value ++ rest) ≡ ok (mime, rest)
  unfolding encode_mime decode_mime
  decode-encode_mime mime value rest h sendable good =
      let text = codec.encode mime in
      let same : length text ∷ text ≡ value = ground arith in
      let decoded : codec.decode_strict text ≡ some mime =
        utf8.decode-encode mime sendable.is_text good sendable.no_bom in
      subst (λ b. decode_mime codec (b ++ rest) ≡ ok (mime, rest)) same
        (rw (take-append text rest, drop-append text rest, decoded)
          (ground (arith, length-append text rest)))

pub be16-set_u16_mod : (v : ℕ) → be16 ((v / 256) % 256) (v % 256) ≡ v % 65536
unfolding be16
be16-set_u16_mod v = omega arith

pub decode_token_lem :
    (codec : TextCodec) (resumes : Bool) (token rest : List ℕ)
    → throw_if (resumes && ltb 0xffff (length token)) range_error ≡ ok tt
    → decode_token codec resumes ((if resumes then set_u16 (length token) ++ token else []) ++ rest)
      ≡ ok (if resumes then token else [], rest)
unfolding decode_token
decode_token_lem codec false token rest h = refl
decode_token_lem codec true token rest h =
    rw (be16-set_u16 (length token) (ground arith), take-append token rest, drop-append token rest)
      (ground (arith, length-append token rest))

pub from_ok : {x y : List ℕ} → ok x ≡ ok y → x ≡ y
from_ok e = ground arith
