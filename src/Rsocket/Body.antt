-- ===== src/Rsocket/Body.antt =====
-- The cases of `encodeRSocketFrame` and `decodeRSocketFrame`: what follows the header, by type.
use pure_reactive_protocol.Prelude.{
  ℕ, ◌+◌, Bool, true, false, ◌&&◌, ◌||◌, not, Option, none, some, List, [], ◌∷◌, ◌++◌, length, take,
  drop, ltb, leb, ◌==◌, ◌/=◌, if◌then◌else◌,
}
use pure_reactive_protocol.Failure.{Result, ok, err, ◌>>=◌, ◌>>◌, throw_if, range_error}
use pure_reactive_protocol.Bytes.{set_u16, set_u32, set_u64, get_u16, get_u32, get_u64}
use pure_reactive_protocol.Core.Limits.{max_u32}
use pure_reactive_protocol.Core.Attributes.{TextCodec}
use pure_reactive_protocol.Rsocket.Frame.{
  RsocketFrameType, setup, lease, keepalive, request_response, request_fnf, request_stream,
  request_channel, request_n, cancel, payload, error, metadata_push, other, RsocketSetupFields,
  RsocketFrame, blank_frame, max_u31, flag_ignore, flag_metadata, flag_follows, flag_complete,
  flag_next, has_flag, with_flag, without_flag, encode_metadata_data, decode_metadata_data,
  encode_mime, decode_mime, rsocket_violation,
}

-- A number from 1 to 2^31-1, for a sender and for a receiver.
abbrev pub require_u31 : ℕ → Result (Unit {0})
require_u31 n = throw_if (leb n 0 || ltb max_u31 n) range_error

abbrev pub check_u31 : ℕ → Result (Unit {0})
check_u31 n = throw_if (ltb max_u31 n || n == 0) rsocket_violation

abbrev pub or_empty : Option (List ℕ) → List ℕ
or_empty none = []
or_empty (some bytes) = bytes

-- A body with the flags of the frame.
abbrev pub Body : Type 0
Body = List ℕ × ℕ

abbrev pub request_body : RsocketFrame → ℕ → Result Body
request_body f flags = do
  throw_if (f.stream_id == 0) range_error
  body ← encode_metadata_data f.metadata f.content
  ok (body, flags)

abbrev pub counted_request_body : RsocketFrame → ℕ → Result Body
counted_request_body f flags = do
  throw_if (f.stream_id == 0) range_error
  require_u31 f.initial_request_n
  body ← encode_metadata_data f.metadata f.content
  ok (set_u32 f.initial_request_n ++ body, flags)

module _ (codec : TextCodec) where
  -- `encodeSetupBody`.
  unfoldable pub encode_setup_body :
      RsocketSetupFields → Option (List ℕ) → List ℕ → ℕ → Result (List ℕ)
  encode_setup_body s metadata content flags = do
    metadata_mime ← encode_mime codec s.metadata_mime_type
    data_mime ← encode_mime codec s.data_mime_type
    throw_if (has_flag flags flag_follows && ltb 0xffff (length s.resume_token)) range_error
    tail ← encode_metadata_data metadata content
    require_u31 s.keep_alive_ms
    require_u31 s.lifetime_ms
    let token =
        if has_flag flags flag_follows
        then set_u16 (length s.resume_token) ++ s.resume_token
        else []
    ok (
        set_u16 s.major
        ++ (set_u16 s.minor
            ++ (set_u32 s.keep_alive_ms
                ++ (set_u32 s.lifetime_ms ++ (token ++ (metadata_mime ++ (data_mime ++ tail)))))))

  unfoldable pub setup_body : RsocketFrame → ℕ → Option RsocketSetupFields → Result Body
  setup_body f flags none = err range_error
  setup_body f flags (some s) = do
    throw_if (f.stream_id /= 0) range_error
    body ← encode_setup_body s f.metadata f.content flags
    ok (body, flags)

  unfoldable pub metadata_push_body : RsocketFrame → ℕ → Option (List ℕ) → Result Body
  metadata_push_body f flags none = err range_error
  metadata_push_body f flags (some metadata) = do
    throw_if (f.stream_id /= 0) range_error
    ok (metadata, with_flag flags flag_metadata)

  unfoldable pub encode_body : RsocketFrameType → RsocketFrame → ℕ → Result Body
  unfolding setup_body metadata_push_body
  encode_body setup f flags = setup_body f flags f.setup_fields
  encode_body keepalive f flags = do
    throw_if (f.stream_id /= 0) range_error
    throw_if (ltb 0x7fffffffffffffff f.last_received_position) range_error
    ok (set_u64 f.last_received_position ++ f.content, flags)
  encode_body request_response f flags = request_body f flags
  encode_body request_fnf f flags = request_body f flags
  encode_body request_stream f flags = counted_request_body f flags
  encode_body request_channel f flags = counted_request_body f flags
  encode_body request_n f flags = do
    throw_if (f.stream_id == 0) range_error
    require_u31 f.request_count
    ok (set_u32 f.request_count, without_flag flags flag_metadata)
  encode_body cancel f flags = do throw_if (f.stream_id == 0) range_error; ok ([], 0)
  encode_body payload f flags = do
    throw_if (f.stream_id == 0) range_error
    throw_if (not (has_flag flags flag_next) && not (has_flag flags flag_complete)) range_error
    body ← encode_metadata_data f.metadata f.content
    ok (body, flags)
  encode_body error f flags = do
    throw_if (ltb max_u32 f.error_code) range_error
    ok (set_u32 f.error_code ++ f.content, 0)
  encode_body lease f flags = do
    throw_if (f.stream_id /= 0) range_error
    require_u31 f.lease_ttl_ms
    require_u31 f.lease_requests
    ok (set_u32 f.lease_ttl_ms ++ (set_u32 f.lease_requests ++ or_empty f.metadata), flags)
  encode_body metadata_push f flags = metadata_push_body f flags f.metadata
  encode_body (other n) f flags = err range_error

  -- The resume token of a SETUP, and what follows it.
  unfoldable pub decode_token : Bool → List ℕ → Result (List ℕ × List ℕ)
  decode_token false input = ok ([], input)
  decode_token true input = do
    throw_if (ltb (length input) 2) rsocket_violation
    let token_length = get_u16 input 0
    throw_if (ltb (length input) (2 + token_length)) rsocket_violation
    ok (take token_length (drop 2 input), drop token_length (drop 2 input))

  unfoldable pub decode_setup : ℕ → ℕ → List ℕ → Result RsocketFrame
  decode_setup stream_id flags input = do
    throw_if (stream_id /= 0 || ltb (length input) 12) rsocket_violation
    check_u31 (get_u32 input 4)
    check_u31 (get_u32 input 8)
    (token, after_token) ← decode_token (has_flag flags flag_follows) (drop 12 input)
    (metadata_mime, after_mime) ← decode_mime codec after_token
    (data_mime, rest) ← decode_mime codec after_mime
    (metadata, content) ← decode_metadata_data (has_flag flags flag_metadata) rest
    ok (record (blank_frame setup stream_id flags) {
      metadata = metadata;
      content = content;
      setup_fields = some (record {
        major = get_u16 input 0;
        minor = get_u16 input 2;
        keep_alive_ms = get_u32 input 4;
        lifetime_ms = get_u32 input 8;
        metadata_mime_type = metadata_mime;
        data_mime_type = data_mime;
        resume_token = token;
      });
    })

-- REQUEST_RESPONSE and REQUEST_FNF, and with a count REQUEST_STREAM and REQUEST_CHANNEL.
abbrev pub decode_request : RsocketFrameType → ℕ → ℕ → List ℕ → Result RsocketFrame
decode_request frame_type stream_id flags input = do
  throw_if (stream_id == 0) rsocket_violation
  (metadata, content) ← decode_metadata_data (has_flag flags flag_metadata) input
  ok (record (blank_frame frame_type stream_id flags) { metadata = metadata; content = content })

abbrev pub decode_counted_request : RsocketFrameType → ℕ → ℕ → List ℕ → Result RsocketFrame
decode_counted_request frame_type stream_id flags input = do
  throw_if (stream_id == 0 || ltb (length input) 4) rsocket_violation
  check_u31 (get_u32 input 0)
  (metadata, content) ← decode_metadata_data (has_flag flags flag_metadata) (drop 4 input)
  ok (record (blank_frame frame_type stream_id flags) {
    metadata = metadata;
    content = content;
    initial_request_n = get_u32 input 0;
  })

abbrev pub some_if_nonempty : List ℕ → Option (List ℕ)
some_if_nonempty [] = none
some_if_nonempty (b ∷ bs) = some (b ∷ bs)

unfoldable pub decode_body : TextCodec → RsocketFrameType → ℕ → ℕ → List ℕ → Result RsocketFrame
decode_body codec setup stream_id flags input = decode_setup codec stream_id flags input
decode_body codec keepalive stream_id flags input = do
  throw_if (stream_id /= 0 || ltb (length input) 8) rsocket_violation
  throw_if (ltb 0x7fffffffffffffff (get_u64 input 0)) rsocket_violation
  ok (record (blank_frame keepalive stream_id flags) {
    last_received_position = get_u64 input 0;
    content = drop 8 input;
  })
decode_body codec request_response stream_id flags input =
    decode_request request_response stream_id flags input
decode_body codec request_fnf stream_id flags input =
    decode_request request_fnf stream_id flags input
decode_body codec request_stream stream_id flags input =
    decode_counted_request request_stream stream_id flags input
decode_body codec request_channel stream_id flags input =
    decode_counted_request request_channel stream_id flags input
decode_body codec request_n stream_id flags input = do
  throw_if (stream_id == 0 || length input /= 4) rsocket_violation
  check_u31 (get_u32 input 0)
  ok (record (blank_frame request_n stream_id flags) { request_count = get_u32 input 0 })
decode_body codec cancel stream_id flags input = do
  throw_if (stream_id == 0 || length input /= 0) rsocket_violation
  ok (blank_frame cancel stream_id flags)
decode_body codec payload stream_id flags input = do
  throw_if (stream_id == 0) rsocket_violation
  throw_if (not (has_flag flags flag_next) && not (has_flag flags flag_complete)) rsocket_violation
  (metadata, content) ← decode_metadata_data (has_flag flags flag_metadata) input
  ok (record (blank_frame payload stream_id flags) { metadata = metadata; content = content })
decode_body codec error stream_id flags input = do
  throw_if (ltb (length input) 4) rsocket_violation
  ok (record (blank_frame error stream_id flags) {
    error_code = get_u32 input 0;
    content = drop 4 input;
  })
decode_body codec lease stream_id flags input = do
  throw_if (stream_id /= 0 || ltb (length input) 8) rsocket_violation
  check_u31 (get_u32 input 0)
  check_u31 (get_u32 input 4)
  ok (record (blank_frame lease stream_id flags) {
    lease_ttl_ms = get_u32 input 0;
    lease_requests = get_u32 input 4;
    metadata = some_if_nonempty (drop 8 input);
  })
decode_body codec metadata_push stream_id flags input = do
  throw_if (stream_id /= 0 || not (has_flag flags flag_metadata)) rsocket_violation
  ok (record (blank_frame metadata_push stream_id flags) { metadata = some input })
decode_body codec (other n) stream_id flags input = do
  throw_if (not (has_flag flags flag_ignore)) rsocket_violation
  ok (record (blank_frame (other n) stream_id flags) { content = input })
