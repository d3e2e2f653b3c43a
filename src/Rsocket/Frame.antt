-- ===== src/Rsocket/Frame.antt =====
-- src/compatibility/rsocket-v1/frame.ts, and the fields that src/compatibility/rsocket-v1/codec.ts shares
-- between frame types. An absent number, text or byte array is the neutral value that the code
-- takes for it (`?? 0`, `?? new Uint8Array(0)`); of metadata the code asks if it is there.
use pure_reactive_protocol.Prelude.{
  ℕ, ◌+◌, ◌-◌, ◌*◌, ◌/◌, ◌%◌, Bool, ◌||◌, Option, none, some, List, [], ◌∷◌, ◌++◌, length, take,
  drop, ltb, ◌==◌, if◌then◌else◌, codes,
}
use pure_reactive_protocol.Failure.{
  Failure, coded, Result, ok, err, ◌>>=◌, ◌>>◌, throw_if, range_error,
}
use pure_reactive_protocol.Bytes.{get_u8}
use pure_reactive_protocol.Transport.Framing.{set_u24}
use pure_reactive_protocol.Core.Attributes.{TextCodec}

abbrev pub rsocket_header_bytes : ℕ
rsocket_header_bytes = 6

-- Also the largest stream id and the largest request.
abbrev pub max_u31 : ℕ
max_u31 = 0x7fffffff

-- The types that the codec knows; any other number of six bits is `other`.
pub data RsocketFrameType : Type 0 where
  setup lease keepalive request_response request_fnf request_stream : RsocketFrameType
  request_channel request_n cancel payload error metadata_push : RsocketFrameType
  other : ℕ → RsocketFrameType

abbrev pub type_code : RsocketFrameType → ℕ
type_code setup = 0x01
type_code lease = 0x02
type_code keepalive = 0x03
type_code request_response = 0x04
type_code request_fnf = 0x05
type_code request_stream = 0x06
type_code request_channel = 0x07
type_code request_n = 0x08
type_code cancel = 0x09
type_code payload = 0x0a
type_code error = 0x0b
type_code metadata_push = 0x0c
type_code (other n) = n

unfoldable pub type_of_code : ℕ → RsocketFrameType
type_of_code n =
    if n == 0x01
    then setup
    else if n == 0x02
    then lease
    else if n == 0x03
    then keepalive
    else if n == 0x04
    then request_response
    else if n == 0x05
    then request_fnf
    else if n == 0x06
    then request_stream
    else if n == 0x07
    then request_channel
    else if n == 0x08
    then request_n
    else if n == 0x09
    then cancel
    else if n == 0x0a
    then payload
    else if n == 0x0b
    then error
    else if n == 0x0c
    then metadata_push
    else other n

abbrev pub flag_ignore : ℕ
flag_ignore = 0x200

abbrev pub flag_metadata : ℕ
flag_metadata = 0x100

-- `RSOCKET_FLAG_FOLLOWS`, `RSOCKET_FLAG_RESPOND` and `RSOCKET_FLAG_RESUME` are one bit.
abbrev pub flag_follows : ℕ
flag_follows = 0x80

abbrev pub flag_complete : ℕ
flag_complete = 0x40

abbrev pub flag_next : ℕ
flag_next = 0x20

-- `(flags & bit) !== 0`, `flags |= bit`, `flags &= ~bit`.
abbrev pub has_flag : ℕ → ℕ → Bool
has_flag flags bit = flags / bit % 2 == 1

abbrev pub with_flag : ℕ → ℕ → ℕ
with_flag flags bit = if has_flag flags bit then flags else flags + bit

abbrev pub without_flag : ℕ → ℕ → ℕ
without_flag flags bit = if has_flag flags bit then flags - bit else flags

pub record RsocketSetupFields : Type 0 where
  pub major : ℕ
  pub minor : ℕ
  pub keep_alive_ms : ℕ
  pub lifetime_ms : ℕ
  pub metadata_mime_type : List ℕ
  pub data_mime_type : List ℕ
  pub resume_token : List ℕ

pub record RsocketFrame : Type 0 where
  pub frame_type : RsocketFrameType
  pub stream_id : ℕ
  pub flags : ℕ
  pub metadata : Option (List ℕ)
  pub content : List ℕ
  pub initial_request_n : ℕ
  pub request_count : ℕ
  pub error_code : ℕ
  pub last_received_position : ℕ
  pub setup_fields : Option RsocketSetupFields
  pub lease_ttl_ms : ℕ
  pub lease_requests : ℕ

-- A frame with the fields that every type has.
abbrev pub blank_frame : RsocketFrameType → ℕ → ℕ → RsocketFrame
blank_frame frame_type stream_id flags = record {
  frame_type = frame_type;
  stream_id = stream_id;
  flags = flags;
  metadata = none;
  content = [];
  initial_request_n = 0;
  request_count = 0;
  error_code = 0;
  last_received_position = 0;
  setup_fields = none;
  lease_ttl_ms = 0;
  lease_requests = 0;
}

-- `defaultRSocketSetup`.
abbrev pub default_rsocket_setup : RsocketSetupFields
default_rsocket_setup = record {
  major = 1;
  minor = 0;
  keep_alive_ms = 20000;
  lifetime_ms = 90000;
  metadata_mime_type = codes "message/x.rsocket.composite-metadata.v0";
  data_mime_type = codes "application/json";
  resume_token = [];
}

-- `RSocketProtocolError`.
abbrev pub rsocket_violation : Failure
rsocket_violation = coded (codes "RSOCKET_PROTOCOL_VIOLATION")

-- `u24` and `readU24`.
unfoldable pub u24 : ℕ → Result (List ℕ)
u24 value = do throw_if (ltb 0xffffff value) range_error; ok (set_u24 value)

abbrev pub get_u24 : List ℕ → ℕ
get_u24 bs = get_u8 bs 0 * 65536 + get_u8 bs 1 * 256 + get_u8 bs 2

-- `encodeMetadataData`: metadata, if there is any, behind its length.
unfoldable pub encode_metadata_data : Option (List ℕ) → List ℕ → Result (List ℕ)
unfolding u24
encode_metadata_data none content = ok content
encode_metadata_data (some metadata) content = do
  size ← u24 (length metadata)
  ok (size ++ (metadata ++ content))

-- `decodeMetadataData`, of the part of the frame that is left.
unfoldable pub decode_metadata_data : Bool → List ℕ → Result (Option (List ℕ) × List ℕ)
decode_metadata_data metadata_present input =
    let present = (do
      throw_if (ltb (length input) 3) rsocket_violation
      let metadata_length = get_u24 input
      throw_if (ltb (length input) (3 + metadata_length)) rsocket_violation
      ok (some (take metadata_length (drop 3 input)), drop metadata_length (drop 3 input))) in
    if metadata_present then present else ok (none, input)

module _ (codec : TextCodec) where
  unfoldable pub encode_mime : List ℕ → Result (List ℕ)
  encode_mime mime = do
    let value = codec.encode mime
    throw_if (length value == 0 || ltb 255 (length value)) range_error
    ok (length value ∷ value)

  abbrev or_invalid : Option (List ℕ) → Result (List ℕ)
  or_invalid none = err rsocket_violation
  or_invalid (some text) = ok text

  -- `decodeMime`, with what follows it.
  unfoldable pub decode_mime : List ℕ → Result (List ℕ × List ℕ)
  decode_mime [] = err rsocket_violation
  decode_mime (mime_length ∷ rest) = do
    throw_if (mime_length == 0 || ltb (length rest) mime_length) rsocket_violation
    mime ← or_invalid (codec.decode_strict (take mime_length rest))
    ok (mime, drop mime_length rest)
