-- ===== src/Rsocket/Codec.antt =====
-- `encodeRSocketFrame` and `decodeRSocketFrame` of src/compatibility/rsocket-v1/codec.ts.
pub mod Arrival
pub mod Sent
pub mod Requests
pub mod Setup
pub mod Plain
pub mod RoundTrip
use pure_reactive_protocol.Prelude.{
  ℕ, ◌+◌, ◌*◌, ◌/◌, ◌%◌, ◌||◌, Option, none, some, List, ◌++◌, length, drop, ltb,
}
use pure_reactive_protocol.Failure.{Result, ok, ◌>>=◌, ◌>>◌, throw_if, range_error}
use pure_reactive_protocol.Bytes.{set_u16, set_u32, get_u16, get_u32}
use pure_reactive_protocol.Transport.Framing.{rsocket_max_frame_bytes}
use pure_reactive_protocol.Core.Attributes.{TextCodec}
use pure_reactive_protocol.Rsocket.Frame.{
  RsocketFrame, rsocket_header_bytes, type_code, type_of_code, max_u31, flag_metadata, with_flag,
  rsocket_violation,
}
use pure_reactive_protocol.Rsocket.Body.{encode_body, decode_body}

-- `flags` with the metadata bit set if there is metadata.
abbrev pub own_flags : Option (List ℕ) → ℕ → ℕ
own_flags none flags = flags
own_flags (some metadata) flags = with_flag flags flag_metadata

unfoldable pub write_rsocket_header : RsocketFrame → ℕ → List ℕ
write_rsocket_header f flags =
    set_u32 f.stream_id ++ set_u16 (type_code f.frame_type * 1024 + flags % 1024)

module _ (codec : TextCodec) where
  unfoldable pub encode_rsocket_frame : RsocketFrame → Result (List ℕ)
  encode_rsocket_frame f = do
    throw_if (ltb max_u31 f.stream_id) range_error
    (body, flags) ← encode_body codec f.frame_type f (own_flags f.metadata f.flags)
    throw_if (ltb rsocket_max_frame_bytes (rsocket_header_bytes + length body)) range_error
    ok (write_rsocket_header f flags ++ body)

  unfoldable pub decode_rsocket_frame : List ℕ → Result RsocketFrame
  decode_rsocket_frame input = do
    throw_if (ltb (length input) rsocket_header_bytes || ltb rsocket_max_frame_bytes (length input))
        rsocket_violation
    throw_if (ltb max_u31 (get_u32 input 0)) rsocket_violation
    decode_body codec (type_of_code (get_u16 input 4 / 1024)) (get_u32 input 0)
        (get_u16 input 4 % 1024) (drop 6 input)
