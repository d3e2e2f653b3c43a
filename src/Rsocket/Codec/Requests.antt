-- ===== src/Rsocket/Codec/Requests.antt =====
-- The types of frame that carry metadata and content, and METADATA_PUSH.
use pure_reactive_protocol.Prelude.{
  ℕ, ◌%◌, ◌≡◌, sym, true, ◌&&◌, not, Option, none, some, List, ◌++◌, ◌==◌, ◌/=◌, arith,
}
use pure_reactive_protocol.Failure.{ok, throw_if, range_error, >>=-eq-ok}
use pure_reactive_protocol.Bytes.{set_u32, be32-set_u32}
use pure_reactive_protocol.Core.Attributes.{TextCodec}
use pure_reactive_protocol.Rsocket.Frame.{
  RsocketFrameType, request_response, request_fnf, request_stream, request_channel, payload,
  metadata_push, RsocketFrame, flag_metadata, flag_complete, flag_next, has_flag, with_flag,
  encode_metadata_data, decode_metadata_data,
}
use pure_reactive_protocol.Rsocket.Body.{
  request_body, counted_request_body, require_u31, encode_body, decode_body, metadata_push_body,
}
use pure_reactive_protocol.Rsocket.Codec.Arrival.{is_some}
use pure_reactive_protocol.Rsocket.Codec.Sent.{Decoded, to_sent, low_flag, metadata_arrives}

module _ (codec : TextCodec) (f : RsocketFrame) (flags : ℕ)
    (bit : has_flag (flags % 1024) flag_metadata ≡ is_some f.metadata) where
  request_arrives :
      (t : RsocketFrameType)
      → ((body : List ℕ)
          → f.stream_id /= 0 ≡ true
          → decode_metadata_data (has_flag (flags % 1024) flag_metadata) body
            ≡ ok (f.metadata, f.content)
          → Decoded codec t f (body, flags))
      → (sent : List ℕ × ℕ) → request_body f flags ≡ ok sent
      → Decoded codec t f sent
  request_arrives t reads sent h =
      let (u, g, h') = >>=-eq-ok (throw_if (f.stream_id == 0) range_error) _ h in
      let (body, e, h'') = >>=-eq-ok (encode_metadata_data f.metadata f.content) _ h' in
      to_sent codec t f (body, flags) sent h''
        (reads body (ground arith) (metadata_arrives codec f flags bit body e))

  counted_arrives :
      (t : RsocketFrameType)
      → ((body : List ℕ)
          → f.stream_id /= 0 ≡ true
          → require_u31 f.initial_request_n ≡ ok tt
          → decode_metadata_data (has_flag (flags % 1024) flag_metadata) body
            ≡ ok (f.metadata, f.content)
          → Decoded codec t f (set_u32 f.initial_request_n ++ body, flags))
      → (sent : List ℕ × ℕ) → counted_request_body f flags ≡ ok sent
      → Decoded codec t f sent
  counted_arrives t reads sent h =
      let (u, g, h') = >>=-eq-ok (throw_if (f.stream_id == 0) range_error) _ h in
      let (u', g', h'') = >>=-eq-ok (require_u31 f.initial_request_n) _ h' in
      let (body, e, h3) = >>=-eq-ok (encode_metadata_data f.metadata f.content) _ h'' in
      to_sent codec t f (set_u32 f.initial_request_n ++ body, flags) sent h3
        (reads body (ground arith) g' (metadata_arrives codec f flags bit body e))

  pub decode_sent_response :
      (sent : List ℕ × ℕ)
      → encode_body codec request_response f flags ≡ ok sent
      → Decoded codec request_response f sent
  unfolding encode_body decode_body
  decode_sent_response =
      request_arrives request_response (λ body g arrives. rw (arrives) (ground arith))

  pub decode_sent_fnf :
      (sent : List ℕ × ℕ)
      → encode_body codec request_fnf f flags ≡ ok sent
      → Decoded codec request_fnf f sent
  unfolding encode_body decode_body
  decode_sent_fnf = request_arrives request_fnf (λ body g arrives. rw (arrives) (ground arith))

  pub decode_sent_stream :
      (sent : List ℕ × ℕ)
      → encode_body codec request_stream f flags ≡ ok sent
      → Decoded codec request_stream f sent
  unfolding encode_body decode_body
  decode_sent_stream = counted_arrives request_stream (λ body g n arrives.
      rw (be32-set_u32 f.initial_request_n (ground arith), arrives) (ground arith))

  pub decode_sent_channel :
      (sent : List ℕ × ℕ)
      → encode_body codec request_channel f flags ≡ ok sent
      → Decoded codec request_channel f sent
  unfolding encode_body decode_body
  decode_sent_channel = counted_arrives request_channel (λ body g n arrives.
      rw (be32-set_u32 f.initial_request_n (ground arith), arrives) (ground arith))

  pub decode_sent_payload :
      (sent : List ℕ × ℕ)
      → encode_body codec payload f flags ≡ ok sent
      → Decoded codec payload f sent
  unfolding encode_body decode_body
  decode_sent_payload sent h =
      let (u, g, h') = >>=-eq-ok (throw_if (f.stream_id == 0) range_error) _ h in
      let (u', g', h'') =
        >>=-eq-ok
          (throw_if (not (has_flag flags flag_next) && not (has_flag flags flag_complete))
            range_error)
          _ h' in
      let (body, e, h3) = >>=-eq-ok (encode_metadata_data f.metadata f.content) _ h'' in
      let arrives = metadata_arrives codec f flags bit body e in
      let (next, complete, follows) = low_flag flags in
      to_sent codec payload f (body, flags) sent h3 (rw (arrives, next, complete) (ground arith))

  pub push_arrives :
      (metadata : Option (List ℕ)) (sent : List ℕ × ℕ)
      → metadata ≡ f.metadata
      → metadata_push_body codec f flags metadata ≡ ok sent
      → Decoded codec metadata_push f sent
  unfolding metadata_push_body decode_body
  push_arrives none sent e h = ground arith
  push_arrives (some metadata) sent e h =
      let (u, g, h') = >>=-eq-ok (throw_if (f.stream_id /= 0) range_error) _ h in
      let set : has_flag (with_flag flags flag_metadata % 1024) flag_metadata ≡ true =
        ground arith in
      to_sent codec metadata_push f (metadata, with_flag flags flag_metadata) sent h'
        (rw (set, sym e) (ground arith))
