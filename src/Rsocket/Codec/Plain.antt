-- ===== src/Rsocket/Codec/Plain.antt =====
-- The types of frame whose body does not depend on the metadata bit.
use pure_reactive_protocol.Prelude.{ℕ, ◌≡◌, List, [], ◌++◌, ltb, ◌==◌, ◌/=◌, arith}
use pure_reactive_protocol.Failure.{ok, throw_if, range_error, >>=-eq-ok}
use pure_reactive_protocol.Bytes.{set_u32, set_u64, be32-set_u32, get_u64-set_u64}
use pure_reactive_protocol.Core.Limits.{max_u32}
use pure_reactive_protocol.Core.Attributes.{TextCodec}
use pure_reactive_protocol.Rsocket.Frame.{
  lease, keepalive, request_n, cancel, error, RsocketFrame, flag_metadata, without_flag,
}
use pure_reactive_protocol.Rsocket.Body.{require_u31, or_empty, encode_body, decode_body}
use pure_reactive_protocol.Rsocket.Codec.Sent.{Decoded, to_sent}

module _ (codec : TextCodec) (f : RsocketFrame) (flags : ℕ) where
  pub decode_sent_keepalive :
      (sent : List ℕ × ℕ)
      → encode_body codec keepalive f flags ≡ ok sent
      → Decoded codec keepalive f sent
  unfolding encode_body decode_body
  decode_sent_keepalive sent h =
      let (u, g, h') = >>=-eq-ok (throw_if (f.stream_id /= 0) range_error) _ h in
      let (u', g', h'') =
        >>=-eq-ok (throw_if (ltb 0x7fffffffffffffff f.last_received_position) range_error) _ h' in
      to_sent codec keepalive f (set_u64 f.last_received_position ++ f.content, flags) sent h''
        (rw (get_u64-set_u64 f.last_received_position (ground arith)) (ground arith))

  pub decode_sent_request_n :
      (sent : List ℕ × ℕ)
      → encode_body codec request_n f flags ≡ ok sent
      → Decoded codec request_n f sent
  unfolding encode_body decode_body
  decode_sent_request_n sent h =
      let (u, g, h') = >>=-eq-ok (throw_if (f.stream_id == 0) range_error) _ h in
      let (u', g', h'') = >>=-eq-ok (require_u31 f.request_count) _ h' in
      to_sent codec request_n f (set_u32 f.request_count, without_flag flags flag_metadata) sent h''
        (rw (be32-set_u32 f.request_count (ground arith)) (ground arith))

  pub decode_sent_cancel :
      (sent : List ℕ × ℕ) → encode_body codec cancel f flags ≡ ok sent → Decoded codec cancel f sent
  unfolding encode_body decode_body
  decode_sent_cancel sent h =
      let (u, g, h') = >>=-eq-ok (throw_if (f.stream_id == 0) range_error) _ h in
      to_sent codec cancel f ([], 0) sent h' (ground arith)

  pub decode_sent_error :
      (sent : List ℕ × ℕ) → encode_body codec error f flags ≡ ok sent → Decoded codec error f sent
  unfolding encode_body decode_body
  decode_sent_error sent h =
      let (u, g, h') = >>=-eq-ok (throw_if (ltb max_u32 f.error_code) range_error) _ h in
      to_sent codec error f (set_u32 f.error_code ++ f.content, 0) sent h'
        (rw (be32-set_u32 f.error_code (ground arith)) (ground arith))

  pub decode_sent_lease :
      (sent : List ℕ × ℕ) → encode_body codec lease f flags ≡ ok sent → Decoded codec lease f sent
  unfolding encode_body decode_body
  decode_sent_lease sent h =
      let (u, g, h') = >>=-eq-ok (throw_if (f.stream_id /= 0) range_error) _ h in
      let (u', g', h'') = >>=-eq-ok (require_u31 f.lease_ttl_ms) _ h' in
      let (u'', g'', h3) = >>=-eq-ok (require_u31 f.lease_requests) _ h'' in
      to_sent codec lease f
        (set_u32 f.lease_ttl_ms ++ (set_u32 f.lease_requests ++ or_empty f.metadata), flags) sent h3
        (rw
          (be32-set_u32 f.lease_ttl_ms (ground arith), be32-set_u32 f.lease_requests (ground arith))
          (ground arith))
