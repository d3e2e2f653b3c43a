-- ===== src/Rsocket/Codec/Setup.antt =====
-- The SETUP frame.
use pure_reactive_protocol.Prelude.{
  ℕ, ◌%◌, ◌≡◌, subst, ◌&&◌, Option, none, some, List, [], ◌++◌, length, ltb, ◌/=◌, if◌then◌else◌,
  arith,
}
use pure_reactive_protocol.Failure.{ok, throw_if, range_error, from_ok, >>=-eq-ok}
use pure_reactive_protocol.Bytes.{set_u16, set_u32, be32-set_u32}
use pure_reactive_protocol.Core.Attributes.{TextCodec, IsUtf8}
use pure_reactive_protocol.Rsocket.Frame.{
  setup, RsocketSetupFields, RsocketFrame, flag_metadata, flag_follows, has_flag,
  encode_metadata_data, encode_mime, decode_mime,
}
use pure_reactive_protocol.Rsocket.Body.{
  require_u31, encode_setup_body, decode_setup, decode_body, setup_body,
}
use pure_reactive_protocol.Rsocket.Codec.Arrival.{
  arriving_setup, arriving, is_some, IsMime, decode-encode_mime, be16-set_u16_mod, decode_token_lem,
}
use pure_reactive_protocol.Rsocket.Codec.Sent.{Decoded, to_sent, low_flag, metadata_arrives}

module _ (codec : TextCodec) (f : RsocketFrame) (flags : ℕ)
    (bit : has_flag (flags % 1024) flag_metadata ≡ is_some f.metadata) where
  setup_reads :
      (s : RsocketSetupFields) (m₁ m₂ tail : List ℕ)
      → f.stream_id ≡ 0
      → require_u31 s.keep_alive_ms ≡ ok tt
      → require_u31 s.lifetime_ms ≡ ok tt
      → throw_if (has_flag flags flag_follows && ltb 0xffff (length s.resume_token)) range_error
        ≡ ok tt
      → decode_mime codec (m₁ ++ (m₂ ++ tail)) ≡ ok (s.metadata_mime_type, m₂ ++ tail)
      → decode_mime codec (m₂ ++ tail) ≡ ok (s.data_mime_type, tail)
      → encode_metadata_data f.metadata f.content ≡ ok tail
      → decode_setup codec f.stream_id (flags % 1024) (
          set_u16 s.major
          ++ (set_u16 s.minor
              ++ (set_u32 s.keep_alive_ms
                  ++ (set_u32 s.lifetime_ms
                      ++ ((if has_flag flags flag_follows
                            then set_u16 (length s.resume_token) ++ s.resume_token
                            else [])
                          ++ (m₁ ++ (m₂ ++ tail)))))))
        ≡ ok (record (arriving setup f (flags % 1024)) {
          setup_fields = arriving_setup (flags % 1024) (some s);
        })
  unfolding decode_setup
  setup_reads s m₁ m₂ tail id keep life token read₁ read₂ e =
      let (next, complete, follows) = low_flag flags in
      let arrives = metadata_arrives codec f flags bit tail e in
      rw
        (
          follows,
          be16-set_u16_mod s.major,
          be16-set_u16_mod s.minor,
          be32-set_u32 s.keep_alive_ms (ground arith),
          be32-set_u32 s.lifetime_ms (ground arith),
          decode_token_lem codec (has_flag flags flag_follows) s.resume_token (m₁ ++ (m₂ ++ tail))
              token,
        )
        (rw (read₁, read₂, arrives) (ground arith))

  decode_setup-encode_setup_body :
      (s : RsocketSetupFields) (body : List ℕ)
      → IsUtf8 codec
      → IsMime (some s)
      → f.stream_id ≡ 0
      → encode_setup_body codec s f.metadata f.content flags ≡ ok body
      → decode_setup codec f.stream_id (flags % 1024) body
        ≡ ok (record (arriving setup f (flags % 1024)) {
          setup_fields = arriving_setup (flags % 1024) (some s);
        })
  unfolding encode_setup_body
  decode_setup-encode_setup_body s body utf8 ((sendable₁, good₁), (sendable₂, good₂)) id h =
      let (m₁, e₁, h₁) = >>=-eq-ok (encode_mime codec s.metadata_mime_type) _ h in
      let (m₂, e₂, h₂) = >>=-eq-ok (encode_mime codec s.data_mime_type) _ h₁ in
      let (_, token, h₃) =
        >>=-eq-ok
          (throw_if (has_flag flags flag_follows && ltb 0xffff (length s.resume_token)) range_error)
          _ h₂ in
      let (tail, e, h₄) = >>=-eq-ok (encode_metadata_data f.metadata f.content) _ h₃ in
      let (_, keep, h₅) = >>=-eq-ok (require_u31 s.keep_alive_ms) _ h₄ in
      let (_, life, h₆) = >>=-eq-ok (require_u31 s.lifetime_ms) _ h₅ in
      let read₁ =
        decode-encode_mime codec utf8 s.metadata_mime_type m₁ (m₂ ++ tail) e₁ sendable₁ good₁ in
      let read₂ = decode-encode_mime codec utf8 s.data_mime_type m₂ tail e₂ sendable₂ good₂ in
      subst
        (λ b.
          decode_setup codec f.stream_id (flags % 1024) b
          ≡ ok (record (arriving setup f (flags % 1024)) {
            setup_fields = arriving_setup (flags % 1024) (some s);
          }))
        (from_ok h₆) (setup_reads s m₁ m₂ tail id keep life token read₁ read₂ e)

  pub setup_arrives :
      (fields : Option RsocketSetupFields) (sent : List ℕ × ℕ)
      → IsUtf8 codec
      → IsMime fields
      → fields ≡ f.setup_fields
      → setup_body codec f flags fields ≡ ok sent
      → Decoded codec setup f sent
  unfolding setup_body decode_body
  setup_arrives none sent utf8 mime e h = ground arith
  setup_arrives (some s) sent utf8 mime e h =
      let (u, g, h') = >>=-eq-ok (throw_if (f.stream_id /= 0) range_error) _ h in
      let (body, b, h'') = >>=-eq-ok (encode_setup_body codec s f.metadata f.content flags) _ h' in
      to_sent codec setup f (body, flags) sent h''
        (subst
          (λ fields'.
            decode_body codec setup f.stream_id (flags % 1024) body
            ≡ ok (record (arriving setup f (flags % 1024)) {
              setup_fields = arriving_setup (flags % 1024) fields';
            }))
          e (decode_setup-encode_setup_body s body utf8 mime (ground arith) b))
