-- ===== src/Rsocket/Codec/Sent.antt =====
-- What is shared by the proofs that a body is decoded as it was encoded.
use pure_reactive_protocol.Prelude.{
  ℕ, ◌%◌, ◌≡◌, refl, sym, subst, ap, false, Option, none, some, List, ◌==◌, arith,
}
use pure_reactive_protocol.Failure.{ok}
use pure_reactive_protocol.Core.Attributes.{TextCodec}
use pure_reactive_protocol.Rsocket.Frame.{
  RsocketFrameType, RsocketFrame, flag_metadata, flag_follows, flag_complete, flag_next, has_flag,
  encode_metadata_data, decode_metadata_data,
}
use pure_reactive_protocol.Rsocket.Body.{decode_body}
use pure_reactive_protocol.Rsocket.Codec.{own_flags}
use pure_reactive_protocol.Rsocket.Codec.Arrival.{arriving, is_some, decode-encode_metadata_data}

abbrev pub Decoded : TextCodec → RsocketFrameType → RsocketFrame → List ℕ × ℕ → Type 0
Decoded codec t f (body, flags) =
    decode_body codec t f.stream_id (flags % 1024) body ≡ ok (arriving t f (flags % 1024))

pub to_sent :
    (codec : TextCodec) (t : RsocketFrameType) (f : RsocketFrame) (p q : List ℕ × ℕ)
    → ok p ≡ ok q
    → Decoded codec t f p
    → Decoded codec t f q
to_sent codec t f p q e h = subst (Decoded codec t f) (ground arith) h

pub low_flag :
    (flags : ℕ)
    → (has_flag (flags % 1024) flag_next ≡ has_flag flags flag_next)
      × (has_flag (flags % 1024) flag_complete ≡ has_flag flags flag_complete)
      × (has_flag (flags % 1024) flag_follows ≡ has_flag flags flag_follows)
low_flag flags =
    (ap (λ n. n == 1) (omega arith), ap (λ n. n == 1) (omega arith), ap (λ n. n == 1) (omega arith))

pub own_bit :
    (metadata : Option (List ℕ)) (flags : ℕ)
    → (metadata ≡ none → has_flag flags flag_metadata ≡ false)
    → has_flag (own_flags metadata flags % 1024) flag_metadata ≡ is_some metadata
own_bit none flags clear = let c = clear refl in ground arith
own_bit (some metadata) flags clear = ground arith

module _ (codec : TextCodec) (f : RsocketFrame) (flags : ℕ)
    (bit : has_flag (flags % 1024) flag_metadata ≡ is_some f.metadata) where
  pub metadata_arrives :
      (body : List ℕ)
      → encode_metadata_data f.metadata f.content ≡ ok body
      → decode_metadata_data (has_flag (flags % 1024) flag_metadata) body
        ≡ ok (f.metadata, f.content)
  metadata_arrives body e =
      subst (λ present. decode_metadata_data present body ≡ ok (f.metadata, f.content)) (sym bit)
        (decode-encode_metadata_data f.metadata f.content body e)
