-- ===== src/Tests/Rsocket.antt =====
-- RSocket frames and metadata, with the text codec of Tests/Wire.
use pure_reactive_protocol.Prelude.{
  ℕ, ◌≤◌, ◌≡◌, refl, true, some, List, [], ◌∷◌, All, length, codes, arith, text_eq,
}
use pure_reactive_protocol.Failure.{ok}
use pure_reactive_protocol.Core.Attributes.{IsSendable, well_formed}
use pure_reactive_protocol.Tests.Wire.{pairs, pairs-IsUtf8}
use pure_reactive_protocol.Transport.Framing.{rsocket_max_frame_bytes}
use pure_reactive_protocol.Rsocket.Frame.{
  RsocketFrame, setup, blank_frame, default_rsocket_setup, encode_mime, encode_metadata_data, u24,
}
use pure_reactive_protocol.Rsocket.Body.{setup_body, encode_body, encode_setup_body}
use pure_reactive_protocol.Rsocket.Codec.{
  encode_rsocket_frame, decode_rsocket_frame, write_rsocket_header,
}
use pure_reactive_protocol.Rsocket.Codec.RoundTrip.{decode-encode_rsocket_frame}
use pure_reactive_protocol.Rsocket.Codec.Arrival.{IsConsistent}
use pure_reactive_protocol.Rsocket.Metadata.{
  CompositeMetadataEntry, encode_composite_metadata, decode_composite_metadata, encode_entry,
  mime_header, encode_route, encode_routing_composite_metadata, first_route_from_composite_metadata,
  rsocket_routing_mime,
}
use pure_reactive_protocol.Rsocket.Metadata.RoundTrip.{
  decode-encode_composite_metadata, first_route-encode_routing,
}

-- A SETUP with a resume token and metadata.
abbrev greeting : RsocketFrame
greeting = record (blank_frame setup 0 1152) {
  metadata = some (1 ∷ 2 ∷ []);
  content = 9 ∷ 8 ∷ [];
  setup_fields = some (record default_rsocket_setup {
    metadata_mime_type = codes "a/b";
    data_mime_type = codes "c";
    resume_token = 4 ∷ 5 ∷ [];
  });
}

abbrev greeting_bytes : List ℕ
greeting_bytes =
    0 ∷ 0 ∷ 0 ∷ 0 ∷ 5 ∷ 128 ∷ 0 ∷ 1 ∷ 0 ∷ 0 ∷ 0 ∷ 0 ∷ 78 ∷ 32 ∷ 0 ∷ 1 ∷ 95 ∷ 144 ∷ 0 ∷ 2 ∷ 4 ∷ 5 ∷ 6
    ∷ 0 ∷ 97 ∷ 0 ∷ 47 ∷ 0 ∷ 98 ∷ 2 ∷ 0 ∷ 99 ∷ 0 ∷ 0 ∷ 2 ∷ 1 ∷ 2 ∷ 9 ∷ 8 ∷ []

greeting-IsConsistent : IsConsistent greeting
unfolding well_formed
greeting-IsConsistent = record {
  no_stray_bit = λ none_there. cc;
  mime = (
    (record { is_text = omega arith; no_bom = refl }, refl),
    (record { is_text = omega arith; no_bom = refl }, refl),
  );
}

encode_greeting : encode_rsocket_frame pairs greeting ≡ ok greeting_bytes
unfolding encode_rsocket_frame encode_body setup_body encode_setup_body encode_mime
    encode_metadata_data u24 write_rsocket_header
encode_greeting = refl

decode-encode_rsocket_frame_example :
    (length greeting_bytes ≤ rsocket_max_frame_bytes)
    × (decode_rsocket_frame pairs greeting_bytes ≡ ok (record greeting { flags = 384 }))
decode-encode_rsocket_frame_example =
    decode-encode_rsocket_frame pairs greeting greeting_bytes pairs-IsUtf8 greeting-IsConsistent
      encode_greeting

abbrev entries : List CompositeMetadataEntry
entries =
    record { mime_type = codes "x/y"; content = 7 ∷ [] }
    ∷ record { mime_type = rsocket_routing_mime; content = 1 ∷ 2 ∷ [] }
    ∷ []

abbrev entries_bytes : List ℕ
entries_bytes = 5 ∷ 0 ∷ 120 ∷ 0 ∷ 47 ∷ 0 ∷ 121 ∷ 0 ∷ 0 ∷ 1 ∷ 7 ∷ 254 ∷ 0 ∷ 0 ∷ 2 ∷ 1 ∷ 2 ∷ []

encode_entries : encode_composite_metadata pairs entries ≡ ok entries_bytes
unfolding encode_composite_metadata encode_entry mime_header text_eq
encode_entries = refl

entries-IsSendable :
    All
      (λ (entry : CompositeMetadataEntry).
        IsSendable entry.mime_type × (well_formed entry.mime_type ≡ true))
      entries
unfolding well_formed
entries-IsSendable = (
  (record { is_text = omega arith; no_bom = refl }, refl),
  ((record { is_text = omega arith; no_bom = refl }, refl), tt),
)

decode-encode_composite_metadata_example :
    decode_composite_metadata pairs entries_bytes ≡ ok entries
decode-encode_composite_metadata_example =
    decode-encode_composite_metadata pairs pairs-IsUtf8 entries entries_bytes entries-IsSendable
      encode_entries

abbrev route_bytes : List ℕ
route_bytes = 254 ∷ 0 ∷ 0 ∷ 5 ∷ 4 ∷ 0 ∷ 97 ∷ 0 ∷ 98 ∷ []

encode_ab : encode_routing_composite_metadata pairs (codes "ab") ≡ ok route_bytes
unfolding encode_composite_metadata encode_entry mime_header text_eq encode_route
    encode_routing_composite_metadata
encode_ab = refl

ab_well_formed : well_formed (codes "ab") ≡ true
unfolding well_formed
ab_well_formed = refl

first_route-encode_routing_example :
    first_route_from_composite_metadata pairs (some route_bytes) ≡ ok (some (codes "ab"))
first_route-encode_routing_example =
    first_route-encode_routing pairs pairs-IsUtf8 (codes "ab") route_bytes
      (record { is_text = omega arith; no_bom = refl }) ab_well_formed encode_ab
