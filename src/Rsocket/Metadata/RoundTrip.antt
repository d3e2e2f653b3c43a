-- ===== src/Rsocket/Metadata/RoundTrip.antt =====
-- Metadata is decoded as it was encoded.
use pure_reactive_protocol.Prelude.{
  ℕ, ◌+◌, ◌-◌, ◌/◌, ◌%◌, ◌≤◌, ◌<◌, ◌≡◌, refl, sym, subst, ap, ◌∙◌, true, ◌||◌, Option, none, some,
  List, [], ◌∷◌, ◌++◌, append_assoc, append-nil, All, length, length-append, take, drop,
  take-append, drop-append, ltb, ◌==◌, text_eq, text_eq_iff, arith,
}
use pure_reactive_protocol.Failure.{ok, throw_if, range_error, from_ok, >>=-eq-ok}
use pure_reactive_protocol.Core.Attributes.{TextCodec, IsUtf8, IsSendable, well_formed}
use pure_reactive_protocol.Transport.Framing.{set_u24}
use pure_reactive_protocol.Rsocket.Codec.Arrival.{get_u24-set_u24}
use pure_reactive_protocol.Rsocket.Metadata.{
  CompositeMetadataEntry, rsocket_routing_mime, rsocket_composite_metadata_mime, well_known_mime_id,
  well_known_mime, encode_route, read_route, decode_routes_loop, decode_routes, mime_header,
  encode_entry, encode_composite_metadata, read_mime, read_entry, decode_composite_loop,
  decode_composite_metadata, encode_routing_composite_metadata, first_route,
  first_route_from_composite_metadata,
}
use pure_reactive_protocol.Rsocket.Metadata.Loop.{decode_composite_metadata-loop}

-- The id of a well-known MIME type stands for it.
well_known_mime-id :
    (mime : List ℕ) (known : ℕ)
    → well_known_mime_id mime ≡ some known
    → (well_known_mime known ≡ mime) × (known < 128)
well_known_mime-id mime known h =
    ground (
      arith,
      text_eq_iff mime rsocket_routing_mime,
      text_eq_iff mime rsocket_composite_metadata_mime,
    )

module _ (codec : TextCodec) (utf8 : IsUtf8 codec) where
  abbrev ReadsMime : List ℕ → List ℕ → List ℕ → Type 0
  ReadsMime mime header rest =
      (first : ℕ) × (tail : List ℕ) × (header ≡ first ∷ tail)
      × (read_mime codec first (tail ++ rest) ≡ ok (mime, rest))

  read_mime-mime_header :
      (mime header rest : List ℕ) (known : Option ℕ)
      → IsSendable mime
      → well_formed mime ≡ true
      → well_known_mime_id mime ≡ known
      → mime_header codec mime known ≡ ok header
      → ReadsMime mime header rest
  unfolding mime_header read_mime
  read_mime-mime_header mime header rest none sendable good e h =
      let text = codec.encode mime in
      let (_, fits, h₁) =
        >>=-eq-ok (throw_if (length text == 0 || ltb 128 (length text)) range_error) _ h in
      let high : (length text - 1) / 128 % 2 ≡ 0 = ground arith in
      let low : (length text - 1) % 128 + 1 ≡ length text = ground arith in
      let decoded : codec.decode_strict text ≡ some mime =
        utf8.decode-encode mime sendable.is_text good sendable.no_bom in
      (
        length text - 1,
        text,
        sym (from_ok h₁),
        rw (high, low, take-append text rest, drop-append text rest, decoded)
            (ground (arith, length-append text rest)),
      )
  read_mime-mime_header mime header rest (some known) sendable good e h =
      let (same, small) = well_known_mime-id mime known e in
      let high : (128 + known) / 128 % 2 ≡ 1 = omega arith in
      let low : (128 + known) % 128 ≡ known = omega arith in
      (128 + known, [], sym (from_ok h), rw (high, low, same) refl)

  entry_reads :
      (entry : CompositeMetadataEntry) (first : ℕ) (tail rest : List ℕ)
      → length entry.content ≤ 0xffffff
      → read_mime codec first (tail ++ (set_u24 (length entry.content) ++ (entry.content ++ rest)))
        ≡ ok (entry.mime_type, set_u24 (length entry.content) ++ (entry.content ++ rest))
      → read_entry codec first ((tail ++ (set_u24 (length entry.content) ++ entry.content)) ++ rest)
        ≡ ok (entry, rest)
  unfolding read_entry
  entry_reads entry first tail rest fits read =
      let content = entry.content in
      let n = length content in
      let split : (tail ++ (set_u24 n ++ content)) ++ rest
          ≡ tail ++ (set_u24 n ++ (content ++ rest)) =
        simp append_assoc in
      rw
        (
          split,
          read,
          get_u24-set_u24 n (content ++ rest) fits,
          take-append content rest,
          drop-append content rest,
        )
        (ground (arith, length-append content rest))

  read_entry-encode_entry :
      (entry : CompositeMetadataEntry) (written rest : List ℕ)
      → IsSendable entry.mime_type
      → well_formed entry.mime_type ≡ true
      → encode_entry codec entry ≡ ok written
      → (first : ℕ) × (tail : List ℕ) × (written ≡ first ∷ tail)
        × (read_entry codec first (tail ++ rest) ≡ ok (entry, rest))
  unfolding encode_entry read_entry
  read_entry-encode_entry entry written rest sendable good h =
      let content = entry.content in
      let n = length content in
      let (header, e, h₁) =
        >>=-eq-ok (mime_header codec entry.mime_type (well_known_mime_id entry.mime_type)) _ h in
      let (_, fits, h₂) = >>=-eq-ok (throw_if (ltb 0xffffff n) range_error) _ h₁ in
      let (first, tail, same, read) =
        read_mime-mime_header entry.mime_type header (set_u24 n ++ (content ++ rest))
          (well_known_mime_id entry.mime_type) sendable good refl e in
      (
        first,
        tail ++ (set_u24 n ++ content),
        sym (from_ok h₂) ∙ ap (λ bytes. bytes ++ (set_u24 n ++ content)) same,
        entry_reads entry first tail rest (ground arith) read,
      )

  -- Entries whose MIME types are well-formed texts without a leading byte order mark are decoded, in
  -- order and unchanged, from what `encodeCompositeMetadata` returns for them, be their MIME types
  -- well known or written out.
  pub decode-encode_composite_metadata :
      (entries : List CompositeMetadataEntry) (written : List ℕ)
      → All
          (λ (entry : CompositeMetadataEntry).
            IsSendable entry.mime_type × (well_formed entry.mime_type ≡ true))
          entries
      → encode_composite_metadata codec entries ≡ ok written
      → decode_composite_metadata codec written ≡ ok entries
  unfolding encode_composite_metadata decode_composite_loop
  decode-encode_composite_metadata [] written sendable h =
      subst (λ w. decode_composite_metadata codec w ≡ ok []) (from_ok h) refl
  decode-encode_composite_metadata (entry ∷ entries) written ((sendable, good), others) h =
      let (head, e, h₁) = >>=-eq-ok (encode_entry codec entry) _ h in
      let (tail, e', h₂) = >>=-eq-ok (encode_composite_metadata codec entries) _ h₁ in
      let (first, more, same, read) = read_entry-encode_entry entry head tail sendable good e in
      let later = decode-encode_composite_metadata entries tail others e' in
      let whole : first ∷ (more ++ tail) ≡ written =
        ap (λ bytes. bytes ++ tail) (sym same) ∙ from_ok h₂ in
      subst (λ w. decode_composite_metadata codec w ≡ ok (entry ∷ entries)) whole
        (decode_composite_metadata-loop codec first (more ++ tail) ∙ rw (read, later) refl)

  read_route-encode_route :
      (route written : List ℕ)
      → IsSendable route
      → well_formed route ≡ true
      → encode_route codec route ≡ ok written
      → decode_routes codec written ≡ ok (route ∷ [])
  unfolding encode_route read_route decode_routes_loop
  read_route-encode_route route written sendable good h =
      let text = codec.encode route in
      let (_, fits, h₁) =
        >>=-eq-ok (throw_if (length text == 0 || ltb 255 (length text)) range_error) _ h in
      let decoded : codec.decode_strict text ≡ some route =
        utf8.decode-encode route sendable.is_text good sendable.no_bom in
      let all : take (length text) text ≡ text =
        ap (take (length text)) (sym (append-nil text)) ∙ take-append text [] in
      let left : drop (length text) text ≡ [] =
        ap (drop (length text)) (sym (append-nil text)) ∙ drop-append text [] in
      subst (λ w. decode_routes codec w ≡ ok (route ∷ [])) (from_ok h₁)
        (rw (all, left, decoded) (ground arith))

  first_route-decoded :
      (metadata : List ℕ) (entries : List CompositeMetadataEntry)
      → decode_composite_metadata codec metadata ≡ ok entries
      → first_route_from_composite_metadata codec (some metadata) ≡ first_route codec entries
  unfolding first_route_from_composite_metadata decode_composite_loop first_route
  first_route-decoded [] entries h = ground arith
  first_route-decoded (b ∷ metadata) entries h = rw h refl

  -- From the metadata that `encodeRoutingCompositeMetadata` returns for a route that is a well-formed
  -- text without a leading byte order mark, `firstRouteFromCompositeMetadata` returns that route.
  pub first_route-encode_routing :
      (route written : List ℕ)
      → IsSendable route
      → well_formed route ≡ true
      → encode_routing_composite_metadata codec route ≡ ok written
      → first_route_from_composite_metadata codec (some written) ≡ ok (some route)
  unfolding encode_routing_composite_metadata first_route well_formed text_eq
  first_route-encode_routing route written sendable good h =
      let (content, e, h₁) = >>=-eq-ok (encode_route codec route) _ h in
      let entry : CompositeMetadataEntry = record {
        mime_type = rsocket_routing_mime;
        content = content;
      } in
      let routing : IsSendable rsocket_routing_mime = record {
        is_text = omega arith;
        no_bom = refl;
      } in
      let decoded =
        decode-encode_composite_metadata (entry ∷ []) written ((routing, refl), tt) h₁ in
      first_route-decoded written (entry ∷ []) decoded
      ∙ rw (read_route-encode_route route content sendable good e) refl
