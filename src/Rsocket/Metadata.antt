-- ===== src/Rsocket/Metadata.antt =====
-- src/compatibility/rsocket-v1/metadata.ts: routes and composite metadata. A loop on an offset is
-- recursion on the input that is left, with its length as fuel, since each round takes a byte.
pub mod Loop
pub mod RoundTrip
use pure_reactive_protocol.Prelude.{
  ℕ, zero, suc, ◌+◌, ◌-◌, ◌/◌, ◌%◌, Bool, ◌||◌, Option, none, some, List, [], ◌∷◌, ◌++◌, length,
  take, drop, ltb, ◌==◌, if◌then◌else◌, text_eq, codes,
}
use pure_reactive_protocol.Failure.{Result, ok, err, ◌>>=◌, ◌>>◌, throw_if, range_error, type_error}
use pure_reactive_protocol.Core.Attributes.{TextCodec}
use pure_reactive_protocol.Transport.Framing.{set_u24}
use pure_reactive_protocol.Rsocket.Frame.{get_u24}

abbrev pub rsocket_composite_metadata_mime : List ℕ
rsocket_composite_metadata_mime = codes "message/x.rsocket.composite-metadata.v0"

abbrev pub rsocket_routing_mime : List ℕ
rsocket_routing_mime = codes "message/x.rsocket.routing.v0"

abbrev pub well_known_mime_routing : ℕ
well_known_mime_routing = 0x7e

abbrev pub well_known_mime_composite : ℕ
well_known_mime_composite = 0x7f

pub record CompositeMetadataEntry : Type 0 where
  pub mime_type : List ℕ
  pub content : List ℕ

-- `wellKnownMimeId`.
abbrev pub well_known_mime_id : List ℕ → Option ℕ
well_known_mime_id mime_type =
    if text_eq mime_type rsocket_routing_mime
    then some well_known_mime_routing
    else if text_eq mime_type rsocket_composite_metadata_mime
    then some well_known_mime_composite
    else none

-- A number below 1000 in a template literal.
abbrev pub decimal : ℕ → List ℕ
decimal n =
    if ltb n 10
    then (48 + n) ∷ []
    else if ltb n 100
    then (48 + n / 10) ∷ (48 + n % 10) ∷ []
    else (48 + n / 100) ∷ (48 + (n / 10) % 10) ∷ (48 + n % 10) ∷ []

abbrev pub well_known_mime : ℕ → List ℕ
well_known_mime id =
    if id == well_known_mime_routing
    then rsocket_routing_mime
    else if id == well_known_mime_composite
    then rsocket_composite_metadata_mime
    else codes "x.rsocket.well-known." ++ decimal id

-- The strict decoder throws a `TypeError`, which nothing here catches.
abbrev pub or_type_error : Option (List ℕ) → Result (List ℕ)
or_type_error none = err type_error
or_type_error (some text) = ok text

module _ (codec : TextCodec) where
  unfoldable pub encode_route : List ℕ → Result (List ℕ)
  encode_route route = do
    let encoded = codec.encode route
    throw_if (length encoded == 0 || ltb 255 (length encoded)) range_error
    ok (length encoded ∷ encoded)

  -- A round of `decodeRoutes`, with what is left.
  unfoldable pub read_route : ℕ → List ℕ → Result (List ℕ × List ℕ)
  read_route route_length input = do
    throw_if (route_length == 0 || ltb (length input) route_length) range_error
    route ← or_type_error (codec.decode_strict (take route_length input))
    ok (route, drop route_length input)

  unfoldable pub decode_routes_loop : ℕ → List ℕ → Result (List (List ℕ))
  decode_routes_loop fuel [] = ok []
  decode_routes_loop zero (b ∷ input) = ok []
  decode_routes_loop (suc fuel) (b ∷ input) = do
    (route, rest) ← read_route b input
    routes ← decode_routes_loop fuel rest
    ok (route ∷ routes)

  abbrev pub decode_routes : List ℕ → Result (List (List ℕ))
  decode_routes metadata = decode_routes_loop (length metadata) metadata

  -- `header` of `encodeCompositeMetadata`, from the well-known id of the MIME type.
  unfoldable pub mime_header : List ℕ → Option ℕ → Result (List ℕ)
  mime_header mime_type none = do
    let mime = codec.encode mime_type
    throw_if (length mime == 0 || ltb 128 (length mime)) range_error
    ok ((length mime - 1) ∷ mime)
  mime_header mime_type (some known) = ok ((0x80 + known) ∷ [])

  unfoldable pub encode_entry : CompositeMetadataEntry → Result (List ℕ)
  encode_entry entry = do
    header ← mime_header entry.mime_type (well_known_mime_id entry.mime_type)
    throw_if (ltb 0xffffff (length entry.content)) range_error
    ok (header ++ (set_u24 (length entry.content) ++ entry.content))

  unfoldable pub encode_composite_metadata : List CompositeMetadataEntry → Result (List ℕ)
  encode_composite_metadata [] = ok []
  encode_composite_metadata (entry ∷ entries) = do
    head ← encode_entry entry
    tail ← encode_composite_metadata entries
    ok (head ++ tail)

  -- The MIME type that begins with the byte `first`, with what is left.
  unfoldable pub read_mime : ℕ → List ℕ → Result (List ℕ × List ℕ)
  read_mime first input =
      let mime_length = first % 128 + 1 in
      let explicit = (do
        throw_if (ltb (length input) mime_length) range_error
        mime_type ← or_type_error (codec.decode_strict (take mime_length input))
        ok (mime_type, drop mime_length input)) in
      if (first / 128) % 2 == 1 then ok (well_known_mime (first % 128), input) else explicit

  -- A round of `decodeCompositeMetadata`, with what is left.
  unfoldable pub read_entry : ℕ → List ℕ → Result (CompositeMetadataEntry × List ℕ)
  read_entry first input = do
    (mime_type, after_mime) ← read_mime first input
    throw_if (ltb (length after_mime) 3) range_error
    let content_length = get_u24 after_mime
    throw_if (ltb (length after_mime) (3 + content_length)) range_error
    ok (
      record { mime_type = mime_type; content = take content_length (drop 3 after_mime) },
      drop content_length (drop 3 after_mime),
    )

  unfoldable pub decode_composite_loop : ℕ → List ℕ → Result (List CompositeMetadataEntry)
  decode_composite_loop fuel [] = ok []
  decode_composite_loop zero (first ∷ input) = ok []
  decode_composite_loop (suc fuel) (first ∷ input) = do
    (entry, rest) ← read_entry first input
    entries ← decode_composite_loop fuel rest
    ok (entry ∷ entries)

  abbrev pub decode_composite_metadata : List ℕ → Result (List CompositeMetadataEntry)
  decode_composite_metadata metadata = decode_composite_loop (length metadata) metadata

  unfoldable pub encode_routing_composite_metadata : List ℕ → Result (List ℕ)
  encode_routing_composite_metadata route = do
    content ← encode_route route
    encode_composite_metadata (record { mime_type = rsocket_routing_mime; content = content } ∷ [])

  abbrev pub first_of : List (List ℕ) → Option (List ℕ)
  first_of [] = none
  first_of (route ∷ routes) = some route

  -- The loop of `firstRouteFromCompositeMetadata`.
  unfoldable pub first_route : List CompositeMetadataEntry → Result (Option (List ℕ))
  first_route [] = ok none
  first_route (entry ∷ entries) =
      let later = first_route entries in
      if text_eq entry.mime_type rsocket_routing_mime
      then decode_routes entry.content >>= (λ routes. ok (first_of routes))
      else later

  unfoldable pub first_route_from_composite_metadata : Option (List ℕ) → Result (Option (List ℕ))
  first_route_from_composite_metadata none = ok none
  first_route_from_composite_metadata (some []) = ok none
  first_route_from_composite_metadata (some (b ∷ metadata)) = do
    entries ← decode_composite_metadata (b ∷ metadata)
    first_route entries
