-- ===== src/Profile/DatagramRouting/Routes.antt =====
-- The table of routes that a peer announces, as a parameter of the capability.
pub mod RoundTrip
use pure_reactive_protocol.Prelude.{
  ℕ, zero, suc, ◌+◌, Bool, true, false, ◌&&◌, ◌||◌, not, Option, none, some, List, [], ◌∷◌, ◌++◌,
  length, take, drop, ltb, leb, ◌==◌, ◌/=◌, if◌then◌else◌,
}
use pure_reactive_protocol.Failure.{
  Result, ok, err, ◌>>=◌, ◌>>◌, throw_if, range_error, type_error, capability_mismatch,
}
use pure_reactive_protocol.Bytes.{set_u16, get_u16}
use pure_reactive_protocol.Core.Attributes.{TextCodec}
use pure_reactive_protocol.Texts.{distinct, sort}

abbrev pub max_route_bytes : ℕ
max_route_bytes = 255

abbrev pub max_routes : ℕ
max_routes = 0xffff

-- A code unit of `[A-Za-z0-9]`, and of `[A-Za-z0-9._/-]`.
abbrev pub is_alphanumeric : ℕ → Bool
is_alphanumeric c = (leb 65 c && leb c 90) || (leb 97 c && leb c 122) || (leb 48 c && leb c 57)

abbrev pub is_route_unit : ℕ → Bool
is_route_unit c = is_alphanumeric c || c == 46 || c == 95 || c == 47 || c == 45

unfoldable pub all_route_units : List ℕ → Bool
all_route_units [] = true
all_route_units (c ∷ rest) = is_route_unit c && all_route_units rest

-- `ROUTE_PATTERN.test(route)`.
unfoldable pub matches_route : List ℕ → Bool
matches_route [] = false
matches_route (c ∷ rest) = is_alphanumeric c && all_route_units rest

-- `decoder.decode`, whose error becomes a mismatch.
abbrev pub or_mismatch : Option (List ℕ) → Result (List ℕ)
or_mismatch none = err capability_mismatch
or_mismatch (some text) = ok text

-- One byte string after the other, each behind its length.
unfoldable pub write_routes : List (List ℕ) → List ℕ
write_routes [] = []
write_routes (value ∷ rest) = length value ∷ (value ++ write_routes rest)

module _ (codec : TextCodec) where
  unfoldable pub validate_route : List ℕ → Result (List ℕ)
  validate_route route = do
    throw_if (not (matches_route route)) type_error
    let bytes = codec.encode route
    throw_if (length bytes == 0 || ltb max_route_bytes (length bytes)) range_error
    ok bytes

  -- `for (const route of values) validateRoute(route)`, and `normalized.map(validateRoute)`.
  unfoldable pub validate_all : List (List ℕ) → Result (List (List ℕ))
  validate_all [] = ok []
  validate_all (route ∷ rest) = do
    value ← validate_route route
    others ← validate_all rest
    ok (value ∷ others)

  unfoldable pub normalize_routes : List (List ℕ) → Result (List (List ℕ))
  normalize_routes routes = do
    let values = distinct routes
    throw_if (length values /= length routes) type_error
    throw_if (ltb max_routes (length values)) range_error
    encoded ← validate_all values
    ok (sort values)

  unfoldable pub encode_datagram_routes : List (List ℕ) → Result (List ℕ)
  encode_datagram_routes routes = do
    normalized ← normalize_routes routes
    encoded ← validate_all normalized
    ok (set_u16 (length encoded) ++ write_routes encoded)

  -- One round of the loop: the route whose length is the next byte, with what is left.
  unfoldable pub read_table_route : List ℕ → Result (List ℕ × List ℕ)
  read_table_route [] = err capability_mismatch
  read_table_route (route_length ∷ rest) = do
    throw_if (route_length == 0 || ltb (length rest) route_length) capability_mismatch
    route ← or_mismatch (codec.decode_strict (take route_length rest))
    value ← validate_route route
    ok (route, drop route_length rest)

  -- The loop, `count` times, with what it leaves.
  unfoldable pub read_table : ℕ → List ℕ → Result (List (List ℕ) × List ℕ)
  read_table zero input = ok ([], input)
  read_table (suc count) input = do
    (route, rest) ← read_table_route input
    (routes, left) ← read_table count rest
    ok (route ∷ routes, left)

  unfoldable pub decode_datagram_routes : Option (List ℕ) → Result (List (List ℕ))
  decode_datagram_routes none = err capability_mismatch
  decode_datagram_routes (some parameters) = do
    throw_if (ltb (length parameters) 2) capability_mismatch
    (routes, left) ← read_table (get_u16 parameters 0) (drop 2 parameters)
    throw_if (length left /= 0) capability_mismatch
    normalize_routes routes
