-- ===== src/Profile/DatagramRouting/Routes/RoundTrip.antt =====
-- The peer reads the routes that were announced.
use pure_reactive_protocol.Prelude.{
  ℕ, suc, ◌≤◌, ◌<◌, ◌≡◌, refl, sym, ap, subst, ◌∙◌, true, false, some, List, [], ◌∷◌, ◌++◌, All,
  map, length, length-append, take-append, drop-append, ltb, ◌/=◌, arith, append_assoc, append-nil,
  Bool-cases, inl, inr,
}
use pure_reactive_protocol.Failure.{ok, throw_if, range_error, type_error, from_ok, >>=-eq-ok}
use pure_reactive_protocol.Bytes.{set_u16, be16-set_u16}
use pure_reactive_protocol.Core.Attributes.{
  TextCodec, IsUtf8, IsText, is_high_surrogate, is_low_surrogate, starts_with_bom, well_formed,
}
use pure_reactive_protocol.Texts.{distinct, sort}
use pure_reactive_protocol.Texts.Order.{
  IsAscending, IsDistinct, sort-IsAscending, sort-ascending, All-sort, length-sort,
}
use pure_reactive_protocol.Texts.Unique.{distinct_lem, distinct-IsDistinct, ascending-IsDistinct}
use pure_reactive_protocol.Profile.DatagramRouting.Routes.{
  matches_route, all_route_units, is_route_unit, max_routes, max_route_bytes, validate_route,
  validate_all, normalize_routes, encode_datagram_routes, write_routes, read_table_route,
  read_table, decode_datagram_routes,
}

-- A route is a text of ASCII characters, so that it arrives as it was sent.
route_unit_bound : (c : ℕ) → is_route_unit c ≡ true → c < 128
route_unit_bound c h = ground arith

unit_split :
    (c : ℕ) (rest : List ℕ)
    → all_route_units (c ∷ rest) ≡ true
    → (c < 128) × (all_route_units rest ≡ true)
unfolding all_route_units
unit_split c rest h = elim (Bool-cases (is_route_unit c)) [
  | inl unit ↦ (route_unit_bound c unit, rw unit at h)
  | inr other ↦ let never : false ≡ true = rw other at h in cc
]

units-IsText : (text : List ℕ) → all_route_units text ≡ true → IsText text
units-IsText [] h = tt
units-IsText (c ∷ text) h =
    let (small, rest) = unit_split c text h in (omega arith, units-IsText text rest)

units-well_formed : (text : List ℕ) → all_route_units text ≡ true → well_formed text ≡ true
unfolding well_formed
units-well_formed [] h = refl
units-well_formed (c ∷ []) h = let (small, rest) = unit_split c [] h in ground arith
units-well_formed (c ∷ next ∷ text) h =
    let (small, rest) = unit_split c (next ∷ text) h in
    let high : is_high_surrogate c ≡ false = ground arith in
    let low : is_low_surrogate c ≡ false = ground arith in
    rw (high, low, units-well_formed (next ∷ text) rest) refl

matches_route-units : (route : List ℕ) → matches_route route ≡ true → all_route_units route ≡ true
unfolding matches_route all_route_units
matches_route-units [] h = refl
matches_route-units (c ∷ rest) h = ground arith

matches_route-no_bom : (route : List ℕ) → matches_route route ≡ true → starts_with_bom route ≡ false
unfolding matches_route
matches_route-no_bom [] h = refl
matches_route-no_bom (c ∷ rest) h = ground arith

module _ (codec : TextCodec) where
  -- What the checks of `validateRoute` establish.
  abbrev pub IsRoute : List ℕ → Type 0
  IsRoute route =
      (validate_route codec route ≡ ok (codec.encode route))
      × (matches_route route ≡ true)
      × (1 ≤ length (codec.encode route))
      × (length (codec.encode route) ≤ max_route_bytes)

  validate-IsRoute :
      (route value : List ℕ)
      → validate_route codec route ≡ ok value
      → IsRoute route × (value ≡ codec.encode route)
  unfolding validate_route
  validate-IsRoute route value h = ground arith

  pub validate_all-IsRoute :
      (routes values : List (List ℕ)) → validate_all codec routes ≡ ok values → All IsRoute routes
  unfolding validate_all
  validate_all-IsRoute [] values h = tt
  validate_all-IsRoute (route ∷ rest) values h =
      let (value, e, h₁) = >>=-eq-ok (validate_route codec route) _ h in
      let (others, e', h₂) = >>=-eq-ok (validate_all codec rest) _ h₁ in
      ((validate-IsRoute route value e).0, validate_all-IsRoute rest others e')

  validate_all_lem :
      (routes : List (List ℕ))
      → All IsRoute routes
      → validate_all codec routes ≡ ok (map codec.encode routes)
  unfolding validate_all
  validate_all_lem [] all = refl
  validate_all_lem (route ∷ rest) (valid, all) = rw (valid.0, validate_all_lem rest all) refl

  -- What `normalizeRoutes` returns, and that it keeps it.
  abbrev pub IsNormal : List (List ℕ) → Type 0
  IsNormal routes = IsAscending routes × All IsRoute routes × (length routes ≤ max_routes)

  pub normalize-IsNormal :
      (routes normalized : List (List ℕ))
      → normalize_routes codec routes ≡ ok normalized
      → IsNormal normalized × (normalized ≡ sort routes) × IsDistinct routes
  unfolding normalize_routes
  normalize-IsNormal routes normalized h =
      let values = distinct routes in
      let (_, same, h₁) = >>=-eq-ok (throw_if (length values /= length routes) type_error) _ h in
      let (_, few, h₂) = >>=-eq-ok (throw_if (ltb max_routes (length values)) range_error) _ h₁ in
      let (encoded, e, h₃) = >>=-eq-ok (validate_all codec values) _ h₂ in
      let small : length values ≤ max_routes = ground arith in
      let whole = distinct-IsDistinct routes (ground arith) in
      let values_same = distinct_lem routes whole in
      let sorted : sort routes ≡ normalized = ap sort (sym values_same) ∙ from_ok h₃ in
      let valid =
        validate_all-IsRoute routes encoded
          (subst (λ vs. validate_all codec vs ≡ ok encoded) values_same e) in
      (
        subst IsNormal sorted (
          sort-IsAscending routes whole,
          All-sort IsRoute routes valid,
          omega (arith, length-sort routes, ap length values_same, small),
        ),
        sym sorted,
        whole,
      )

  pub normalize_normal :
      (routes : List (List ℕ)) → IsNormal routes → normalize_routes codec routes ≡ ok routes
  unfolding normalize_routes
  normalize_normal routes (ascending, valid, few) =
      let distinct_routes = ascending-IsDistinct routes ascending in
      rw
        (
          distinct_lem routes distinct_routes,
          validate_all_lem routes valid,
          sort-ascending routes ascending,
        )
        (ground arith)

  length-encoded : (routes : List (List ℕ)) → length (map codec.encode routes) ≡ length routes
  length-encoded [] = refl
  length-encoded (route ∷ routes) = ap suc (length-encoded routes)

  module _ (utf8 : IsUtf8 codec) where
    read_table_route_lem :
        (route rest : List ℕ)
        → IsRoute route
        → read_table_route codec (length (codec.encode route) ∷ (codec.encode route ++ rest))
          ≡ ok (route, rest)
    unfolding read_table_route
    read_table_route_lem route rest (valid, pattern, pos, fits) =
        let text = codec.encode route in
        let units = matches_route-units route pattern in
        let decoded : codec.decode_strict text ≡ some route =
          utf8.decode-encode route (units-IsText route units) (units-well_formed route units)
            (matches_route-no_bom route pattern) in
        rw (take-append text rest, drop-append text rest, decoded, valid)
          (ground (arith, length-append text rest))

    read_table_lem :
        (routes : List (List ℕ)) (rest : List ℕ)
        → All IsRoute routes
        → read_table codec (length routes) (write_routes (map codec.encode routes) ++ rest)
          ≡ ok (routes, rest)
    unfolding read_table write_routes
    read_table_lem [] rest all = refl
    read_table_lem (route ∷ routes) rest (valid, all) =
        let text = codec.encode route in
        let later = write_routes (map codec.encode routes) in
        let split : (text ++ later) ++ rest ≡ text ++ (later ++ rest) = simp append_assoc in
        rw (split, read_table_route_lem route (later ++ rest) valid, read_table_lem routes rest all)
          refl

    decode_announced :
        (routes : List (List ℕ))
        → IsNormal routes
        → decode_datagram_routes codec (
            some (
              set_u16 (length (map codec.encode routes)) ++ write_routes (map codec.encode routes)))
          ≡ ok routes
    unfolding decode_datagram_routes
    decode_announced routes normal =
        let encoded = map codec.encode routes in
        let count = length-encoded routes in
        let read : read_table codec (length encoded) (write_routes encoded) ≡ ok (routes, []) =
          rw (count, sym (append-nil (write_routes encoded))) (read_table_lem routes [] normal.1) in
        let kept = normalize_normal routes normal in
        rw (be16-set_u16 (length encoded) (omega (arith, normal.2)), read) (ground arith)

    -- From what `encodeDatagramRoutes` returns for routes in any order, `decodeDatagramRoutes` returns
    -- the same routes, sorted.
    pub decode-encode_datagram_routes :
        (routes : List (List ℕ)) (bs : List ℕ)
        → encode_datagram_routes codec routes ≡ ok bs
        → decode_datagram_routes codec (some bs) ≡ ok (sort routes)
    unfolding encode_datagram_routes
    decode-encode_datagram_routes routes bs h =
        let (normalized, e, h₁) = >>=-eq-ok (normalize_routes codec routes) _ h in
        let (normal, sorted, whole) = normalize-IsNormal routes normalized e in
        let (encoded, e', h₂) = >>=-eq-ok (validate_all codec normalized) _ h₁ in
        let written : map codec.encode normalized ≡ encoded =
          from_ok (sym (validate_all_lem normalized normal.1) ∙ e') in
        let same : set_u16 (length (map codec.encode normalized))
              ++ write_routes (map codec.encode normalized)
            ≡ bs =
          ap (λ values. set_u16 (length values) ++ write_routes values) written ∙ from_ok h₂ in
        subst (λ b. decode_datagram_routes codec (some b) ≡ ok (sort routes)) same
          (decode_announced normalized normal ∙ ap ok sorted)
