-- ===== src/Profile/DatagramRouting/Peer/Agreement.antt =====
-- Both sides of a session number the routes alike, so that a datagram reaches the route that it was
-- sent to.
use pure_reactive_protocol.Prelude.{
  ℕ, suc, ◌+◌, ◌≤◌, ◌<◌, ◌≡◌, refl, sym, ap, ap₂, subst, ◌∙◌, Bool, true, false, ◌||◌, not, Option,
  none, some, List, [], ◌∷◌, map, length, ltb, ◌==◌, text_eq, text_eq_iff, arith, Bool-cases, inl,
  inr,
}
use pure_reactive_protocol.Failure.{
  ok, throw_if, range_error, capability_mismatch, from_ok, >>=-eq-ok,
}
use pure_reactive_protocol.Bytes.{be16-set_u16, be32}
use pure_reactive_protocol.Core.Attributes.{TextCodec}
use pure_reactive_protocol.Core.Capabilities.{NegotiatedCapability}
use pure_reactive_protocol.Texts.Order.{sort-ascending}
use pure_reactive_protocol.Profile.DatagramRouting.Routes.{max_routes, decode_datagram_routes}
use pure_reactive_protocol.Profile.DatagramRouting.Peer.{
  RouteState, encode_routed_datagram, decode_routed_datagram, common_routes, number_routes,
  number_ids, find_text, find_id, route_state, attach, handlers_of, handle_datagram, send_routed,
  send_to, deliver_known, deliver_decoded, is_routing_envelope, max_payload_bytes,
}
use pure_reactive_protocol.Profile.DatagramRouting.Peer.CommonRoutes.{
  common_routes-IsAscending, common_routes_comm, decode_datagram_routes-IsNormal,
  length-common_routes,
}

-- The two maps are inverse.
find_id-number_ids :
    (first : ℕ) (routes : List (List ℕ)) (route : List ℕ) (id : ℕ)
    → find_text (number_routes first routes) route ≡ some id
    → (find_id (number_ids first routes) id ≡ some route)
      × (first ≤ id)
      × (id < first + length routes)
unfolding find_text find_id number_routes number_ids
find_id-number_ids first [] route id h = ground arith
find_id-number_ids first (r ∷ routes) route id h = elim (Bool-cases (text_eq r route)) [
  | inl same ↦ let equal = (text_eq_iff r route).0 same in ground arith
  | inr differs ↦
      let (found, low, high) = find_id-number_ids (suc first) routes route id (rw differs at h) in
      let other : (first == id) ≡ false = ground arith in (rw other found, omega arith, omega arith)
]

-- What a successful `attach` leaves.
attach-common :
    (codec : TextCodec) (supports : Bool) (capability : NegotiatedCapability) (s : RouteState)
    → attach codec supports (some capability) ≡ ok s
    → (local remote : List (List ℕ)) × (decode_datagram_routes codec
          (some capability.own.parameters)
        ≡ ok local)
      × (decode_datagram_routes codec (some capability.theirs.parameters) ≡ ok remote)
      × (s ≡ route_state (common_routes local remote))
      × (length (common_routes local remote) ≤ max_routes)
unfolding attach
attach-common codec supports capability s h =
    let (_, _, h₁) = >>=-eq-ok (throw_if (not supports) capability_mismatch) _ h in
    let (local, e, h₂) =
      >>=-eq-ok (decode_datagram_routes codec (some capability.own.parameters)) _ h₁ in
    let (remote, e', h₃) =
      >>=-eq-ok (decode_datagram_routes codec (some capability.theirs.parameters)) _ h₂ in
    let (ascending, valid, few) =
      decode_datagram_routes-IsNormal codec (some capability.own.parameters) local e in
    let sorted =
      sort-ascending (common_routes local remote)
        (common_routes-IsAscending local remote ascending) in
    (
      local,
      remote,
      e,
      e',
      sym (from_ok h₃) ∙ ap route_state sorted,
      omega (arith, length-common_routes local remote),
    )

-- Two sides of one negotiation: what one announced is what the other received.
pub attach_agrees :
    (codec : TextCodec) (a b : Bool) (here there : NegotiatedCapability) (s t : RouteState)
    → there.own.parameters ≡ here.theirs.parameters
    → there.theirs.parameters ≡ here.own.parameters
    → attach codec a (some here) ≡ ok s
    → attach codec b (some there) ≡ ok t
    → (routes : List (List ℕ)) × (length routes ≤ max_routes)
      × (s ≡ route_state routes)
      × (t ≡ route_state routes)
attach_agrees codec a b here there s t same same' h h' =
    let (local, remote, e₁, e₂, is_s, few) = attach-common codec a here s h in
    let (local', remote', e₃, e₄, is_t, few') = attach-common codec b there t h' in
    let swap : local' ≡ remote =
      from_ok (sym e₃ ∙ ap (λ p. decode_datagram_routes codec (some p)) same ∙ e₂) in
    let swap' : remote' ≡ local =
      from_ok (sym e₄ ∙ ap (λ p. decode_datagram_routes codec (some p)) same' ∙ e₁) in
    let normal = decode_datagram_routes-IsNormal codec _ local e₁ in
    let normal' = decode_datagram_routes-IsNormal codec _ remote e₂ in
    (
      common_routes local remote,
      few,
      is_s,
      is_t
          ∙ ap route_state
              (ap₂ common_routes swap swap' ∙ common_routes_comm remote local normal'.0 normal.0),
    )

module _ (route content : List ℕ) where
  decode-encode_routed_datagram :
      (id : ℕ) (datagram : List ℕ)
      → encode_routed_datagram id content ≡ ok datagram
      → decode_routed_datagram datagram ≡ some (id, content)
  unfolding encode_routed_datagram decode_routed_datagram be32
  decode-encode_routed_datagram id datagram h =
      let (_, fits, h₁) = >>=-eq-ok (throw_if (id == 0 || ltb max_routes id) range_error) _ h in
      subst (λ d. decode_routed_datagram d ≡ some (id, content)) (from_ok h₁)
        (rw (be16-set_u16 id (ground arith)) (ground arith))

  is_routing_envelope-encode_routed_datagram :
      (id : ℕ) (datagram : List ℕ)
      → encode_routed_datagram id content ≡ ok datagram
      → is_routing_envelope datagram ≡ true
  unfolding encode_routed_datagram is_routing_envelope be32
  is_routing_envelope-encode_routed_datagram id datagram h =
      let (_, fits, h₁) = >>=-eq-ok (throw_if (id == 0 || ltb max_routes id) range_error) _ h in
      subst (λ d. is_routing_envelope d ≡ true) (from_ok h₁) (ground arith)

  abbrev Arrives : RouteState → List ℕ → Type 0
  Arrives t datagram =
      (is_routing_envelope datagram ≡ true)
      × (handle_datagram t datagram
          ≡ map (λ handler. (handler, record { route = route; content = content }))
              (handlers_of t (find_text t.handlers route)))

  sent_to :
      (routes : List (List ℕ)) (t : RouteState) (max_datagram_bytes : ℕ) (datagram : List ℕ)
      (known : Option ℕ)
      → t.id_to_route ≡ number_ids 1 routes
      → find_text (number_routes 1 routes) route ≡ known
      → send_to max_datagram_bytes content known ≡ ok datagram
      → Arrives t datagram
  unfolding send_to handle_datagram deliver_decoded deliver_known
  sent_to routes t max_datagram_bytes datagram none ids e h = ground arith
  sent_to routes t max_datagram_bytes datagram (some id) ids e h =
      let (_, fits, h₁) =
        >>=-eq-ok
          (throw_if (ltb (max_payload_bytes max_datagram_bytes) (length content)) range_error) _
          h in
      let (found, _, _) = find_id-number_ids 1 routes route id e in
      (
        is_routing_envelope-encode_routed_datagram id datagram h₁,
        rw (decode-encode_routed_datagram id datagram h₁, ids, found) refl,
      )

-- Of two peers attached to one session, each having received the routes that the other announced:
-- a datagram that one sends on a route is taken by the other's acceptor, and reaches the handlers
-- that the other has for that route by then, with the route and the content that were sent.
pub send_routed-handle_datagram :
    (codec : TextCodec) (a b : Bool) (here there : NegotiatedCapability) (s t later : RouteState)
    (max_datagram_bytes : ℕ) (route content datagram : List ℕ)
    → there.own.parameters ≡ here.theirs.parameters
    → there.theirs.parameters ≡ here.own.parameters
    → attach codec a (some here) ≡ ok s
    → attach codec b (some there) ≡ ok t
    → later.id_to_route ≡ t.id_to_route
    → send_routed s max_datagram_bytes route content ≡ ok datagram
    → (is_routing_envelope datagram ≡ true)
      × (handle_datagram later datagram
          ≡ map
              (λ handler. (handler, record { route = route; content = content }))
              (handlers_of later (find_text later.handlers route)))
unfolding send_routed
send_routed-handle_datagram codec a b here there s t later m route content datagram same same' h h'
      kept sent =
    let (routes, few, is_s, is_t) = attach_agrees codec a b here there s t same same' h h' in
    sent_to route content routes later m datagram (find_text (number_routes 1 routes) route)
      (kept ∙ ap (λ (u : RouteState). u.id_to_route) is_t) refl
      (subst (λ (u : RouteState). send_to m content (find_text u.route_to_id route) ≡ ok datagram)
        is_s sent)
