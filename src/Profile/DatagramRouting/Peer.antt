-- ===== src/Profile/DatagramRouting/Peer.antt =====
-- The routed envelope, what the profile keeps for a session, and `DatagramPeer` but for `sendLatest`.
-- The `Set`s of handlers are a store, since the function that `route` returns keeps its `Set`.
pub mod CommonRoutes
pub mod Agreement
use pure_reactive_protocol.Prelude.{
  ℕ, zero, suc, ◌+◌, ◌-◌, Bool, true, false, ◌||◌, not, Option, none, some, List, [], ◌∷◌, ◌++◌,
  map, length, drop, get_or, ltb, ◌==◌, ◌/=◌, if◌then◌else◌, text_eq, codes,
}
use pure_reactive_protocol.Failure.{
  Failure, coded, Result, ok, err, ◌>>=◌, ◌>>◌, throw_if, range_error, capability_mismatch,
}
use pure_reactive_protocol.Bytes.{set_u16, set_u32, get_u16, get_u32}
use pure_reactive_protocol.Core.Attributes.{TextCodec}
use pure_reactive_protocol.Core.Capabilities.{CapabilityDescriptor, NegotiatedCapability}
use pure_reactive_protocol.Texts.{contains, sort}
use pure_reactive_protocol.Profile.DatagramRouting.Routes.{
  max_routes, normalize_routes, encode_datagram_routes, decode_datagram_routes,
}

abbrev pub datagram_routing_magic : ℕ
datagram_routing_magic = 0x50525231

abbrev pub datagram_routing_header_bytes : ℕ
datagram_routing_header_bytes = 6

unfoldable pub encode_routed_datagram : ℕ → List ℕ → Result (List ℕ)
encode_routed_datagram route_id content = do
  throw_if (route_id == 0 || ltb max_routes route_id) range_error
  ok (set_u32 datagram_routing_magic ++ (set_u16 route_id ++ content))

unfoldable pub is_routing_envelope : List ℕ → Bool
is_routing_envelope input =
    if ltb (length input) 4 then false else get_u32 input 0 == datagram_routing_magic

unfoldable pub decode_routed_datagram : List ℕ → Option (ℕ × List ℕ)
decode_routed_datagram input =
    if ltb (length input) datagram_routing_header_bytes
      || get_u32 input 0 /= datagram_routing_magic
      || get_u16 input 4 == 0
    then none
    else some (get_u16 input 4, drop 6 input)

-- `handlers` maps a route to its `Set`, an index of `handler_sets`.
pub record RouteState : Type 0 where
  pub route_to_id : List (List ℕ × ℕ)
  pub id_to_route : List (ℕ × List ℕ)
  pub handlers : List (List ℕ × ℕ)
  pub handler_sets : List (List ℕ)

unfoldable pub common_routes : List (List ℕ) → List (List ℕ) → List (List ℕ)
common_routes [] remote = []
common_routes (route ∷ local) remote =
    let rest = common_routes local remote in if contains remote route then route ∷ rest else rest

-- `common.forEach`, from an id on.
unfoldable pub number_routes : ℕ → List (List ℕ) → List (List ℕ × ℕ)
number_routes id [] = []
number_routes id (route ∷ rest) = (route, id) ∷ number_routes (suc id) rest

unfoldable pub number_ids : ℕ → List (List ℕ) → List (ℕ × List ℕ)
number_ids id [] = []
number_ids id (route ∷ rest) = (id, route) ∷ number_ids (suc id) rest

unfoldable pub find_text : List (List ℕ × ℕ) → List ℕ → Option ℕ
find_text [] text = none
find_text ((key, value) ∷ rest) text =
    let later = find_text rest text in if text_eq key text then some value else later

unfoldable pub find_id : List (ℕ × List ℕ) → ℕ → Option (List ℕ)
find_id [] id = none
find_id ((key, value) ∷ rest) id =
    let later = find_id rest id in if key == id then some value else later

abbrev pub route_state : List (List ℕ) → RouteState
route_state common = record {
  route_to_id = number_routes 1 common;
  id_to_route = number_ids 1 common;
  handlers = [];
  handler_sets = [];
}

abbrev pub datagram_routing_capability_id : List ℕ
datagram_routing_capability_id = codes "prp.profile.datagram-routing"

-- What `datagramRoutingProfile` announces.
unfoldable pub profile_capability : TextCodec → List (List ℕ) → Result CapabilityDescriptor
profile_capability codec routes = do
  local_routes ← normalize_routes codec routes
  table ← encode_datagram_routes codec local_routes
  ok (record {
    id = datagram_routing_capability_id;
    min_version = 1;
    max_version = 1;
    parameters = table;
  })

-- `attach`, of a session that supports datagrams or not and of what was negotiated.
unfoldable pub attach : TextCodec → Bool → Option NegotiatedCapability → Result RouteState
attach codec supports_datagrams none = err capability_mismatch
attach codec supports_datagrams (some capability) = do
  throw_if (not supports_datagrams) capability_mismatch
  local ← decode_datagram_routes codec (some capability.own.parameters)
  remote ← decode_datagram_routes codec (some capability.theirs.parameters)
  ok (route_state (sort (common_routes local remote)))

-- The constructor of `DatagramPeer`: what the session supports, and if the profile is attached.
unfoldable pub open_peer : Bool → Option RouteState → Result RouteState
open_peer supports_routing none = err capability_mismatch
open_peer supports_routing (some s) = do throw_if (not supports_routing) capability_mismatch; ok s

-- `routes`: the keys of `routeToId`, in order.
unfoldable pub peer_routes : List (List ℕ × ℕ) → List (List ℕ)
peer_routes [] = []
peer_routes ((route, id) ∷ rest) = route ∷ peer_routes rest

abbrev pub route_unavailable : Failure
route_unavailable = coded (codes "DATAGRAM_ROUTE_UNAVAILABLE")

abbrev pub is_known : Option ℕ → Bool
is_known none = false
is_known (some id) = true

abbrev pub supports_route : RouteState → List ℕ → Bool
supports_route s route = is_known (find_text s.route_to_id route)

abbrev pub max_payload_bytes : ℕ → ℕ
max_payload_bytes max_datagram_bytes = max_datagram_bytes - datagram_routing_header_bytes

-- `Set.add` and `Set.delete`, of handlers by number.
unfoldable pub add_handler : ℕ → List ℕ → List ℕ
add_handler handler [] = handler ∷ []
add_handler handler (h ∷ rest) =
    let others = add_handler handler rest in if h == handler then h ∷ rest else h ∷ others

unfoldable pub delete_handler : ℕ → List ℕ → List ℕ
delete_handler handler [] = []
delete_handler handler (h ∷ rest) =
    let others = delete_handler handler rest in if h == handler then rest else h ∷ others

unfoldable pub update_set : ℕ → (List ℕ → List ℕ) → List (List ℕ) → List (List ℕ)
update_set index f [] = []
update_set zero f (set ∷ sets) = f set ∷ sets
update_set (suc index) f (set ∷ sets) = set ∷ update_set index f sets

unfoldable pub delete_route : List ℕ → List (List ℕ × ℕ) → List (List ℕ × ℕ)
delete_route route [] = []
delete_route route ((key, set) ∷ rest) =
    let others = delete_route route rest in if text_eq key route then rest else (key, set) ∷ others

-- The `Set` of a route, which is made for its first handler; with it, the handler joins.
register : RouteState → List ℕ → ℕ → Option ℕ → RouteState × ℕ
register s route handler none = (
  record s {
    handlers = s.handlers ++ (route, length s.handler_sets) ∷ [];
    handler_sets = s.handler_sets ++ (handler ∷ []) ∷ [];
  },
  length s.handler_sets,
)
register s route handler (some set) =
    (record s { handler_sets = update_set set (add_handler handler) s.handler_sets }, set)

-- `route`: the `Set` that it returns is the one that `dispose` works on.
unfoldable pub add_route : RouteState → List ℕ → ℕ → Result (RouteState × ℕ)
unfolding register
add_route s route handler = do
  throw_if (not (supports_route s route)) route_unavailable
  ok (register s route handler (find_text s.handlers route))

abbrev pub handlers_of : RouteState → Option ℕ → List ℕ
handlers_of s none = []
handlers_of s (some set) = get_or s.handler_sets set []

-- What `route` returns, called with the `Set` that it keeps.
unfoldable pub dispose : RouteState → List ℕ → ℕ → ℕ → RouteState
dispose s route set handler =
    let sets = update_set set (delete_handler handler) s.handler_sets in
    if length (get_or sets set []) == 0
    then record s { handlers = delete_route route s.handlers; handler_sets = sets }
    else record s { handler_sets = sets }

pub record RoutedDatagram : Type 0 where
  pub route : List ℕ
  pub content : List ℕ

abbrev deliver_to : RouteState → List ℕ → List ℕ → List (ℕ × RoutedDatagram)
deliver_to s content route =
    map (λ handler. (handler, record { route = route; content = content }))
      (handlers_of s (find_text s.handlers route))

unfoldable pub deliver_known : RouteState → List ℕ → Option (List ℕ) → List (ℕ × RoutedDatagram)
deliver_known s content none = []
deliver_known s content (some route) = deliver_to s content route

unfoldable pub deliver_decoded : RouteState → Option (ℕ × List ℕ) → List (ℕ × RoutedDatagram)
unfolding deliver_known
deliver_decoded s none = []
deliver_decoded s (some (id, content)) = deliver_known s content (find_id s.id_to_route id)

-- `handle` of the acceptor: the handlers that are called, in order, and with what.
unfoldable pub handle_datagram : RouteState → List ℕ → List (ℕ × RoutedDatagram)
unfolding deliver_decoded
handle_datagram s input = deliver_decoded s (decode_routed_datagram input)

unfoldable pub send_to : ℕ → List ℕ → Option ℕ → Result (List ℕ)
send_to max_datagram_bytes content none = err route_unavailable
send_to max_datagram_bytes content (some id) = do
  throw_if (ltb (max_payload_bytes max_datagram_bytes) (length content)) range_error
  encode_routed_datagram id content

-- `send`: the datagram that the session is asked to send.
unfoldable pub send_routed : RouteState → ℕ → List ℕ → List ℕ → Result (List ℕ)
unfolding send_to
send_routed s max_datagram_bytes route content =
    send_to max_datagram_bytes content (find_text s.route_to_id route)

-- What `sendLatest` rejects before anything else.
unfoldable pub check_send_latest : RouteState → ℕ → List ℕ → List ℕ → Result (Unit {0})
check_send_latest s max_datagram_bytes route content = do
  throw_if (not (supports_route s route)) route_unavailable
  throw_if (ltb (max_payload_bytes max_datagram_bytes) (length content)) range_error
