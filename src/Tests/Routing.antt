-- ===== src/Tests/Routing.antt =====
-- The datagram routing profile, with the text codec of Tests/Wire.
use pure_reactive_protocol.Prelude.{
  ℕ, ◌≡◌, refl, true, none, some, List, [], ◌∷◌, map, codes, text_eq,
}
use pure_reactive_protocol.Failure.{ok, plain_error}
use pure_reactive_protocol.Bytes.{be16}
use pure_reactive_protocol.Core.Capabilities.{NegotiatedCapability, CapabilityDescriptor}
use pure_reactive_protocol.Texts.{sort, insert, distinct, without, contains, text_lt}
use pure_reactive_protocol.Profile.DatagramRouting.Routes.{
  encode_datagram_routes, decode_datagram_routes, normalize_routes, validate_all, validate_route,
  matches_route, all_route_units, write_routes, read_table, read_table_route,
}
use pure_reactive_protocol.Profile.DatagramRouting.Routes.RoundTrip.{decode-encode_datagram_routes}
use pure_reactive_protocol.Profile.DatagramRouting.Peer.{
  RouteState, attach, common_routes, number_routes, number_ids, find_text, send_routed, send_to,
  encode_routed_datagram, handle_datagram, is_routing_envelope, add_route, dispose, delete_handler,
  update_set, delete_route, handlers_of,
}
use pure_reactive_protocol.Profile.DatagramRouting.Peer.Agreement.{send_routed-handle_datagram}
use pure_reactive_protocol.Profile.DatagramRouting.Latest.{
  LatestEvent, called, settled, run_latest, idle, send_latest, send_settled, drain_latest,
}
use pure_reactive_protocol.Profile.DatagramRouting.Latest.Order.{IsAnswered}
use pure_reactive_protocol.Profile.DatagramRouting.Latest.Fresh.{IsReached, run_latest_lem}
use pure_reactive_protocol.Tests.Wire.{pairs, pairs-IsUtf8}

abbrev routes : List (List ℕ)
routes = codes "b" ∷ codes "a" ∷ []

abbrev routes_bytes : List ℕ
routes_bytes = 0 ∷ 2 ∷ 2 ∷ 0 ∷ 97 ∷ 2 ∷ 0 ∷ 98 ∷ []

encode_routes : encode_datagram_routes pairs routes ≡ ok routes_bytes
unfolding encode_datagram_routes normalize_routes validate_all validate_route matches_route
    all_route_units write_routes sort insert distinct without text_lt text_eq
encode_routes = refl

decode-encode_datagram_routes_example :
    decode_datagram_routes pairs (some routes_bytes) ≡ ok (sort routes)
decode-encode_datagram_routes_example =
    decode-encode_datagram_routes pairs pairs-IsUtf8 routes routes_bytes encode_routes

-- One side knows the routes a and b, the other b alone.
abbrev announced_both : CapabilityDescriptor
announced_both = record {
  id = codes "prp.profile.datagram-routing";
  min_version = 1;
  max_version = 1;
  parameters = routes_bytes;
}

abbrev announced_one : CapabilityDescriptor
announced_one = record announced_both { parameters = 0 ∷ 1 ∷ 2 ∷ 0 ∷ 98 ∷ [] }

abbrev here : NegotiatedCapability
here = record {
  id = codes "prp.profile.datagram-routing";
  version = 1;
  own = announced_both;
  theirs = announced_one;
}

abbrev there : NegotiatedCapability
there = record here { own = announced_one; theirs = announced_both }

abbrev attached : RouteState
attached = record {
  route_to_id = (codes "b", 1) ∷ [];
  id_to_route = (1, codes "b") ∷ [];
  handlers = [];
  handler_sets = [];
}

own_attachment : attach pairs true (some here) ≡ ok attached
unfolding attach decode_datagram_routes read_table read_table_route normalize_routes validate_all
    validate_route matches_route all_route_units sort insert distinct without contains text_lt
    text_eq common_routes number_routes number_ids be16
own_attachment = refl

other_attachment : attach pairs true (some there) ≡ ok attached
unfolding attach decode_datagram_routes read_table read_table_route normalize_routes validate_all
    validate_route matches_route all_route_units sort insert distinct without contains text_lt
    text_eq common_routes number_routes number_ids be16
other_attachment = refl

-- The other side with a handler, number 5, for the route b.
abbrev listening : RouteState
listening = record attached { handlers = (codes "b", 0) ∷ []; handler_sets = (5 ∷ []) ∷ [] }

listen : add_route attached (codes "b") 5 ≡ ok (listening, 0)
unfolding add_route find_text text_eq
listen = refl

sent :
    send_routed attached 100 (codes "b") (7 ∷ 8 ∷ []) ≡ ok (80 ∷ 82 ∷ 82 ∷ 49 ∷ 0 ∷ 1 ∷ 7 ∷ 8 ∷ [])
unfolding send_routed send_to encode_routed_datagram find_text text_eq
sent = refl

send_routed-handle_datagram_example :
    (is_routing_envelope (80 ∷ 82 ∷ 82 ∷ 49 ∷ 0 ∷ 1 ∷ 7 ∷ 8 ∷ []) ≡ true)
    × (handle_datagram listening (80 ∷ 82 ∷ 82 ∷ 49 ∷ 0 ∷ 1 ∷ 7 ∷ 8 ∷ [])
        ≡ map
            (λ handler. (handler, record { route = codes "b"; content = 7 ∷ 8 ∷ [] }))
            (handlers_of listening (find_text listening.handlers (codes "b"))))
send_routed-handle_datagram_example =
    send_routed-handle_datagram pairs true true here there attached attached listening 100
      (codes "b") (7 ∷ 8 ∷ []) (80 ∷ 82 ∷ 82 ∷ 49 ∷ 0 ∷ 1 ∷ 7 ∷ 8 ∷ []) refl refl own_attachment
      other_attachment refl sent

-- A disposer that is called again after its handler is gone, and another handler has come, takes the
-- route's new set away.
abbrev again : RouteState
again = record attached { handlers = (codes "b", 1) ∷ []; handler_sets = [] ∷ (6 ∷ []) ∷ [] }

come_and_go : add_route (dispose listening (codes "b") 0 5) (codes "b") 6 ≡ ok (again, 1)
unfolding add_route dispose update_set delete_handler delete_route find_text text_eq
come_and_go = refl

dispose_twice : (dispose again (codes "b") 0 5).handlers ≡ []
unfolding dispose update_set delete_handler delete_route text_eq
dispose_twice = refl

abbrev events : List (LatestEvent ℕ)
events = called 0 ∷ called 1 ∷ called 2 ∷ settled none ∷ settled (some plain_error) ∷ called 3 ∷ []

run_latest_lem_example :
    IsAnswered (run_latest idle 0 events).0 (run_latest idle 0 events).1
    × IsReached (λ n. n) (run_latest idle 0 events).0.sent (run_latest idle 0 events).0.settled
run_latest_lem_example = run_latest_lem (λ n. n) events (refl, (refl, (refl, (refl, tt))))

-- The second and the third call share a send, of what the third brought.
sent_latest : (run_latest idle 0 events).0.sent ≡ 0 ∷ 2 ∷ 3 ∷ []
unfolding run_latest send_latest send_settled drain_latest
sent_latest = refl
