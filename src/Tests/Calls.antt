-- ===== src/Tests/Calls.antt =====
-- Calls of a target with a handler of one response and one of many, with `binaryCodec`.
use pure_reactive_protocol.Prelude.{
  ℕ, false, if◌then◌else◌, text_eq, ◌≡◌, refl, sym, ◌⊎◌, none, some, List, [], ◌∷◌, ◌++◌, codes,
  text_eq, arith, true,
}
use pure_reactive_protocol.Failure.{ok, err, capability_mismatch}
use pure_reactive_protocol.Core.Attributes.{
  ProtocolAttribute, IsSendable, bytes, attribute, text_attribute, well_formed,
}
use pure_reactive_protocol.Profile.Rpc.{
  unary, server_stream, profile_attribute, target_attribute, pattern_attribute, rpc_profile_id,
  validate_target, profile_attributes, accepts_rpc, read_open,
}
use pure_reactive_protocol.Profile.Rpc.Attach.{assert_codec, attach_negotiated, attach-assert_codec}
use pure_reactive_protocol.Profile.Rpc.Open.{read_open-profile_attributes}
use pure_reactive_protocol.Profile.Rpc.Serve.{
  RpcHandlers, binary_codec, completed, find_handlers, handle_incoming_rpc, one_response,
  auto_demand, start_request,
}
use pure_reactive_protocol.Profile.Rpc.Serve.Calls.{
  delivered, IsPayloadCodec, one_response-handle_incoming_rpc, auto_demand-handle_incoming_rpc,
}
use pure_reactive_protocol.Profile.Rpc.Registry.{
  register, unregister, run_registry, dispose_peer, new_peer,
}
use pure_reactive_protocol.Profile.Rpc.Registry.Disposal.{dispose_peer-run_registry}
use pure_reactive_protocol.Tests.Wire.{pairs, pairs-IsUtf8, encode_units}

abbrev echo : RpcHandlers (List ℕ)
echo = record {
  request_response = some (λ input. ok (7 ∷ input));
  fire_and_forget = none;
  request_stream =
      some (λ input. record { values = input ∷ (input ++ input) ∷ []; ending = ok tt });
  request_channel = none;
}

abbrev table : List (List ℕ × RpcHandlers (List ℕ))
table = (codes "e", echo) ∷ []

abbrev text_item : List ℕ → List ℕ → ProtocolAttribute
text_item id text = record { id = id; value = encode_units text; required = true }

abbrev calling : List ℕ → List ProtocolAttribute
calling pattern =
    text_item profile_attribute rpc_profile_id
    ∷ text_item target_attribute (codes "e")
    ∷ text_item pattern_attribute pattern
    ∷ []

target-IsSendable : IsSendable (codes "e")
target-IsSendable = record { is_text = omega arith; no_bom = refl }

target_valid : validate_target pairs (codes "e") ≡ ok tt
unfolding validate_target text_attribute bytes attribute well_formed
target_valid = refl

call_opens : profile_attributes pairs (codes "e") unary ≡ ok (calling (codes "unary"))
unfolding profile_attributes text_attribute bytes attribute well_formed
call_opens = refl

read_open-profile_attributes_example :
    (accepts_rpc pairs (calling (codes "unary")) ≡ true)
    × (read_open pairs (calling (codes "unary")) ≡ ok (codes "e", unary))
read_open-profile_attributes_example =
    read_open-profile_attributes pairs pairs-IsUtf8 (codes "e") unary (calling (codes "unary"))
      target-IsSendable target_valid call_opens

starts_unary :
    start_request binary_codec pairs (codes "e") unary (1 ∷ [])
    ≡ ok (calling (codes "unary"), 1 ∷ [])
unfolding start_request validate_target profile_attributes text_attribute bytes attribute
    well_formed
starts_unary = refl

starts_stream :
    start_request binary_codec pairs (codes "e") server_stream (1 ∷ [])
    ≡ ok (calling (codes "server-stream"), 1 ∷ [])
unfolding start_request validate_target profile_attributes text_attribute bytes attribute
    well_formed
starts_stream = refl

binary-IsPayloadCodec : IsPayloadCodec binary_codec
binary-IsPayloadCodec value content e = sym e

echo_found : find_handlers table (codes "e") ≡ some echo
unfolding find_handlers text_eq
echo_found = refl

one_response-handle_incoming_rpc_example :
    (handle_incoming_rpc binary_codec pairs table
        (calling (codes "unary"))
        (delivered ((1 ∷ []) ∷ []))
      ≡ record { sent = (7 ∷ 1 ∷ []) ∷ []; settled = completed })
    × (one_response binary_codec (delivered ((7 ∷ 1 ∷ []) ∷ [])) ≡ ok (7 ∷ 1 ∷ []))
one_response-handle_incoming_rpc_example =
    one_response-handle_incoming_rpc binary_codec pairs pairs-IsUtf8 binary-IsPayloadCodec table
      (codes "e") (1 ∷ []) (7 ∷ 1 ∷ []) echo (λ input. ok (7 ∷ input)) (calling (codes "unary"))
      (1 ∷ []) (7 ∷ 1 ∷ []) target-IsSendable starts_unary echo_found refl refl refl

auto_demand-handle_incoming_rpc_example :
    (handle_incoming_rpc binary_codec pairs table
        (calling (codes "server-stream"))
        (delivered ((1 ∷ []) ∷ []))
      ≡ record { sent = (1 ∷ []) ∷ (1 ∷ 1 ∷ []) ∷ []; settled = completed })
    × (auto_demand binary_codec (delivered ((1 ∷ []) ∷ (1 ∷ 1 ∷ []) ∷ []))
        ≡ record { values = (1 ∷ []) ∷ (1 ∷ 1 ∷ []) ∷ []; ending = ok tt })
auto_demand-handle_incoming_rpc_example =
    auto_demand-handle_incoming_rpc binary_codec pairs pairs-IsUtf8 binary-IsPayloadCodec table
      (codes "e") (1 ∷ []) ((1 ∷ []) ∷ (1 ∷ 1 ∷ []) ∷ []) echo
      (λ input. record { values = input ∷ (input ++ input) ∷ []; ending = ok tt })
      (calling (codes "server-stream")) (1 ∷ []) ((1 ∷ []) ∷ (1 ∷ 1 ∷ []) ∷ []) target-IsSendable
      starts_stream echo_found refl refl refl

dispose_peer-run_registry_example :
    (find_handlers
        (dispose_peer (
          run_registry pairs
            (register (codes "e") echo ∷ unregister (codes "x") ∷ [])
            (new_peer table))).handlers
        (codes "e")
      ≡ find_handlers table (codes "e"))
    ⊎ (find_handlers
          (dispose_peer (
            run_registry pairs
              (register (codes "e") echo ∷ unregister (codes "x") ∷ [])
              (new_peer table))).handlers
          (codes "e")
        ≡ none)
dispose_peer-run_registry_example =
    dispose_peer-run_registry pairs table (register (codes "e") echo ∷ unregister (codes "x") ∷ [])
      (codes "e")

id_asserted : assert_codec pairs (codes "e") ≡ ok (encode_units (codes "e"))
unfolding assert_codec bytes well_formed
id_asserted = refl

attach-assert_codec_example :
    attach_negotiated pairs false (codes "e") (some (encode_units (codes "e")))
    ≡ (if text_eq (codes "e") (codes "e") then ok tt else err capability_mismatch)
attach-assert_codec_example =
    attach-assert_codec pairs pairs-IsUtf8 (codes "e") (codes "e") (encode_units (codes "e"))
      (encode_units (codes "e")) target-IsSendable id_asserted id_asserted
