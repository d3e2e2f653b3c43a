-- ===== src/Profile/Rpc/Serve.antt =====
-- src/profile/rpc/index.ts: `handleIncomingRpc`, and what a caller makes of the response. A handler
-- is a function of its whole input, and a stream takes what is sent on it.
pub mod Calls
use pure_reactive_protocol.Prelude.{
  ℕ, Bool, Option, none, some, List, [], ◌∷◌, if◌then◌else◌, text_eq, codes,
}
use pure_reactive_protocol.Failure.{Result, ok, err, Failure, ◌>>=◌, ◌>>◌, throw_if, coded}
use pure_reactive_protocol.Core.Attributes.{ProtocolAttribute, TextCodec}
use pure_reactive_protocol.Core.Session.State.{StreamMessage}
use pure_reactive_protocol.Profile.Rpc.{
  RpcPattern, unary, notify, server_stream, duplex, has_unsupported, required_unsupported,
  read_open, validate_target, profile_attributes,
}

-- What an iteration gives until it is done, or throws.
pub record Produced {ℓ} (A : Type ℓ) : Type ℓ where
  pub values : List A
  pub ending : Result (Unit {0})

-- The codec of the payloads, which the application chooses.
pub record PayloadCodec {ℓ} (Value : Type ℓ) : Type ℓ where
  pub id : List ℕ
  pub encode : Value → Result (List ℕ)
  pub decode : List ℕ → Result Value

-- `binaryCodec`.
abbrev pub binary_codec : PayloadCodec (List ℕ)
binary_codec = record {
  id = codes "application/octet-stream";
  encode = λ value. ok value;
  decode = λ value. ok value;
}

pub record RpcHandlers {ℓ} (Value : Type ℓ) : Type ℓ where
  pub request_response : Option (Value → Result Value)
  pub fire_and_forget : Option (Value → Result (Unit {0}))
  pub request_stream : Option (Value → Produced Value)
  pub request_channel : Option (Produced Value → Produced Value)

-- `Map.get`.
unfoldable pub find_handlers {ℓ} :
    {Value : Type ℓ} → List (List ℕ × RpcHandlers Value) → List ℕ → Option (RpcHandlers Value)
find_handlers [] target = none
find_handlers ((other, handlers) ∷ rest) target =
    let later = find_handlers rest target in if text_eq other target then some handlers else later

-- What is called on the stream: payloads sent, then `complete` or `fail`, or neither where
-- `handleIncomingRpc` rejects.
pub data RpcEnd : Type 0 where
  completed : RpcEnd
  failed rejected : Failure → RpcEnd

pub record Served : Type 0 where
  pub sent : List (List ℕ)
  pub settled : RpcEnd

abbrev pub refuse : List ℕ → Served
refuse code = record { sent = []; settled = failed (coded code) }

abbrev settle : Result (Unit {0}) → RpcEnd
settle (ok done) = completed
settle (err failure) = rejected failure

abbrev pub from_encoded : Result (List ℕ) → Served → Served
from_encoded (err failure) others = record { sent = []; settled = rejected failure }
from_encoded (ok content) others = record { sent = content ∷ others.sent; settled = others.settled }

module _ {ℓ} {Value : Type ℓ} (payloads : PayloadCodec Value) where
  unfoldable pub decode_rpc_item : StreamMessage → Result Value
  decode_rpc_item message = do
    throw_if (has_unsupported [] message.attributes) required_unsupported
    payloads.decode message.content

  abbrev prepend_item : Result Value → Produced Value → Produced Value
  prepend_item (err failure) others = record { values = []; ending = err failure }
  prepend_item (ok value) others = record { values = value ∷ others.values; ending = others.ending }

  unfoldable pub demand_loop : List StreamMessage → Result (Unit {0}) → Produced Value
  demand_loop [] ending = record { values = []; ending = ending }
  demand_loop (message ∷ rest) ending =
      prepend_item (decode_rpc_item message) (demand_loop rest ending)

  -- `autoDemand`.
  unfoldable pub auto_demand : Produced StreamMessage → Produced Value
  auto_demand incoming = demand_loop incoming.values incoming.ending

  abbrev pub after_first : Failure → Value → List StreamMessage → Result (Unit {0}) → Result Value
  after_first too_many value [] ending = do ending; ok value
  after_first too_many value (second ∷ rest) ending = err too_many

  -- Exactly one item, as `one` and `requestResponse` take it, each with failures of its own.
  unfoldable pub exactly_one :
      Failure → Failure → List StreamMessage → Result (Unit {0}) → Result Value
  exactly_one missing too_many [] ending = do ending; err missing
  exactly_one missing too_many (message ∷ rest) ending = do
    value ← decode_rpc_item message
    after_first too_many value rest ending

  -- `one`.
  unfoldable pub one_input : Produced StreamMessage → Result Value
  one_input incoming =
      exactly_one (coded (codes "RPC_INPUT_REQUIRED")) (coded (codes "RPC_TOO_MANY_INPUTS"))
        incoming.values incoming.ending

  -- The end of `requestResponse`.
  unfoldable pub one_response : Produced StreamMessage → Result Value
  one_response incoming =
      exactly_one (coded (codes "RPC_RESPONSE_REQUIRED")) (coded (codes "RPC_TOO_MANY_RESPONSES"))
        incoming.values incoming.ending

  -- `for await (const value of …) await stream.send(encode(value))`, then `complete`.
  unfoldable pub send_each : List Value → Result (Unit {0}) → Served
  send_each [] ending = record { sent = []; settled = settle ending }
  send_each (value ∷ rest) ending = from_encoded (payloads.encode value) (send_each rest ending)

  abbrev pub serve_produced : Result (Produced Value) → Served
  serve_produced (err failure) = record { sent = []; settled = rejected failure }
  serve_produced (ok produced) = send_each produced.values produced.ending

  -- One response is sent, then the stream is completed.
  abbrev pub one_value : Value → Produced Value
  one_value value = record { values = value ∷ []; ending = ok tt }

  abbrev pub no_value : Produced Value
  no_value = record { values = []; ending = ok tt }

  unfoldable pub serve_pattern : RpcPattern → RpcHandlers Value → Produced StreamMessage → Served
  serve_pattern unary handlers incoming = elim (handlers.request_response) [
    | none ↦ refuse (codes "RPC_PATTERN_UNSUPPORTED")
    | some handler ↦
        serve_produced
          (do input ← one_input incoming; response ← handler input; ok (one_value response))
  ]
  serve_pattern notify handlers incoming = elim (handlers.fire_and_forget) [
    | none ↦ refuse (codes "RPC_PATTERN_UNSUPPORTED")
    | some handler ↦ serve_produced (do input ← one_input incoming; handler input; ok no_value)
  ]
  serve_pattern server_stream handlers incoming = elim (handlers.request_stream) [
    | none ↦ refuse (codes "RPC_PATTERN_UNSUPPORTED")
    | some handler ↦ serve_produced (do input ← one_input incoming; ok (handler input))
  ]
  serve_pattern duplex handlers incoming = elim (handlers.request_channel) [
    | none ↦ refuse (codes "RPC_PATTERN_UNSUPPORTED")
    | some handler ↦ serve_produced (ok (handler (auto_demand incoming)))
  ]

  abbrev pub serve_found : RpcPattern → Option (RpcHandlers Value) → Produced StreamMessage → Served
  serve_found pattern none incoming = refuse (codes "RPC_NOT_FOUND")
  serve_found pattern (some handlers) incoming = serve_pattern pattern handlers incoming

  module _ (codec : TextCodec) where
    abbrev pub serve_opened :
        List (List ℕ × RpcHandlers Value)
        → Result (List ℕ × RpcPattern)
        → Produced StreamMessage
        → Served
    serve_opened table (err failure) incoming = record { sent = []; settled = failed failure }
    serve_opened table (ok (target, pattern)) incoming =
        serve_found pattern (find_handlers table target) incoming

    unfoldable pub handle_incoming_rpc :
        List (List ℕ × RpcHandlers Value) → List ProtocolAttribute → Produced StreamMessage → Served
    handle_incoming_rpc table attributes incoming =
        serve_opened table (read_open codec attributes) incoming

    -- What a call with one input opens its stream with and sends on it.
    unfoldable pub start_request :
        List ℕ → RpcPattern → Value → Result (List ProtocolAttribute × List ℕ)
    start_request target pattern input = do
      validate_target codec target
      attributes ← profile_attributes codec target pattern
      content ← payloads.encode input
      ok (attributes, content)
