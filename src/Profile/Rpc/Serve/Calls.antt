-- ===== src/Profile/Rpc/Serve/Calls.antt =====
-- Calls from their start to what the caller is given.
use pure_reactive_protocol.Prelude.{ℕ, ◌≡◌, refl, ap, sym, subst, ◌∙◌, some, List, [], ◌∷◌}
use pure_reactive_protocol.Failure.{Result, ok, ◌>>=◌, >>=-eq-ok, from_ok}
use pure_reactive_protocol.Core.Attributes.{ProtocolAttribute, TextCodec, IsUtf8, IsSendable}
use pure_reactive_protocol.Core.Session.State.{StreamMessage}
use pure_reactive_protocol.Profile.Rpc.{
  RpcPattern, unary, server_stream, has_unsupported, read_open, validate_target, profile_attributes,
}
use pure_reactive_protocol.Profile.Rpc.Open.{read_open-profile_attributes}
use pure_reactive_protocol.Profile.Rpc.Serve.{
  Produced, PayloadCodec, RpcHandlers, completed, find_handlers, decode_rpc_item, demand_loop,
  auto_demand, exactly_one, one_input, one_response, send_each, serve_pattern, handle_incoming_rpc,
  start_request,
}

-- What a peer's sends and its `complete` are to the other side.
abbrev pub messages : List (List ℕ) → List StreamMessage
messages [] = []
messages (content ∷ rest) = record { content = content; attributes = [] } ∷ messages rest

abbrev pub delivered : List (List ℕ) → Produced StreamMessage
delivered contents = record { values = messages contents; ending = ok tt }

module _ {Value : Type 0} (payloads : PayloadCodec Value) where
  -- What the profile expects of a codec: the other side decodes what this one encodes.
  abbrev pub IsPayloadCodec : Type 0
  IsPayloadCodec =
      (value : Value) (content : List ℕ)
      → payloads.encode value ≡ ok content
      → payloads.decode content ≡ ok value

  abbrev pub encode_all : List Value → Result (List (List ℕ))
  encode_all [] = ok []
  encode_all (value ∷ rest) = do
    content ← payloads.encode value
    others ← encode_all rest
    ok (content ∷ others)

  one_input-delivered :
      (content : List ℕ) (value : Value)
      → payloads.decode content ≡ ok value
      → one_input payloads (delivered (content ∷ [])) ≡ ok value
  unfolding one_input exactly_one decode_rpc_item has_unsupported
  one_input-delivered content value h = rw h refl

  one_response-delivered :
      (content : List ℕ) (value : Value)
      → payloads.decode content ≡ ok value
      → one_response payloads (delivered (content ∷ [])) ≡ ok value
  unfolding one_response exactly_one decode_rpc_item has_unsupported
  one_response-delivered content value h = rw h refl

  -- The contents are sent for the values, and the other side iterates over the values.
  abbrev IsSentAs : List Value → List (List ℕ) → Type 0
  IsSentAs values contents =
      (send_each payloads values (ok tt) ≡ record { sent = contents; settled = completed })
      × (demand_loop payloads (messages contents) (ok tt)
          ≡ record { values = values; ending = ok tt })

  send_each-IsSentAs :
      (values : List Value) (contents : List (List ℕ))
      → IsPayloadCodec
      → encode_all values ≡ ok contents
      → IsSentAs values contents
  unfolding send_each demand_loop decode_rpc_item has_unsupported
  send_each-IsSentAs [] contents law h = subst (IsSentAs []) (from_ok h) (refl, refl)
  send_each-IsSentAs (value ∷ rest) contents law h =
      let (content, e, h1) = >>=-eq-ok (payloads.encode value) _ h in
      let (others, e', h2) = >>=-eq-ok (encode_all rest) _ h1 in
      let (sent, read) = send_each-IsSentAs rest others law e' in
      let decoded = law value content e in
      subst (IsSentAs (value ∷ rest)) (from_ok h2) (rw (e, sent) refl, rw (decoded, read) refl)

  -- A request that is started is read as such by the server, which finds its handlers.
  start_request-served :
      (codec : TextCodec)
      → IsUtf8 codec
      → (table : List (List ℕ × RpcHandlers Value)) (target : List ℕ) (pattern : RpcPattern)
        (input : Value) (handlers : RpcHandlers Value) (attributes : List ProtocolAttribute)
        (content : List ℕ)
      → IsSendable target
      → start_request payloads codec target pattern input ≡ ok (attributes, content)
      → find_handlers table target ≡ some handlers
      → ((incoming : Produced StreamMessage)
          → handle_incoming_rpc payloads codec table attributes incoming
            ≡ serve_pattern payloads pattern handlers incoming)
        × (payloads.encode input ≡ ok content)
  unfolding start_request handle_incoming_rpc
  start_request-served codec utf8 table target pattern input handlers attributes content sendable h
        found =
      let (u, valid, h1) = >>=-eq-ok (validate_target codec target) _ h in
      let (items, opened, h2) = >>=-eq-ok (profile_attributes codec target pattern) _ h1 in
      let (data_, encoded, h3) = >>=-eq-ok (payloads.encode input) _ h2 in
      let pair = from_ok h3 in
      let (_, read) =
        read_open-profile_attributes codec utf8 target pattern items sendable valid opened in
      let read' : read_open codec attributes ≡ ok (target, pattern) =
        ap (read_open codec) (sym (ap (λ p. p.0) pair)) ∙ read in
      (λ incoming. rw (read', found) refl, encoded ∙ ap ok (ap (λ p. p.1) pair))

-- A unary call to a target whose handler answers the input with a value that the payload codec
-- encodes: the server sends that one payload and completes, and the caller is given the value.
-- The target is a text that arrives as sent, and the payload codec decodes what it encodes.
pub one_response-handle_incoming_rpc :
    {Value : Type 0} (payloads : PayloadCodec Value) (codec : TextCodec)
    → IsUtf8 codec
    → IsPayloadCodec payloads
    → (table : List (List ℕ × RpcHandlers Value)) (target : List ℕ) (input output : Value)
      (handlers : RpcHandlers Value) (handler : Value → Result Value)
      (attributes : List ProtocolAttribute) (request response : List ℕ)
    → IsSendable target
    → start_request payloads codec target unary input ≡ ok (attributes, request)
    → find_handlers table target ≡ some handlers
    → handlers.request_response ≡ some handler
    → handler input ≡ ok output
    → payloads.encode output ≡ ok response
    → (handle_incoming_rpc payloads codec table attributes (delivered (request ∷ []))
        ≡ record { sent = response ∷ []; settled = completed })
      × (one_response payloads (delivered (response ∷ [])) ≡ ok output)
unfolding serve_pattern send_each
one_response-handle_incoming_rpc payloads codec utf8 law table target input output handlers handler
      attributes request response sendable started found has answers encoded =
    let (served, content) =
      start_request-served payloads codec utf8 table target unary input handlers attributes request
        sendable started found in
    let taken = one_input-delivered payloads request input (law input request content) in
    (
      served (delivered (request ∷ [])) ∙ rw (has, taken, answers, encoded) refl,
      one_response-delivered payloads response output (law output response encoded),
    )

-- A streaming call to a target whose handler answers the input with finitely many values that the
-- payload codec encodes: the server sends their payloads in order and completes, and the caller
-- iterates over exactly these values. The target is a text that arrives as sent, and the payload
-- codec decodes what it encodes.
pub auto_demand-handle_incoming_rpc :
    {Value : Type 0} (payloads : PayloadCodec Value) (codec : TextCodec)
    → IsUtf8 codec
    → IsPayloadCodec payloads
    → (table : List (List ℕ × RpcHandlers Value)) (target : List ℕ) (input : Value)
      (outputs : List Value) (handlers : RpcHandlers Value) (handler : Value → Produced Value)
      (attributes : List ProtocolAttribute) (request : List ℕ) (responses : List (List ℕ))
    → IsSendable target
    → start_request payloads codec target server_stream input ≡ ok (attributes, request)
    → find_handlers table target ≡ some handlers
    → handlers.request_stream ≡ some handler
    → handler input ≡ record { values = outputs; ending = ok tt }
    → encode_all payloads outputs ≡ ok responses
    → (handle_incoming_rpc payloads codec table attributes (delivered (request ∷ []))
        ≡ record { sent = responses; settled = completed })
      × (auto_demand payloads (delivered responses) ≡ record { values = outputs; ending = ok tt })
unfolding serve_pattern auto_demand
auto_demand-handle_incoming_rpc payloads codec utf8 law table target input outputs handlers handler
      attributes request responses sendable started found has answers encoded =
    let (served, content) =
      start_request-served payloads codec utf8 table target server_stream input handlers attributes
        request sendable started found in
    let taken = one_input-delivered payloads request input (law input request content) in
    let (sent, read) = send_each-IsSentAs payloads outputs responses law encoded in
    (served (delivered (request ∷ [])) ∙ rw (has, taken, answers) sent, read)
