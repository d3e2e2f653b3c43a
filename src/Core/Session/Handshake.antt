-- ===== src/Core/Session/Handshake.antt =====
-- src/core/session.ts: HELLO and WELCOME, `handleHello`, `handleWelcome` and what they send.
pub mod Limited
pub mod Established
pub mod Versions
pub mod Agreement
pub mod Same
pub mod Answer
pub mod RoundTrip
pub mod Delivery
use pure_reactive_protocol.Prelude.{
  ℕ, ◌==◌, min, Bool, true, false, ◌&&◌, ◌||◌, not, Option, none, some, List, [], ◌∷◌, ◌++◌, length,
  leb, take, text_eq, codes, if◌then◌else◌,
}
use pure_reactive_protocol.Failure.{
  Failure, Result, ok, err, ◌>>=◌, ◌>>◌, throw_if, protocol_violation, capability_mismatch,
}
use pure_reactive_protocol.Core.Limits.{
  ProtocolLimits, PeerProtocolLimits, decode_peer_protocol_limits,
}
use pure_reactive_protocol.Core.Liveness.{decode_liveness_parameters}
use pure_reactive_protocol.Core.Datagram.{decode_datagram_capability}
use pure_reactive_protocol.Core.Attributes.{
  ProtocolAttribute, TextCodec, text_attribute, attributes_by_id, attribute_text_strict,
}
use pure_reactive_protocol.Core.Capabilities.{
  CapabilityDescriptor, NegotiatedCapability, is_capability_id, capabilities_from_attributes,
  capabilities_to_attributes, negotiate_capabilities,
}
use pure_reactive_protocol.Core.Frame.{ProtocolFrame, hello, welcome}
use pure_reactive_protocol.Core.Runtime.{ProtocolExtension, ProtocolRuntime}
use pure_reactive_protocol.Core.Session.State.{
  Session, SessionOrigin, initiator, acceptor, SessionState, ready, Host, write_frame, plain_frame,
}
use pure_reactive_protocol.Core.Session.Retire.{is_over}
use pure_reactive_protocol.Core.Session.Diagnostics.{or_violation, code_of, error_frame}
use pure_reactive_protocol.Core.Session.Lane.{is_connecting}
use pure_reactive_protocol.Core.Session.Offer.{core_datagram}
use pure_reactive_protocol.Core.Session.Negotiated.{
  session_id_attribute, core_limits, core_liveness, Attachment, Setup, Phase, passed, stopped,
  then_phase, with_result, find_negotiated, is_one_required, check_handshake_required, nonempty_id,
  validate_handshake_attributes, limits_for_peer, set_peer_limits, with_capability,
  check_peer_liveness, apply_peer_limits, is_on, apply_datagram_capability, keep_disposer,
  attach_one, attach_extensions, apply_negotiated,
}

-- The descriptors of a WELCOME: of each negotiated capability the version agreed on.
unfoldable pub welcome_descriptors : List NegotiatedCapability → List CapabilityDescriptor
welcome_descriptors [] = []
welcome_descriptors (n ∷ rest) =
    record {
      id = n.id;
      min_version = n.version;
      max_version = n.version;
      parameters = n.own.parameters;
    }
    ∷ welcome_descriptors rest

-- The attributes of a HELLO and of a WELCOME, with the descriptors of either.
unfoldable pub handshake_attributes :
    TextCodec → List ℕ → List CapabilityDescriptor → List (List ℕ) → Result (List ProtocolAttribute)
handshake_attributes codec session_id descriptors require = do
  item ← text_attribute codec session_id_attribute session_id true
  others ← capabilities_to_attributes codec descriptors require
  ok (item ∷ others)

abbrev pub become_ready : Attachment → Attachment
become_ready a = record a { session = record (a.session) { state = ready } }

unfoldable pub send_welcome : Setup → Attachment → Phase
send_welcome setup a =
    with_result
      (handshake_attributes setup.host.codec a.session_id (welcome_descriptors a.negotiated)
        setup.runtime.require)
      a
      (λ attributes. passed (
        become_ready
          (record a { session = write_frame (plain_frame welcome 0 attributes []) a.session })))

-- The negotiation with what the attributes of the other side offer.
unfoldable pub negotiate_offers :
    Setup → List ProtocolAttribute → Result (List NegotiatedCapability)
negotiate_offers setup attributes = do
  offers ← capabilities_from_attributes attributes
  negotiate_capabilities setup.host.codec setup.offered offers setup.runtime.require

unfoldable pub accept_hello : Setup → ProtocolFrame → Attachment → Phase
accept_hello setup f a =
    with_result (validate_handshake_attributes setup.host.codec f.attributes) a (λ id.
      let named = record a { session_id = id } in
      with_result (negotiate_offers setup f.attributes) named (λ negotiated.
        then_phase (apply_negotiated setup (record named { negotiated = negotiated }))
          (λ applied. send_welcome setup applied)))

unfoldable pub check_negotiated : List NegotiatedCapability → List (List ℕ) → Result (Unit {0})
check_negotiated negotiated [] = ok tt
check_negotiated negotiated (required ∷ rest) = do
  throw_if (not (is_on (find_negotiated negotiated required))) capability_mismatch
  check_negotiated negotiated rest

unfoldable pub accept_welcome : Setup → ProtocolFrame → Attachment → Phase
accept_welcome setup f a =
    with_result (validate_handshake_attributes setup.host.codec f.attributes) a (λ id.
      if not (text_eq id a.session_id)
      then stopped protocol_violation a
      else with_result (negotiate_offers setup f.attributes) a (λ negotiated.
        let agreed = record a { negotiated = negotiated } in
        with_result (check_negotiated negotiated setup.runtime.require) agreed (λ checked.
          then_phase (apply_negotiated setup agreed) (λ applied. passed (become_ready applied)))))

-- `catch`: the error is reported by a session ERROR, and thrown on.
unfoldable pub report_failure : Host → Phase → Phase
report_failure host (a, none) = passed a
report_failure host (a, some e) = stopped e (record a {
  session = write_frame (error_frame host 0 e (code_of e (codes "NEGOTIATION_ERROR"))) a.session;
})

abbrev pub is_origin : SessionOrigin → Option SessionOrigin → Bool
is_origin initiator (some initiator) = true
is_origin acceptor (some acceptor) = true
is_origin _ _ = false

unfoldable pub handle_hello : Setup → ProtocolFrame → Attachment → Phase
handle_hello setup f a =
    if not (is_origin acceptor a.session.origin && is_connecting a.session.state)
    then stopped protocol_violation a
    else report_failure setup.host (accept_hello setup f a)

unfoldable pub handle_welcome : Setup → ProtocolFrame → Attachment → Phase
handle_welcome setup f a =
    if not (is_origin initiator a.session.origin && is_connecting a.session.state)
    then stopped protocol_violation a
    else report_failure setup.host (accept_welcome setup f a)
