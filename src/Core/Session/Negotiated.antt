-- ===== src/Core/Session/Negotiated.antt =====
-- src/core/session.ts: what HELLO and WELCOME have in common. `validateHandshakeAttributes`,
-- `applyPeerLimits` with `limitsForPeer`, `applyDatagramCapability` and the extensions. The timer that
-- is started is not part of the state.
use pure_reactive_protocol.Prelude.{
  ℕ, min, Bool, true, false, ◌&&◌, ◌||◌, not, Option, none, some, List, [], ◌∷◌, ◌++◌, text_eq,
  codes, if◌then◌else◌,
}
use pure_reactive_protocol.Failure.{
  Failure, Result, ok, err, ◌>>=◌, ◌>>◌, throw_if, protocol_violation, capability_mismatch,
}
use pure_reactive_protocol.Core.Limits.{
  ProtocolLimits, PeerProtocolLimits, decode_peer_protocol_limits,
}
use pure_reactive_protocol.Core.Liveness.{decode_liveness_parameters}
use pure_reactive_protocol.Core.Datagram.{decode_datagram_capability}
use pure_reactive_protocol.Core.Attributes.{
  ProtocolAttribute, TextCodec, attributes_by_id, attribute_text_strict,
}
use pure_reactive_protocol.Core.Capabilities.{
  CapabilityDescriptor, NegotiatedCapability, is_capability_id,
}
use pure_reactive_protocol.Core.Runtime.{ProtocolExtension, ProtocolRuntime}
use pure_reactive_protocol.Core.Session.State.{Session, Host}
use pure_reactive_protocol.Core.Session.Retire.{is_over}
use pure_reactive_protocol.Core.Session.Diagnostics.{or_violation}
use pure_reactive_protocol.Core.Session.Offer.{core_datagram}

abbrev pub session_id_attribute : List ℕ
session_id_attribute = codes "prp.session.id"

abbrev pub core_limits : List ℕ
core_limits = codes "prp.core.limits"

abbrev pub core_liveness : List ℕ
core_liveness = codes "prp.core.liveness"

-- A session with the fields that only a handshake sets: `logicalSessionId`, `negotiated`, if there
-- is a `datagramLane` and if it is read, and the ids of the extensions whose disposers are kept.
pub record Attachment : Type 0 where
  pub session : Session
  pub session_id : List ℕ
  pub negotiated : List NegotiatedCapability
  pub datagram_lane : Bool
  pub remote_max_inbound_datagram_bytes : ℕ
  pub reading_datagrams : Bool
  pub attached : List (List ℕ)

-- What surrounds a handshake. `attach` is that of an extension, which may throw, and says if it
-- returned a disposer.
pub record Setup : Type 0 where
  pub host : Host
  pub runtime : ProtocolRuntime
  pub offered : List CapabilityDescriptor
  pub attach : ProtocolExtension → Result Bool

-- What a part of a handler leaves, also when it throws.
abbrev pub Phase : Type 0
Phase = Attachment × Option Failure

abbrev pub passed : Attachment → Phase
passed a = (a, none)

abbrev pub stopped : Failure → Attachment → Phase
stopped e a = (a, some e)

abbrev pub then_phase : Phase → (Attachment → Phase) → Phase
then_phase (a, none) next = next a
then_phase (a, some e) next = stopped e a

abbrev pub with_result {ℓ} : {A : Type ℓ} → Result A → Attachment → (A → Phase) → Phase
with_result (err e) a next = stopped e a
with_result (ok value) a next = next value

-- `negotiated.get`.
unfoldable pub find_negotiated : List NegotiatedCapability → List ℕ → Option NegotiatedCapability
find_negotiated [] id = none
find_negotiated (n ∷ rest) id = if text_eq n.id id then some n else find_negotiated rest id

abbrev pub is_one_required : List ProtocolAttribute → Bool
is_one_required [] = false
is_one_required (item ∷ []) = item.required
is_one_required (item ∷ second ∷ rest) = false

unfoldable pub check_handshake_required : List ProtocolAttribute → Result (Unit {0})
check_handshake_required [] = ok tt
check_handshake_required (item ∷ rest) = do
  throw_if (item.required && not (text_eq item.id session_id_attribute || is_capability_id item.id))
      capability_mismatch
  check_handshake_required rest

abbrev pub nonempty_id : Option (List ℕ) → Result (List ℕ)
nonempty_id none = err protocol_violation
nonempty_id (some []) = err protocol_violation
nonempty_id (some (c ∷ rest)) = ok (c ∷ rest)

unfoldable pub validate_handshake_attributes : TextCodec → List ProtocolAttribute → Result (List ℕ)
validate_handshake_attributes codec attributes = do
  let session_ids = attributes_by_id attributes session_id_attribute
  throw_if (not (is_one_required session_ids)) protocol_violation
  check_handshake_required attributes
  value ← or_violation (attribute_text_strict codec session_ids session_id_attribute)
  nonempty_id value

-- The limits for sending: on the wire, the smaller ones of both sides.
unfoldable pub limits_for_peer : ProtocolLimits → PeerProtocolLimits → ProtocolLimits
limits_for_peer own remote = record own {
  max_frame_bytes = min own.max_frame_bytes remote.max_frame_bytes;
  max_attribute_bytes = min own.max_attribute_bytes remote.max_attribute_bytes;
  max_attributes = min own.max_attributes remote.max_attributes;
  max_attribute_id_bytes = min own.max_attribute_id_bytes remote.max_attribute_id_bytes;
  max_attribute_value_bytes = min own.max_attribute_value_bytes remote.max_attribute_value_bytes;
}

unfoldable pub set_peer_limits : ProtocolLimits → PeerProtocolLimits → Attachment → Attachment
set_peer_limits own remote a = record a {
  session = record (a.session) {
    remote_max_inbound_streams = remote.max_inbound_streams;
    remote_max_inbound_item_bytes = remote.max_inbound_item_bytes;
    outbound_limits = limits_for_peer own remote;
  };
}

-- A capability that must have been negotiated.
abbrev pub with_capability :
    Option NegotiatedCapability → Attachment → (NegotiatedCapability → Phase) → Phase
with_capability none a next = stopped capability_mismatch a
with_capability (some n) a next = next n

unfoldable pub check_peer_liveness : Attachment → Phase
check_peer_liveness a = with_capability (find_negotiated a.negotiated core_liveness) a (λ n.
    with_result (or_violation (decode_liveness_parameters (some n.theirs.parameters))) a
      (λ timers. passed a))

unfoldable pub apply_peer_limits : ProtocolLimits → Attachment → Phase
apply_peer_limits own a = with_capability (find_negotiated a.negotiated core_limits) a (λ n.
    with_result (or_violation (decode_peer_protocol_limits (some n.theirs.parameters))) a
      (λ remote. check_peer_liveness (set_peer_limits own remote a)))

abbrev pub is_on {ℓ} : {A : Type ℓ} → Option A → Bool
is_on none = false
is_on (some options) = true

unfoldable pub apply_datagram_capability : ProtocolRuntime → Attachment → Phase
apply_datagram_capability runtime a = elim (find_negotiated a.negotiated core_datagram) [
  | none ↦ passed (record a { datagram_lane = false; remote_max_inbound_datagram_bytes = 0 })
  | some n ↦
      if not (is_on runtime.datagrams && a.datagram_lane)
      then stopped capability_mismatch a
      else with_result (or_violation (decode_datagram_capability (some n.theirs.parameters))) a
          (λ bytes.
            passed
              (record a { remote_max_inbound_datagram_bytes = bytes; reading_datagrams = true }))
]

-- A disposer is kept unless the session is over by then.
abbrev pub keep_disposer : List ℕ → Bool → Attachment → Attachment
keep_disposer id false a = a
keep_disposer id true a =
    if is_over a.session.state then a else record a { attached = a.attached ++ id ∷ [] }

abbrev pub attach_one : Setup → ProtocolExtension → Attachment → Phase
attach_one setup e a = elim (find_negotiated a.negotiated e.capability.id) [
  | none ↦ passed a
  | some n ↦
      with_result (setup.attach e) a (λ disposer. passed (keep_disposer e.capability.id disposer a))
]

unfoldable pub attach_extensions : Setup → List ProtocolExtension → Attachment → Phase
attach_extensions setup [] a = passed a
attach_extensions setup (e ∷ rest) a =
    then_phase (attach_one setup e a) (λ next. attach_extensions setup rest next)

-- What follows on the negotiation.
unfoldable pub apply_negotiated : Setup → Attachment → Phase
apply_negotiated setup a = then_phase (apply_peer_limits setup.runtime.limits a) (λ limited.
    then_phase (apply_datagram_capability setup.runtime limited)
      (λ carried. attach_extensions setup setup.runtime.extensions carried))
