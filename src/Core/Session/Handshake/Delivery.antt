-- ===== src/Core/Session/Handshake/Delivery.antt =====
-- What a session sends after its handshake is read by the other side, under that side's own limits.
use pure_reactive_protocol.Prelude.{◌≡◌, sym, ap, subst, ◌∙◌, ◌⊎◌, Bool, none, some, List, All}
use pure_reactive_protocol.Failure.{ok, from_ok}
use pure_reactive_protocol.Core.Limits.{
  ProtocolLimits, PeerProtocolLimits, LimitOverrides, resolve_protocol_limits,
  encode_peer_protocol_limits, decode_peer_protocol_limits,
}
use pure_reactive_protocol.Core.Limits.Exchange.{IsResolved, announced, decode-encode_limits}
use pure_reactive_protocol.Core.Attributes.{IsUtf8}
use pure_reactive_protocol.Core.Frame.{ProtocolFrame}
use pure_reactive_protocol.Core.Capabilities.{
  DecodedCapabilityOffer, capabilities_from_attributes, find_offer,
}
use pure_reactive_protocol.Core.Session.State.{Session, ready}
use pure_reactive_protocol.Core.Session.Lane.{Lane, write_frames_now}
use pure_reactive_protocol.Core.Session.Lane.Sequence.{
  IsPlain, decode_each, numbered, decode_each-write_frames_now,
}
use pure_reactive_protocol.Core.Session.Negotiated.{Attachment, Setup, passed, core_limits}
use pure_reactive_protocol.Core.Session.Handshake.{handle_hello, handle_welcome}
use pure_reactive_protocol.Core.Session.Handshake.Established.{
  IsEstablished, IsOffered, handshake-IsEstablished, IsEstablished-IsWider,
}

-- The frame announces the limits `theirs` among the capabilities that it offers.
abbrev pub IsAnnounced : ProtocolFrame → ProtocolLimits → Type 0
IsAnnounced f theirs =
    (offers : List DecodedCapabilityOffer) × (offer : DecodedCapabilityOffer)
    × (capabilities_from_attributes f.attributes ≡ ok offers)
    × (find_offer offers core_limits ≡ some offer)
    × (offer.descriptor.parameters ≡ encode_peer_protocol_limits theirs)

-- Resolved limits that a frame announces are the ones that a handshake reads.
announced_remote :
    (setup : Setup) (f : ProtocolFrame) (a : Attachment) (theirs : ProtocolLimits)
    (overrides : LimitOverrides) (remote : PeerProtocolLimits)
    → resolve_protocol_limits overrides ≡ ok theirs
    → IsAnnounced f theirs
    → IsOffered setup f a remote
    → remote ≡ announced theirs
announced_remote setup f a theirs overrides remote resolved (offers, offer, sent, there, said) o =
    let (offers', offer', sent', there', read) = o.limits in
    let same : offers' ≡ offers = from_ok (sym sent' ∙ sent) in
    let both : some offer' ≡ some offer =
      sym there' ∙ ap (λ l. find_offer l core_limits) same ∙ there in
    let this : offer' ≡ offer = cc in
    let parameters : offer'.descriptor.parameters ≡ encode_peer_protocol_limits theirs =
      ap (λ (c : DecodedCapabilityOffer). c.descriptor.parameters) this ∙ said in
    from_ok (
      sym read
      ∙ ap (λ p. decode_peer_protocol_limits (some p)) parameters
      ∙ decode-encode_limits overrides theirs resolved)

-- A session has taken, without a throw, a handshake frame that offers limits which the other side
-- resolved. As long as it is ready and has the limits for sending that the handshake
-- set: frames of a connected session, with sendable attribute ids, that `writeFrames` writes without
-- a throw are decoded by the other side under its own limits, in order and with the sequence
-- numbers that follow on the session's own. That holds of both encodings.
pub frames_arrive :
    (setup : Setup) (f : ProtocolFrame) (a b : Attachment) (theirs : ProtocolLimits)
    (overrides : LimitOverrides) (compact : Bool) (lane : Lane) (frames : List ProtocolFrame)
    (s : Session)
    → IsUtf8 setup.host.codec
    → IsResolved setup.runtime.limits
    → (handle_hello setup f a ≡ passed b) ⊎ (handle_welcome setup f a ≡ passed b)
    → resolve_protocol_limits overrides ≡ ok theirs
    → IsAnnounced f theirs
    → s.state ≡ ready
    → s.outbound_limits ≡ b.session.outbound_limits
    → All IsPlain frames
    → (write_frames_now setup.host.codec compact lane frames s).failure ≡ none
    → decode_each setup.host.codec compact theirs
        (write_frames_now setup.host.codec compact lane frames s).sent
      ≡ ok (numbered s.outgoing_sequence frames)
frames_arrive setup f a b theirs overrides compact lane frames s utf8 own taken resolved said
      is_ready same plain written =
    let (remote, e, offered) = handshake-IsEstablished setup f a b own taken in
    let read = announced_remote setup f b theirs overrides remote resolved said offered in
    let covers =
      IsEstablished-IsWider setup.runtime.limits theirs b
        (subst (IsEstablished setup.runtime.limits b) read e) in
    (decode_each-write_frames_now setup.host.codec utf8 compact lane b.session.outbound_limits
      theirs e.resolved covers frames s is_ready same plain written).0
