-- ===== src/Core/Session/Handshake/Established.antt =====
-- What a handshake frame leaves that a session takes without a throw.
use pure_reactive_protocol.Prelude.{
  ◌≤◌, ◌≡◌, refl, ap, sym, subst, ◌∙◌, ◌&&◌, not, Bool, true, false, if◌then◌else◌, none, some,
  List, arith, Bool-cases, inl, inr, text_eq, ◌⊎◌,
}
use pure_reactive_protocol.Failure.{Failure, ok, >>=-eq-ok}
use pure_reactive_protocol.Core.Limits.{
  ProtocolLimits, PeerProtocolLimits, decode_peer_protocol_limits,
}
use pure_reactive_protocol.Core.Capabilities.{
  CapabilityDescriptor, DecodedCapabilityOffer, capabilities_from_attributes, find_offer,
}
use pure_reactive_protocol.Core.Capabilities.Agreement.{negotiate-IsAgreed}
use pure_reactive_protocol.Core.Session.Handshake.Agreement.{IsAgreed-find}
use pure_reactive_protocol.Core.Limits.Exchange.{
  announced, IsResolved, IsUsable, decode_limits-IsUsable,
}
use pure_reactive_protocol.Core.Frame.{ProtocolFrame}
use pure_reactive_protocol.Core.Session.State.{Host, ready, acceptor, initiator, write_frame}
use pure_reactive_protocol.Core.Session.Lane.{is_connecting}
use pure_reactive_protocol.Core.Codec.Wider.{IsWider}
use pure_reactive_protocol.Core.Session.Negotiated.{
  Attachment, Setup, Phase, passed, stopped, find_negotiated, core_limits, limits_for_peer,
  apply_negotiated, validate_handshake_attributes,
}
use pure_reactive_protocol.Core.Session.Handshake.{
  send_welcome, accept_hello, accept_welcome, report_failure, handle_hello, handle_welcome,
  negotiate_offers, check_negotiated, become_ready, handshake_attributes, welcome_descriptors,
  is_origin,
}
use pure_reactive_protocol.Core.Session.Handshake.Limited.{
  then_phase-passed, with_result-passed, IsLimited, apply_negotiated-IsLimited,
}

-- What a ready session has: limits for sending that are resolved, and within what the other side
-- announced.
pub record IsEstablished (own : ProtocolLimits) (a : Attachment) (remote : PeerProtocolLimits)
    : Type 0 where
  pub is_ready : a.session.state ≡ ready
  pub limited : IsLimited own a remote
  pub resolved : IsResolved a.session.outbound_limits
  pub frame : a.session.outbound_limits.max_frame_bytes ≤ remote.max_frame_bytes
  pub area : a.session.outbound_limits.max_attribute_bytes ≤ remote.max_attribute_bytes
  pub count : a.session.outbound_limits.max_attributes ≤ remote.max_attributes
  pub id : a.session.outbound_limits.max_attribute_id_bytes ≤ remote.max_attribute_id_bytes
  pub value : a.session.outbound_limits.max_attribute_value_bytes ≤ remote.max_attribute_value_bytes

limits_for_peer-IsResolved :
    (own : ProtocolLimits) (remote : PeerProtocolLimits)
    → IsResolved own
    → IsUsable remote
    → IsResolved (limits_for_peer own remote)
unfolding limits_for_peer
limits_for_peer-IsResolved own remote r u = record {
  frame_holds_header = omega arith;
  frame_fits = omega arith;
  area_in_frame = omega arith;
  count_fits = omega arith;
  id_fits = omega arith;
  value_in_area = omega arith;
  item_fits = r.item_fits;
  item_in_reassembly = r.item_in_reassembly;
  streams_fit = r.streams_fit;
  pending_in_streams = r.pending_in_streams;
  area_pos = omega arith;
  count_pos = omega arith;
  id_pos = omega arith;
  value_pos = omega arith;
  item_pos = r.item_pos;
  streams_pos = r.streams_pos;
  retired_pos = r.retired_pos;
  reassembly_pos = r.reassembly_pos;
  pending_pos = r.pending_pos;
  signals_pos = r.signals_pos;
  signal_bytes_pos = r.signal_bytes_pos;
  retained_pos = r.retained_pos;
  frame_pos = omega arith;
}

-- A ready session, whose limits for sending came from what was read.
established :
    (own : ProtocolLimits) (a b : Attachment) (remote : PeerProtocolLimits)
    → IsResolved own
    → IsLimited own a remote
    → b.session.state ≡ ready
    → b.session.outbound_limits ≡ a.session.outbound_limits
    → b.session.remote_max_inbound_streams ≡ a.session.remote_max_inbound_streams
    → b.session.remote_max_inbound_item_bytes ≡ a.session.remote_max_inbound_item_bytes
    → b.negotiated ≡ a.negotiated
    → IsEstablished own b remote
unfolding limits_for_peer
established own a b remote resolved l is_ready limits streams item negotiated =
    let (n, found, read) = l.read in
    let usable = decode_limits-IsUsable n.theirs.parameters remote read in
    let sending = limits ∙ l.sending in
    record {
      is_ready = is_ready;
      limited = record {
        sending = sending;
        streams = streams ∙ l.streams;
        item = item ∙ l.item;
        read = (n, ap (λ s. find_negotiated s core_limits) negotiated ∙ found, read);
      };
      resolved =
          subst IsResolved (sym sending) (limits_for_peer-IsResolved own remote resolved usable);
      frame = rw sending (omega arith);
      area = rw sending (omega arith);
      count = rw sending (omega arith);
      id = rw sending (omega arith);
      value = rw sending (omega arith);
    }

become_ready-IsEstablished :
    (own : ProtocolLimits) (a b : Attachment) (remote : PeerProtocolLimits)
    → IsResolved own
    → IsLimited own a remote
    → passed (become_ready a) ≡ passed b
    → IsEstablished own b remote × (b.negotiated ≡ a.negotiated)
become_ready-IsEstablished own a b remote resolved l h =
    subst (λ c. IsEstablished own c remote × (c.negotiated ≡ a.negotiated)) (ap (λ p. p.0) h)
      (established own a (become_ready a) remote resolved l refl refl refl refl refl, refl)

send_welcome-IsEstablished :
    (setup : Setup) (a b : Attachment) (remote : PeerProtocolLimits)
    → IsResolved setup.runtime.limits
    → IsLimited setup.runtime.limits a remote
    → send_welcome setup a ≡ passed b
    → IsEstablished setup.runtime.limits b remote × (b.negotiated ≡ a.negotiated)
unfolding send_welcome write_frame
send_welcome-IsEstablished setup a b remote resolved l h =
    let (attributes, e, h1) =
      with_result-passed
        (handshake_attributes setup.host.codec a.session_id (welcome_descriptors a.negotiated)
          setup.runtime.require)
        a b _ h in
    let same = ap (λ p. p.0) h1 in
    subst (λ c. IsEstablished setup.runtime.limits c remote × (c.negotiated ≡ a.negotiated)) same
      (established setup.runtime.limits a _ remote resolved l refl refl refl refl refl, refl)

-- What the frame offers: its capabilities are what was negotiated with, and among them stand the
-- limits.
pub record IsOffered (setup : Setup) (f : ProtocolFrame) (a : Attachment)
    (remote : PeerProtocolLimits) : Type 0 where
  pub stored : negotiate_offers setup f.attributes ≡ ok a.negotiated
  pub limits :
      (offers : List DecodedCapabilityOffer) × (offer : DecodedCapabilityOffer)
      × (capabilities_from_attributes f.attributes ≡ ok offers)
      × (find_offer offers core_limits ≡ some offer)
      × (decode_peer_protocol_limits (some offer.descriptor.parameters) ≡ ok remote)

-- The limits that were read are those of the frame's offer.
read-IsOffered :
    (setup : Setup) (f : ProtocolFrame) (a : Attachment) (remote : PeerProtocolLimits)
    → IsEstablished setup.runtime.limits a remote
    → negotiate_offers setup f.attributes ≡ ok a.negotiated
    → IsOffered setup f a remote
unfolding negotiate_offers
read-IsOffered setup f a remote e stored =
    let (offers, sent, h) = >>=-eq-ok (capabilities_from_attributes f.attributes) _ stored in
    let (n, found, read) = e.limited.read in
    let (all, _, _, _) =
      negotiate-IsAgreed setup.host.codec setup.offered offers setup.runtime.require a.negotiated
        h in
    let (agreed, same) = IsAgreed-find offers a.negotiated core_limits n all found in
    let (offer, there, theirs) = agreed.offered in
    record {
      stored = stored;
      limits = (
        offers,
        offer,
        sent,
        ap (find_offer offers) (sym same) ∙ there,
        ap (λ (c : CapabilityDescriptor). decode_peer_protocol_limits (some c.parameters)) theirs
            ∙ read,
      );
    }

accept_hello-IsEstablished :
    (setup : Setup) (f : ProtocolFrame) (a b : Attachment)
    → IsResolved setup.runtime.limits
    → accept_hello setup f a ≡ passed b
    → (remote : PeerProtocolLimits) × IsEstablished setup.runtime.limits b remote
      × IsOffered setup f b remote
unfolding accept_hello
accept_hello-IsEstablished setup f a b resolved h =
    let (id, e, h1) =
      with_result-passed (validate_handshake_attributes setup.host.codec f.attributes) a b _ h in
    let named = record a { session_id = id } in
    let (negotiated, e', h2) =
      with_result-passed (negotiate_offers setup f.attributes) named b _ h1 in
    let (c, applied, h3) =
      then_phase-passed (apply_negotiated setup (record named { negotiated = negotiated })) _ b
        h2 in
    let (remote, l, kept) =
      apply_negotiated-IsLimited setup (record named { negotiated = negotiated }) c applied in
    let (done, same) = send_welcome-IsEstablished setup c b remote resolved l h3 in
    let stored = e' ∙ ap ok (sym (same ∙ kept)) in
    (remote, done, read-IsOffered setup f b remote done stored)

accept_welcome-IsEstablished :
    (setup : Setup) (f : ProtocolFrame) (a b : Attachment)
    → IsResolved setup.runtime.limits
    → accept_welcome setup f a ≡ passed b
    → (remote : PeerProtocolLimits) × IsEstablished setup.runtime.limits b remote
      × IsOffered setup f b remote
unfolding accept_welcome
accept_welcome-IsEstablished setup f a b resolved h =
    let (id, e, h1) =
      with_result-passed (validate_handshake_attributes setup.host.codec f.attributes) a b _ h in
    elim (Bool-cases (text_eq id a.session_id)) [
      | inr differs ↦ let never = ap (λ p. p.1) (rw differs at h1) in cc
      | inl echoed ↦
          let (negotiated, e', h2) =
            with_result-passed (negotiate_offers setup f.attributes) a b _ (rw echoed at h1) in
          let agreed = record a { negotiated = negotiated } in
          let (checked, e'', h3) =
            with_result-passed (check_negotiated negotiated setup.runtime.require) agreed b _ h2 in
          let (c, applied, h4) = then_phase-passed (apply_negotiated setup agreed) _ b h3 in
          let (remote, l, kept) = apply_negotiated-IsLimited setup agreed c applied in
          let (done, same) =
            become_ready-IsEstablished setup.runtime.limits c b remote resolved l h4 in
          let stored = e' ∙ ap ok (sym (same ∙ kept)) in
          (remote, done, read-IsOffered setup f b remote done stored)
    ]

report_failure-passed :
    (host : Host) (p : Phase) (b : Attachment) → report_failure host p ≡ passed b → p ≡ passed b
unfolding report_failure
report_failure-passed host (a, none) b h = h
report_failure-passed host (a, some e) b h = let never = ap (λ p. p.1) h in cc

guarded-passed :
    (right : Bool) (e : Failure) (a b : Attachment) (p : Phase)
    → (if not right then stopped e a else p) ≡ passed b
    → p ≡ passed b
guarded-passed true e a b p h = h
guarded-passed false e a b p h = let never = ap (λ q. q.1) h in cc

-- A handshake frame that a session takes without a throw, whatever it contains, leaves the session
-- ready, with what was negotiated on the offers in the frame's attributes, with limits for sending
-- that are resolved and within those that the frame offers as its limits, and with the peer's limits
-- on streams and items out of that offer; the session's own limits are resolved.
pub handshake-IsEstablished :
    (setup : Setup) (f : ProtocolFrame) (a b : Attachment)
    → IsResolved setup.runtime.limits
    → (handle_hello setup f a ≡ passed b) ⊎ (handle_welcome setup f a ≡ passed b)
    → (remote : PeerProtocolLimits) × IsEstablished setup.runtime.limits b remote
      × IsOffered setup f b remote
unfolding handle_hello handle_welcome
handshake-IsEstablished setup f a b resolved (inl h) =
    accept_hello-IsEstablished setup f a b resolved (
      report_failure-passed setup.host (accept_hello setup f a) b (
        guarded-passed (is_origin acceptor a.session.origin && is_connecting a.session.state) _ a b
          _ h))
handshake-IsEstablished setup f a b resolved (inr h) =
    accept_welcome-IsEstablished setup f a b resolved (
      report_failure-passed setup.host (accept_welcome setup f a) b (
        guarded-passed (is_origin initiator a.session.origin && is_connecting a.session.state) _ a b
          _ h))

-- Limits that the other side announced as its own are wider than those for sending, so that it
-- decodes what is sent.
pub IsEstablished-IsWider :
    (own theirs : ProtocolLimits) (a : Attachment)
    → IsEstablished own a (announced theirs)
    → IsWider a.session.outbound_limits theirs
IsEstablished-IsWider own theirs a e = record {
  frame = e.frame;
  area = e.area;
  count = e.count;
  id = e.id;
  value = e.value;
}
