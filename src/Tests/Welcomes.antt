-- ===== src/Tests/Welcomes.antt =====
-- A WELCOME that a connecting initiator takes.
use pure_reactive_protocol.Prelude.{
  ℕ, ◌≡◌, refl, inr, true, false, none, List, [], ◌∷◌, ◌++◌, codes, text_eq,
}
use pure_reactive_protocol.Failure.{ok}
use pure_reactive_protocol.Bytes.{set_u16, be16, be32}
use pure_reactive_protocol.Texts.{contains}
use pure_reactive_protocol.Core.Limits.{
  PeerProtocolLimits, default_protocol_limits, encode_peer_protocol_limits,
  decode_peer_protocol_limits, resolve_protocol_limits,
}
use pure_reactive_protocol.Core.Limits.Exchange.{IsResolved, resolve-IsResolved}
use pure_reactive_protocol.Core.Liveness.{
  default_liveness, encode_liveness_parameters, decode_liveness_parameters,
}
use pure_reactive_protocol.Core.Attributes.{
  ProtocolAttribute, bytes, well_formed, attributes_by_id, first_attribute, strict_text,
  attribute_text_strict,
}
use pure_reactive_protocol.Core.Capabilities.{
  CapabilityDescriptor, NegotiatedCapability, DecodedCapabilityOffer, capability_prefix, offers_id,
  find_offer, decode_range, validate_capability_descriptor, capabilities_from_attributes,
  offers_from, check_local, check_remote_required, check_local_required, negotiate_one,
  negotiate_each, negotiate_capabilities,
}
use pure_reactive_protocol.Core.Codec.Validate.{validate_frame, bad_shape}
use pure_reactive_protocol.Core.Compact.Varint.{
  write_varint, write_groups, varint_bytes, count_groups,
}
use pure_reactive_protocol.Core.Compact.Dictionary.{
  prepare_loop, prepare_attributes, write_area, encoded_bytes,
}
use pure_reactive_protocol.Core.Compact.Frames.{encode_compact_frame}
use pure_reactive_protocol.Core.Runtime.{first_version}
use pure_reactive_protocol.Core.Frame.{ProtocolFrame, welcome}
use pure_reactive_protocol.Core.Session.State.{Session, connecting, ready, plain_frame}
use pure_reactive_protocol.Core.Session.Negotiated.{
  Attachment, Setup, passed, core_limits, core_liveness, find_negotiated, check_handshake_required,
  validate_handshake_attributes, limits_for_peer, set_peer_limits, check_peer_liveness,
  apply_peer_limits, apply_datagram_capability, attach_extensions, apply_negotiated,
}
use pure_reactive_protocol.Core.Session.Handshake.{
  check_negotiated, accept_welcome, report_failure, handle_welcome, negotiate_offers,
}
use pure_reactive_protocol.Core.Session.Handshake.Established.{
  IsEstablished, IsOffered, handshake-IsEstablished,
}
use pure_reactive_protocol.Core.Session.Handshake.Delivery.{IsAnnounced, frames_arrive}
use pure_reactive_protocol.Core.Session.Lane.{
  write_frames_now, write_each, then_write, write_frame_now, encoded_for, lane_answered, encode_for,
}
use pure_reactive_protocol.Core.Session.Lane.Sequence.{decode_each, numbered}
use pure_reactive_protocol.Tests.Wire.{pairs, pairs-IsUtf8}
use pure_reactive_protocol.Tests.Lanes.{taking, two_frames}
use pure_reactive_protocol.Tests.Streams.{session}
use pure_reactive_protocol.Tests.Agreements.{no_overrides, created}
use pure_reactive_protocol.Tests.Handshakes.{initiating, session_item}

-- A WELCOME with limits and timers, as a connecting initiator takes it.
abbrev limits_bytes : List ℕ
unfolding encode_peer_protocol_limits
limits_bytes = encode_peer_protocol_limits default_protocol_limits

abbrev liveness_bytes : List ℕ
unfolding encode_liveness_parameters
liveness_bytes = encode_liveness_parameters default_liveness

abbrev core_capabilities : List CapabilityDescriptor
core_capabilities =
    first_version core_limits limits_bytes ∷ first_version core_liveness liveness_bytes ∷ []

abbrev connecting_to : Setup
connecting_to = record initiating {
  offered = core_capabilities;
  runtime = record created { require = []; extensions = [] };
}

abbrev core_item : List ℕ → List ℕ → ProtocolAttribute
core_item id parameters = record {
  id = capability_prefix ++ id;
  value = set_u16 1 ++ (set_u16 1 ++ parameters);
  required = false;
}

abbrev welcome_frame : ProtocolFrame
welcome_frame =
    plain_frame welcome 0
      (session_item
        ∷ core_item core_limits limits_bytes
        ∷ core_item core_liveness liveness_bytes
        ∷ [])
      []

abbrev core_agreed : CapabilityDescriptor → NegotiatedCapability
core_agreed capability = record {
  id = capability.id;
  version = 1;
  own = capability;
  theirs = capability;
}

abbrev connecting_session : Session
connecting_session = record session { state = connecting; streams = [] }

abbrev before : Attachment
before = record {
  session = connecting_session;
  session_id = codes "s";
  negotiated = [];
  datagram_lane = false;
  remote_max_inbound_datagram_bytes = 0;
  reading_datagrams = false;
  attached = [];
}

abbrev after : Attachment
after = record before {
  session = record connecting_session {
    state = ready;
    remote_max_inbound_streams = default_protocol_limits.max_inbound_streams;
    remote_max_inbound_item_bytes = default_protocol_limits.max_inbound_item_bytes;
    outbound_limits = default_protocol_limits;
  };
  negotiated =
      core_agreed (first_version core_limits limits_bytes)
      ∷ core_agreed (first_version core_liveness liveness_bytes)
      ∷ [];
}

default_resolved : resolve_protocol_limits no_overrides ≡ ok default_protocol_limits
unfolding resolve_protocol_limits
default_resolved = refl

default_protocol_limits-IsResolved : IsResolved default_protocol_limits
default_protocol_limits-IsResolved =
    resolve-IsResolved no_overrides default_protocol_limits default_resolved

takes_welcome : handle_welcome connecting_to welcome_frame before ≡ passed after
unfolding handle_welcome accept_welcome report_failure validate_handshake_attributes
    attributes_by_id attribute_text_strict first_attribute strict_text check_handshake_required
    negotiate_offers capabilities_from_attributes offers_from decode_range negotiate_capabilities
    check_local check_remote_required check_local_required negotiate_each negotiate_one
    validate_capability_descriptor bytes well_formed contains offers_id find_offer text_eq
    check_negotiated apply_negotiated apply_peer_limits find_negotiated decode_peer_protocol_limits
    set_peer_limits limits_for_peer check_peer_liveness decode_liveness_parameters
    apply_datagram_capability attach_extensions limits_bytes liveness_bytes be16 be32
takes_welcome = refl

handshake-IsEstablished_example :
    (remote : PeerProtocolLimits) × IsEstablished default_protocol_limits after remote
    × IsOffered connecting_to welcome_frame after remote
handshake-IsEstablished_example =
    handshake-IsEstablished connecting_to welcome_frame before after
      default_protocol_limits-IsResolved (inr takes_welcome)

abbrev core_offer : List ℕ → List ℕ → DecodedCapabilityOffer
core_offer id parameters = record { descriptor = first_version id parameters; required = false }

welcome_frame-IsAnnounced : IsAnnounced welcome_frame default_protocol_limits
unfolding find_offer text_eq capabilities_from_attributes offers_from decode_range contains
    limits_bytes liveness_bytes be16
welcome_frame-IsAnnounced = (
  core_offer core_limits limits_bytes ∷ core_offer core_liveness liveness_bytes ∷ [],
  core_offer core_limits limits_bytes,
  refl,
  refl,
  refl,
)

after_written : (write_frames_now pairs true taking two_frames after.session).failure ≡ none
unfolding write_frames_now write_each then_write write_frame_now encoded_for lane_answered
    encode_for encode_compact_frame prepare_attributes prepare_loop write_area write_varint
    write_groups varint_bytes count_groups validate_frame bad_shape encoded_bytes
after_written = refl

frames_arrive_example :
    decode_each pairs true default_protocol_limits
      (write_frames_now pairs true taking two_frames after.session).sent
    ≡ ok (numbered 2 two_frames)
frames_arrive_example =
    frames_arrive connecting_to welcome_frame before after default_protocol_limits no_overrides true
      taking two_frames after.session pairs-IsUtf8 default_protocol_limits-IsResolved
      (inr takes_welcome) default_resolved welcome_frame-IsAnnounced refl refl
      ((refl, tt), ((refl, tt), tt)) after_written
