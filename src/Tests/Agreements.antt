-- ===== src/Tests/Agreements.antt =====
-- A negotiation with a version range that overlaps, and a capability that only one side has.
use pure_reactive_protocol.Prelude.{
  ℕ, ◌≡◌, refl, true, none, some, List, [], ◌∷◌, ◌++◌, All, codes, text_eq,
}
use mathlib.Core.List.{Memᴰ}
use pure_reactive_protocol.Failure.{ok}
use pure_reactive_protocol.Core.Attributes.{bytes, well_formed}
use pure_reactive_protocol.Texts.{contains, without, distinct}
use pure_reactive_protocol.Core.Capabilities.{
  CapabilityDescriptor, NegotiatedCapability, DecodedCapabilityOffer, offers_id, find_offer,
  check_remote_required, check_local_required, negotiate_one, negotiate_each,
  negotiate_capabilities, check_local, validate_capability_descriptor,
}
use pure_reactive_protocol.Core.Capabilities.Agreement.{
  IsAgreed, has_capability, negotiate-IsAgreed,
}
use pure_reactive_protocol.Core.Limits.{
  LimitOverrides, default_protocol_limits, resolve_protocol_limits, encode_peer_protocol_limits,
}
use pure_reactive_protocol.Core.Liveness.{
  default_liveness, resolve_liveness, encode_liveness_parameters,
}
use pure_reactive_protocol.Core.Datagram.{resolve_datagram_options, encode_datagram_capability}
use pure_reactive_protocol.Core.Runtime.{
  ProtocolExtension, RuntimeOptions, ProtocolRuntime, first_version, base_capabilities, ids_of,
  resolve_datagrams, datagram_capabilities, check_available, check_requires, extension_capabilities,
  install_ids, make_runtime,
}
use pure_reactive_protocol.Core.Runtime.Installed.{IsInstalled, make_runtime-IsInstalled}
use pure_reactive_protocol.Tests.Wire.{pairs}

abbrev pub range_of : List ℕ → ℕ → ℕ → CapabilityDescriptor
range_of id min_version max_version = record {
  id = id;
  min_version = min_version;
  max_version = max_version;
  parameters = 1 ∷ 2 ∷ [];
}

abbrev pub own_capabilities : List CapabilityDescriptor
own_capabilities = range_of (codes "a") 1 3 ∷ range_of (codes "b") 1 1 ∷ []

abbrev remote_offers : List DecodedCapabilityOffer
remote_offers = record { descriptor = range_of (codes "a") 2 5; required = true } ∷ []

abbrev agreed : List NegotiatedCapability
agreed =
    record {
      id = codes "a";
      version = 3;
      own = range_of (codes "a") 1 3;
      theirs = range_of (codes "a") 2 5;
    }
    ∷ []

negotiation :
    negotiate_capabilities pairs own_capabilities remote_offers (codes "a" ∷ []) ≡ ok agreed
unfolding negotiate_capabilities negotiate_each negotiate_one check_local check_remote_required
    check_local_required validate_capability_descriptor contains offers_id find_offer bytes
    well_formed text_eq
negotiation = refl

negotiate-IsAgreed_example :
    All (IsAgreed remote_offers) agreed
    × All (λ n. Memᴰ n.own own_capabilities) agreed
    × ((id : List ℕ)
        → contains (codes "a" ∷ []) id ≡ true
        → offers_id own_capabilities id ≡ true
        → has_capability agreed id ≡ true)
    × ((id : List ℕ) (offer : DecodedCapabilityOffer)
        → find_offer remote_offers id ≡ some offer
        → offer.required ≡ true
        → has_capability agreed id ≡ true)
negotiate-IsAgreed_example =
    negotiate-IsAgreed pairs own_capabilities remote_offers (codes "a" ∷ []) agreed negotiation

-- A runtime with datagrams and compact frames, and an extension that needs the former.
abbrev pub no_overrides : LimitOverrides
no_overrides = record {
  max_frame_bytes = none;
  max_attribute_bytes = none;
  max_attributes = none;
  max_attribute_id_bytes = none;
  max_attribute_value_bytes = none;
  max_inbound_item_bytes = none;
  max_in_flight_reassembly_bytes = none;
  max_inbound_streams = none;
  max_pending_incoming_streams = none;
  max_pending_signals = none;
  max_in_flight_signal_bytes = none;
  max_retained_stream_attribute_bytes = none;
  max_retired_streams = none;
}

abbrev pub routing : ProtocolExtension
routing = record {
  capability = range_of (codes "r") 1 2;
  requires = codes "prp.core.datagram" ∷ [];
  has_attach = true;
}

abbrev chosen : RuntimeOptions
chosen = record {
  extensions = routing ∷ [];
  require = codes "prp.core.compact-frames" ∷ codes "prp.core.limits" ∷ [];
  limits = no_overrides;
  handshake_timeout_ms = some 500;
  liveness = record { interval_ms = none; timeout_ms = none };
  datagrams = some (record { max_inbound_bytes = some 1000; max_pending = none });
  compact_frames = true;
}

abbrev pub basic : List CapabilityDescriptor
unfolding base_capabilities encode_peer_protocol_limits encode_liveness_parameters
basic = base_capabilities default_protocol_limits default_liveness

abbrev pub created : ProtocolRuntime
created = record {
  capabilities =
      basic
      ++ (first_version (codes "prp.core.datagram") (0 ∷ 0 ∷ 3 ∷ 232 ∷ [])
          ∷ first_version (codes "prp.core.compact-frames") []
          ∷ range_of (codes "r") 1 2
          ∷ []);
  require = ids_of basic ++ (codes "prp.core.compact-frames" ∷ []);
  limits = default_protocol_limits;
  extensions = routing ∷ [];
  handshake_timeout_ms = 500;
  liveness = default_liveness;
  datagrams = some (record { max_inbound_bytes = 1000; max_pending = 256 });
  compact_frames = true;
}

creation : make_runtime pairs chosen ≡ ok created
unfolding make_runtime resolve_protocol_limits resolve_liveness resolve_datagrams
    resolve_datagram_options datagram_capabilities encode_datagram_capability extension_capabilities
    install_ids check_requires check_available base_capabilities distinct without contains text_eq
    validate_capability_descriptor bytes well_formed encode_peer_protocol_limits
    encode_liveness_parameters
creation = refl

make_runtime-IsInstalled_example : IsInstalled pairs created
make_runtime-IsInstalled_example = make_runtime-IsInstalled pairs chosen created creation
