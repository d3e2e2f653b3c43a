-- ===== src/Core/Runtime.antt =====
-- `BASE_CAPABILITIES` of src/core/capabilities.ts, and the constructor of `ProtocolRuntime` of
-- src/core/runtime.ts.
pub mod Installed
use pure_reactive_protocol.Prelude.{
  ℕ, Bool, true, false, ◌||◌, not, Option, none, some, List, [], ◌∷◌, ◌++◌, ltb, ◌==◌, codes,
  if◌then◌else◌,
}
use pure_reactive_protocol.Failure.{Result, ok, err, ◌>>=◌, ◌>>◌, throw_if, range_error, type_error}
use pure_reactive_protocol.Texts.{contains, distinct}
use pure_reactive_protocol.Core.Limits.{
  ProtocolLimits, LimitOverrides, or_default, max_safe_integer, resolve_protocol_limits,
  encode_peer_protocol_limits,
}
use pure_reactive_protocol.Core.Liveness.{
  LivenessOptions, ResolvedLivenessOptions, resolve_liveness, encode_liveness_parameters,
}
use pure_reactive_protocol.Core.Datagram.{
  DatagramOptions, ResolvedDatagramOptions, resolve_datagram_options, encode_datagram_capability,
}
use pure_reactive_protocol.Core.Attributes.{TextCodec}
use pure_reactive_protocol.Core.Capabilities.{CapabilityDescriptor, validate_capability_descriptor}

-- An extension, and if it has a function `attach`.
pub record ProtocolExtension : Type 0 where
  pub capability : CapabilityDescriptor
  pub requires : List (List ℕ)
  pub has_attach : Bool

-- Absent lists are empty; `datagrams` is `none` for `false`, and without options if absent.
pub record RuntimeOptions : Type 0 where
  pub extensions : List ProtocolExtension
  pub require : List (List ℕ)
  pub limits : LimitOverrides
  pub handshake_timeout_ms : Option ℕ
  pub liveness : LivenessOptions
  pub datagrams : Option DatagramOptions
  pub compact_frames : Bool

pub record ProtocolRuntime : Type 0 where
  pub capabilities : List CapabilityDescriptor
  pub require : List (List ℕ)
  pub limits : ProtocolLimits
  pub extensions : List ProtocolExtension
  pub handshake_timeout_ms : ℕ
  pub liveness : ResolvedLivenessOptions
  pub datagrams : Option ResolvedDatagramOptions
  pub compact_frames : Bool

abbrev pub default_handshake_timeout_ms : ℕ
default_handshake_timeout_ms = 30000

abbrev pub first_version : List ℕ → List ℕ → CapabilityDescriptor
first_version id parameters = record {
  id = id;
  min_version = 1;
  max_version = 1;
  parameters = parameters;
}

-- `BASE_CAPABILITIES`, with the parameters of this runtime in place of the default ones.
unfoldable pub base_capabilities :
    ProtocolLimits → ResolvedLivenessOptions → List CapabilityDescriptor
base_capabilities limits liveness =
    first_version (codes "prp.core.duplex-stream") []
    ∷ first_version (codes "prp.core.tlv-attributes") []
    ∷ first_version (codes "prp.core.sequence-u64") []
    ∷ first_version (codes "prp.core.fragmentation") []
    ∷ first_version (codes "prp.core.liveness") (encode_liveness_parameters liveness)
    ∷ first_version (codes "prp.core.limits") (encode_peer_protocol_limits limits)
    ∷ []

unfoldable pub resolve_datagrams : Option DatagramOptions → Result (Option ResolvedDatagramOptions)
resolve_datagrams none = ok none
resolve_datagrams (some o) = do resolved ← resolve_datagram_options o; ok (some resolved)

unfoldable pub datagram_capabilities :
    Option ResolvedDatagramOptions → Result (List CapabilityDescriptor)
datagram_capabilities none = ok []
datagram_capabilities (some o) = do
  parameters ← encode_datagram_capability o.max_inbound_bytes
  ok (first_version (codes "prp.core.datagram") parameters ∷ [])

abbrev pub compact_capabilities : Bool → List CapabilityDescriptor
compact_capabilities true = first_version (codes "prp.core.compact-frames") [] ∷ []
compact_capabilities false = []

-- Every id of `required` is installed.
unfoldable pub check_available : List (List ℕ) → List (List ℕ) → Result (Unit {0})
check_available ids [] = ok tt
check_available ids (required ∷ rest) = do
  throw_if (not (contains ids required)) type_error
  check_available ids rest

unfoldable pub check_requires : List (List ℕ) → List ProtocolExtension → Result (Unit {0})
check_requires ids [] = ok tt
check_requires ids (extension ∷ rest) = do
  check_available ids extension.requires
  check_requires ids rest

abbrev pub ids_of : List CapabilityDescriptor → List (List ℕ)
ids_of [] = []
ids_of (capability ∷ rest) = capability.id ∷ ids_of rest

module _ (codec : TextCodec) where
  unfoldable pub extension_capabilities :
      List ProtocolExtension → Result (List CapabilityDescriptor)
  extension_capabilities [] = ok []
  extension_capabilities (extension ∷ rest) = do
    throw_if (not extension.has_attach) type_error
    validate_capability_descriptor codec extension.capability
    others ← extension_capabilities rest
    ok (extension.capability ∷ others)

  -- The loop that fills `ids`, which it returns.
  unfoldable pub install_ids : List (List ℕ) → List CapabilityDescriptor → Result (List (List ℕ))
  install_ids ids [] = ok ids
  install_ids ids (capability ∷ rest) = do
    validate_capability_descriptor codec capability
    throw_if (contains ids capability.id) type_error
    install_ids (capability.id ∷ ids) rest

  unfoldable pub make_runtime : RuntimeOptions → Result ProtocolRuntime
  make_runtime o = do
    limits ← resolve_protocol_limits o.limits
    liveness ← resolve_liveness o.liveness
    datagrams ← resolve_datagrams o.datagrams
    let timeout = or_default o.handshake_timeout_ms default_handshake_timeout_ms
    throw_if (ltb max_safe_integer timeout || timeout == 0) range_error
    let base = base_capabilities limits liveness
    for_datagrams ← datagram_capabilities datagrams
    installed ← extension_capabilities o.extensions
    let capabilities =
        base ++ ((for_datagrams ++ compact_capabilities o.compact_frames) ++ installed)
    ids ← install_ids [] capabilities
    check_requires ids o.extensions
    check_available ids o.require
    ok (record {
      capabilities = capabilities;
      require = distinct (ids_of base ++ o.require);
      limits = limits;
      extensions = o.extensions;
      handshake_timeout_ms = timeout;
      liveness = liveness;
      datagrams = datagrams;
      compact_frames = o.compact_frames;
    })
