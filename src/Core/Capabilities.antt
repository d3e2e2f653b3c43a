-- ===== src/Core/Capabilities.antt =====
-- src/core/capabilities.ts: what a peer offers, as attributes of its handshake, and what both agree on.
-- Versions are natural numbers. A descriptor without parameters and one with none are the same.
pub mod Agreement
pub mod Offers
use pure_reactive_protocol.Prelude.{
  ℕ, min, max, Bool, true, false, ◌&&◌, ◌||◌, not, Option, none, some, List, [], ◌∷◌, ◌++◌, length,
  take, drop, ltb, leb, if◌then◌else◌, text_eq, codes,
}
use pure_reactive_protocol.Failure.{
  Result, ok, err, ◌>>=◌, ◌>>◌, throw_if, type_error, range_error, protocol_violation,
  capability_mismatch,
}
use pure_reactive_protocol.Bytes.{set_u16, get_u16}
use pure_reactive_protocol.Texts.{contains}
use pure_reactive_protocol.Core.Limits.{max_u16}
use pure_reactive_protocol.Core.Attributes.{ProtocolAttribute, TextCodec, bytes, attribute}

abbrev pub capability_prefix : List ℕ
capability_prefix = codes "prp.capability/"

pub record CapabilityDescriptor : Type 0 where
  pub id : List ℕ
  pub min_version : ℕ
  pub max_version : ℕ
  pub parameters : List ℕ

pub record NegotiatedCapability : Type 0 where
  pub id : List ℕ
  pub version : ℕ
  pub own : CapabilityDescriptor
  pub theirs : CapabilityDescriptor

pub record DecodedCapabilityOffer : Type 0 where
  pub descriptor : CapabilityDescriptor
  pub required : Bool

-- `localMap.has`.
unfoldable pub offers_id : List CapabilityDescriptor → List ℕ → Bool
offers_id [] id = false
offers_id (capability ∷ rest) id = text_eq capability.id id || offers_id rest id

abbrev pub last_of :
    Option DecodedCapabilityOffer → Option DecodedCapabilityOffer → Option DecodedCapabilityOffer
last_of first none = first
last_of first (some later) = some later

-- `remoteMap.get`: of two offers with the same id, the map keeps the later.
unfoldable pub find_offer : List DecodedCapabilityOffer → List ℕ → Option DecodedCapabilityOffer
find_offer [] id = none
find_offer (offer ∷ rest) id =
    last_of (if text_eq offer.descriptor.id id then some offer else none) (find_offer rest id)

abbrev pub is_present {ℓ} : {A : Type ℓ} → Option A → Bool
is_present none = false
is_present (some value) = true

unfoldable pub decode_range : List ℕ → List ℕ → Result CapabilityDescriptor
decode_range id value = do
  throw_if (leb (length id) 0) protocol_violation
  throw_if (ltb (length value) 4) protocol_violation
  throw_if (ltb (get_u16 value 2) (get_u16 value 0)) protocol_violation
  ok (record {
    id = id;
    min_version = get_u16 value 0;
    max_version = get_u16 value 2;
    parameters = drop 4 value;
  })

-- `item.id.startsWith(CAPABILITY_PREFIX)`.
abbrev pub is_capability_id : List ℕ → Bool
is_capability_id id = text_eq (take (length capability_prefix) id) capability_prefix

-- The loop of `capabilitiesFromAttributes`, with the ids seen.
unfoldable pub offers_from :
    List (List ℕ) → List ProtocolAttribute → Result (List DecodedCapabilityOffer)
offers_from ids [] = ok []
offers_from ids (item ∷ rest) =
    let id = drop (length capability_prefix) item.id in
    let skipped = offers_from ids rest in
    let others = offers_from (id ∷ ids) rest in
    if is_capability_id item.id
    then (do
      throw_if (leb (length id) 0) protocol_violation
      throw_if (contains ids id) protocol_violation
      descriptor ← decode_range id item.value
      offers ← others
      ok (record { descriptor = descriptor; required = item.required } ∷ offers))
    else skipped

unfoldable pub capabilities_from_attributes :
    List ProtocolAttribute → Result (List DecodedCapabilityOffer)
capabilities_from_attributes attributes = offers_from [] attributes

-- The check that remote requirements are offered here.
unfoldable pub check_remote_required :
    List CapabilityDescriptor → List DecodedCapabilityOffer → Result (Unit {0})
check_remote_required own [] = ok tt
check_remote_required own (offered ∷ rest) = do
  throw_if (offered.required && not (offers_id own offered.descriptor.id)) capability_mismatch
  check_remote_required own rest

-- The check that local requirements are offered there.
unfoldable pub check_local_required :
    List DecodedCapabilityOffer → List (List ℕ) → Result (Unit {0})
check_local_required remote [] = ok tt
check_local_required remote (id ∷ rest) = do
  throw_if (not (is_present (find_offer remote id))) capability_mismatch
  check_local_required remote rest

-- What one local capability and the offer of its id agree on.
unfoldable pub negotiate_one :
    List (List ℕ)
    → CapabilityDescriptor
    → Option DecodedCapabilityOffer
    → Result (List NegotiatedCapability)
negotiate_one require own none = ok []
negotiate_one require own (some offer) =
    let minimum = max own.min_version offer.descriptor.min_version in
    let maximum = min own.max_version offer.descriptor.max_version in
    if leb minimum maximum
    then ok (record { id = own.id; version = maximum; own = own; theirs = offer.descriptor } ∷ [])
    else if offer.required || contains require own.id
    then err capability_mismatch
    else ok []

unfoldable pub negotiate_each :
    List (List ℕ)
    → List DecodedCapabilityOffer
    → List CapabilityDescriptor
    → Result (List NegotiatedCapability)
negotiate_each require remote [] = ok []
negotiate_each require remote (own ∷ rest) = do
  one ← negotiate_one require own (find_offer remote own.id)
  others ← negotiate_each require remote rest
  ok (one ++ others)

module _ (codec : TextCodec) where
  unfoldable pub validate_capability_descriptor : CapabilityDescriptor → Result (Unit {0})
  validate_capability_descriptor capability = do
    throw_if (leb (length capability.id) 0) type_error
    _ ← bytes codec capability.id
    throw_if (ltb max_u16 capability.min_version) range_error
    throw_if
        (ltb capability.max_version capability.min_version || ltb max_u16 capability.max_version)
        range_error

  unfoldable pub encode_range : CapabilityDescriptor → Result (List ℕ)
  encode_range capability = do
    validate_capability_descriptor capability
    ok (set_u16 capability.min_version ++ (set_u16 capability.max_version ++ capability.parameters))

  -- `capabilitiesToAttributes`, with the ids of `policy.require`.
  unfoldable pub capabilities_to_attributes :
      List CapabilityDescriptor → List (List ℕ) → Result (List ProtocolAttribute)
  capabilities_to_attributes [] require = ok []
  capabilities_to_attributes (capability ∷ rest) require = do
    value ← encode_range capability
    item ←
        attribute codec (capability_prefix ++ capability.id) value (contains require capability.id)
    others ← capabilities_to_attributes rest require
    ok (item ∷ others)

  -- The loop that fills `localMap`: valid descriptors with different ids.
  unfoldable pub check_local : List (List ℕ) → List CapabilityDescriptor → Result (Unit {0})
  check_local ids [] = ok tt
  check_local ids (capability ∷ rest) = do
    validate_capability_descriptor capability
    throw_if (contains ids capability.id) type_error
    check_local (capability.id ∷ ids) rest

  unfoldable pub negotiate_capabilities :
      List CapabilityDescriptor
      → List DecodedCapabilityOffer
      → List (List ℕ)
      → Result (List NegotiatedCapability)
  negotiate_capabilities own remote require = do
    check_local [] own
    check_remote_required own remote
    check_local_required remote require
    negotiate_each require remote own
