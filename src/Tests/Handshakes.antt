-- ===== src/Tests/Handshakes.antt =====
-- HELLO and WELCOME of two small runtimes.
use pure_reactive_protocol.Prelude.{
  ℕ, ◌≡◌, refl, true, List, [], ◌∷◌, ◌++◌, All, codes, text_eq, arith,
}
use pure_reactive_protocol.Failure.{ok}
use pure_reactive_protocol.Bytes.{set_u16, be16}
use pure_reactive_protocol.Texts.{contains}
use pure_reactive_protocol.Core.Attributes.{
  ProtocolAttribute, IsSendable, attribute, text_attribute, bytes, well_formed,
}
use pure_reactive_protocol.Core.Capabilities.{
  NegotiatedCapability, capability_prefix, offers_id, find_offer, encode_range, decode_range,
  validate_capability_descriptor, capabilities_to_attributes, capabilities_from_attributes,
  offers_from, check_local, check_remote_required, check_local_required, negotiate_one,
  negotiate_each, negotiate_capabilities,
}
use pure_reactive_protocol.Core.Session.Negotiated.{
  Setup, session_id_attribute, find_negotiated, validate_handshake_attributes,
}
use pure_reactive_protocol.Core.Session.Handshake.{
  negotiate_offers, handshake_attributes, welcome_descriptors,
}
use pure_reactive_protocol.Core.Session.Handshake.Versions.{answer, version_in}
use pure_reactive_protocol.Core.Session.Handshake.RoundTrip.{negotiate_offers-welcome}
use pure_reactive_protocol.Tests.Wire.{pairs, pairs-IsUtf8, encode_units}
use pure_reactive_protocol.Tests.Streams.{host}
use pure_reactive_protocol.Tests.Agreements.{created, range_of, own_capabilities}

-- Versions 1 to 3 on one side, and 2 to 5 on the other.
abbrev pub initiating : Setup
initiating = record {
  host = host;
  runtime = record created { require = codes "a" ∷ []; extensions = [] };
  offered = own_capabilities;
  attach = λ e. ok true;
}

abbrev accepting : Setup
accepting = record initiating { offered = range_of (codes "a") 2 5 ∷ [] }

abbrev capability_item : List ℕ → ℕ → ℕ → List ℕ → ProtocolAttribute
capability_item id low high parameters = record {
  id = capability_prefix ++ id;
  value = set_u16 low ++ (set_u16 high ++ parameters);
  required = contains (codes "a" ∷ []) id;
}

abbrev pub session_item : ProtocolAttribute
session_item = record {
  id = session_id_attribute;
  value = encode_units (codes "s");
  required = true;
}

abbrev hello_items : List ProtocolAttribute
unfolding contains text_eq
hello_items =
    session_item
    ∷ capability_item (codes "a") 1 3 (1 ∷ 2 ∷ [])
    ∷ capability_item (codes "b") 1 1 (1 ∷ 2 ∷ [])
    ∷ []

abbrev welcome_items : List ProtocolAttribute
unfolding contains text_eq
welcome_items = session_item ∷ capability_item (codes "a") 3 3 (1 ∷ 2 ∷ []) ∷ []

abbrev agreed : List NegotiatedCapability
agreed =
    record {
      id = codes "a";
      version = 3;
      own = range_of (codes "a") 2 5;
      theirs = range_of (codes "a") 1 3;
    }
    ∷ []

session-IsSendable : IsSendable (codes "s")
session-IsSendable = record { is_text = omega arith; no_bom = refl }

own_offer : check_local pairs [] own_capabilities ≡ ok tt
unfolding check_local validate_capability_descriptor bytes well_formed contains text_eq
own_offer = refl

own_required : All (λ id. offers_id own_capabilities id ≡ true) (codes "a" ∷ [])
unfolding offers_id text_eq
own_required = (refl, tt)

says_hello :
    handshake_attributes pairs (codes "s") own_capabilities (codes "a" ∷ []) ≡ ok hello_items
unfolding handshake_attributes capabilities_to_attributes text_attribute attribute bytes well_formed
    encode_range validate_capability_descriptor contains text_eq
says_hello = refl

negotiates : negotiate_offers accepting hello_items ≡ ok agreed
unfolding negotiate_offers capabilities_from_attributes offers_from decode_range
    negotiate_capabilities check_local check_remote_required check_local_required negotiate_each
    negotiate_one validate_capability_descriptor bytes well_formed contains offers_id find_offer
    text_eq be16
negotiates = refl

says_welcome :
    handshake_attributes pairs (codes "s") (welcome_descriptors agreed) (codes "a" ∷ [])
    ≡ ok welcome_items
unfolding handshake_attributes welcome_descriptors capabilities_to_attributes text_attribute
    attribute bytes well_formed encode_range validate_capability_descriptor contains text_eq
says_welcome = refl

negotiate_offers-welcome_example :
    (validate_handshake_attributes pairs hello_items ≡ ok (codes "s"))
    × (validate_handshake_attributes pairs welcome_items ≡ ok (codes "s"))
    × (negotiate_offers initiating welcome_items ≡ ok (answer own_capabilities agreed))
    × (version_in (find_negotiated (answer own_capabilities agreed) (codes "a"))
        ≡ version_in (find_negotiated agreed (codes "a")))
negotiate_offers-welcome_example =
    negotiate_offers-welcome initiating accepting pairs-IsUtf8 refl (codes "s") hello_items
      welcome_items agreed (codes "a") session-IsSendable refl own_offer own_required says_hello
      negotiates says_welcome
