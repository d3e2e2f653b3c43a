-- ===== src/Core/Session/Handshake/RoundTrip.antt =====
-- The attributes of HELLO and WELCOME, from one side to the other and back.
use pure_reactive_protocol.Prelude.{
  ℕ, ◌≡◌, refl, ap, subst, ◌∙◌, Bool, true, false, some, List, [], ◌∷◌, ◌++◌, All, length, leb,
  text_eq, arith,
}
use pure_reactive_protocol.Failure.{ok, >>=-eq-ok, from_ok}
use pure_reactive_protocol.Texts.{contains}
use pure_reactive_protocol.Texts.Order.{IsDistinct}
use pure_reactive_protocol.Core.Attributes.{
  ProtocolAttribute, TextCodec, IsUtf8, IsSendable, attribute, text_attribute, bytes, well_formed,
  attributes_by_id, first_attribute, strict_text, attribute_text_strict,
}
use pure_reactive_protocol.Core.Capabilities.{
  CapabilityDescriptor, NegotiatedCapability, capability_prefix, offers_id, encode_range,
  capabilities_to_attributes, capabilities_from_attributes, offers_from, check_local,
  negotiate_capabilities,
}
use pure_reactive_protocol.Core.Capabilities.Offers.{
  offers_of, nothing_seen, capability_item, offers_from-capabilities_to_attributes,
  check_local-IsDistinct,
}
use pure_reactive_protocol.Core.Runtime.{ids_of}
use pure_reactive_protocol.Core.Session.Negotiated.{
  Setup, session_id_attribute, find_negotiated, check_handshake_required, nonempty_id,
  validate_handshake_attributes,
}
use pure_reactive_protocol.Core.Session.Handshake.{
  handshake_attributes, welcome_descriptors, negotiate_offers,
}
use pure_reactive_protocol.Core.Session.Handshake.Versions.{answer, version_in}
use pure_reactive_protocol.Core.Session.Handshake.Answer.{negotiate-welcome, negotiate-IsDistinct}

session_item : TextCodec → List ℕ → ProtocolAttribute
session_item codec session_id = record {
  id = session_id_attribute;
  value = codec.encode session_id;
  required = true;
}

text_attribute-session :
    (codec : TextCodec) (session_id : List ℕ) (item : ProtocolAttribute)
    → text_attribute codec session_id_attribute session_id true ≡ ok item
    → (session_item codec session_id ≡ item) × (well_formed session_id ≡ true)
unfolding text_attribute bytes attribute session_item
text_attribute-session codec session_id item h = ground arith

known_capability :
    (id value : List ℕ) (required : Bool) (others : List ProtocolAttribute)
    → check_handshake_required others ≡ ok tt
    → check_handshake_required
        (record { id = capability_prefix ++ id; value = value; required = required } ∷ others)
      ≡ ok tt
unfolding check_handshake_required text_eq
known_capability id value false others h = h
known_capability id value true others h = h

-- Attributes of capabilities are neither a session id nor unknown.
capabilities-known :
    (codec : TextCodec) (caps : List CapabilityDescriptor) (require : List (List ℕ))
    (items : List ProtocolAttribute)
    → capabilities_to_attributes codec caps require ≡ ok items
    → (attributes_by_id items session_id_attribute ≡ []) × (check_handshake_required items ≡ ok tt)
unfolding capabilities_to_attributes attributes_by_id check_handshake_required text_eq
capabilities-known codec [] require items h =
    subst
      (λ l. (attributes_by_id l session_id_attribute ≡ []) × (check_handshake_required l ≡ ok tt))
      (from_ok h) (refl, refl)
capabilities-known codec (c ∷ rest) require items h =
    let (value, e, h1) = >>=-eq-ok (encode_range codec c) _ h in
    let (item, e', h2) =
      >>=-eq-ok (attribute codec (capability_prefix ++ c.id) value (contains require c.id)) _ h1 in
    let (others, e'', h3) = >>=-eq-ok (capabilities_to_attributes codec rest require) _ h2 in
    let (no_id, known) = capabilities-known codec rest require others e'' in
    subst
      (λ l. (attributes_by_id l session_id_attribute ≡ []) × (check_handshake_required l ≡ ok tt))
      (ap (λ i. i ∷ others) (capability_item codec c.id value (contains require c.id) item e')
        ∙ from_ok h3)
      (no_id, known_capability c.id value (contains require c.id) others known)

nonempty_id_lem : (id : List ℕ) → leb (length id) 0 ≡ false → nonempty_id (some id) ≡ ok id
nonempty_id_lem [] h = cc
nonempty_id_lem (c ∷ rest) h = refl

validate_session :
    (codec : TextCodec)
    → IsUtf8 codec
    → (session_id : List ℕ) (others : List ProtocolAttribute) → IsSendable session_id
    → leb (length session_id) 0 ≡ false
    → well_formed session_id ≡ true
    → attributes_by_id others session_id_attribute ≡ []
    → check_handshake_required others ≡ ok tt
    → validate_handshake_attributes codec (session_item codec session_id ∷ others) ≡ ok session_id
unfolding validate_handshake_attributes session_item attributes_by_id check_handshake_required
    attribute_text_strict first_attribute strict_text text_eq
validate_session codec utf8 session_id others sendable named formed no_id known =
    let read = utf8.decode-encode session_id sendable.is_text formed sendable.no_bom in
    rw (no_id, known, strict_text, read, nonempty_id_lem session_id named) refl

offers_from-session :
    (codec : TextCodec) (session_id : List ℕ) (others : List ProtocolAttribute)
    → capabilities_from_attributes (session_item codec session_id ∷ others) ≡ offers_from [] others
unfolding capabilities_from_attributes offers_from session_item text_eq
offers_from-session codec session_id others = refl

-- What is read of a HELLO or a WELCOME: the session id, and the offers.
read_handshake :
    (codec : TextCodec)
    → IsUtf8 codec
    → (session_id : List ℕ) (caps : List CapabilityDescriptor) (require : List (List ℕ))
      (items : List ProtocolAttribute)
    → IsSendable session_id
    → leb (length session_id) 0 ≡ false
    → IsDistinct (ids_of caps)
    → handshake_attributes codec session_id caps require ≡ ok items
    → (validate_handshake_attributes codec items ≡ ok session_id)
      × (capabilities_from_attributes items ≡ ok (offers_of caps require))
unfolding handshake_attributes validate_handshake_attributes capabilities_from_attributes
read_handshake codec utf8 session_id caps require items sendable named distinct h =
    let (item, e, h1) = >>=-eq-ok (text_attribute codec session_id_attribute session_id true) _ h in
    let (others, e', h2) = >>=-eq-ok (capabilities_to_attributes codec caps require) _ h1 in
    let (same, formed) = text_attribute-session codec session_id item e in
    let (no_id, known) = capabilities-known codec caps require others e' in
    let all = ap (λ i. i ∷ others) same ∙ from_ok h2 in
    (
      subst (λ l. validate_handshake_attributes codec l ≡ ok session_id) all
          (validate_session codec utf8 session_id others sendable named formed no_id known),
      subst (λ l. capabilities_from_attributes l ≡ ok (offers_of caps require)) all
          (offers_from-session codec session_id others
            ∙ offers_from-capabilities_to_attributes codec [] caps require others distinct
                (nothing_seen caps) e'),
    )

-- HELLO and WELCOME between two sides that use one text codec, where the session id is not empty and
-- arrives as sent, and the initiator's offer is valid and includes what it requires. If the acceptor
-- negotiates what the HELLO offers, both sides read the session id, the initiator negotiates what the
-- WELCOME offers without a failure, and under each id both have the same version, or none.
pub negotiate_offers-welcome :
    (initiating accepting : Setup)
    → IsUtf8 initiating.host.codec
    → accepting.host.codec ≡ initiating.host.codec
    → (session_id : List ℕ) (hello welcome : List ProtocolAttribute)
      (set : List NegotiatedCapability) (id : List ℕ)
    → IsSendable session_id
    → leb (length session_id) 0 ≡ false
    → check_local initiating.host.codec [] initiating.offered ≡ ok tt
    → All (λ r. offers_id initiating.offered r ≡ true) initiating.runtime.require
    → handshake_attributes initiating.host.codec session_id initiating.offered
        initiating.runtime.require
      ≡ ok hello
    → negotiate_offers accepting hello ≡ ok set
    → handshake_attributes initiating.host.codec session_id
        (welcome_descriptors set)
        accepting.runtime.require
      ≡ ok welcome
    → (validate_handshake_attributes initiating.host.codec hello ≡ ok session_id)
      × (validate_handshake_attributes initiating.host.codec welcome ≡ ok session_id)
      × (negotiate_offers initiating welcome ≡ ok (answer initiating.offered set))
      × (version_in (find_negotiated (answer initiating.offered set) id)
          ≡ version_in (find_negotiated set id))
unfolding negotiate_offers
negotiate_offers-welcome initiating accepting utf8 one_codec session_id hello welcome set id
      sendable named local offered says agreed answers =
    let codec = initiating.host.codec in
    let (named', offers) =
      read_handshake codec utf8 session_id initiating.offered initiating.runtime.require hello
        sendable named (check_local-IsDistinct codec initiating.offered local) says in
    let agreed' : negotiate_capabilities codec accepting.offered
          (offers_of initiating.offered initiating.runtime.require) accepting.runtime.require
        ≡ ok set =
      rw (offers, one_codec) at agreed in
    let (named'', offers') =
      read_handshake codec utf8 session_id (welcome_descriptors set) accepting.runtime.require
        welcome sendable named
        (negotiate-IsDistinct codec accepting.offered
          (offers_of initiating.offered initiating.runtime.require) accepting.runtime.require set
          agreed')
        answers in
    let (answered, same) =
      negotiate-welcome codec initiating.offered accepting.offered initiating.runtime.require
        accepting.runtime.require set id local offered agreed' in
    (named', named'', rw offers' answered, same)
