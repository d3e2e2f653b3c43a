-- ===== src/Core/Capabilities/Offers.antt =====
-- What the attributes of a handshake frame say of the capabilities that they were made of.
use pure_reactive_protocol.Prelude.{
  ℕ, ◌≡◌, refl, ap, sym, subst, ◌∙◌, Bool, true, false, inl, inr, List, [], ◌∷◌, ◌++◌, length, leb,
  text_eq, text_eq_iff, arith, Bool-cases,
}
use pure_reactive_protocol.Failure.{ok, throw_if, type_error, >>=-eq-ok, from_ok}
use pure_reactive_protocol.Texts.{contains}
use pure_reactive_protocol.Texts.Order.{IsDistinct}
use pure_reactive_protocol.Texts.Unique.{text_eq_refl}
use pure_reactive_protocol.Core.Attributes.{ProtocolAttribute, TextCodec, attribute}
use pure_reactive_protocol.Core.Capabilities.{
  CapabilityDescriptor, DecodedCapabilityOffer, capability_prefix, offers_from, encode_range,
  validate_capability_descriptor, capabilities_to_attributes, check_local,
}
use pure_reactive_protocol.Core.Capabilities.Agreement.{decode-encode_range}
use pure_reactive_protocol.Core.Runtime.{ids_of}

-- The offers that are announced, with those marked that are required.
abbrev pub offers_of : List CapabilityDescriptor → List (List ℕ) → List DecodedCapabilityOffer
offers_of [] require = []
offers_of (c ∷ rest) require =
    record { descriptor = c; required = contains require c.id } ∷ offers_of rest require

-- Ids that are seen are not offered again.
abbrev pub IsApart : List (List ℕ) → List CapabilityDescriptor → Type 0
IsApart ids caps = (id : List ℕ) → contains ids id ≡ true → contains (ids_of caps) id ≡ false

pub nothing_seen : (caps : List CapabilityDescriptor) → IsApart [] caps
unfolding contains
nothing_seen caps id there = cc

IsApart-next :
    (ids : List (List ℕ)) (c : CapabilityDescriptor) (rest : List CapabilityDescriptor)
    → contains (ids_of rest) c.id ≡ false
    → IsApart ids (c ∷ rest)
    → IsApart (c.id ∷ ids) rest
unfolding contains
IsApart-next ids c rest fresh apart id there = elim (Bool-cases (text_eq c.id id)) [
  | inl same ↦ ap (contains (ids_of rest)) (sym ((text_eq_iff c.id id).0 same)) ∙ fresh
  | inr differs ↦ let before = apart id in ground arith
]

IsApart-here :
    (ids : List (List ℕ)) (c : CapabilityDescriptor) (rest : List CapabilityDescriptor)
    → IsApart ids (c ∷ rest)
    → contains ids c.id ≡ false
unfolding contains
IsApart-here ids c rest apart =
    let same = text_eq_refl c.id in let before = apart c.id in ground arith

pub capability_item :
    (codec : TextCodec) (id value : List ℕ) (required : Bool) (item : ProtocolAttribute)
    → attribute codec (capability_prefix ++ id) value required ≡ ok item
    → record { id = capability_prefix ++ id; value = value; required = required } ≡ item
unfolding attribute
capability_item codec id value required item h = ground arith

named_range :
    (codec : TextCodec) (c : CapabilityDescriptor) (value : List ℕ)
    → encode_range codec c ≡ ok value
    → leb (length c.id) 0 ≡ false
unfolding encode_range validate_capability_descriptor
named_range codec c value h =
    let (u, v, h1) = >>=-eq-ok (validate_capability_descriptor codec c) _ h in
    let (u', named, h2) = >>=-eq-ok (throw_if (leb (length c.id) 0) type_error) _ v in ground arith

-- Attributes made of capabilities with different ids are read as offers of these capabilities.
pub offers_from-capabilities_to_attributes :
    (codec : TextCodec) (ids : List (List ℕ)) (caps : List CapabilityDescriptor)
    (require : List (List ℕ)) (items : List ProtocolAttribute)
    → IsDistinct (ids_of caps)
    → IsApart ids caps
    → capabilities_to_attributes codec caps require ≡ ok items
    → offers_from ids items ≡ ok (offers_of caps require)
unfolding capabilities_to_attributes offers_from text_eq
offers_from-capabilities_to_attributes codec ids [] require items distinct apart h =
    subst (λ l. offers_from ids l ≡ ok []) (from_ok h) refl
offers_from-capabilities_to_attributes codec ids (c ∷ rest) require items (fresh, distinct) apart
      h =
    let (value, e, h1) = >>=-eq-ok (encode_range codec c) _ h in
    let (item, e', h2) =
      >>=-eq-ok (attribute codec (capability_prefix ++ c.id) value (contains require c.id)) _ h1 in
    let (others, e'', h3) = >>=-eq-ok (capabilities_to_attributes codec rest require) _ h2 in
    let later =
      offers_from-capabilities_to_attributes codec (c.id ∷ ids) rest require others distinct
        (IsApart-next ids c rest fresh apart) e'' in
    let unseen = IsApart-here ids c rest apart in
    let named = named_range codec c value e in
    let read = decode-encode_range codec c value e in
    subst (λ l. offers_from ids l ≡ ok (offers_of (c ∷ rest) require)) (from_ok h3)
      (subst (λ i. offers_from ids (i ∷ others) ≡ ok (offers_of (c ∷ rest) require))
        (capability_item codec c.id value (contains require c.id) item e')
        (rw (named, unseen, read, later) refl))

-- A valid local offer has no id twice.
check_local-IsApart :
    (codec : TextCodec) (ids : List (List ℕ)) (caps : List CapabilityDescriptor)
    → check_local codec ids caps ≡ ok tt
    → IsDistinct (ids_of caps) × IsApart ids caps
unfolding check_local contains
check_local-IsApart codec ids [] h = (tt, λ id there. refl)
check_local-IsApart codec ids (c ∷ rest) h =
    let (u, v, h1) = >>=-eq-ok (validate_capability_descriptor codec c) _ h in
    let (u', unseen, h2) = >>=-eq-ok (throw_if (contains ids c.id) type_error) _ h1 in
    let (distinct, apart) = check_local-IsApart codec (c.id ∷ ids) rest h2 in
    let same = text_eq_refl c.id in
    let fresh = apart c.id in
    (
      (ground arith, distinct),
      λ id there. elim (Bool-cases (text_eq c.id id)) [
        | inl equal ↦
            let there' : contains ids c.id ≡ true =
              ap (contains ids) ((text_eq_iff c.id id).0 equal) ∙ there in
            ground arith
        | inr differs ↦ let after = apart id in ground arith
      ],
    )

pub check_local-IsDistinct :
    (codec : TextCodec) (caps : List CapabilityDescriptor)
    → check_local codec [] caps ≡ ok tt
    → IsDistinct (ids_of caps)
check_local-IsDistinct codec caps h = (check_local-IsApart codec [] caps h).0
