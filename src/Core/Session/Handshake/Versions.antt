-- ===== src/Core/Session/Handshake/Versions.antt =====
-- Both sides of a handshake agree on the same version of the same capabilities.
use pure_reactive_protocol.Prelude.{
  ℕ, ◌≡◌, refl, ap, sym, ◌∙◌, true, false, inl, inr, Option, none, some, List, [], ◌∷◌, ◌++◌,
  text_eq, text_eq_iff, arith, Bool-cases, if◌then◌else◌,
}
use pure_reactive_protocol.Texts.{contains}
use pure_reactive_protocol.Texts.Order.{IsDistinct}
use pure_reactive_protocol.Core.Capabilities.{
  CapabilityDescriptor, NegotiatedCapability, DecodedCapabilityOffer, offers_id, find_offer,
  last_of,
}
use pure_reactive_protocol.Core.Capabilities.Offers.{offers_of}
use pure_reactive_protocol.Core.Runtime.{ids_of}
use pure_reactive_protocol.Core.Session.Negotiated.{find_negotiated}
use pure_reactive_protocol.Core.Session.Handshake.{welcome_descriptors}

unfoldable pub find_capability : List CapabilityDescriptor → List ℕ → Option CapabilityDescriptor
find_capability [] id = none
find_capability (c ∷ rest) id = if text_eq c.id id then some c else find_capability rest id

abbrev pub offer_of : List (List ℕ) → Option CapabilityDescriptor → Option DecodedCapabilityOffer
offer_of require none = none
offer_of require (some c) = some (record { descriptor = c; required = contains require c.id })

pub find_capability_absent :
    (caps : List CapabilityDescriptor) (id : List ℕ)
    → contains (ids_of caps) id ≡ false
    → find_capability caps id ≡ none
unfolding find_capability contains
find_capability_absent [] id h = refl
find_capability_absent (c ∷ rest) id h =
    let differs : text_eq c.id id ≡ false = ground arith in
    rw differs (find_capability_absent rest id (ground arith))

only_later : (offer : Option DecodedCapabilityOffer) → last_of none offer ≡ offer
only_later none = refl
only_later (some later) = refl

-- Of ids that are different, the last offer is the only one.
pub find_offer-offers_of :
    (caps : List CapabilityDescriptor) (require : List (List ℕ)) (id : List ℕ)
    → IsDistinct (ids_of caps)
    → find_offer (offers_of caps require) id ≡ offer_of require (find_capability caps id)
unfolding find_offer find_capability
find_offer-offers_of [] require id distinct = refl
find_offer-offers_of (c ∷ rest) require id (fresh, distinct) =
    let later = find_offer-offers_of rest require id distinct in
    elim (Bool-cases (text_eq c.id id)) [
      | inl same ↦
          let absent : find_capability rest id ≡ none =
            find_capability_absent rest id
              (ap (contains (ids_of rest)) (sym ((text_eq_iff c.id id).0 same)) ∙ fresh) in
          rw (same, later, absent) refl
      | inr differs ↦ rw (differs, later) (only_later (offer_of require (find_capability rest id)))
    ]

pub find_capability-id :
    (caps : List CapabilityDescriptor) (id : List ℕ) (c : CapabilityDescriptor)
    → find_capability caps id ≡ some c
    → (c.id ≡ id) × (offers_id caps id ≡ true)
unfolding find_capability offers_id
find_capability-id [] id c h = cc
find_capability-id (d ∷ rest) id c h = elim (Bool-cases (text_eq d.id id)) [
  | inl same ↦
      let this : some d ≡ some c = rw same at h in
      let that : d ≡ c = cc in
      (ap (λ x. x.id) (sym that) ∙ (text_eq_iff d.id id).0 same, rw same refl)
  | inr differs ↦
      let (e, there) = find_capability-id rest id c (rw differs at h) in
      (e, rw (differs, there) refl)
]

pub offers_id-find :
    (caps : List CapabilityDescriptor) (id : List ℕ)
    → offers_id caps id ≡ true
    → (c : CapabilityDescriptor) × (find_capability caps id ≡ some c)
unfolding find_capability offers_id
offers_id-find [] id h = ground arith
offers_id-find (d ∷ rest) id h = elim (Bool-cases (text_eq d.id id)) [
  | inl same ↦ (d, rw same refl)
  | inr differs ↦ let (c, found) = offers_id-find rest id (rw differs at h) in (c, rw differs found)
]

abbrev pub welcome_descriptor : NegotiatedCapability → CapabilityDescriptor
welcome_descriptor n = record {
  id = n.id;
  min_version = n.version;
  max_version = n.version;
  parameters = n.own.parameters;
}

abbrev pub welcomed : Option NegotiatedCapability → Option CapabilityDescriptor
welcomed none = none
welcomed (some n) = some (welcome_descriptor n)

pub find_capability-welcome :
    (set : List NegotiatedCapability) (id : List ℕ)
    → find_capability (welcome_descriptors set) id ≡ welcomed (find_negotiated set id)
unfolding find_capability welcome_descriptors find_negotiated
find_capability-welcome [] id = refl
find_capability-welcome (n ∷ rest) id = elim (Bool-cases (text_eq n.id id)) [
  | inl same ↦ rw same refl
  | inr differs ↦ rw differs (find_capability-welcome rest id)
]

-- What the answer to a WELCOME is: what was agreed, seen from the other side.
unfoldable pub answer_one :
    CapabilityDescriptor → Option NegotiatedCapability → List NegotiatedCapability
answer_one c none = []
answer_one c (some n) =
    record { id = c.id; version = n.version; own = c; theirs = welcome_descriptor n } ∷ []

unfoldable pub answer :
    List CapabilityDescriptor → List NegotiatedCapability → List NegotiatedCapability
answer [] set = []
answer (c ∷ rest) set = answer_one c (find_negotiated set c.id) ++ answer rest set

abbrev pub version_in : Option NegotiatedCapability → Option ℕ
version_in none = none
version_in (some n) = some n.version
