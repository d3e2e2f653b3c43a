-- ===== src/Core/Session/Handshake/Agreement.antt =====
-- A HELLO and the WELCOME that answers it, as negotiations.
use pure_reactive_protocol.Prelude.{
  ℕ, ◌≡◌, refl, ap, sym, subst, ◌∙◌, ◌⊎◌, min, max, false, inl, inr, Option, none, some, List, [],
  ◌∷◌, All, leb, text_eq, text_eq_iff, arith, Bool-cases,
}
use pure_reactive_protocol.Failure.{ok, >>=-eq-ok, from_ok}
use pure_reactive_protocol.Texts.{contains}
use pure_reactive_protocol.Texts.Order.{IsDistinct}
use pure_reactive_protocol.Texts.Unique.{text_eq_refl}
use pure_reactive_protocol.Core.Capabilities.{
  CapabilityDescriptor, NegotiatedCapability, DecodedCapabilityOffer, find_offer, negotiate_one,
  negotiate_each,
}
use pure_reactive_protocol.Core.Capabilities.Agreement.{IsAgreed}
use pure_reactive_protocol.Core.Capabilities.Offers.{offers_of}
use pure_reactive_protocol.Core.Runtime.{ids_of}
use pure_reactive_protocol.Core.Session.Negotiated.{find_negotiated}
use pure_reactive_protocol.Core.Session.Handshake.{welcome_descriptors}
use pure_reactive_protocol.Core.Session.Handshake.Versions.{
  find_capability, offer_of, find_capability_absent, find_offer-offers_of,
}

-- What is agreed has the ids of this side, each once.
negotiate_one-cases :
    (require : List (List ℕ)) (own : CapabilityDescriptor) (found : Option DecodedCapabilityOffer)
    (one : List NegotiatedCapability)
    → negotiate_one require own found ≡ ok one
    → (one ≡ []) ⊎ ((n : NegotiatedCapability) × (one ≡ n ∷ []) × (n.id ≡ own.id))
unfolding negotiate_one
negotiate_one-cases require own none one h = inl (sym (from_ok h))
negotiate_one-cases require own (some offer) one h =
    elim (Bool-cases (
      leb (max own.min_version offer.descriptor.min_version)
        (min own.max_version offer.descriptor.max_version))) [
          | inl overlap ↦ inr (_, sym (from_ok (rw overlap at h)), refl)
          | inr apart ↦ inl (ground arith)
        ]

abbrev pub set_ids : List NegotiatedCapability → List (List ℕ)
set_ids set = ids_of (welcome_descriptors set)

negotiate_each-within :
    (require : List (List ℕ)) (remote : List DecodedCapabilityOffer)
    (own : List CapabilityDescriptor) (set : List NegotiatedCapability) (id : List ℕ)
    → negotiate_each require remote own ≡ ok set
    → contains (ids_of own) id ≡ false
    → contains (set_ids set) id ≡ false
unfolding negotiate_each welcome_descriptors contains
negotiate_each-within require remote [] set id h absent =
    subst (λ l. contains (set_ids l) id ≡ false) (from_ok h) refl
negotiate_each-within require remote (c ∷ rest) set id h absent =
    let (one, e, h1) = >>=-eq-ok (negotiate_one require c (find_offer remote c.id)) _ h in
    let (others, e', h2) = >>=-eq-ok (negotiate_each require remote rest) _ h1 in
    let later = negotiate_each-within require remote rest others id e' (ground arith) in
    subst (λ l. contains (set_ids l) id ≡ false) (from_ok h2)
      (elim (negotiate_one-cases require c (find_offer remote c.id) one e) [
        | inl nothing ↦ rw nothing later
        | inr (n, made, same) ↦
            let differs : text_eq c.id id ≡ false = ground arith in rw (made, same, differs) later
      ])

pub negotiate_each-IsDistinct :
    (require : List (List ℕ)) (remote : List DecodedCapabilityOffer)
    (own : List CapabilityDescriptor) (set : List NegotiatedCapability)
    → negotiate_each require remote own ≡ ok set
    → IsDistinct (ids_of own)
    → IsDistinct (set_ids set)
unfolding negotiate_each welcome_descriptors
negotiate_each-IsDistinct require remote [] set h distinct =
    subst (λ l. IsDistinct (set_ids l)) (from_ok h) tt
negotiate_each-IsDistinct require remote (c ∷ rest) set h (fresh, distinct) =
    let (one, e, h1) = >>=-eq-ok (negotiate_one require c (find_offer remote c.id)) _ h in
    let (others, e', h2) = >>=-eq-ok (negotiate_each require remote rest) _ h1 in
    let later = negotiate_each-IsDistinct require remote rest others e' distinct in
    subst (λ l. IsDistinct (set_ids l)) (from_ok h2)
      (elim (negotiate_one-cases require c (find_offer remote c.id) one e) [
        | inl nothing ↦ rw nothing later
        | inr (n, made, same) ↦ rw made (
          ap (contains (set_ids others)) same
              ∙ negotiate_each-within require remote rest others c.id e' fresh,
          later,
        )
      ])

-- The version agreed on lies in the range that the other side offered.
pub IsAgreed-find :
    (remote : List DecodedCapabilityOffer) (set : List NegotiatedCapability) (id : List ℕ)
    (n : NegotiatedCapability)
    → All (IsAgreed remote) set
    → find_negotiated set id ≡ some n
    → IsAgreed remote n × (n.id ≡ id)
unfolding find_negotiated
IsAgreed-find remote [] id n all h = cc
IsAgreed-find remote (m ∷ rest) id n (agreed, all) h = elim (Bool-cases (text_eq m.id id)) [
  | inl same ↦
      let this : some m ≡ some n = rw same at h in
      let that : m ≡ n = cc in
      (
        subst (IsAgreed remote) that agreed,
        ap (λ x. x.id) (sym that) ∙ (text_eq_iff m.id id).0 same,
      )
  | inr differs ↦ IsAgreed-find remote rest id n all (rw differs at h)
]

offer_of-some :
    (require : List (List ℕ)) (found : Option CapabilityDescriptor) (offer : DecodedCapabilityOffer)
    → offer_of require found ≡ some offer
    → found ≡ some offer.descriptor
offer_of-some require none offer h = cc
offer_of-some require (some c) offer h =
    let same : record { descriptor = c; required = contains require c.id } ≡ offer = cc in
    ap (λ o. some o.descriptor) same

-- A negotiated capability, as the other side offered it.
pub offered_by :
    (own : List CapabilityDescriptor) (require : List (List ℕ)) (n : NegotiatedCapability)
    → IsDistinct (ids_of own)
    → IsAgreed (offers_of own require) n
    → find_capability own n.id ≡ some n.theirs
offered_by own require n distinct agreed =
    let (offer, found, same) = agreed.offered in
    offer_of-some require (find_capability own n.id) offer
      (sym (find_offer-offers_of own require n.id distinct) ∙ found)
    ∙ ap some same

-- Each capability of a list whose ids differ is found under its id.
pub All-find :
    (full own : List CapabilityDescriptor)
    → ((id : List ℕ) (c : CapabilityDescriptor)
        → find_capability own id ≡ some c
        → find_capability full id ≡ some c)
    → IsDistinct (ids_of own)
    → All (λ c. find_capability full c.id ≡ some c) own
unfolding find_capability
All-find full [] sub distinct = tt
All-find full (c ∷ rest) sub (fresh, distinct) =
    let same = text_eq_refl c.id in
    (
      sub c.id c (rw same refl),
      All-find full rest
          (λ id d found. elim (Bool-cases (text_eq c.id id)) [
            | inr differs ↦ sub id d (rw differs found)
            | inl equal ↦
                let absent =
                  find_capability_absent rest id
                    (ap (contains (ids_of rest)) (sym ((text_eq_iff c.id id).0 equal)) ∙ fresh) in
                let never : none ≡ some d = sym absent ∙ found in cc
          ])
          distinct,
    )
