-- ===== src/Core/Session/Handshake/Answer.antt =====
-- The negotiation of a WELCOME succeeds, with the versions that the other side has agreed to.
use pure_reactive_protocol.Prelude.{
  ℕ, ◌≤◌, ◌≡◌, refl, ap, sym, subst, ◌∙◌, min, max, true, inl, inr, Option, none, some, List, [],
  ◌∷◌, All, leb, text_eq, arith, Bool-cases,
}
use pure_reactive_protocol.Failure.{ok, >>=-eq-ok}
use pure_reactive_protocol.Texts.{contains}
use pure_reactive_protocol.Texts.Order.{IsDistinct}
use pure_reactive_protocol.Texts.Unique.{text_eq_refl}
use pure_reactive_protocol.Core.Attributes.{TextCodec}
use pure_reactive_protocol.Core.Capabilities.{
  CapabilityDescriptor, NegotiatedCapability, DecodedCapabilityOffer, offers_id, find_offer,
  check_remote_required, check_local_required, negotiate_one, negotiate_each,
  negotiate_capabilities, check_local,
}
use pure_reactive_protocol.Core.Capabilities.Agreement.{
  IsAgreed, has_capability, negotiate-IsAgreed,
}
use pure_reactive_protocol.Core.Capabilities.Offers.{offers_of, check_local-IsDistinct}
use pure_reactive_protocol.Core.Runtime.{ids_of}
use pure_reactive_protocol.Core.Session.Negotiated.{find_negotiated}
use pure_reactive_protocol.Core.Session.Handshake.{welcome_descriptors}
use pure_reactive_protocol.Core.Session.Handshake.Versions.{
  find_capability, offer_of, find_offer-offers_of, find_capability-id, offers_id-find,
  welcome_descriptor, welcomed, find_capability-welcome, answer_one, answer, version_in,
}
use pure_reactive_protocol.Core.Session.Handshake.Agreement.{
  set_ids, negotiate_each-IsDistinct, IsAgreed-find, offered_by, All-find,
}
use pure_reactive_protocol.Core.Session.Handshake.Same.{find-answer, same_version}

-- The one version of an answer fits the range that was offered.
negotiate_one-answer :
    (require : List (List ℕ)) (c : CapabilityDescriptor) (n : NegotiatedCapability)
    (offer : DecodedCapabilityOffer)
    → offer.descriptor ≡ welcome_descriptor n
    → c.min_version ≤ n.version
    → n.version ≤ c.max_version
    → negotiate_one require c (some offer) ≡ ok (answer_one c (some n))
unfolding negotiate_one answer_one
negotiate_one-answer require c n offer same low high =
    let fits : leb (max c.min_version n.version) (min c.max_version n.version) ≡ true =
      ground arith in
    let version : min c.max_version n.version ≡ n.version = omega arith in
    rw (same, fits, version) refl

in_range :
    (own : List CapabilityDescriptor) (require : List (List ℕ)) (set : List NegotiatedCapability)
    (c : CapabilityDescriptor) (n : NegotiatedCapability)
    → IsDistinct (ids_of own)
    → All (IsAgreed (offers_of own require)) set
    → find_capability own c.id ≡ some c
    → find_negotiated set c.id ≡ some n
    → (c.min_version ≤ n.version) × (n.version ≤ c.max_version)
in_range own require set c n distinct all here there =
    let (agreed, same) = IsAgreed-find (offers_of own require) set c.id n all there in
    let theirs = offered_by own require n distinct agreed in
    let found : some c ≡ some n.theirs = sym here ∙ ap (find_capability own) (sym same) ∙ theirs in
    let that : n.theirs ≡ c = cc in
    let low = agreed.their_min in
    let high : n.version ≤ n.theirs.max_version = omega (arith, agreed.largest) in
    (
      subst (λ d. d.min_version ≤ n.version) that low,
      subst (λ d. n.version ≤ d.max_version) that high,
    )

negotiate_one-welcomed :
    (require require' : List (List ℕ)) (c : CapabilityDescriptor)
    (found : Option NegotiatedCapability)
    → ((n : NegotiatedCapability)
        → found ≡ some n
        → (c.min_version ≤ n.version) × (n.version ≤ c.max_version))
    → negotiate_one require c (offer_of require' (welcomed found)) ≡ ok (answer_one c found)
unfolding negotiate_one answer_one
negotiate_one-welcomed require require' c none fits = refl
negotiate_one-welcomed require require' c (some n) fits =
    let (low, high) = fits n refl in negotiate_one-answer require c n _ refl low high

negotiate_each-answer :
    (full own : List CapabilityDescriptor) (require require' : List (List ℕ))
    (set : List NegotiatedCapability)
    → IsDistinct (ids_of full)
    → IsDistinct (set_ids set)
    → All (IsAgreed (offers_of full require)) set
    → All (λ c. find_capability full c.id ≡ some c) own
    → negotiate_each require (offers_of (welcome_descriptors set) require') own
      ≡ ok (answer own set)
unfolding negotiate_each answer
negotiate_each-answer full [] require require' set distinct distinct' all found = refl
negotiate_each-answer full (c ∷ rest) require require' set distinct distinct' all (here, found) =
    let later = negotiate_each-answer full rest require require' set distinct distinct' all found in
    let offer : find_offer (offers_of (welcome_descriptors set) require') c.id
        ≡ offer_of require' (welcomed (find_negotiated set c.id)) =
      find_offer-offers_of (welcome_descriptors set) require' c.id distinct'
      ∙ ap (offer_of require') (find_capability-welcome set c.id) in
    let one =
      ap (negotiate_one require c) offer
      ∙ negotiate_one-welcomed require require' c (find_negotiated set c.id)
          (λ n there. in_range full require set c n distinct all here there) in
    rw (one, later) refl

check_remote_required-welcome :
    (own : List CapabilityDescriptor) (require require' : List (List ℕ))
    (set : List NegotiatedCapability)
    → IsDistinct (ids_of own)
    → All (IsAgreed (offers_of own require)) set
    → check_remote_required own (offers_of (welcome_descriptors set) require') ≡ ok tt
unfolding check_remote_required welcome_descriptors
check_remote_required-welcome own require require' [] distinct all = refl
check_remote_required-welcome own require require' (n ∷ rest) distinct (agreed, all) =
    let (_, there) =
      find_capability-id own n.id n.theirs (offered_by own require n distinct agreed) in
    let later = check_remote_required-welcome own require require' rest distinct all in
    rw (there, later) (ground arith)

has-find :
    (set : List NegotiatedCapability) (id : List ℕ)
    → has_capability set id ≡ true
    → (n : NegotiatedCapability) × (find_negotiated set id ≡ some n)
unfolding has_capability find_negotiated
has-find [] id h = ground arith
has-find (m ∷ rest) id h = elim (Bool-cases (text_eq m.id id)) [
  | inl same ↦ (m, rw same refl)
  | inr differs ↦ let (n, found) = has-find rest id (rw differs at h) in (n, rw differs found)
]

-- What this side requires was agreed on, so that the WELCOME offers it.
check_local_required-welcome :
    (set : List NegotiatedCapability) (require required : List (List ℕ))
    → IsDistinct (set_ids set)
    → All (λ id. has_capability set id ≡ true) required
    → check_local_required (offers_of (welcome_descriptors set) require) required ≡ ok tt
unfolding check_local_required
check_local_required-welcome set require [] distinct has = refl
check_local_required-welcome set require (id ∷ rest) distinct (this, has) =
    let (n, found) = has-find set id this in
    let offer : find_offer (offers_of (welcome_descriptors set) require) id
        ≡ offer_of require (some (welcome_descriptor n)) =
      find_offer-offers_of (welcome_descriptors set) require id distinct
      ∙ ap (offer_of require) (find_capability-welcome set id ∙ ap welcomed found) in
    rw (offer, check_local_required-welcome set require rest distinct has) refl

-- What is required was offered as such, and so was agreed on.
has_required :
    (own : List CapabilityDescriptor) (require required : List (List ℕ))
    (set : List NegotiatedCapability)
    → IsDistinct (ids_of own)
    → ((id : List ℕ) → contains required id ≡ true → contains require id ≡ true)
    → All (λ r. offers_id own r ≡ true) required
    → ((id : List ℕ) (offer : DecodedCapabilityOffer)
        → find_offer (offers_of own require) id ≡ some offer
        → offer.required ≡ true
        → has_capability set id ≡ true)
    → All (λ r. has_capability set r ≡ true) required
unfolding contains
has_required own require [] set distinct within offered needed = tt
has_required own require (id ∷ rest) set distinct within (here, offered) needed =
    let (c, found) = offers_id-find own id here in
    let (same, _) = find_capability-id own id c found in
    let offer = find_offer-offers_of own require id distinct ∙ ap (offer_of require) found in
    let named = within id (rw (text_eq_refl id) refl) in
    (
      needed id _ offer (ap (contains require) same ∙ named),
      has_required own require rest set distinct (λ other there. within other (ground arith))
          offered needed,
    )

-- A side offers its capabilities, which have different ids and include those it requires, and the
-- other side has negotiated a set with them: the WELCOME, which offers the versions of that set, is
-- negotiated without a failure, and under each id both sides have the same version, or none.
pub negotiate-welcome :
    (codec : TextCodec) (own own' : List CapabilityDescriptor) (require require' : List (List ℕ))
    (set : List NegotiatedCapability) (id : List ℕ)
    → check_local codec [] own ≡ ok tt
    → All (λ r. offers_id own r ≡ true) require
    → negotiate_capabilities codec own' (offers_of own require) require' ≡ ok set
    → (negotiate_capabilities codec own (offers_of (welcome_descriptors set) require') require
        ≡ ok (answer own set))
      × (version_in (find_negotiated (answer own set) id) ≡ version_in (find_negotiated set id))
unfolding negotiate_capabilities
negotiate-welcome codec own own' require require' set id local offered h =
    let (agreed, _, _, needed) =
      negotiate-IsAgreed codec own' (offers_of own require) require' set h in
    let (u1, c1, h1) = >>=-eq-ok (check_local codec [] own') _ h in
    let (u2, c2, h2) = >>=-eq-ok (check_remote_required own' (offers_of own require)) _ h1 in
    let (u3, c3, h3) = >>=-eq-ok (check_local_required (offers_of own require) require') _ h2 in
    let distinct = check_local-IsDistinct codec own local in
    let distinct' =
      negotiate_each-IsDistinct require' (offers_of own require) own' set h3
        (check_local-IsDistinct codec own' c1) in
    let has = has_required own require require set distinct (λ i there. there) offered needed in
    let each =
      negotiate_each-answer own own require require' set distinct distinct' agreed
        (All-find own own (λ i c found. found) distinct) in
    (
      rw
          (
            local,
            check_remote_required-welcome own require require' set distinct agreed,
            check_local_required-welcome set require' require distinct' has,
          )
          each,
      find-answer own set id ∙ same_version own require set id distinct agreed,
    )

-- The ids of what is negotiated differ.
pub negotiate-IsDistinct :
    (codec : TextCodec) (own : List CapabilityDescriptor) (remote : List DecodedCapabilityOffer)
    (require : List (List ℕ)) (set : List NegotiatedCapability)
    → negotiate_capabilities codec own remote require ≡ ok set
    → IsDistinct (set_ids set)
unfolding negotiate_capabilities
negotiate-IsDistinct codec own remote require set h =
    let (u1, c1, h1) = >>=-eq-ok (check_local codec [] own) _ h in
    let (u2, c2, h2) = >>=-eq-ok (check_remote_required own remote) _ h1 in
    let (u3, c3, h3) = >>=-eq-ok (check_local_required remote require) _ h2 in
    negotiate_each-IsDistinct require remote own set h3 (check_local-IsDistinct codec own c1)
