-- ===== src/Core/Capabilities/Agreement.antt =====
-- What a negotiation that succeeds has agreed on, and that nothing required is left out.
use pure_reactive_protocol.Prelude.{
  ℕ, ◌≤◌, ◌≡◌, refl, ap, sym, subst, ◌∙◌, min, max, Bool, true, false, ◌||◌, Option, none, some,
  List, [], ◌∷◌, ◌++◌, All, All-append, All-map, leb, text_eq, text_eq_iff, arith, inl, inr,
  Bool-cases, Option-cases,
}
use mathlib.Core.List.{Memᴰ}
use pure_reactive_protocol.Failure.{ok, >>=-eq-ok}
use pure_reactive_protocol.Bytes.{be16-set_u16}
use pure_reactive_protocol.Texts.{contains}
use pure_reactive_protocol.Texts.Unique.{text_eq_refl}
use pure_reactive_protocol.Core.Attributes.{TextCodec}
use pure_reactive_protocol.Core.Capabilities.{
  CapabilityDescriptor, NegotiatedCapability, DecodedCapabilityOffer, offers_id, find_offer,
  check_remote_required, check_local_required, negotiate_one, negotiate_each,
  negotiate_capabilities, check_local, decode_range, encode_range, validate_capability_descriptor,
}

-- An agreed version lies in both ranges, and is the largest that does.
pub record IsAgreed (remote : List DecodedCapabilityOffer) (n : NegotiatedCapability) : Type 0 where
  pub same_id : n.own.id ≡ n.id
  pub offered :
      (offer : DecodedCapabilityOffer) × (find_offer remote n.id ≡ some offer)
      × (offer.descriptor ≡ n.theirs)
  pub own_min : n.own.min_version ≤ n.version
  pub their_min : n.theirs.min_version ≤ n.version
  pub largest : n.version ≡ min n.own.max_version n.theirs.max_version

-- `CapabilitySet.has`.
unfoldable pub has_capability : List NegotiatedCapability → List ℕ → Bool
has_capability [] id = false
has_capability (n ∷ rest) id = text_eq n.id id || has_capability rest id

negotiate_one-IsAgreed :
    (require : List (List ℕ)) (remote : List DecodedCapabilityOffer) (own : CapabilityDescriptor)
    (found : Option DecodedCapabilityOffer) (one : List NegotiatedCapability)
    → find_offer remote own.id ≡ found
    → negotiate_one require own found ≡ ok one
    → All (IsAgreed remote) one
unfolding negotiate_one
negotiate_one-IsAgreed require remote own none one e h =
    let same : [] ≡ one = ground arith in subst (All (IsAgreed remote)) same tt
negotiate_one-IsAgreed require remote own (some offer) one e h =
    elim (Bool-cases (
      leb (max own.min_version offer.descriptor.min_version)
        (min own.max_version offer.descriptor.max_version))) [
          | inl overlap ↦
              let n : NegotiatedCapability = record {
                id = own.id;
                version = min own.max_version offer.descriptor.max_version;
                own = own;
                theirs = offer.descriptor;
              } in
              let same : n ∷ [] ≡ one = ground arith in
              subst (All (IsAgreed remote)) same (
                record {
                  same_id = refl;
                  offered = (offer, e, refl);
                  own_min = ground arith;
                  their_min = ground arith;
                  largest = refl;
                },
                tt,
              )
          | inr apart ↦ let same : [] ≡ one = ground arith in subst (All (IsAgreed remote)) same tt
        ]

negotiate_each-IsAgreed :
    (require : List (List ℕ)) (remote : List DecodedCapabilityOffer)
    (own : List CapabilityDescriptor) (set : List NegotiatedCapability)
    → negotiate_each require remote own ≡ ok set
    → All (IsAgreed remote) set
unfolding negotiate_each
negotiate_each-IsAgreed require remote [] set h =
    let same : [] ≡ set = ground arith in subst (All (IsAgreed remote)) same tt
negotiate_each-IsAgreed require remote (own ∷ rest) set h =
    let (one, e1, h1) = >>=-eq-ok (negotiate_one require own (find_offer remote own.id)) _ h in
    let (others, e2, h2) = >>=-eq-ok (negotiate_each require remote rest) _ h1 in
    let same : one ++ others ≡ set = ground arith in
    subst (All (IsAgreed remote)) same (
      All-append (IsAgreed remote) one others
        (negotiate_one-IsAgreed require remote own (find_offer remote own.id) one refl e1)
        (negotiate_each-IsAgreed require remote rest others e2))

-- What is agreed on stands under a descriptor that this side offers, unchanged.
negotiate_one-own :
    (require : List (List ℕ)) (own : CapabilityDescriptor) (found : Option DecodedCapabilityOffer)
    (one : List NegotiatedCapability)
    → negotiate_one require own found ≡ ok one
    → All (λ n. n.own ≡ own) one
unfolding negotiate_one
negotiate_one-own require own none one h =
    let same : [] ≡ one = ground arith in subst (All (λ n. n.own ≡ own)) same tt
negotiate_one-own require own (some offer) one h =
    let version = min own.max_version offer.descriptor.max_version in
    elim (Bool-cases (leb (max own.min_version offer.descriptor.min_version) version)) [
      | inl overlap ↦
          let n : NegotiatedCapability = record {
            id = own.id;
            version = version;
            own = own;
            theirs = offer.descriptor;
          } in
          let same : n ∷ [] ≡ one = ground arith in subst (All (λ m. m.own ≡ own)) same (refl, tt)
      | inr apart ↦ let same : [] ≡ one = ground arith in subst (All (λ n. n.own ≡ own)) same tt
    ]

negotiate_each-own :
    (require : List (List ℕ)) (remote : List DecodedCapabilityOffer)
    (own : List CapabilityDescriptor) (set : List NegotiatedCapability)
    → negotiate_each require remote own ≡ ok set
    → All (λ n. Memᴰ n.own own) set
unfolding negotiate_each
negotiate_each-own require remote [] set h =
    let same : [] ≡ set = ground arith in subst (All (λ n. Memᴰ n.own [])) same tt
negotiate_each-own require remote (own ∷ rest) set h =
    let (one, e1, h1) = >>=-eq-ok (negotiate_one require own (find_offer remote own.id)) _ h in
    let (others, e2, h2) = >>=-eq-ok (negotiate_each require remote rest) _ h1 in
    let same : one ++ others ≡ set = ground arith in
    let this =
      All-map (λ (n : NegotiatedCapability). n.own ≡ own) (λ n. Memᴰ n.own (own ∷ rest))
        (λ n e. Memᴰ.head e) one
        (negotiate_one-own require own (find_offer remote own.id) one e1) in
    let those =
      All-map (λ (n : NegotiatedCapability). Memᴰ n.own rest) (λ n. Memᴰ n.own (own ∷ rest))
        (λ n m. Memᴰ.tail m) others (negotiate_each-own require remote rest others e2) in
    subst (All (λ n. Memᴰ n.own (own ∷ rest))) same
      (All-append (λ n. Memᴰ n.own (own ∷ rest)) one others this those)

has-append :
    (a b : List NegotiatedCapability) (id : List ℕ)
    → has_capability (a ++ b) id ≡ (has_capability a id || has_capability b id)
unfolding has_capability
has-append [] b id = refl
has-append (n ∷ a) b id = ground (arith, has-append a b id)

negotiate_one-has :
    (require : List (List ℕ)) (own : CapabilityDescriptor) (offer : DecodedCapabilityOffer)
    (one : List NegotiatedCapability)
    → negotiate_one require own (some offer) ≡ ok one
    → (offer.required || contains require own.id) ≡ true
    → has_capability one own.id ≡ true
unfolding negotiate_one has_capability
negotiate_one-has require own offer one h needed = ground (arith, text_eq_refl own.id)

negotiate_each-has :
    (require : List (List ℕ)) (remote : List DecodedCapabilityOffer)
    (own : List CapabilityDescriptor) (set : List NegotiatedCapability) (id : List ℕ)
    (offer : DecodedCapabilityOffer)
    → negotiate_each require remote own ≡ ok set
    → offers_id own id ≡ true
    → find_offer remote id ≡ some offer
    → (offer.required || contains require id) ≡ true
    → has_capability set id ≡ true
unfolding negotiate_each offers_id
negotiate_each-has require remote [] set id offer h here there needed = ground arith
negotiate_each-has require remote (own ∷ rest) set id offer h here there needed =
    let (one, e1, h1) = >>=-eq-ok (negotiate_one require own (find_offer remote own.id)) _ h in
    let (others, e2, h2) = >>=-eq-ok (negotiate_each require remote rest) _ h1 in
    let same : one ++ others ≡ set = ground arith in
    elim (Bool-cases (text_eq own.id id)) [
      | inl this ↦
          let at : own.id ≡ id = ground (arith, text_eq_iff own.id id) in
          let found : find_offer remote own.id ≡ some offer = ap (find_offer remote) at ∙ there in
          let made : negotiate_one require own (some offer) ≡ ok one =
            ap (negotiate_one require own) (sym found) ∙ e1 in
          let needed' : (offer.required || contains require own.id) ≡ true =
            ap (λ i. offer.required || contains require i) at ∙ needed in
          ap (λ l. has_capability l id) (sym same)
          ∙ has-append one others id
          ∙ ap (λ i. has_capability one i || has_capability others id) (sym at)
          ∙ ap (λ b. b || has_capability others id)
              (negotiate_one-has require own offer one made needed')
      | inr other ↦
          let later : offers_id rest id ≡ true = ground arith in
          ap (λ l. has_capability l id) (sym same)
          ∙ has-append one others id
          ∙ rw (negotiate_each-has require remote rest others id offer e2 later there needed)
              (ground arith)
    ]

find_offer-id :
    (remote : List DecodedCapabilityOffer) (id : List ℕ) (offer : DecodedCapabilityOffer)
    (own : List CapabilityDescriptor)
    → check_remote_required own remote ≡ ok tt
    → find_offer remote id ≡ some offer
    → offer.required ≡ true
    → offers_id own id ≡ true
unfolding find_offer check_remote_required
find_offer-id [] id offer own checked found needed = ground arith
find_offer-id (first ∷ rest) id offer own checked found needed =
    elim (Option-cases (find_offer rest id)) [
      | inl absent ↦ elim (Bool-cases (text_eq first.descriptor.id id)) [
        | inl this ↦
            let at : first.descriptor.id ≡ id =
              ground (arith, text_eq_iff first.descriptor.id id) in
            let here : offers_id own first.descriptor.id ≡ true = ground arith in
            ap (offers_id own) (sym at) ∙ here
        | inr other ↦ ground arith
      ]
      | inr (later, present) ↦ find_offer-id rest id offer own (ground arith) (ground arith) needed
    ]

local_required :
    (remote : List DecodedCapabilityOffer) (require : List (List ℕ)) (id : List ℕ)
    → check_local_required remote require ≡ ok tt
    → contains require id ≡ true
    → (offer : DecodedCapabilityOffer) × (find_offer remote id ≡ some offer)
unfolding check_local_required contains
local_required remote [] id checked needed = ground arith
local_required remote (first ∷ rest) id checked needed = elim (Bool-cases (text_eq first id)) [
  | inl this ↦
      let at : first ≡ id = ground (arith, text_eq_iff first id) in
      elim (Option-cases (find_offer remote first)) [
        | inl absent ↦ ground arith
        | inr (offer, present) ↦ (offer, ap (find_offer remote) (sym at) ∙ present)
      ]
  | inr other ↦ local_required remote rest id (ground arith) (ground arith)
]

-- A negotiation that succeeds agrees, for each capability of the set, on the largest version that lies
-- in the ranges of both sides, of which this side's is that of a descriptor which it offers, and the
-- other's that of the offer under the same id; and it leaves out no capability that this side requires and offers,
-- and none whose offer the other side marked as required.
pub negotiate-IsAgreed :
    (codec : TextCodec) (own : List CapabilityDescriptor) (remote : List DecodedCapabilityOffer)
    (require : List (List ℕ)) (set : List NegotiatedCapability)
    → negotiate_capabilities codec own remote require ≡ ok set
    → All (IsAgreed remote) set
      × All (λ n. Memᴰ n.own own) set
      × ((id : List ℕ)
          → contains require id ≡ true
          → offers_id own id ≡ true
          → has_capability set id ≡ true)
      × ((id : List ℕ) (offer : DecodedCapabilityOffer)
          → find_offer remote id ≡ some offer
          → offer.required ≡ true
          → has_capability set id ≡ true)
unfolding negotiate_capabilities
negotiate-IsAgreed codec own remote require set h =
    let (u1, c1, h1) = >>=-eq-ok (check_local codec [] own) _ h in
    let (u2, c2, h2) = >>=-eq-ok (check_remote_required own remote) _ h1 in
    let (u3, c3, h3) = >>=-eq-ok (check_local_required remote require) _ h2 in
    (
      negotiate_each-IsAgreed require remote own set h3,
      negotiate_each-own require remote own set h3,
      λ id needed here.
          let (offer, there) = local_required remote require id c3 needed in
          negotiate_each-has require remote own set id offer h3 here there (ground arith),
      λ id offer there needed.
          negotiate_each-has require remote own set id offer h3
            (find_offer-id remote id offer own c2 there needed) there (ground arith),
    )

-- A descriptor that is encoded is decoded unchanged under its id.
pub decode-encode_range :
    (codec : TextCodec) (capability : CapabilityDescriptor) (value : List ℕ)
    → encode_range codec capability ≡ ok value
    → decode_range capability.id value ≡ ok capability
unfolding encode_range validate_capability_descriptor decode_range
decode-encode_range codec capability value h =
    let (u1, c1, h1) = >>=-eq-ok (validate_capability_descriptor codec capability) _ h in
    ground (arith, be16-set_u16 capability.min_version, be16-set_u16 capability.max_version)
