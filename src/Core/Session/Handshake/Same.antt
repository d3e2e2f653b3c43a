-- ===== src/Core/Session/Handshake/Same.antt =====
-- The set that a WELCOME is answered with has the versions of the set that it offers.
use pure_reactive_protocol.Prelude.{
  ℕ, ◌≡◌, refl, ap, sym, ◌∙◌, Bool, true, false, inl, inr, Option, none, some, List, [], ◌∷◌, ◌++◌,
  All, text_eq, text_eq_iff, arith, Bool-cases, Option-cases, if◌then◌else◌,
}
use pure_reactive_protocol.Texts.Order.{IsDistinct}
use pure_reactive_protocol.Core.Capabilities.{CapabilityDescriptor, NegotiatedCapability, offers_id}
use pure_reactive_protocol.Core.Capabilities.Agreement.{IsAgreed}
use pure_reactive_protocol.Core.Capabilities.Offers.{offers_of}
use pure_reactive_protocol.Core.Runtime.{ids_of}
use pure_reactive_protocol.Core.Session.Negotiated.{find_negotiated}
use pure_reactive_protocol.Core.Session.Handshake.Versions.{
  find_capability-id, answer_one, answer, version_in,
}
use pure_reactive_protocol.Core.Session.Handshake.Agreement.{IsAgreed-find, offered_by}

answer_other :
    (c : CapabilityDescriptor) (found : Option NegotiatedCapability)
    (more : List NegotiatedCapability) (id : List ℕ)
    → text_eq c.id id ≡ false
    → find_negotiated (answer_one c found ++ more) id ≡ find_negotiated more id
unfolding answer_one find_negotiated
answer_other c none more id differs = refl
answer_other c (some n) more id differs = rw differs refl

answer_same :
    (c : CapabilityDescriptor) (found : Option NegotiatedCapability)
    (more : List NegotiatedCapability) (id : List ℕ)
    → text_eq c.id id ≡ true
    → (found ≡ none → version_in (find_negotiated more id) ≡ none)
    → version_in (find_negotiated (answer_one c found ++ more) id) ≡ version_in found
unfolding answer_one find_negotiated
answer_same c none more id same absent = absent refl
answer_same c (some n) more id same absent = rw same refl

either_way : (b : Bool) (v : Option ℕ) → (if b then v else v) ≡ v
either_way true v = refl
either_way false v = refl

pub find-answer :
    (own : List CapabilityDescriptor) (set : List NegotiatedCapability) (id : List ℕ)
    → version_in (find_negotiated (answer own set) id)
      ≡ (if offers_id own id then version_in (find_negotiated set id) else none)
unfolding answer offers_id find_negotiated
find-answer [] set id = refl
find-answer (c ∷ rest) set id =
    let later = find-answer rest set id in
    elim (Bool-cases (text_eq c.id id)) [
      | inr differs ↦
          ap version_in (answer_other c (find_negotiated set c.id) (answer rest set) id differs)
          ∙ later
          ∙ rw differs refl
      | inl same ↦
          let at = ap (find_negotiated set) ((text_eq_iff c.id id).0 same) in
          answer_same c (find_negotiated set c.id) (answer rest set) id same (λ absent.
            let gone : version_in (find_negotiated set id) ≡ none =
              ap version_in (sym at ∙ absent) in
            later
            ∙ ap (λ v. if offers_id rest id then v else none) gone
            ∙ either_way (offers_id rest id) none)
          ∙ ap version_in at
          ∙ rw same refl
    ]

-- Where this side offers no capability, none was agreed on.
version-absent :
    (own : List CapabilityDescriptor) (require : List (List ℕ)) (set : List NegotiatedCapability)
    (id : List ℕ)
    → IsDistinct (ids_of own)
    → All (IsAgreed (offers_of own require)) set
    → offers_id own id ≡ false
    → version_in (find_negotiated set id) ≡ none
version-absent own require set id distinct all absent =
    elim (Option-cases (find_negotiated set id)) [
      | inl none_there ↦ ap version_in none_there
      | inr (n, found) ↦
          let (agreed, same) = IsAgreed-find (offers_of own require) set id n all found in
          let (_, there) =
            find_capability-id own n.id n.theirs (offered_by own require n distinct agreed) in
          let there' : offers_id own id ≡ true = ap (offers_id own) (sym same) ∙ there in
          ground arith
    ]

pub same_version :
    (own : List CapabilityDescriptor) (require : List (List ℕ)) (set : List NegotiatedCapability)
    (id : List ℕ)
    → IsDistinct (ids_of own)
    → All (IsAgreed (offers_of own require)) set
    → (if offers_id own id then version_in (find_negotiated set id) else none)
      ≡ version_in (find_negotiated set id)
same_version own require set id distinct all = elim (Bool-cases (offers_id own id)) [
  | inl there ↦ rw there refl
  | inr absent ↦ rw absent (sym (version-absent own require set id distinct all absent))
]
