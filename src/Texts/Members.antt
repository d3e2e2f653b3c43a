-- ===== src/Texts/Members.antt =====
-- What a set contains once texts are taken away.
use pure_reactive_protocol.Prelude.{
  ℕ, ◌≡◌, refl, ap, ◌∙◌, true, false, inl, inr, List, [], ◌∷◌, text_eq, text_eq_iff, arith,
  Bool-cases,
}
use pure_reactive_protocol.Texts.{contains, without}

-- A set has no other texts than the list it is made of.
pub contains-without :
    (text : List ℕ) (xs : List (List ℕ)) (id : List ℕ)
    → contains (without text xs) id ≡ true
    → contains xs id ≡ true
unfolding contains without
contains-without text [] id h = h
contains-without text (x ∷ xs) id h = ground (arith, contains-without text xs id)

pub contains-without_other :
    (target id : List ℕ) (targets : List (List ℕ))
    → text_eq target id ≡ false
    → contains (without target targets) id ≡ contains targets id
unfolding contains without
contains-without_other target id [] h = refl
contains-without_other target id (other ∷ rest) h = elim (Bool-cases (text_eq other target)) [
  | inl same ↦
      let differs : text_eq other id ≡ false =
        ap (λ t. text_eq t id) ((text_eq_iff other target).0 same) ∙ h in
      rw (same, differs) (contains-without_other target id rest h)
  | inr differs ↦ rw (differs, contains-without_other target id rest h) refl
]
