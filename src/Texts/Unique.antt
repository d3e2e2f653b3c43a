-- ===== src/Texts/Unique.antt =====
-- What sorts and removes repetitions has one result.
use pure_reactive_protocol.Prelude.{
  ℕ, suc, ◌≤◌, ◌≡◌, refl, sym, subst, ◌∙◌, true, false, List, [], ◌∷◌, All, length, text_eq,
  text_eq_iff, arith, Bool-cases, inl, inr,
}
use pure_reactive_protocol.Texts.{text_lt, contains, without, distinct}
use pure_reactive_protocol.Texts.Order.{
  text_lt_asym, contains_all, below-contains, IsAscending, IsDistinct,
}

-- Two ascending lists with the same texts are equal.
same_head :
    (x y : List ℕ) (xs ys : List (List ℕ))
    → IsAscending (x ∷ xs)
    → IsAscending (y ∷ ys)
    → contains (y ∷ ys) x ≡ true
    → contains (x ∷ xs) y ≡ true
    → x ≡ y
unfolding contains
same_head x y xs ys (below, s) (below', s') h h' = elim (Bool-cases (text_eq y x)) [
  | inl equal ↦ sym ((text_eq_iff y x).0 equal)
  | inr differs ↦
      let differs' : text_eq x y ≡ false = ground (arith, text_eq_iff x y, text_eq_iff y x) in
      let lower = contains_all (λ z. text_lt y z ≡ true) ys x below' (rw differs at h) in
      let lower' = contains_all (λ z. text_lt x z ≡ true) xs y below (rw differs' at h') in
      let never = text_lt_asym y x lower in cc
]

pub text_eq_refl : (text : List ℕ) → text_eq text text ≡ true
text_eq_refl text = (text_eq_iff text text).1 refl

same_tail :
    (x : List ℕ) (xs ys : List (List ℕ))
    → All (λ y. text_lt x y ≡ true) xs
    → All (λ y. text_lt x y ≡ true) ys
    → ((text : List ℕ) → contains (x ∷ xs) text ≡ contains (x ∷ ys) text)
    → (text : List ℕ) → contains xs text ≡ contains ys text
unfolding contains
same_tail x xs ys below below' same text = elim (Bool-cases (text_eq x text)) [
  | inl equal ↦
      subst (λ t. contains xs t ≡ contains ys t) ((text_eq_iff x text).0 equal)
        (below-contains x xs below ∙ sym (below-contains x ys below'))
  | inr differs ↦ rw differs at (same text)
]

pub ascending_unique :
    (xs ys : List (List ℕ))
    → IsAscending xs
    → IsAscending ys
    → ((text : List ℕ) → contains xs text ≡ contains ys text)
    → xs ≡ ys
unfolding contains
ascending_unique [] [] s s' same = refl
ascending_unique [] (y ∷ ys) s s' same = let h = same y in let r = text_eq_refl y in ground arith
ascending_unique (x ∷ xs) [] s s' same = let h = same x in let r = text_eq_refl x in ground arith
ascending_unique (x ∷ xs) (y ∷ ys) s s' same =
    let r = text_eq_refl x in
    let r' = text_eq_refl y in
    let head : x ≡ y = same_head x y xs ys s s' (sym (same x) ∙ rw r refl) (same y ∙ rw r' refl) in
    let below' : All (λ z. text_lt x z ≡ true) ys =
      subst (λ t. All (λ z. text_lt t z ≡ true) ys) (sym head) s'.0 in
    let same' =
      subst (λ t. (text : List ℕ) → contains (x ∷ xs) text ≡ contains (t ∷ ys) text) (sym head)
        same in
    rw (head, ascending_unique xs ys s.1 s'.1 (same_tail x xs ys s.0 below' same')) refl

-- Distinct texts are what `[...new Set(texts)]` leaves alone.
without_absent :
    (text : List ℕ) (xs : List (List ℕ)) → contains xs text ≡ false → without text xs ≡ xs
unfolding contains without
without_absent text [] h = refl
without_absent text (x ∷ xs) h =
    let differs : text_eq x text ≡ false = ground arith in
    rw (differs, without_absent text xs (ground arith)) refl

pub length-without : (text : List ℕ) (xs : List (List ℕ)) → length (without text xs) ≤ length xs
unfolding without
length-without text [] = omega arith
length-without text (x ∷ xs) = ground (arith, length-without text xs)

pub length-without_present :
    (text : List ℕ) (xs : List (List ℕ))
    → contains xs text ≡ true
    → suc (length (without text xs)) ≤ length xs
unfolding contains without
length-without_present text [] h = cc
length-without_present text (x ∷ xs) h =
    ground (arith, length-without text xs, length-without_present text xs)

length-distinct : (xs : List (List ℕ)) → length (distinct xs) ≤ length xs
unfolding distinct
length-distinct [] = omega arith
length-distinct (x ∷ xs) = omega (arith, length-without x (distinct xs), length-distinct xs)

pub distinct_lem : (xs : List (List ℕ)) → IsDistinct xs → distinct xs ≡ xs
unfolding distinct
distinct_lem [] d = refl
distinct_lem (x ∷ xs) (fresh, d) = rw (distinct_lem xs d, without_absent x xs fresh) refl

pub distinct-IsDistinct : (xs : List (List ℕ)) → length (distinct xs) ≡ length xs → IsDistinct xs
unfolding distinct
distinct-IsDistinct [] h = tt
distinct-IsDistinct (x ∷ xs) h =
    let whole : length (distinct xs) ≡ length xs =
      omega (arith, length-without x (distinct xs), length-distinct xs) in
    let d = distinct-IsDistinct xs whole in
    let same = distinct_lem xs d in
    (
      elim (Bool-cases (contains xs x)) [
        | inl there ↦
            let short = length-without_present x xs there in let h' = rw same at h in ground arith
        | inr fresh ↦ fresh
      ],
      d,
    )

pub ascending-IsDistinct : (xs : List (List ℕ)) → IsAscending xs → IsDistinct xs
ascending-IsDistinct [] s = tt
ascending-IsDistinct (x ∷ xs) (below, s) = (below-contains x xs below, ascending-IsDistinct xs s)
