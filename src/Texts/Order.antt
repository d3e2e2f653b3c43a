-- ===== src/Texts/Order.antt =====
-- Texts in strictly ascending order: sorting distinct texts makes them so, keeps them if they are,
-- and two such lists with the same texts are the same list.
use pure_reactive_protocol.Prelude.{
  ℕ, suc, ◌≡◌, refl, ap, subst, ◌∙◌, true, false, ◌||◌, List, [], ◌∷◌, All, length, text_eq,
  text_eq_iff, arith, Bool-cases, inl, inr,
}
use pure_reactive_protocol.Texts.{text_lt, contains, insert, sort}

text_lt_irrefl : (xs : List ℕ) → text_lt xs xs ≡ false
unfolding text_lt
text_lt_irrefl [] = refl
text_lt_irrefl (x ∷ xs) = ground (arith, text_lt_irrefl xs)

text_lt_trans :
    (xs ys zs : List ℕ) → text_lt xs ys ≡ true → text_lt ys zs ≡ true → text_lt xs zs ≡ true
unfolding text_lt
text_lt_trans xs ys [] h h' = cc
text_lt_trans xs [] (z ∷ zs) h h' = ground arith
text_lt_trans [] (y ∷ ys) (z ∷ zs) h h' = refl
text_lt_trans (x ∷ xs) (y ∷ ys) (z ∷ zs) h h' = ground (arith, text_lt_trans xs ys zs)

pub text_lt_asym : (xs ys : List ℕ) → text_lt xs ys ≡ true → text_lt ys xs ≡ false
text_lt_asym xs ys h = elim (Bool-cases (text_lt ys xs)) [
  | inl back ↦ let self = text_lt_trans xs ys xs h back in let never = text_lt_irrefl xs in cc
  | inr not_back ↦ not_back
]

text_lt_total : (xs ys : List ℕ) → text_lt xs ys ≡ false → text_lt ys xs ≡ false → xs ≡ ys
unfolding text_lt
text_lt_total [] [] h h' = refl
text_lt_total [] (y ∷ ys) h h' = cc
text_lt_total (x ∷ xs) [] h h' = cc
text_lt_total (x ∷ xs) (y ∷ ys) h h' = ground (arith, text_lt_total xs ys)

text_higher :
    (xs ys : List ℕ) → text_lt xs ys ≡ false → text_eq xs ys ≡ false → text_lt ys xs ≡ true
text_higher xs ys h differs = elim (Bool-cases (text_lt ys xs)) [
  | inl higher ↦ higher
  | inr not_higher ↦
      let same = text_lt_total xs ys h not_higher in let equal = (text_eq_iff xs ys).1 same in cc
]

abbrev pub IsAscending : List (List ℕ) → Type 0
IsAscending [] = Unit
IsAscending (x ∷ xs) = All (λ y. text_lt x y ≡ true) xs × IsAscending xs

pub contains_all :
    (P : List ℕ → Type 0) (xs : List (List ℕ)) (text : List ℕ)
    → All P xs
    → contains xs text ≡ true
    → P text
unfolding contains
contains_all P [] text all h = cc
contains_all P (x ∷ xs) text (p, all) h = elim (Bool-cases (text_eq x text)) [
  | inl same ↦ subst P ((text_eq_iff x text).0 same) p
  | inr other ↦ contains_all P xs text all (rw other at h)
]

pub below-contains :
    (text : List ℕ) (xs : List (List ℕ))
    → All (λ y. text_lt text y ≡ true) xs
    → contains xs text ≡ false
below-contains text xs all = elim (Bool-cases (contains xs text)) [
  | inl there ↦
      let self = contains_all (λ y. text_lt text y ≡ true) xs text all there in
      let never = text_lt_irrefl text in cc
  | inr not_there ↦ not_there
]

-- What is not in a list is inserted in its place.
All-insert :
    (P : List ℕ → Type 0) (text : List ℕ) (xs : List (List ℕ))
    → P text
    → All P xs
    → All P (insert text xs)
unfolding insert
All-insert P text [] p all = (p, tt)
All-insert P text (x ∷ xs) p (q, all) = elim (Bool-cases (text_lt x text)) [
  | inl lower ↦ rw lower (q, All-insert P text xs p all)
  | inr higher ↦ rw higher (p, (q, all))
]

All-below :
    (text x : List ℕ) (xs : List (List ℕ))
    → text_lt text x ≡ true
    → All (λ y. text_lt x y ≡ true) xs
    → All (λ y. text_lt text y ≡ true) xs
All-below text x [] h all = tt
All-below text x (y ∷ xs) h (p, all) = (text_lt_trans text x y h p, All-below text x xs h all)

insert-IsAscending :
    (text : List ℕ) (xs : List (List ℕ))
    → contains xs text ≡ false
    → IsAscending xs
    → IsAscending (insert text xs)
unfolding contains insert
insert-IsAscending text [] fresh sorted = (tt, tt)
insert-IsAscending text (x ∷ xs) fresh (below, sorted) = elim (Bool-cases (text_lt x text)) [
  | inl lower ↦ rw lower (
    All-insert (λ y. text_lt x y ≡ true) text xs lower below,
    insert-IsAscending text xs (ground arith) sorted,
  )
  | inr higher ↦
      let lt = text_higher x text higher (ground arith) in
      rw higher ((lt, All-below text x xs lt below), (below, sorted))
]

contains-insert :
    (text other : List ℕ) (xs : List (List ℕ))
    → contains (insert text xs) other ≡ (text_eq text other || contains xs other)
unfolding contains insert
contains-insert text other [] = refl
contains-insert text other (x ∷ xs) = ground (arith, contains-insert text other xs)

pub contains-sort :
    (xs : List (List ℕ)) (other : List ℕ) → contains (sort xs) other ≡ contains xs other
unfolding contains sort
contains-sort [] other = refl
contains-sort (x ∷ xs) other =
    contains-insert x other (sort xs) ∙ ap (λ b. text_eq x other || b) (contains-sort xs other)

length-insert : (text : List ℕ) (xs : List (List ℕ)) → length (insert text xs) ≡ suc (length xs)
unfolding insert
length-insert text [] = refl
length-insert text (x ∷ xs) = ground (arith, length-insert text xs)

pub length-sort : (xs : List (List ℕ)) → length (sort xs) ≡ length xs
unfolding sort
length-sort [] = refl
length-sort (x ∷ xs) = length-insert x (sort xs) ∙ ap suc (length-sort xs)

pub All-sort : (P : List ℕ → Type 0) (xs : List (List ℕ)) → All P xs → All P (sort xs)
unfolding sort
All-sort P [] all = tt
All-sort P (x ∷ xs) (p, all) = All-insert P x (sort xs) p (All-sort P xs all)

-- No text stands twice.
abbrev pub IsDistinct : List (List ℕ) → Type 0
IsDistinct [] = Unit
IsDistinct (x ∷ xs) = (contains xs x ≡ false) × IsDistinct xs

pub sort-IsAscending : (xs : List (List ℕ)) → IsDistinct xs → IsAscending (sort xs)
unfolding sort
sort-IsAscending [] d = tt
sort-IsAscending (x ∷ xs) (fresh, d) =
    insert-IsAscending x (sort xs) (contains-sort xs x ∙ fresh) (sort-IsAscending xs d)

insert_lowest :
    (x : List ℕ) (xs : List (List ℕ)) → All (λ y. text_lt x y ≡ true) xs → insert x xs ≡ x ∷ xs
unfolding insert
insert_lowest x [] all = refl
insert_lowest x (y ∷ xs) (lt, all) =
    let never : text_lt y x ≡ false = text_lt_asym x y lt in rw never refl

pub sort-ascending : (xs : List (List ℕ)) → IsAscending xs → sort xs ≡ xs
unfolding sort
sort-ascending [] s = refl
sort-ascending (x ∷ xs) (below, s) = rw (sort-ascending xs s) (insert_lowest x xs below)
