-- ===== src/Texts.antt =====
-- `[...new Set(texts)]` and `sort()` on texts, which compares UTF-16 code units.
pub mod Order
pub mod Unique
pub mod Members
use pure_reactive_protocol.Prelude.{
  ℕ, Bool, true, false, List, [], ◌∷◌, ◌||◌, not, ltb, ◌==◌, if◌then◌else◌, text_eq,
}

unfoldable pub text_lt : List ℕ → List ℕ → Bool
text_lt xs [] = false
text_lt [] (y ∷ ys) = true
text_lt (x ∷ xs) (y ∷ ys) = let later = text_lt xs ys in if x == y then later else ltb x y

unfoldable pub contains : List (List ℕ) → List ℕ → Bool
contains [] text = false
contains (x ∷ xs) text = text_eq x text || contains xs text

-- The texts that another one differs from.
unfoldable pub without : List ℕ → List (List ℕ) → List (List ℕ)
without text [] = []
without text (x ∷ xs) = let rest = without text xs in if text_eq x text then rest else x ∷ rest

-- `[...new Set(texts)]`: the first of equal texts stays.
unfoldable pub distinct : List (List ℕ) → List (List ℕ)
distinct [] = []
distinct (x ∷ xs) = x ∷ without x (distinct xs)

unfoldable pub insert : List ℕ → List (List ℕ) → List (List ℕ)
insert text [] = text ∷ []
insert text (x ∷ xs) =
    let rest = insert text xs in if text_lt x text then x ∷ rest else text ∷ x ∷ xs

unfoldable pub sort : List (List ℕ) → List (List ℕ)
sort [] = []
sort (x ∷ xs) = insert x (sort xs)
