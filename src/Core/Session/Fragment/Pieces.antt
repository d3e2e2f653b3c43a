-- ===== src/Core/Session/Fragment/Pieces.antt =====
-- The fragments of an item are its bytes, cut without gap or overlap.
use pure_reactive_protocol.Prelude.{
  ℕ, zero, suc, ◌+◌, ◌-◌, ◌*◌, ◌≤◌, ◌<◌, ◌≡◌, refl, sym, ◌∙◌, ap, min, List, [], ◌∷◌, ◌++◌, length,
  take, drop, take-append-drop, length-take, length-drop, drop-add, arith,
}
use native.Mathlib.Nat.{div-add-mod, mod-lt}
use pure_reactive_protocol.Core.Frame.{ProtocolFrame}
use pure_reactive_protocol.Core.Session.Fragment.{
  subarray, fragment_at, fragments_from, fragment_count,
}

-- The payloads of a list of frames, one after the other.
abbrev pub payloads : List ProtocolFrame → List ℕ
payloads [] = []
payloads (f ∷ rest) = f.payload ++ payloads rest

-- Every fragment carries something.
abbrev pub AllPos : List ProtocolFrame → Type 0
AllPos [] = Unit
AllPos (f ∷ rest) = (1 ≤ length f.payload) × AllPos rest

drop_all : (n : ℕ) (l : List ℕ) → length l ≤ n → drop n l ≡ []
drop_all zero [] h = refl
drop_all zero (x ∷ l) h = absurd (omega arith)
drop_all (suc n) [] h = refl
drop_all (suc n) (x ∷ l) h = drop_all n l (omega arith)

take_all : (n : ℕ) (l : List ℕ) → length l ≤ n → take n l ≡ l
take_all zero [] h = refl
take_all zero (x ∷ l) h = absurd (omega arith)
take_all (suc n) [] h = refl
take_all (suc n) (x ∷ l) h = ap (◌∷◌ x) (take_all n l (omega arith))

take-min : (n : ℕ) (l : List ℕ) → take (min n (length l)) l ≡ take n l
take-min zero l = ground arith
take-min (suc n) [] = ground arith
take-min (suc n) (x ∷ l) =
    let e : min (suc n) (suc (length l)) ≡ suc (min n (length l)) = omega arith in
    rw e (ap (◌∷◌ x) (take-min n l))

-- The part that a fragment takes, in short.
subarray-take :
    (l : List ℕ) (offset capacity : ℕ)
    → subarray l offset (min (length l) (offset + capacity)) ≡ take capacity (drop offset l)
subarray-take l offset capacity =
    let e : min (length l) (offset + capacity) - offset ≡ min capacity (length (drop offset l)) =
      omega (arith, length-drop offset l) in
    ap (λ n. take n (drop offset l)) e ∙ take-min capacity (drop offset l)

-- A piece and what follows it are what stood from the offset on.
piece_lem :
    (l : List ℕ) (offset capacity : ℕ)
    → subarray l offset (min (length l) (offset + capacity)) ++ drop (offset + capacity) l
      ≡ drop offset l
piece_lem l offset capacity =
    rw (subarray-take l offset capacity, drop-add offset capacity l)
      (take-append-drop capacity (drop offset l))

length-piece :
    (l : List ℕ) (offset capacity : ℕ)
    → length (subarray l offset (min (length l) (offset + capacity)))
      ≡ min capacity (length l - offset)
length-piece l offset capacity =
    rw (subarray-take l offset capacity, length-take capacity (drop offset l), length-drop offset l)

module _ (id : ℕ) (content : List ℕ) (first_bytes capacity : ℕ) (room : 1 ≤ capacity) where
  pub payloads-fragments_from :
      (index count : ℕ)
      → length content ≤ first_bytes + (index + count) * capacity
      → payloads (fragments_from id content first_bytes capacity index count)
        ≡ drop (first_bytes + index * capacity) content
  unfolding fragments_from fragment_at
  payloads-fragments_from index zero covered =
      sym (drop_all (first_bytes + index * capacity) content (omega arith))
  payloads-fragments_from index (suc count) covered =
      let next : first_bytes + (index + 1) * capacity ≡ first_bytes + index * capacity + capacity =
        omega arith in
      rw (payloads-fragments_from (index + 1) count (omega arith), next)
        (piece_lem content (first_bytes + index * capacity) capacity)

  pub fragments_from-AllPos :
      (index count : ℕ)
      → (index + count) * capacity < (length content - first_bytes) + capacity
      → AllPos (fragments_from id content first_bytes capacity index count)
  unfolding fragments_from fragment_at
  fragments_from-AllPos index zero short = tt
  fragments_from-AllPos index (suc count) short = (
    rw (length-piece content (first_bytes + index * capacity) capacity) (grind arith),
    fragments_from-AllPos (index + 1) count (omega arith),
  )

  -- The number of fragments covers the rest of the item, and no fragment is empty.
  pub fragment_count_bounds :
      (remaining : ℕ)
      → (remaining ≤ fragment_count remaining capacity * capacity)
        × (fragment_count remaining capacity * capacity < remaining + capacity)
  unfolding fragment_count
  fragment_count_bounds remaining =
      let whole = div-add-mod (remaining + capacity - 1) capacity in
      let rest = mod-lt (remaining + capacity - 1) {m = capacity} room in (omega arith, omega arith)
