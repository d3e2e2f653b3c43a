-- ===== src/Rsocket/Metadata/Loop.antt =====
-- The fuel of `decodeCompositeMetadata` lasts: it satisfies the equation of its loop.
use pure_reactive_protocol.Prelude.{
  ℕ, zero, suc, ◌+◌, ◌/◌, ◌%◌, ◌≤◌, ◌≡◌, refl, List, [], ◌∷◌, length, length-drop, take, drop, ltb,
  ◌==◌, arith, Bool-cases, inl, inr,
}
use pure_reactive_protocol.Failure.{ok, Result-cases, ◌>>=◌, throw_if, range_error, >>=-eq-ok}
use pure_reactive_protocol.Core.Attributes.{TextCodec}
use pure_reactive_protocol.Rsocket.Frame.{get_u24}
use pure_reactive_protocol.Rsocket.Metadata.{
  CompositeMetadataEntry, or_type_error, read_mime, read_entry, decode_composite_loop,
  decode_composite_metadata,
}

-- A round leaves no more than it was given.
read_mime-shorter :
    (codec : TextCodec) (first : ℕ) (input : List ℕ) (mime rest : List ℕ)
    → read_mime codec first input ≡ ok (mime, rest)
    → length rest ≤ length input
unfolding read_mime
read_mime-shorter codec first input mime rest h = elim (Bool-cases ((first / 128) % 2 == 1)) [
  | inl p ↦ ground arith
  | inr p ↦
      let m = first % 128 + 1 in
      let (_, e, h₁) = >>=-eq-ok (throw_if (ltb (length input) m) range_error) _ (rw p at h) in
      let (t, e', h₂) = >>=-eq-ok (or_type_error (codec.decode_strict (take m input))) _ h₁ in
      ground (arith, length-drop m input)
]

rest_of_ok : {A : Type 0} (p q : A × List ℕ) → ok p ≡ ok q → length p.1 ≡ length q.1
rest_of_ok p q h = ground arith

read_entry-shorter :
    (codec : TextCodec) (first : ℕ) (input : List ℕ) (entry : CompositeMetadataEntry)
    (rest : List ℕ)
    → read_entry codec first input ≡ ok (entry, rest)
    → length rest ≤ length input
unfolding read_entry
read_entry-shorter codec first input entry rest h =
    let ((mime, after_mime), e, h₁) = >>=-eq-ok (read_mime codec first input) _ h in
    let (_, short, h₂) = >>=-eq-ok (throw_if (ltb (length after_mime) 3) range_error) _ h₁ in
    let n = get_u24 after_mime in
    let (_, _, h₃) = >>=-eq-ok (throw_if (ltb (length after_mime) (3 + n)) range_error) _ h₂ in
    let same = rest_of_ok _ (entry, rest) h₃ in
    omega (
      arith,
      read_mime-shorter codec first input mime after_mime e,
      length-drop n (drop 3 after_mime),
      length-drop 3 after_mime,
    )

decode_composite_loop-fuel :
    (codec : TextCodec) (fuel more : ℕ) (input : List ℕ)
    → length input ≤ fuel
    → length input ≤ more
    → decode_composite_loop codec fuel input ≡ decode_composite_loop codec more input
unfolding decode_composite_loop
decode_composite_loop-fuel codec fuel more [] h h' = refl
decode_composite_loop-fuel codec zero more (first ∷ input) h h' = elim h [ ]
decode_composite_loop-fuel codec (suc fuel) zero (first ∷ input) h h' = elim h' [ ]
decode_composite_loop-fuel codec (suc fuel) (suc more) (first ∷ input) h h' =
    elim (Result-cases (read_entry codec first input)) [
      | inl (thrown, e) ↦ rw (e) refl
      | inr ((entry, rest), e) ↦
          let shorter = read_entry-shorter codec first input entry rest e in
          rw (e, decode_composite_loop-fuel codec fuel more rest (omega arith) (omega arith)) refl
    ]

-- On input that is not empty, `decodeCompositeMetadata` reads an entry, fails if that fails, and
-- goes on with what the entry leaves until nothing is left, whatever the length of the input.
pub decode_composite_metadata-loop :
    (codec : TextCodec) (first : ℕ) (input : List ℕ)
    → decode_composite_metadata codec (first ∷ input) ≡ (
        read_entry codec first input >>= λ (entry, rest).
        decode_composite_metadata codec rest >>= λ entries. ok (entry ∷ entries))
unfolding decode_composite_loop
decode_composite_metadata-loop codec first input =
    elim (Result-cases (read_entry codec first input)) [
      | inl (thrown, e) ↦ rw (e) refl
      | inr ((entry, rest), e) ↦
          let shorter = read_entry-shorter codec first input entry rest e in
          rw
            (
              e,
              decode_composite_loop-fuel codec (length input) (length rest) rest (omega arith)
                  (omega arith),
            )
            refl
    ]
