-- ===== src/Core/Attributes.antt =====
-- src/core/attributes.ts: attributes, and the texts of their ids. A JavaScript string is the list of
-- its UTF-16 code units; `TextEncoder` and the fatal `TextDecoder` belong to the platform.
use pure_reactive_protocol.Prelude.{
  ℕ, ◌<◌, ◌≡◌, Bool, true, false, ◌&&◌, not, Option, none, some, List, [], ◌∷◌, All, length, leb,
  ◌==◌, if◌then◌else◌, text_eq,
}
use pure_reactive_protocol.Failure.{Result, ok, err, ◌>>=◌, ◌>>◌, throw_if, type_error}
use pure_reactive_protocol.Bytes.{IsBytes}

-- `required` absent and `required: false` are not told apart: the code only asks if it is true.
pub record ProtocolAttribute : Type 0 where
  pub id : List ℕ
  pub value : List ℕ
  pub required : Bool

-- The platform's text codec: `new TextEncoder().encode`, and `decode` of
-- `new TextDecoder("utf-8", { fatal: true })`, where `none` is a throw.
pub record TextCodec : Type 0 where
  pub encode : List ℕ → List ℕ
  pub decode_strict : List ℕ → Option (List ℕ)

abbrev pub IsText : List ℕ → Type 0
IsText = All (λ c. c < 65536)

abbrev pub is_high_surrogate : ℕ → Bool
is_high_surrogate c = leb 0xd800 c && leb c 0xdbff

abbrev pub is_low_surrogate : ℕ → Bool
is_low_surrogate c = leb 0xdc00 c && leb c 0xdfff

-- The test of `assertWellFormedUnicode`: every surrogate is half of a pair.
unfoldable pub well_formed : List ℕ → Bool
well_formed [] = true
well_formed (c ∷ []) = not (is_high_surrogate c) && not (is_low_surrogate c)
well_formed (c ∷ next ∷ rest) =
    let after_pair = is_low_surrogate next && well_formed rest in
    let after_one = not (is_low_surrogate c) && well_formed (next ∷ rest) in
    if is_high_surrogate c then after_pair else after_one

-- A text that begins with the byte order mark, which the decoder drops.
abbrev pub starts_with_bom : List ℕ → Bool
starts_with_bom [] = false
starts_with_bom (c ∷ s) = c == 0xfeff

-- What the code relies on: the encoder returns bytes, and none for the empty text, and the decoder
-- inverts it on well-formed texts that do not begin with a byte order mark.
pub record IsUtf8 (codec : TextCodec) : Type 0 where
  pub encode_bytes : (s : List ℕ) → IsBytes (codec.encode s)
  pub encode_nil : codec.encode [] ≡ []
  pub decode-encode :
      (s : List ℕ)
      → IsText s
      → well_formed s ≡ true
      → starts_with_bom s ≡ false
      → codec.decode_strict (codec.encode s) ≡ some s

-- A text that arrives as it was sent.
pub record IsSendable (s : List ℕ) : Type 0 where
  pub is_text : IsText s
  pub no_bom : starts_with_bom s ≡ false

unfoldable pub first_attribute : List ProtocolAttribute → List ℕ → Option ProtocolAttribute
first_attribute [] id = none
first_attribute (item ∷ rest) id = if text_eq item.id id then some item else first_attribute rest id

unfoldable pub attributes_by_id : List ProtocolAttribute → List ℕ → List ProtocolAttribute
attributes_by_id [] id = []
attributes_by_id (item ∷ rest) id =
    let others = attributes_by_id rest id in if text_eq item.id id then item ∷ others else others

module _ (codec : TextCodec) where
  unfoldable pub bytes : List ℕ → Result (List ℕ)
  bytes s = do throw_if (not (well_formed s)) type_error; ok (codec.encode s)

  unfoldable pub strict_text : List ℕ → Result (List ℕ)
  strict_text bs = elim (codec.decode_strict bs) [ none ↦ err type_error | some s ↦ ok s ]

  -- `attribute(id, value, options)` with a value of bytes.
  unfoldable pub attribute : List ℕ → List ℕ → Bool → Result ProtocolAttribute
  attribute id value required = do
    throw_if (length id == 0) type_error
    throw_if (not (well_formed id)) type_error
    ok (record { id = id; value = value; required = required })

  -- `attribute(id, text, options)`.
  unfoldable pub text_attribute : List ℕ → List ℕ → Bool → Result ProtocolAttribute
  text_attribute id text required = do value ← bytes text; attribute id value required

  -- `undefined` where no attribute has the id.
  unfoldable pub attribute_text_strict : List ProtocolAttribute → List ℕ → Result (Option (List ℕ))
  unfolding first_attribute strict_text
  attribute_text_strict attributes id = elim (first_attribute attributes id) [
    | none ↦ ok none
    | some item ↦ do s ← strict_text item.value; ok (some s)
  ]
