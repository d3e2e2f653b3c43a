-- ===== src/Profile/Rpc/Attach.antt =====
-- src/profile/rpc/index.ts: the codec that both sides of the profile must have.
use pure_reactive_protocol.Prelude.{
  ℕ, ◌≡◌, refl, ap, sym, subst, ◌∙◌, Bool-cases, inl, inr, Bool, true, false, not, Option, none,
  some, List, [], ◌∷◌, length, leb, if◌then◌else◌, text_eq, arith,
}
use pure_reactive_protocol.Failure.{
  Result, ok, err, ◌>>=◌, ◌>>◌, throw_if, type_error, capability_mismatch, >>=-eq-ok, from_ok,
}
use pure_reactive_protocol.Core.Attributes.{TextCodec, IsUtf8, IsSendable, bytes, well_formed}

module _ (codec : TextCodec) where
  unfoldable pub decode_codec_id : List ℕ → Result (List ℕ)
  decode_codec_id value = do
    throw_if (leb (length value) 0) capability_mismatch
    id ← elim (codec.decode_strict value) [ none ↦ err capability_mismatch | some text ↦ ok text ]
    throw_if (leb (length id) 0) capability_mismatch
    ok id

  -- `assertCodec` of a codec with this id: its encoding, which `rpcProfile` announces.
  unfoldable pub assert_codec : List ℕ → Result (List ℕ)
  assert_codec id = do throw_if (leb (length id) 0) type_error; bytes codec id

  -- The checks of `attachRpcProfile` for a negotiated capability: if a state is attached already,
  -- and the parameters of the other side.
  unfoldable pub attach_negotiated : Bool → List ℕ → Option (List ℕ) → Result (Unit {0})
  attach_negotiated attached id none = do _ ← assert_codec id; err capability_mismatch
  attach_negotiated attached id (some parameters) = do
    _ ← assert_codec id
    throw_if attached type_error
    remote ← decode_codec_id parameters
    throw_if (not (text_eq remote id)) capability_mismatch

is_nil : (bs : List ℕ) → leb (length bs) 0 ≡ true → bs ≡ []
is_nil [] h = refl
is_nil (b ∷ rest) h = ground arith

well_formed_nil : well_formed [] ≡ true
unfolding well_formed
well_formed_nil = refl

-- A text that is not empty has an encoding that is not.
encoded_some :
    (codec : TextCodec)
    → IsUtf8 codec
    → (text : List ℕ) → IsSendable text
    → well_formed text ≡ true
    → leb (length text) 0 ≡ false
    → leb (length (codec.encode text)) 0 ≡ false
encoded_some codec utf8 text sendable formed some_text =
    elim (Bool-cases (leb (length (codec.encode text)) 0)) [
      | inr filled ↦ filled
      | inl nothing ↦
          let empty = is_nil (codec.encode text) nothing in
          let read = utf8.decode-encode text sendable.is_text formed sendable.no_bom in
          let read_nil = utf8.decode-encode [] tt well_formed_nil refl in
          let same : some text ≡ some [] =
            sym read ∙ ap codec.decode_strict (empty ∙ sym utf8.encode_nil) ∙ read_nil in
          let nil : text ≡ [] = cc in
          let absurd : leb (length text) 0 ≡ true = ap (λ t. leb (length t) 0) nil in ground arith
    ]

decode_codec_id-encode :
    (codec : TextCodec)
    → IsUtf8 codec
    → (id parameters : List ℕ) → IsSendable id
    → assert_codec codec id ≡ ok parameters
    → decode_codec_id codec parameters ≡ ok id
unfolding assert_codec bytes decode_codec_id
decode_codec_id-encode codec utf8 id parameters sendable h =
    let (u, named, h1) = >>=-eq-ok (throw_if (leb (length id) 0) type_error) _ h in
    let (u', checked, h2) = >>=-eq-ok (throw_if (not (well_formed id)) type_error) _ h1 in
    let formed : well_formed id ≡ true = ground arith in
    let some_id : leb (length id) 0 ≡ false = ground arith in
    let filled = encoded_some codec utf8 id sendable formed some_id in
    let read = utf8.decode-encode id sendable.is_text formed sendable.no_bom in
    subst (λ bs. decode_codec_id codec bs ≡ ok id) (from_ok h2) (rw (filled, read, some_id) refl)

-- The profile of two sides whose codecs pass assertCodec, on a session where it was negotiated
-- and is not attached: it attaches if the ids of the codecs are equal, and otherwise fails as a
-- mismatch of capabilities. The other side's id does not begin with a byte order mark.
pub attach-assert_codec :
    (codec : TextCodec)
    → IsUtf8 codec
    → (own remote own_bytes remote_bytes : List ℕ) → IsSendable remote
    → assert_codec codec own ≡ ok own_bytes
    → assert_codec codec remote ≡ ok remote_bytes
    → attach_negotiated codec false own (some remote_bytes)
      ≡ (if text_eq remote own then ok tt else err capability_mismatch)
unfolding attach_negotiated
attach-assert_codec codec utf8 own remote own_bytes remote_bytes sendable mine theirs =
    let read = decode_codec_id-encode codec utf8 remote remote_bytes sendable theirs in
    elim (Bool-cases (text_eq remote own)) [
      | inl same ↦ rw (mine, read, same) refl
      | inr differs ↦ rw (mine, read, differs) refl
    ]
