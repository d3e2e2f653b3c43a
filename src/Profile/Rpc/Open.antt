-- ===== src/Profile/Rpc/Open.antt =====
-- An offered call is read as it was opened.
use pure_reactive_protocol.Prelude.{
  ℕ, ◌≡◌, refl, ap, sym, ◌∙◌, true, false, some, List, [], ◌∷◌, length, text_eq, arith, leb,
}
use pure_reactive_protocol.Failure.{ok, throw_if, type_error, >>=-eq-ok, from_ok}
use pure_reactive_protocol.Texts.{contains}
use pure_reactive_protocol.Texts.Unique.{text_eq_refl}
use pure_reactive_protocol.Core.Attributes.{
  ProtocolAttribute, TextCodec, IsUtf8, IsSendable, attribute, attributes_by_id, bytes,
  text_attribute, well_formed,
}
use pure_reactive_protocol.Profile.Rpc.{
  RpcPattern, unary, notify, server_stream, duplex, pattern_text, pattern_of, profile_attribute,
  target_attribute, pattern_attribute, rpc_profile_id, has_unsupported, validate_target,
  profile_attributes, open_text, singleton_of, singleton_text, accepts_one, accepts_rpc, read_open,
}

pattern_of-text : (p : RpcPattern) → pattern_of (pattern_text p) ≡ some p
unfolding pattern_of text_eq
pattern_of-text unary = refl
pattern_of-text notify = refl
pattern_of-text server_stream = refl
pattern_of-text duplex = refl

pattern-IsSendable : (p : RpcPattern) → IsSendable (pattern_text p)
pattern-IsSendable unary = record { is_text = ground arith; no_bom = refl }
pattern-IsSendable notify = record { is_text = ground arith; no_bom = refl }
pattern-IsSendable server_stream = record { is_text = ground arith; no_bom = refl }
pattern-IsSendable duplex = record { is_text = ground arith; no_bom = refl }

profile_id-IsSendable : IsSendable rpc_profile_id
profile_id-IsSendable = record { is_text = ground arith; no_bom = refl }

text_attribute_lem :
    (codec : TextCodec) (id text : List ℕ) (item : ProtocolAttribute)
    → text_attribute codec id text true ≡ ok item
    → (item ≡ record { id = id; value = codec.encode text; required = true })
      × (well_formed text ≡ true)
unfolding text_attribute bytes attribute
text_attribute_lem codec id text item h = ground arith

open_text_lem :
    (codec : TextCodec)
    → IsUtf8 codec
    → (text : List ℕ) → IsSendable text
    → well_formed text ≡ true
    → open_text codec (codec.encode text) ≡ ok (some text)
unfolding open_text
open_text_lem codec utf8 text sendable formed =
    rw (open_text, utf8.decode-encode text sendable.is_text formed sendable.no_bom) refl

-- The three attributes of a call.
abbrev opened : TextCodec → List ℕ → RpcPattern → List ProtocolAttribute
opened codec target pattern =
    record { id = profile_attribute; value = codec.encode rpc_profile_id; required = true }
    ∷ record { id = target_attribute; value = codec.encode target; required = true }
    ∷ record {
      id = pattern_attribute;
      value = codec.encode (pattern_text pattern);
      required = true;
    }
    ∷ []

profile_attributes_lem :
    (codec : TextCodec) (target : List ℕ) (pattern : RpcPattern) (items : List ProtocolAttribute)
    → profile_attributes codec target pattern ≡ ok items
    → (items ≡ opened codec target pattern)
      × (well_formed target ≡ true)
      × (well_formed (pattern_text pattern) ≡ true)
      × (well_formed rpc_profile_id ≡ true)
unfolding profile_attributes
profile_attributes_lem codec target pattern items h =
    let (profile, e, h1) =
      >>=-eq-ok (text_attribute codec profile_attribute rpc_profile_id true) _ h in
    let (named, e', h2) = >>=-eq-ok (text_attribute codec target_attribute target true) _ h1 in
    let (patterned, e'', h3) =
      >>=-eq-ok (text_attribute codec pattern_attribute (pattern_text pattern) true) _ h2 in
    let (same, formed) = text_attribute_lem codec profile_attribute rpc_profile_id profile e in
    let (same', formed') = text_attribute_lem codec target_attribute target named e' in
    let (same'', formed'') =
      text_attribute_lem codec pattern_attribute (pattern_text pattern) patterned e'' in
    (sym (from_ok h3) ∙ rw (same, same', same'') refl, formed', formed'', formed)

read_open-opened :
    (codec : TextCodec) (target : List ℕ) (pattern : RpcPattern)
    → leb (length target) 0 ≡ false
    → open_text codec (codec.encode rpc_profile_id) ≡ ok (some rpc_profile_id)
    → open_text codec (codec.encode target) ≡ ok (some target)
    → open_text codec (codec.encode (pattern_text pattern)) ≡ ok (some (pattern_text pattern))
    → read_open codec (opened codec target pattern) ≡ ok (target, pattern)
unfolding read_open has_unsupported contains text_eq singleton_text singleton_of attributes_by_id
read_open-opened codec target pattern named h h' h'' =
    rw (h, h', h'', named, pattern_of-text pattern) refl

accepts_rpc-opened :
    (codec : TextCodec) (target : List ℕ) (pattern : RpcPattern)
    → codec.decode_strict (codec.encode rpc_profile_id) ≡ some rpc_profile_id
    → accepts_rpc codec (opened codec target pattern) ≡ true
unfolding accepts_rpc accepts_one attributes_by_id text_eq
accepts_rpc-opened codec target pattern h = rw (accepts_one, h, text_eq_refl rpc_profile_id) refl

-- The attributes that a caller opens a stream with, under a target that is not empty and does
-- not begin with a byte order mark, are accepted by the profile's acceptor and read back as that
-- target and pattern.
pub read_open-profile_attributes :
    (codec : TextCodec)
    → IsUtf8 codec
    → (target : List ℕ) (pattern : RpcPattern) (items : List ProtocolAttribute) → IsSendable target
    → validate_target codec target ≡ ok tt
    → profile_attributes codec target pattern ≡ ok items
    → (accepts_rpc codec items ≡ true) × (read_open codec items ≡ ok (target, pattern))
unfolding validate_target
read_open-profile_attributes codec utf8 target pattern items sendable valid h =
    let (same, formed, formed', formed'') = profile_attributes_lem codec target pattern items h in
    let (u, named, _) = >>=-eq-ok (throw_if (leb (length target) 0) type_error) _ valid in
    let id = profile_id-IsSendable in
    let read : read_open codec (opened codec target pattern) ≡ ok (target, pattern) =
      read_open-opened codec target pattern (ground arith)
        (open_text_lem codec utf8 rpc_profile_id id formed'')
        (open_text_lem codec utf8 target sendable formed)
        (open_text_lem codec utf8 (pattern_text pattern) (pattern-IsSendable pattern) formed') in
    let accepted =
      accepts_rpc-opened codec target pattern
        (utf8.decode-encode rpc_profile_id id.is_text formed'' id.no_bom) in
    (ap (accepts_rpc codec) same ∙ accepted, ap (read_open codec) same ∙ read)
