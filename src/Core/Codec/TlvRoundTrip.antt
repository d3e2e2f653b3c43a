-- ===== src/Core/Codec/TlvRoundTrip.antt =====
-- An attribute area that the encoder writes is decoded to the attributes that it was written of.
use pure_reactive_protocol.Prelude.{
  ℕ, zero, suc, ◌+◌, ◌%◌, ◌≤◌, ◌<◌, ◌≡◌, refl, sym, ap, subst, ◌∙◌, true, some, List, [], ◌∷◌, ◌++◌,
  All, length, length-append, take-append, drop-append, ltb, ◌==◌, if◌then◌else◌, arith, not-le→leb,
}
use pure_reactive_protocol.Failure.{ok, throw_if, >>=-eq-ok, range_error}
use pure_reactive_protocol.Bytes.{be16-set_u16, be32-set_u32}
use pure_reactive_protocol.Core.Limits.{ProtocolLimits}
use pure_reactive_protocol.Core.Limits.Exchange.{IsResolved}
use pure_reactive_protocol.Core.Attributes.{
  ProtocolAttribute, TextCodec, IsUtf8, IsSendable, well_formed, bytes,
}
use pure_reactive_protocol.Core.Codec.Tlv.{
  EncodedAttribute, measure, write_attributes, encode_ids, encode_attributes, attribute_body,
  decode_attribute, decode_loop, decode_attributes,
}

-- What the checks of the encoder's first loop establish of an attribute.
pub record IsWithin (limits : ProtocolLimits) (e : EncodedAttribute) : Type 0 where
  pub id_pos : 1 ≤ length e.id_bytes
  pub id_fits : length e.id_bytes ≤ limits.max_attribute_id_bytes
  pub value_fits : length e.item.value ≤ limits.max_attribute_value_bytes

-- The bytes of an id are those of its text, which is well formed.
pub record IsEncoded (codec : TextCodec) (e : EncodedAttribute) : Type 0 where
  pub formed : well_formed e.item.id ≡ true
  pub same : e.id_bytes ≡ codec.encode e.item.id

-- The size of the area that the first loop adds up.
abbrev pub area_bytes : List EncodedAttribute → ℕ
area_bytes [] = 0
area_bytes (e ∷ rest) = 7 + length e.id_bytes + length e.item.value + area_bytes rest

pub length-write_attributes :
    (es : List EncodedAttribute) → length (write_attributes es) ≡ area_bytes es
unfolding write_attributes
length-write_attributes [] = refl
length-write_attributes (e ∷ rest) = omega (
  arith,
  length-write_attributes rest,
  length-append e.id_bytes (e.item.value ++ write_attributes rest),
  length-append e.item.value (write_attributes rest),
)

pub measure_ok :
    (limits : ProtocolLimits) (n : ℕ) (es : List EncodedAttribute) (m : ℕ)
    → measure limits n es ≡ ok m
    → n ≤ limits.max_attribute_bytes
    → All (IsWithin limits) es × (m ≡ n + area_bytes es) × (m ≤ limits.max_attribute_bytes)
unfolding measure
measure_ok limits n [] m h b = ground arith
measure_ok limits n (e ∷ rest) m h b =
    ground (arith, measure_ok limits (n + (7 + length e.id_bytes + length e.item.value)) rest m)

module _ (codec : TextCodec) where
  pub encode_ids_ok :
      (items : List ProtocolAttribute) (es : List EncodedAttribute)
      → encode_ids codec items ≡ ok es
      → All (IsEncoded codec) es × (length es ≡ length items)
  unfolding encode_ids
  encode_ids_ok [] es h = ground arith
  encode_ids_ok (item ∷ rest) es h =
      let (id_bytes, e1, h1) = >>=-eq-ok (bytes codec item.id) _ h in
      let (others, e2, h2) = >>=-eq-ok (encode_ids codec rest) _ h1 in
      let ih = encode_ids_ok rest others e2 in unfold bytes in ground arith

  attribute_body-write :
      (flags : ℕ) (item : ProtocolAttribute) (id_bytes rest : List ℕ)
      → codec.decode_strict id_bytes ≡ some item.id
      → 1 ≤ length item.id
      → (flags % 2 == 1) ≡ item.required
      → attribute_body codec flags
          (length id_bytes)
          (length item.value)
          (id_bytes ++ (item.value ++ rest))
        ≡ ok (item, rest)
  unfolding attribute_body
  attribute_body-write flags item id_bytes rest decoded pos same =
      rw
        (
          take-append id_bytes (item.value ++ rest),
          drop-append id_bytes (item.value ++ rest),
          take-append item.value rest,
          drop-append item.value rest,
          decoded,
        )
        (ground arith)

  decode_attribute-write :
      (limits : ProtocolLimits) (e : EncodedAttribute) (rest : List EncodedAttribute)
      → IsResolved limits
      → codec.decode_strict e.id_bytes ≡ some e.item.id
      → 1 ≤ length e.item.id
      → IsWithin limits e
      → decode_attribute codec limits (write_attributes (e ∷ rest))
        ≡ ok (e.item, write_attributes rest)
  unfolding decode_attribute write_attributes
  decode_attribute-write limits e rest r decoded pos within =
      rw
        (
          be16-set_u16 (length e.id_bytes) (omega arith),
          be32-set_u32 (length e.item.value) (omega arith),
        )
        (ground (
          arith,
          length-append e.id_bytes (e.item.value ++ write_attributes rest),
          length-append e.item.value (write_attributes rest),
          attribute_body-write (if e.item.required then 1 else 0) e.item e.id_bytes
              (write_attributes rest),
        ))

  within_pos :
      (limits : ProtocolLimits) (es : List EncodedAttribute)
      → All (IsWithin limits) es
      → All (λ (e : EncodedAttribute). 1 ≤ length e.id_bytes) es
  within_pos limits [] w = tt
  within_pos limits (e ∷ es) w = (w.0.id_pos, within_pos limits es w.1)

  -- What an item and its encoding have in common for the decoder.
  abbrev pub Reads : List ProtocolAttribute → List EncodedAttribute → Type 0
  Reads [] [] = Unit
  Reads [] (e ∷ es) = ⊥
  Reads (item ∷ items) [] = ⊥
  Reads (item ∷ items) (e ∷ es) =
      (e.item ≡ item)
      × (codec.decode_strict e.id_bytes ≡ some e.item.id)
      × (1 ≤ length e.item.id)
      × Reads items es

  decode_loop-step :
      (limits : ProtocolLimits) (fuel count : ℕ) (area : List ℕ) (item : ProtocolAttribute)
      (rest : List ℕ) (items : List ProtocolAttribute)
      → 1 ≤ length area
      → count < limits.max_attributes
      → decode_attribute codec limits area ≡ ok (item, rest)
      → decode_loop codec limits fuel (count + 1) rest ≡ ok items
      → decode_loop codec limits (suc fuel) count area ≡ ok (item ∷ items)
  unfolding decode_loop
  decode_loop-step limits fuel count [] item rest items pos few one others = absurd (omega arith)
  decode_loop-step limits fuel count (b ∷ area) item rest items pos few one others =
      rw (not-le→leb limits.max_attributes count few, one, others) refl

  decode_loop-write :
      (limits : ProtocolLimits) (fuel count : ℕ) (items : List ProtocolAttribute)
      (es : List EncodedAttribute)
      → IsResolved limits
      → Reads items es
      → All (IsWithin limits) es
      → area_bytes es ≤ fuel
      → count + length items ≤ limits.max_attributes
      → decode_loop codec limits fuel count (write_attributes es) ≡ ok items
  decode_loop-write limits fuel count [] [] r reads within enough few =
      unfold decode_loop write_attributes in refl
  decode_loop-write limits fuel count [] (e ∷ es) r reads within enough few = absurd reads
  decode_loop-write limits fuel count (item ∷ items) [] r reads within enough few = absurd reads
  decode_loop-write limits zero count (item ∷ items) (e ∷ es) r reads within enough few =
      absurd (omega arith)
  decode_loop-write limits (suc fuel) count (item ∷ items) (e ∷ es) r reads within enough few =
      let one = decode_attribute-write limits e es r reads.1 reads.2 within.0 in
      let ih =
        decode_loop-write limits fuel (count + 1) items es r reads.3 within.1 (omega arith)
          (omega arith) in
      decode_loop-step limits fuel count (write_attributes (e ∷ es)) item (write_attributes es)
        items (omega (arith, length-write_attributes (e ∷ es))) (omega arith)
        (one ∙ ap (λ x. ok (x, write_attributes es)) reads.0) ih

  sent_id :
      (utf8 : IsUtf8 codec) (id id_bytes : List ℕ)
      → bytes codec id ≡ ok id_bytes
      → IsSendable id
      → 1 ≤ length id_bytes
      → (codec.decode_strict id_bytes ≡ some id) × (1 ≤ length id)
  unfolding bytes
  sent_id utf8 [] id_bytes h s pos = ground (arith, utf8.encode_nil)
  sent_id utf8 (c ∷ id) id_bytes h s pos =
      (ground (arith, utf8.decode-encode (c ∷ id) s.is_text), omega arith)

  encoded_Reads :
      (utf8 : IsUtf8 codec) (items : List ProtocolAttribute) (es : List EncodedAttribute)
      → encode_ids codec items ≡ ok es
      → All (λ item. IsSendable item.id) items
      → All (λ (e : EncodedAttribute). 1 ≤ length e.id_bytes) es
      → Reads items es
  unfolding encode_ids
  encoded_Reads utf8 [] es h sendable pos = ground arith
  encoded_Reads utf8 (item ∷ rest) es h sendable pos =
      let (id_bytes, e1, h1) = >>=-eq-ok (bytes codec item.id) _ h in
      let (others, e2, h2) = >>=-eq-ok (encode_ids codec rest) _ h1 in
      let one : EncodedAttribute = record { item = item; id_bytes = id_bytes } in
      let same : one ∷ others ≡ es = ground arith in
      let pos' = subst (All (λ (e : EncodedAttribute). 1 ≤ length e.id_bytes)) (sym same) pos in
      let sent = sent_id utf8 item.id id_bytes e1 sendable.0 pos'.0 in
      subst (Reads (item ∷ rest)) same
        (refl, sent.0, sent.1, encoded_Reads utf8 rest others e2 sendable.1 pos'.1)

  -- Under resolved limits, attributes whose ids are sendable texts are decoded from the area that
  -- the encoder writes for them, in order and unchanged.
  pub decode-encode_attributes :
      (utf8 : IsUtf8 codec) (limits : ProtocolLimits) (items : List ProtocolAttribute)
      (area : List ℕ)
      → IsResolved limits
      → All (λ item. IsSendable item.id) items
      → encode_attributes codec items limits ≡ ok area
      → decode_attributes codec area limits ≡ ok items
  unfolding encode_attributes decode_attributes
  decode-encode_attributes utf8 limits items area r sendable h =
      let (u, few, h1) =
        >>=-eq-ok (throw_if (ltb limits.max_attributes (length items)) range_error) _ h in
      let (es, e2, h2) = >>=-eq-ok (encode_ids codec items) _ h1 in
      let (m, e3, h3) = >>=-eq-ok (measure limits 0 es) _ h2 in
      let within = measure_ok limits 0 es m e3 (omega arith) in
      let reads = encoded_Reads utf8 items es e2 sendable (within_pos limits es within.0) in
      let small : length (write_attributes es) ≤ limits.max_attribute_bytes =
        omega (arith, length-write_attributes es) in
      let fits : length items ≤ limits.max_attributes = ground arith in
      let read =
        decode_loop-write limits (length (write_attributes es)) 0 items es r reads within.0
          (omega (arith, length-write_attributes es)) (omega arith) in
      ground arith

  -- An area that the encoder writes is within the receiver's bound on areas.
  pub length-encode_attributes :
      (limits : ProtocolLimits) (items : List ProtocolAttribute) (area : List ℕ)
      → encode_attributes codec items limits ≡ ok area
      → length area ≤ limits.max_attribute_bytes
  unfolding encode_attributes
  length-encode_attributes limits items area h =
      let (u, few, h1) =
        >>=-eq-ok (throw_if (ltb limits.max_attributes (length items)) range_error) _ h in
      let (es, e2, h2) = >>=-eq-ok (encode_ids codec items) _ h1 in
      let (m, e3, h3) = >>=-eq-ok (measure limits 0 es) _ h2 in
      let within = measure_ok limits 0 es m e3 (omega arith) in
      let same : write_attributes es ≡ area = ground arith in
      subst (λ a. length a ≤ limits.max_attribute_bytes) same
        (omega (arith, length-write_attributes es))
