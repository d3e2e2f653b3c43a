-- ===== src/Core/Compact/Dictionary/RoundTrip.antt =====
-- Compact attributes are read as they were written.
use pure_reactive_protocol.Prelude.{
  ℕ, zero, suc, ◌+◌, ◌/◌, ◌%◌, ◌≤◌, ◌<◌, ◌≡◌, refl, sym, subst, ap, ◌∙◌, ◌||◌, some, List, [], ◌∷◌,
  ◌++◌, append_assoc, All, length, length-append, take-append, drop-append, ltb, ◌==◌,
  if◌then◌else◌, text_eq_iff, codes, arith,
}
use pure_reactive_protocol.Failure.{ok, ◌>>=◌, throw_if, range_error, >>=-eq-ok}
use pure_reactive_protocol.Core.Limits.{ProtocolLimits}
use pure_reactive_protocol.Core.Limits.Exchange.{IsResolved}
use pure_reactive_protocol.Core.Attributes.{ProtocolAttribute, TextCodec, IsUtf8, IsSendable, bytes}
use pure_reactive_protocol.Core.Compact.Varint.{
  write_varint, read-write_varint_32, length-write_varint,
}
use pure_reactive_protocol.Core.Compact.Dictionary.{
  attribute_id_of, attribute_code_of, PreparedAttribute, prepared_id_bytes, attribute_tag,
  write_prepared, write_all_prepared, write_area, prepare_one, prepare_loop, prepared_bytes,
  prepared_total, encoded_bytes, read_id, read_attributes,
}

-- A code of the dictionary stands for the id that it was found for.
attribute_id_of-code :
    (id : List ℕ) (c : ℕ) → attribute_code_of id ≡ suc c → attribute_id_of (suc c) ≡ some id
attribute_id_of-code id c h = ground (
  arith,
  text_eq_iff id (codes "prp.profile"),
  text_eq_iff id (codes "prp.rpc.target"),
  text_eq_iff id (codes "prp.rpc.pattern"),
  text_eq_iff id (codes "prp.error.code"),
  text_eq_iff id (codes "prp.session.id"),
)

attribute_code_bound : (id : List ℕ) → attribute_code_of id ≤ 5
attribute_code_bound id = ground arith

-- What the checks of `prepareAttributes` establish for one attribute.
record IsPrepared (codec : TextCodec) (limits : ProtocolLimits) (p : PreparedAttribute)
    : Type 0 where
  own_code : attribute_code_of p.item.id ≡ p.code
  own_literal : (if p.code == 0 then bytes codec p.item.id else ok []) ≡ ok p.literal
  id_pos : 1 ≤ prepared_id_bytes p
  id_fits : prepared_id_bytes p ≤ limits.max_attribute_id_bytes
  value_fits : length p.item.value ≤ limits.max_attribute_value_bytes

abbrev id_part : PreparedAttribute → List ℕ
id_part p = if p.code == 0 then write_varint (length p.literal) ++ p.literal else []

write_prepared-append :
    (p : PreparedAttribute) (tail : List ℕ)
    → write_prepared p ++ tail
      ≡ write_varint (attribute_tag p)
        ++ (id_part p ++ (write_varint (length p.item.value) ++ (p.item.value ++ tail)))
unfolding write_prepared
write_prepared-append p tail = simp append_assoc

module _ (codec : TextCodec) (utf8 : IsUtf8 codec) (limits : ProtocolLimits)
    (r : IsResolved limits) where
  read_literal :
      (item : ProtocolAttribute) (literal rest : List ℕ)
      → bytes codec item.id ≡ ok literal
      → IsSendable item.id
      → 1 ≤ length literal
      → length literal ≤ limits.max_attribute_id_bytes
      → read_id codec limits 0 (write_varint (length literal) ++ (literal ++ rest))
        ≡ ok (item.id, length literal, rest)
  unfolding read_id bytes
  read_literal item literal rest made sendable pos fits =
      let decoded : codec.decode_strict literal ≡ some item.id =
        ground (arith, utf8.decode-encode item.id sendable.is_text, sendable.no_bom) in
      rw
        (
          read-write_varint_32 (length literal) (literal ++ rest) (omega (arith, r.id_fits)),
          take-append literal rest,
          drop-append literal rest,
          decoded,
        )
        (ground (arith, length-append literal rest))

  prepared_parts :
      (item : ProtocolAttribute) (p : PreparedAttribute)
      → prepare_one codec item ≡ ok p
      → (p.item ≡ item)
        × (attribute_code_of p.item.id ≡ p.code)
        × ((if p.code == 0 then bytes codec p.item.id else ok []) ≡ ok p.literal)
  unfolding prepare_one
  prepared_parts item p h =
      let code = attribute_code_of item.id in
      let (literal, e, h') = >>=-eq-ok (if code == 0 then bytes codec item.id else ok []) _ h in
      let same : record { code = code; item = item; literal = literal } ≡ p = ground arith in
      subst
        (λ q.
          (q.item ≡ item)
          × (attribute_code_of q.item.id ≡ q.code)
          × ((if q.code == 0 then bytes codec q.item.id else ok []) ≡ ok q.literal))
        same (refl, refl, e)

  -- The id of a prepared attribute, as it is written before `rest`.
  read_prepared_id :
      (item : ProtocolAttribute) (c : ℕ) (literal rest : List ℕ)
      → attribute_code_of item.id ≡ c
      → (if c == 0 then bytes codec item.id else ok []) ≡ ok literal
      → IsSendable item.id
      → 1 ≤ (if c == 0 then length literal else length item.id)
      → (if c == 0 then length literal else length item.id) ≤ limits.max_attribute_id_bytes
      → read_id codec limits c
          ((if c == 0 then write_varint (length literal) ++ literal else []) ++ rest)
        ≡ ok (item.id, (if c == 0 then length literal else length item.id), rest)
  read_prepared_id item zero literal rest code made sendable pos fits =
      ap (read_id codec limits 0) (append_assoc (write_varint (length literal)) literal rest)
      ∙ read_literal item literal rest made sendable pos fits
  read_prepared_id item (suc c) literal rest code made sendable pos fits =
      unfold read_id in rw (attribute_id_of-code item.id c code) (ground arith)

  -- One attribute, as it is written before `tail`.
  read_one :
      (p : PreparedAttribute) (count logical : ℕ) (tail : List ℕ)
      → IsPrepared codec limits p
      → IsSendable p.item.id
      → logical + (7 + prepared_id_bytes p + length p.item.value) ≤ limits.max_attribute_bytes
      → read_attributes codec limits (suc count) logical (write_prepared p ++ tail) ≡ (
          read_attributes codec limits count
            (logical + (7 + prepared_id_bytes p + length p.item.value))
            tail
          >>= λ (others, left). ok (p.item ∷ others, left))
  unfolding read_attributes
  read_one p count logical tail h sendable within =
      let small : p.code ≤ 5 = omega (arith, h.own_code, attribute_code_bound p.item.id) in
      let tag_fits : attribute_tag p < 4294967296 = ground arith in
      let code_of_tag : attribute_tag p / 2 ≡ p.code = ground arith in
      let required_of_tag : (attribute_tag p % 2 == 1) ≡ p.item.required = ground arith in
      rw
        (
          write_prepared-append p tail,
          read-write_varint_32 (attribute_tag p)
              (id_part p ++ (write_varint (length p.item.value) ++ (p.item.value ++ tail)))
              tag_fits,
          code_of_tag,
          read_prepared_id p.item p.code p.literal
              (write_varint (length p.item.value) ++ (p.item.value ++ tail)) h.own_code
              h.own_literal sendable h.id_pos h.id_fits,
          read-write_varint_32 (length p.item.value) (p.item.value ++ tail)
              (omega (arith, r.value_in_area, r.area_in_frame, r.frame_fits, h.value_fits)),
          take-append p.item.value tail,
          drop-append p.item.value tail,
          required_of_tag,
        )
        (ground (arith, length-append p.item.value tail, h.value_fits))

  -- All attributes, as they are written before `tail`.
  pub read_attributes_lem :
      (items : List ProtocolAttribute) (ps : List PreparedAttribute) (logical : ℕ) (tail : List ℕ)
      → prepare_loop codec limits logical items ≡ ok ps
      → All (λ item. IsSendable item.id) items
      → (length ps ≡ length items)
        × (read_attributes codec limits (length ps) logical (write_all_prepared ps ++ tail)
            ≡ ok (items, tail))
  unfolding prepare_loop write_all_prepared
  read_attributes_lem [] [] logical tail made sendable = (refl, unfold read_attributes in refl)
  read_attributes_lem [] (p ∷ ps) logical tail made sendable = cc
  read_attributes_lem (item ∷ rest) ps logical tail made sendable =
      let (p, e1, h1) = >>=-eq-ok (prepare_one codec item) _ made in
      let used = 7 + prepared_id_bytes p + length item.value in
      let (u2, c2, h2) =
        >>=-eq-ok
          (throw_if
            (prepared_id_bytes p == 0 || ltb limits.max_attribute_id_bytes (prepared_id_bytes p))
            range_error)
          _ h1 in
      let (u3, c3, h3) =
        >>=-eq-ok (throw_if (ltb limits.max_attribute_value_bytes (length item.value)) range_error)
          _ h2 in
      let (u4, c4, h4) =
        >>=-eq-ok (throw_if (ltb limits.max_attribute_bytes (logical + used)) range_error) _ h3 in
      let (others, e5, h5) = >>=-eq-ok (prepare_loop codec limits (logical + used) rest) _ h4 in
      let same : p ∷ others ≡ ps = ground arith in
      let (own_item, own_code, own_literal) = prepared_parts item p e1 in
      let prepared : IsPrepared codec limits p = record {
        own_code = own_code;
        own_literal = own_literal;
        id_pos = ground arith;
        id_fits = ground arith;
        value_fits = ground (arith, own_item);
      } in
      let sent : IsSendable p.item.id =
        subst (λ (i : ProtocolAttribute). IsSendable i.id) (sym own_item) sendable.0 in
      let used' = 7 + prepared_id_bytes p + length p.item.value in
      let same_used : used ≡ used' =
        ap (λ (i : ProtocolAttribute). 7 + prepared_id_bytes p + length i.value) (sym own_item) in
      let (count, read) = read_attributes_lem rest others (logical + used) tail e5 sendable.1 in
      subst
        (λ l.
          (length l ≡ length (item ∷ rest))
          × (read_attributes codec limits (length l) logical (write_all_prepared l ++ tail)
              ≡ ok (item ∷ rest, tail)))
        same
        (
          omega (arith, count),
          ap (read_attributes codec limits (suc (length others)) logical)
                (append_assoc (write_prepared p) (write_all_prepared others) tail)
              ∙ read_one p (length others) logical (write_all_prepared others ++ tail) prepared sent
                  (ground (arith, same_used))
              ∙ rw (← same_used, read, own_item) refl,
        )

-- The lengths that the encoder computes are those of what it writes.
length-write_prepared : (p : PreparedAttribute) → length (write_prepared p) ≡ prepared_bytes p
unfolding write_prepared
length-write_prepared p = ground (
  arith,
  length-append (write_varint (attribute_tag p))
      (id_part p ++ (write_varint (length p.item.value) ++ p.item.value)),
  length-append (id_part p) (write_varint (length p.item.value) ++ p.item.value),
  length-append (write_varint (length p.literal)) p.literal,
  length-append (write_varint (length p.item.value)) p.item.value,
  length-write_varint (attribute_tag p),
  length-write_varint (length p.literal),
  length-write_varint (length p.item.value),
)

length-write_all_prepared :
    (ps : List PreparedAttribute) → length (write_all_prepared ps) ≡ prepared_total ps
unfolding write_all_prepared prepared_total
length-write_all_prepared [] = refl
length-write_all_prepared (p ∷ ps) = omega (
  arith,
  length-append (write_prepared p) (write_all_prepared ps),
  length-write_prepared p,
  length-write_all_prepared ps,
)

pub length-write_area : (ps : List PreparedAttribute) → length (write_area ps) ≡ encoded_bytes ps
unfolding write_area encoded_bytes
length-write_area [] = refl
length-write_area (p ∷ ps) = omega (
  arith,
  length-append (write_varint (length (p ∷ ps))) (write_all_prepared (p ∷ ps)),
  length-write_varint (length (p ∷ ps)),
  length-write_all_prepared (p ∷ ps),
)
