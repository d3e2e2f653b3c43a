-- ===== src/Tests/Compact.antt =====
-- Compact frames and varints, with the text codec of Tests/Wire.
use pure_reactive_protocol.Prelude.{
  ℕ, ◌≤◌, ◌<◌, ◌≡◌, refl, false, none, List, [], ◌∷◌, ◌++◌, All, length, codes, arith, text_eq,
}
use pure_reactive_protocol.Failure.{ok}
use pure_reactive_protocol.Core.Limits.{
  ProtocolLimits, default_protocol_limits, resolve_protocol_limits,
}
use pure_reactive_protocol.Core.Limits.Exchange.{IsResolved, resolve-IsResolved}
use pure_reactive_protocol.Core.Attributes.{ProtocolAttribute, IsSendable, well_formed, bytes}
use pure_reactive_protocol.Core.Frame.{ProtocolFrame}
use pure_reactive_protocol.Core.Codec.Validate.{validate_frame, bad_shape}
use pure_reactive_protocol.Core.Compact.Varint.{
  write_varint, write_groups, read_varint_64, read_groups, read_varint_64-canonical, varint_bytes,
  count_groups,
}
use pure_reactive_protocol.Core.Compact.Dictionary.{
  prepare_one, prepare_loop, prepare_attributes, write_prepared, write_all_prepared, write_area,
  encoded_bytes,
}
use pure_reactive_protocol.Core.Compact.Frames.{encode_compact_frame, decode_compact_frame}
use pure_reactive_protocol.Core.Compact.RoundTrip.{decode-encode_compact_frame}
use pure_reactive_protocol.Tests.Wire.{pairs, pairs-IsUtf8, small_overrides, note, frame}

abbrev pub limits : ProtocolLimits
limits = default_protocol_limits

pub limits-IsResolved : IsResolved limits
unfolding resolve_protocol_limits
limits-IsResolved =
    resolve-IsResolved
      (record small_overrides {
        max_frame_bytes = none;
        max_attribute_bytes = none;
        max_attribute_value_bytes = none;
      })
      limits refl

-- The frame of Tests/Wire with an attribute of the dictionary.
abbrev named : ProtocolFrame
named = record frame {
  attributes = note ∷ record { id = codes "prp.profile"; value = 1 ∷ []; required = false } ∷ [];
}

abbrev named_bytes : List ℕ
named_bytes =
    193 ∷ 49 ∷ 5 ∷ 7 ∷ 2 ∷ 1 ∷ 4 ∷ 0 ∷ 110 ∷ 0 ∷ 111 ∷ 3 ∷ 5 ∷ 6 ∷ 7 ∷ 2 ∷ 1 ∷ 1 ∷ 9 ∷ 8 ∷ []

named-IsSendable : All (λ (item : ProtocolAttribute). IsSendable item.id) named.attributes
named-IsSendable = (
  record { is_text = omega arith; no_bom = refl },
  (record { is_text = omega arith; no_bom = refl }, tt),
)

encode_named : encode_compact_frame pairs named limits ≡ ok named_bytes
unfolding encode_compact_frame prepare_attributes prepare_loop prepare_one write_area
    write_all_prepared write_prepared write_varint write_groups varint_bytes count_groups
    validate_frame bad_shape well_formed bytes text_eq encoded_bytes
encode_named = refl

decode-encode_compact_frame_example :
    (length named_bytes ≤ limits.max_frame_bytes)
    × (decode_compact_frame pairs named_bytes limits ≡ ok named)
decode-encode_compact_frame_example =
    decode-encode_compact_frame pairs pairs-IsUtf8 limits limits-IsResolved named named_bytes
      named-IsSendable encode_named

-- 300 in two groups, and a byte after it.
read_300 : read_varint_64 (172 ∷ 2 ∷ 9 ∷ []) ≡ ok (300, 9 ∷ [])
unfolding read_varint_64 read_groups
read_300 = refl

read_varint_64-canonical_example :
    (172 ∷ 2 ∷ 9 ∷ [] ≡ write_varint 300 ++ 9 ∷ []) × (300 < 18446744073709551616)
read_varint_64-canonical_example =
    read_varint_64-canonical (172 ∷ 2 ∷ 9 ∷ []) 300 (9 ∷ []) (omega arith) read_300
