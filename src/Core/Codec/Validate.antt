-- ===== src/Core/Codec/Validate.antt =====
-- `validateFrame` of src/core/codec.ts: which combinations of fields a frame of each kind may have.
-- The tests that a number is a nonnegative integer are the type ℕ.
use pure_reactive_protocol.Prelude.{
  ℕ, ◌/◌, ◌%◌, Bool, ◌&&◌, ◌||◌, not, length, ltb, leb, ◌==◌, ◌/=◌,
}
use pure_reactive_protocol.Failure.{Result, ◌>>◌, throw_if, protocol_violation}
use pure_reactive_protocol.Core.Limits.{max_u32}
use pure_reactive_protocol.Core.Frame.{
  FrameKind, hello, welcome, close, ping, pong, open_stream, data_item, demand, complete, cancel,
  error, signal, fragment, ProtocolFrame,
}

-- `flags & DATA_FRAGMENTED_FLAG` and `flags & ~DATA_FRAGMENTED_FLAG`, as tests for nonzero.
abbrev pub has_fragmented_flag : ℕ → Bool
has_fragmented_flag flags = flags % 2 == 1

abbrev pub has_other_flags : ℕ → Bool
has_other_flags flags = flags / 2 /= 0

abbrev pub has_attributes : ProtocolFrame → Bool
has_attributes f = ltb 0 (length f.attributes)

abbrev pub has_payload : ProtocolFrame → Bool
has_payload f = ltb 0 (length f.payload)

-- The conditions of the `switch`: true where the frame's shape is refused.
unfoldable pub bad_shape : FrameKind → ProtocolFrame → Bool
bad_shape hello f =
    f.stream_id /= 0 || f.flags /= 0 || f.credit /= 0 || f.fragment_length /= 0 || has_payload f
bad_shape welcome f =
    f.stream_id /= 0 || f.flags /= 0 || f.credit /= 0 || f.fragment_length /= 0 || has_payload f
bad_shape close f =
    f.stream_id /= 0 || f.flags /= 0 || f.credit /= 0 || f.fragment_length /= 0 || has_attributes f
bad_shape ping f =
    f.stream_id /= 0
    || f.flags /= 0
    || f.credit /= 0
    || f.fragment_length /= 0
    || has_attributes f
    || length f.payload /= 8
bad_shape pong f =
    f.stream_id /= 0
    || f.flags /= 0
    || f.credit /= 0
    || f.fragment_length /= 0
    || has_attributes f
    || length f.payload /= 8
bad_shape open_stream f =
    f.stream_id == 0 || f.flags /= 0 || f.credit /= 0 || f.fragment_length /= 0 || has_payload f
bad_shape data_item f =
    (f.stream_id == 0 || f.credit /= 0 || has_other_flags f.flags)
    || (not (has_fragmented_flag f.flags) && f.fragment_length /= 0)
    || (has_fragmented_flag f.flags
        && (leb f.fragment_length 0 || leb f.fragment_length (length f.payload)))
bad_shape fragment f =
    f.stream_id == 0
    || f.flags /= 0
    || f.credit /= 0
    || f.fragment_length /= 0
    || has_attributes f
    || not (has_payload f)
bad_shape demand f =
    f.stream_id == 0
    || f.flags /= 0
    || leb f.credit 0
    || f.fragment_length /= 0
    || has_attributes f
    || has_payload f
bad_shape complete f =
    f.stream_id == 0
    || f.flags /= 0
    || f.credit /= 0
    || f.fragment_length /= 0
    || has_attributes f
    || has_payload f
bad_shape cancel f =
    f.stream_id == 0 || f.flags /= 0 || f.credit /= 0 || f.fragment_length /= 0 || has_attributes f
bad_shape error f = f.flags /= 0 || f.credit /= 0 || f.fragment_length /= 0
bad_shape signal f = f.stream_id /= 0 || f.flags /= 0 || f.credit /= 0 || f.fragment_length /= 0

unfoldable pub validate_frame : ProtocolFrame → Result (Unit {0})
validate_frame f = do
  throw_if (ltb 255 f.flags) protocol_violation
  throw_if (ltb max_u32 f.credit) protocol_violation
  throw_if (ltb max_u32 f.fragment_length) protocol_violation
  throw_if (f.credit /= 0 && f.fragment_length /= 0) protocol_violation
  throw_if (bad_shape f.kind f) protocol_violation
