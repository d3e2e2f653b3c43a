-- ===== src/Tests/Lanes.antt =====
-- A session at its lane, and the opening of a stream.
use pure_reactive_protocol.Prelude.{◌+◌, ◌≡◌, refl, true, false, none, some, List, [], ◌∷◌, arith}
use pure_reactive_protocol.Core.Limits.{ProtocolLimits}
use pure_reactive_protocol.Failure.{ok, plain_error}
use pure_reactive_protocol.Core.Frame.{ProtocolFrame, open_stream, data_item}
use pure_reactive_protocol.Core.Codec.Validate.{validate_frame, bad_shape}
use pure_reactive_protocol.Core.Compact.Varint.{
  write_varint, write_groups, varint_bytes, count_groups,
}
use pure_reactive_protocol.Core.Compact.Dictionary.{
  prepare_loop, prepare_attributes, write_area, encoded_bytes,
}
use pure_reactive_protocol.Core.Compact.Frames.{encode_compact_frame}
use pure_reactive_protocol.Core.Session.State.{
  Session, detached, plain_frame, create_stream_state, write_frame, attribute_memory_bytes,
}
use pure_reactive_protocol.Core.Session.Table.{put_stream, find_stream, remove_stream}
use pure_reactive_protocol.Core.Session.Retire.{
  detach, shut_down, cancel_all, cancel_stream, delete_stream, clear_reassembly, retire,
  cancelled_state,
}
use pure_reactive_protocol.Core.Session.Lane.{
  Lane, encode_for, encoded_for, lane_answered, write_frame_now, then_write, write_each,
  write_frames_now,
}
use pure_reactive_protocol.Core.Codec.Wider.{IsWider}
use pure_reactive_protocol.Core.Session.Lane.Sequence.{
  decode_each, numbered, decode_each-write_frames_now,
}
use pure_reactive_protocol.Core.Session.Opening.{
  open_next, open_stream_state, finish_open, write_turn, write_queued, take_back, enter_local,
}
use pure_reactive_protocol.Core.Session.Sound.Opening.{IsOpening, open_next-IsOpening}
use pure_reactive_protocol.Tests.Wire.{pairs, pairs-IsUtf8}
use pure_reactive_protocol.Tests.Compact.{limits, limits-IsResolved}
use pure_reactive_protocol.Tests.Streams.{session, session-IsSound, host}

abbrev pub taking : Lane
taking = some (λ bs. none)

abbrev wide : Session
wide = record session { outbound_limits = limits }

abbrev pub two_frames : List ProtocolFrame
two_frames = plain_frame open_stream 1 [] [] ∷ plain_frame data_item 1 [] (7 ∷ 8 ∷ []) ∷ []

two_frames_written : (write_frames_now pairs true taking two_frames wide).failure ≡ none
unfolding write_frames_now write_each then_write write_frame_now encoded_for lane_answered
    encode_for encode_compact_frame prepare_attributes prepare_loop write_area write_varint
    write_groups varint_bytes count_groups validate_frame bad_shape encoded_bytes
two_frames_written = refl

-- The peer takes longer frames.
abbrev roomy : ProtocolLimits
roomy = record limits { max_frame_bytes = limits.max_frame_bytes + 64 }

roomy-IsWider : IsWider limits roomy
roomy-IsWider = record {
  frame = omega arith;
  area = omega arith;
  count = omega arith;
  id = omega arith;
  value = omega arith;
}

decode_each-write_frames_now_example :
    (decode_each pairs true roomy (write_frames_now pairs true taking two_frames wide).sent
      ≡ ok (numbered 2 two_frames))
    × ((write_frames_now pairs true taking two_frames wide).session.outgoing_sequence ≡ 2 + 2)
decode_each-write_frames_now_example =
    decode_each-write_frames_now pairs pairs-IsUtf8 true taking limits roomy limits-IsResolved
      roomy-IsWider two_frames wide refl refl ((refl, tt), ((refl, tt), tt)) two_frames_written

open_next-IsOpening_example : IsOpening session (open_next host false taking [] session)
open_next-IsOpening_example = open_next-IsOpening host false taking [] session session-IsSound

-- Here a stream is opened, under the id 1; and here the lane fails, and the session is detached.
opens_one : (open_next host true taking [] wide).0.next_stream_id ≡ 3
unfolding open_next open_stream_state finish_open write_turn write_queued write_frames_now
    write_each then_write write_frame_now encoded_for lane_answered enter_local create_stream_state
    write_frame attribute_memory_bytes put_stream encode_for encode_compact_frame prepare_attributes
    prepare_loop write_area write_varint write_groups varint_bytes count_groups validate_frame
    bad_shape encoded_bytes
opens_one = refl

fails_one : (open_next host true (some (λ bs. some plain_error)) [] wide).0.state ≡ detached
unfolding open_next open_stream_state finish_open write_turn write_queued write_frames_now
    write_each then_write write_frame_now encoded_for lane_answered enter_local create_stream_state
    attribute_memory_bytes put_stream encode_for encode_compact_frame prepare_attributes
    prepare_loop write_area write_varint write_groups varint_bytes count_groups validate_frame
    bad_shape encoded_bytes detach shut_down cancel_all cancel_stream delete_stream clear_reassembly
    retire find_stream remove_stream cancelled_state take_back
fails_one = refl
