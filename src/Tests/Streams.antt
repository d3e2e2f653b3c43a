-- ===== src/Tests/Streams.antt =====
-- A connected session with one stream that the peer opened.
use pure_reactive_protocol.Prelude.{
  ℕ, ◌-◌, ◌≡◌, refl, inl, inr, true, false, none, some, List, [], ◌∷◌, arith,
}
use pure_reactive_protocol.Failure.{ok, liveness_timeout, stream_closed}
use pure_reactive_protocol.Core.Limits.{ProtocolLimits, default_protocol_limits}
use pure_reactive_protocol.Core.Frame.{ProtocolFrame, open_stream}
use pure_reactive_protocol.Core.Queue.{empty}
use pure_reactive_protocol.Core.Codec.Validate.{validate_frame, bad_shape}
use pure_reactive_protocol.Core.Codec.Tlv.{
  measure_attribute_bytes, encode_ids, measure, encode_attributes, write_attributes,
}
use pure_reactive_protocol.Core.Codec.Frames.{encode_frame, write_header, header_value}
use pure_reactive_protocol.Core.Compact.Dictionary.{
  measure_compact_attribute_bytes, prepare_attributes, prepare_loop, encoded_bytes,
}
use pure_reactive_protocol.Core.Session.State.{
  Session, ready, detached, closed, initiator, StreamState, Host, plain_frame,
}
use pure_reactive_protocol.Core.Session.Table.{find_stream}
use pure_reactive_protocol.Core.Session.Retire.{detach}
use pure_reactive_protocol.Core.Session.Receive.{deliver}
use pure_reactive_protocol.Core.Session.Sound.{IsSound}
use pure_reactive_protocol.Core.Session.Sound.Ending.{IsCleared}
use pure_reactive_protocol.Core.Session.Sound.Order.{detach-IsCleared}
use pure_reactive_protocol.Core.Session.Sound.Calls.{completes, handle_call, handle_call-IsSound}
use pure_reactive_protocol.Core.Session.Local.{close_session}
use pure_reactive_protocol.Core.Session.Sound.Closing.{close_session-IsCleared}
use pure_reactive_protocol.Core.Session.Sound.Bytes.{read_bytes-IsSound}
use pure_reactive_protocol.Core.Session.Lane.{read_bytes}
use pure_reactive_protocol.Core.Codec.Frames.{write_header}
use pure_reactive_protocol.Core.Session.Fragment.{
  item_frames, reserved_attribute_bytes, check_stream, check_shapes, fragmented_frames, first_frame,
  fragment_at, fragments_from, fragment_count,
}
use pure_reactive_protocol.Core.Session.Fragment.Reassembly.{handle_frames}
use pure_reactive_protocol.Core.Session.Fragment.Delivery.{IsReceptive, item_arrives}
use pure_reactive_protocol.Tests.Wire.{pairs}

abbrev pub host : Host
host = record {
  codec = pairs;
  stream_acceptors = (λ st. ok true) ∷ [];
  signal_acceptors = [];
  reserves = λ bytes. true;
  reason = λ e. [];
}

abbrev pub narrow : ProtocolLimits
narrow = record default_protocol_limits {
  max_frame_bytes = 40;
  max_attribute_bytes = 4;
  max_attribute_value_bytes = 4;
}

abbrev pub stream : StreamState
stream = record {
  id = 2;
  attributes = [];
  incoming = empty;
  settled = [];
  aborted = false;
  retained_attribute_bytes = 0;
  initiated_locally = false;
  reassembly = none;
  inbound_credit = 3;
  outbound_credit = 0;
  outbound_closed = false;
  inbound_closed = false;
  cancelled = false;
  credit_waiters = 0;
}

abbrev pub session : Session
session = record {
  limits = default_protocol_limits;
  state = ready;
  origin = some initiator;
  streams = stream ∷ [];
  released = [];
  retired_streams = [];
  next_stream_id = 1;
  highest_remote_stream_id = 2;
  outgoing_sequence = 2;
  expected_incoming_sequence = 4;
  outbound_limits = narrow;
  remote_max_inbound_streams = 8;
  remote_max_inbound_item_bytes = 1000;
  in_flight_reassembly_bytes = 0;
  local_active_streams = 0;
  remote_active_streams = 1;
  retained_stream_attribute_bytes = 0;
  pending_signal_bytes = 0;
  active_signal_tasks = 0;
  incoming_streams = empty;
  incoming_signals = empty;
  outgoing = [];
}

pub session-IsSound : IsSound session
session-IsSound = record {
  reassembly_sum = refl;
  reassembly_bound = omega arith;
  local_count = refl;
  remote_count = refl;
  remote_bound = omega arith;
  retained_sum = refl;
  retained_bound = omega arith;
  retired_bound = omega arith;
  live = (
    record {
      not_cancelled = refl;
      half_open = refl;
      queue_end = refl;
      partial = tt;
      credit_fits = omega arith;
    },
    tt,
  );
  highest_parity = inr refl;
  next_parity = omega arith;
  allocated = (inl (refl, omega arith), tt);
}

abbrev opening : ProtocolFrame
opening = record (plain_frame open_stream 4 [] []) { sequence = 4 }

abbrev opening_bytes : List ℕ
unfolding write_header
opening_bytes = write_header opening 0

read_bytes-IsSound_example : IsSound (read_bytes host false opening_bytes session)
read_bytes-IsSound_example = read_bytes-IsSound host false opening_bytes session session-IsSound

detach-IsCleared_example :
    ((detach liveness_timeout session).state ≡ detached)
    × IsCleared (detach liveness_timeout session)
    × IsSound (detach liveness_timeout session)
    × (detach stream_closed (detach liveness_timeout session) ≡ detach liveness_timeout session)
detach-IsCleared_example =
    detach-IsCleared liveness_timeout stream_closed session session-IsSound refl

-- An item of ten bytes, four to a frame.
abbrev content : List ℕ
content = 0 ∷ 1 ∷ 2 ∷ 3 ∷ 4 ∷ 5 ∷ 6 ∷ 7 ∷ 8 ∷ 9 ∷ []

abbrev ten_frames : List ProtocolFrame
ten_frames = fragmented_frames 2 content [] 4 4

ten_frames_made :
    item_frames pairs narrow default_protocol_limits.max_inbound_item_bytes true true
      (stream ∷ [])
      2
      content
      []
    ≡ ok ten_frames
unfolding item_frames reserved_attribute_bytes check_stream find_stream
    measure_compact_attribute_bytes prepare_attributes prepare_loop encoded_bytes check_shapes
    measure_attribute_bytes encode_ids measure encode_attributes write_attributes encode_frame
    write_header header_value validate_frame bad_shape fragmented_frames first_frame fragment_at
    fragments_from fragment_count
ten_frames_made = refl

stream-IsReceptive : IsReceptive session stream
unfolding find_stream
stream-IsReceptive = record {
  session_ready = refl;
  known = refl;
  inbound_open = refl;
  not_cancelled = refl;
  no_item = refl;
  has_credit = omega arith;
}

item_arrives_example :
    handle_frames host ten_frames session
    ≡ deliver
        (record { content = content; attributes = [] })
        (record stream { inbound_credit = stream.inbound_credit - 1 })
        session
item_arrives_example =
    item_arrives host session stream narrow true true (stream ∷ []) content [] ten_frames
      stream-IsReceptive (omega arith) refl ten_frames_made

stream_found : find_stream stream.id session.streams ≡ some stream
unfolding find_stream
stream_found = refl

handle_call-IsSound_example : IsSound (handle_call host stream completes session).0
handle_call-IsSound_example =
    handle_call-IsSound host session stream completes session-IsSound stream_found

close_session-IsCleared_example :
    ((close_session [] session).state ≡ closed)
    × IsCleared (close_session [] session)
    × IsSound (close_session [] session)
    × (close_session (7 ∷ []) (close_session [] session) ≡ close_session [] session)
close_session-IsCleared_example = close_session-IsCleared [] (7 ∷ []) session session-IsSound refl
