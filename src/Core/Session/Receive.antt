-- ===== src/Core/Session/Receive.antt =====
-- The frames that arrive: `handleFrame` of src/core/session.ts and the handlers that it calls, and the
-- round of `readLoop` that checks the peer's sequence and detaches when a handler throws. HELLO and
-- WELCOME, which only a connecting session accepts, are in Handshake. Where the code awaits a
-- write after a frame was handed to `writeFrame`, the frame stands in `outgoing`.
pub mod Items
pub mod Offers
use pure_reactive_protocol.Prelude.{
  ℕ, ◌+◌, ◌-◌, Bool, true, false, ◌&&◌, ◌||◌, not, Option, none, some, List, [], ◌∷◌, ◌++◌, length,
  ltb, leb, codes, ◌==◌, ◌/=◌, if◌then◌else◌,
}
use pure_reactive_protocol.Failure.{Failure, protocol_violation, coded, Result, ok, err}
use pure_reactive_protocol.Core.Frame.{
  FrameKind, close, ping, pong, open_stream, data_item, demand, complete, cancel, error, signal,
  fragment, ProtocolFrame, data_fragmented_flag,
}
use pure_reactive_protocol.Core.Liveness.{decode_probe}
use pure_reactive_protocol.Core.Queue.{push, finish, size}
use pure_reactive_protocol.Core.Session.State.{
  Session, SessionState, ready, StreamState, StreamMessage, ReassemblyState, SessionSignal,
  QueuedSignal, Host, Step, done, throw, add_credit, attribute_memory_bytes, create_stream_state,
  write_frame, plain_frame,
}
use pure_reactive_protocol.Core.Session.Table.{find_stream, put_stream}
use pure_reactive_protocol.Core.Session.Retire.{
  clear_reassembly, retire, find_retired, release_stream, cancel_stream, detach, finish_closed,
  is_past_stream_id, first_remote_id,
}
use pure_reactive_protocol.Core.Session.Diagnostics.{
  remote_diagnostic, remote_cancel, remote_close_reason, error_frame, code_of,
}
unfoldable pub use pure_reactive_protocol.Core.Session.Receive.Items.{
  resource_exhausted, update_stream, deliver, fail_inbound_stream, start_reassembly,
  is_reassembling, accept_data, handle_data, add_fragment, handle_fragment,
}
unfoldable pub use pure_reactive_protocol.Core.Session.Receive.Offers.{
  ask, reject_remote_open, admit, announce, place_stream, expected_remote_id, open_remote,
  handle_open, place_signal, handle_signal,
}
pub use pure_reactive_protocol.Core.Session.Receive.Offers.{Verdict, accepted, refused, threw}

unfoldable pub handle_demand : StreamState → ProtocolFrame → Session → Step
handle_demand st f s =
    if f.credit == 0
    then throw protocol_violation s
    else done (
        update_stream
          (record st {
            outbound_credit = add_credit st.outbound_credit f.credit;
            credit_waiters = 0;
          })
          s)

unfoldable pub handle_complete : StreamState → Session → Step
handle_complete st s =
    if is_reassembling st
    then throw protocol_violation s
    else done (
        release_stream
          (record st {
            inbound_closed = true;
            incoming = (finish st.incoming none false).0;
            settled = st.settled ++ (finish st.incoming none false).1;
          })
          s)

-- CANCEL and ERROR: the stream ends with the error that the peer reports.
unfoldable pub handle_end : StreamState → Result Failure → Session → Step
handle_end st (ok e) s = done (cancel_stream st e false s)
handle_end st (err e) s = throw e s

-- The `switch` of `handleFrame`.
unfoldable pub handle_stream_frame : Host → StreamState → FrameKind → ProtocolFrame → Session → Step
handle_stream_frame host st data_item f s = handle_data host st f s
handle_stream_frame host st fragment f s = handle_fragment st f s
handle_stream_frame host st demand f s = handle_demand st f s
handle_stream_frame host st complete f s = handle_complete st s
handle_stream_frame host st cancel f s = handle_end st (remote_cancel host.codec f) s
handle_stream_frame host st error f s =
    handle_end st (remote_diagnostic host.codec f (codes "REMOTE_ERROR")) s
handle_stream_frame host st _ f s = throw protocol_violation s

-- Late frames that a closed stream may still get: control frames of any past stream, and data where
-- it is allowed or the stream is no longer remembered.
abbrev pub is_late_control : FrameKind → Bool
is_late_control demand = true
is_late_control complete = true
is_late_control cancel = true
is_late_control error = true
is_late_control _ = false

abbrev pub is_data_frame : FrameKind → Bool
is_data_frame data_item = true
is_data_frame fragment = true
is_data_frame _ = false

abbrev pub allows_late_data : Option Bool → Bool → Bool
allows_late_data none past = past
allows_late_data (some allowed) past = allowed

unfoldable pub handle_unknown_stream : ProtocolFrame → Session → Step
handle_unknown_stream f s =
    let past = is_past_stream_id f.stream_id s in
    if past && is_late_control f.kind
    then done s
    else if is_data_frame f.kind
        && allows_late_data (find_retired f.stream_id s.retired_streams) past
    then done s
    else throw protocol_violation s

unfoldable pub handle_ping : ProtocolFrame → Session → Step
handle_ping f s = elim (decode_probe (some f.payload)) [
  | err e ↦ throw protocol_violation s
  | ok probe ↦ done (write_frame (plain_frame pong 0 [] f.payload) s)
]

unfoldable pub handle_pong : ProtocolFrame → Session → Step
handle_pong f s = elim (decode_probe (some f.payload)) [
  | err e ↦ throw protocol_violation s
  | ok probe ↦ done s
]

unfoldable pub handle_close : Host → ProtocolFrame → Session → Step
handle_close host f s = elim (remote_close_reason host.codec f) [
  | err e ↦ throw e s
  | ok u ↦ done (finish_closed s)
]

-- A session error of the peer always throws: the error that it reports, or a violation.
unfoldable pub handle_session_error : Host → ProtocolFrame → Session → Step
handle_session_error host f s = elim (remote_diagnostic host.codec f (codes "REMOTE_ERROR")) [
  | err e ↦ throw e s
  | ok e ↦ throw e s
]

abbrev pub is_error : FrameKind → Bool
is_error error = true
is_error _ = false

abbrev pub is_ready : SessionState → Bool
is_ready ready = true
is_ready _ = false

-- The lookup of the stream that a frame is for.
unfoldable pub to_stream : Host → FrameKind → ProtocolFrame → Session → Step
to_stream host kind f s = elim (find_stream f.stream_id s.streams) [
  | none ↦ handle_unknown_stream f s
  | some st ↦ handle_stream_frame host st kind f s
]

-- `handleFrame` of a ready session, by kind.
unfoldable pub dispatch : Host → FrameKind → ProtocolFrame → Session → Step
dispatch host ping f s = handle_ping f s
dispatch host pong f s = handle_pong f s
dispatch host close f s = handle_close host f s
dispatch host open_stream f s = handle_open host f s
dispatch host signal f s = handle_signal host f s
dispatch host kind f s = to_stream host kind f s

-- `handleFrame` for every kind but HELLO and WELCOME.
unfoldable pub handle_frame : Host → ProtocolFrame → Session → Step
handle_frame host f s =
    if is_error f.kind && f.stream_id == 0
    then handle_session_error host f s
    else if not (is_ready s.state)
    then throw protocol_violation s
    else dispatch host f.kind f s

-- The end of a round of `readLoop`: what a handler throws detaches the session.
abbrev pub settle_step : Step → Session
settle_step (s, none) = s
settle_step (s, some e) = detach e s

-- A round of `readLoop` for a frame that was decoded.
unfoldable pub read_frame : Host → ProtocolFrame → Session → Session
read_frame host f s =
    if f.sequence /= s.expected_incoming_sequence
    then detach protocol_violation s
    else settle_step (
        handle_frame host f
          (record s { expected_incoming_sequence = s.expected_incoming_sequence + 1 }))
