-- ===== src/Core/Session/Receive/Offers.antt =====
-- What acceptors decide on: `handleOpen`, `rejectRemoteOpen` and `handleSignal` of
-- src/core/session.ts.
use pure_reactive_protocol.Prelude.{
  ℕ, ◌+◌, Bool, true, false, ◌||◌, List, [], ◌∷◌, length, ltb, leb, codes, ◌==◌, ◌/=◌,
  if◌then◌else◌,
}
use pure_reactive_protocol.Failure.{Failure, protocol_violation, Result, ok, err}
use pure_reactive_protocol.Core.Frame.{ProtocolFrame}
use pure_reactive_protocol.Core.Queue.{push, size}
use pure_reactive_protocol.Core.Session.State.{
  Session, StreamState, SessionSignal, QueuedSignal, Host, Step, done, throw,
  attribute_memory_bytes, create_stream_state, write_frame,
}
use pure_reactive_protocol.Core.Session.Table.{put_stream}
use pure_reactive_protocol.Core.Session.Retire.{retire, cancel_stream, detach, first_remote_id}
use pure_reactive_protocol.Core.Session.Diagnostics.{error_frame, code_of}
use pure_reactive_protocol.Core.Session.Receive.Items.{resource_exhausted}

-- The answer of the acceptors: the first that accepts or throws decides.
pub data Verdict : Type 0 where
  accepted refused : Verdict
  threw : Failure → Verdict

unfoldable pub ask {ℓ} : {A : Type ℓ} → List (A → Result Bool) → A → Verdict
ask [] a = refused
ask (accepts ∷ rest) a = elim (accepts a) [
  | err e ↦ threw e
  | ok true ↦ accepted
  | ok false ↦ ask rest a
]

-- `rejectRemoteOpen`.
unfoldable pub reject_remote_open : Host → ℕ → Failure → Session → Session
reject_remote_open host id e s =
    write_frame (error_frame host id e (code_of e (codes "APPLICATION_ERROR"))) (retire id false s)

-- The three lines that enter a stream of the peer into the map.
unfoldable pub admit : StreamState → Session → Session
admit st s = record s {
  streams = put_stream st s.streams;
  remote_active_streams = s.remote_active_streams + 1;
  retained_stream_attribute_bytes = s.retained_stream_attribute_bytes + st.retained_attribute_bytes;
}

-- `this.incomingStreams.push(stream)`.
unfoldable pub announce : ℕ → Session → Step
announce id s = elim (push s.incoming_streams id) [
  | err e ↦ throw e s
  | ok (q, settled) ↦ done (record s { incoming_streams = q })
]

-- What happens to a new stream once the acceptors have answered. A throw is reported by
-- `stream.fail`, which cancels the stream and allows late data.
unfoldable pub place_stream : Host → StreamState → Verdict → Session → Step
place_stream host st accepted s = done (admit st s)
place_stream host st (threw e) s = done (
    write_frame (error_frame host st.id e (code_of e (codes "APPLICATION_ERROR")))
      (cancel_stream st e true s))
place_stream host st refused s =
    if leb s.limits.max_pending_incoming_streams (size s.incoming_streams)
    then done (reject_remote_open host st.id resource_exhausted s)
    else announce st.id (admit st s)

unfoldable pub expected_remote_id : Session → ℕ
expected_remote_id s =
    if s.highest_remote_stream_id == 0
    then first_remote_id s.origin
    else s.highest_remote_stream_id + 2

-- `handleOpen` behind the check of the id.
unfoldable pub open_remote : Host → ProtocolFrame → Session → Step
open_remote host f s =
    let st = create_stream_state host.codec f.stream_id f.attributes false in
    if leb s.limits.max_inbound_streams s.remote_active_streams
    then done (reject_remote_open host f.stream_id resource_exhausted s)
    else if ltb s.limits.max_retained_stream_attribute_bytes
        (s.retained_stream_attribute_bytes + st.retained_attribute_bytes)
    then done (reject_remote_open host f.stream_id resource_exhausted s)
    else place_stream host st (ask host.stream_acceptors st) s

unfoldable pub handle_open : Host → ProtocolFrame → Session → Step
handle_open host f s =
    if f.stream_id /= expected_remote_id s
    then throw protocol_violation s
    else open_remote host f (record s { highest_remote_stream_id = f.stream_id })

-- `handleSignal` once the acceptors have answered.
unfoldable pub place_signal : QueuedSignal → Verdict → Session → Step
place_signal q (threw e) s = done (detach e s)
place_signal q accepted s =
    if leb s.limits.max_pending_signals s.active_signal_tasks
    then throw protocol_violation s
    else done (record s {
      active_signal_tasks = s.active_signal_tasks + 1;
      pending_signal_bytes = s.pending_signal_bytes + q.bytes;
    })
place_signal q refused s =
    if leb s.limits.max_pending_signals (size s.incoming_signals)
    then throw protocol_violation s
    else elim (push s.incoming_signals q) [
      | err e ↦ throw e (record s { pending_signal_bytes = s.pending_signal_bytes + q.bytes })
      | ok (queue, settled) ↦ done (record s {
        pending_signal_bytes = s.pending_signal_bytes + q.bytes;
        incoming_signals = queue;
      })
    ]

unfoldable pub handle_signal : Host → ProtocolFrame → Session → Step
handle_signal host f s =
    let content : SessionSignal = record { content = f.payload; attributes = f.attributes } in
    let bytes = length f.payload + attribute_memory_bytes host.codec f.attributes in
    if ltb s.limits.max_in_flight_signal_bytes bytes
      || ltb s.limits.max_in_flight_signal_bytes (s.pending_signal_bytes + bytes)
    then throw protocol_violation s
    else place_signal (record { signal = content; bytes = bytes })
        (ask host.signal_acceptors content) s
