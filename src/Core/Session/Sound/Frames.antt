-- ===== src/Core/Session/Sound/Frames.antt =====
-- Every frame that a session reads keeps its books balanced.
use pure_reactive_protocol.Prelude.{
  ◌+◌, ◌≡◌, refl, sym, subst, none, some, length, ◌/=◌, arith, Bool-cases, Option-cases, inl, inr,
}
use pure_reactive_protocol.Failure.{protocol_violation, ok}
use pure_reactive_protocol.Core.Frame.{
  FrameKind, close, ping, pong, open_stream, signal, ProtocolFrame,
}
use pure_reactive_protocol.Core.Codec.Validate.{validate_frame}
use pure_reactive_protocol.Core.Session.State.{
  Session, Host, QueuedSignal, SessionSignal, attribute_memory_bytes, Step, write_frame,
}
use pure_reactive_protocol.Core.Session.Table.{find_stream, All-find}
use pure_reactive_protocol.Core.Session.Receive.{
  Verdict, accepted, refused, threw, place_signal, handle_signal, handle_ping, handle_pong,
  handle_close, handle_session_error, handle_unknown_stream, dispatch, handle_frame, read_frame,
  settle_step, to_stream, ask,
}
use pure_reactive_protocol.Core.Session.Sound.{IsSound, IsLive}
use pure_reactive_protocol.Core.Session.Sound.Ending.{detach-IsSound, finish_closed-IsSound}
use pure_reactive_protocol.Core.Session.Sound.Streams.{handle_stream_frame-IsSound}
use pure_reactive_protocol.Core.Session.Sound.Opens.{handle_open-IsSound}

place_signal-IsSound :
    (q : QueuedSignal) (v : Verdict) (s : Session) → IsSound s → IsSound (place_signal q v s).0
unfolding place_signal
place_signal-IsSound q (threw e) s h = detach-IsSound e s h
place_signal-IsSound q accepted s h = ground arith
place_signal-IsSound q refused s h = ground arith

handle_signal-IsSound :
    (host : Host) (f : ProtocolFrame) (s : Session) → IsSound s → IsSound (handle_signal host f s).0
unfolding handle_signal
handle_signal-IsSound host f s h =
    let content : SessionSignal = record { content = f.payload; attributes = f.attributes } in
    let queued : QueuedSignal = record {
      signal = content;
      bytes = length f.payload + attribute_memory_bytes host.codec f.attributes;
    } in
    ground (arith, place_signal-IsSound queued (ask host.signal_acceptors content) s h)

handle_close-IsSound :
    (host : Host) (f : ProtocolFrame) (s : Session) → IsSound s → IsSound (handle_close host f s).0
unfolding handle_close
handle_close-IsSound host f s h = ground (arith, finish_closed-IsSound s h)

handle_ping-IsSound : (f : ProtocolFrame) (s : Session) → IsSound s → IsSound (handle_ping f s).0
unfolding handle_ping write_frame
handle_ping-IsSound f s h = ground arith

handle_pong-IsSound : (f : ProtocolFrame) (s : Session) → IsSound s → IsSound (handle_pong f s).0
unfolding handle_pong
handle_pong-IsSound f s h = ground arith

unknown-IsSound :
    (f : ProtocolFrame) (s : Session) → IsSound s → IsSound (handle_unknown_stream f s).0
unfolding handle_unknown_stream
unknown-IsSound f s h = ground arith

to_stream-IsSound :
    (host : Host) (k : FrameKind) (f : ProtocolFrame) (s : Session)
    → IsSound s
    → validate_frame f ≡ ok tt
    → f.kind ≡ k
    → IsSound (to_stream host k f s).0
unfolding to_stream
to_stream-IsSound host k f s h valid kind =
    elim (Option-cases (find_stream f.stream_id s.streams)) [
      | inl e ↦ rw (e, to_stream) (unknown-IsSound f s h)
      | inr (st, e) ↦
          let (same, live) = All-find (IsLive s.limits) f.stream_id s.streams st e h.live in
          rw (e, to_stream)
            (handle_stream_frame-IsSound s st h
              (subst (λ i. find_stream i s.streams ≡ some st) (sym same) e) host k f valid kind)
    ]

dispatch-IsSound :
    (host : Host) (k : FrameKind) (f : ProtocolFrame) (s : Session)
    → IsSound s
    → validate_frame f ≡ ok tt
    → f.kind ≡ k
    → IsSound (dispatch host k f s).0
unfolding dispatch
dispatch-IsSound host ping f s h valid e = handle_ping-IsSound f s h
dispatch-IsSound host pong f s h valid e = handle_pong-IsSound f s h
dispatch-IsSound host close f s h valid e = handle_close-IsSound host f s h
dispatch-IsSound host open_stream f s h valid e = handle_open-IsSound host f s h
dispatch-IsSound host signal f s h valid e = handle_signal-IsSound host f s h
dispatch-IsSound host k f s h valid e = to_stream-IsSound host k f s h valid e

session_error-IsSound :
    (host : Host) (f : ProtocolFrame) (s : Session)
    → IsSound s
    → IsSound (handle_session_error host f s).0
unfolding handle_session_error
session_error-IsSound host f s h = ground arith

handle_frame-IsSound :
    (host : Host) (f : ProtocolFrame) (s : Session)
    → IsSound s
    → validate_frame f ≡ ok tt
    → IsSound (handle_frame host f s).0
unfolding handle_frame
handle_frame-IsSound host f s h valid =
    ground (arith, session_error-IsSound host f s h, dispatch-IsSound host f.kind f s h valid refl)

settle_step-IsSound : (r : Step) → IsSound r.0 → IsSound (settle_step r)
settle_step-IsSound (s, none) h = h
settle_step-IsSound (s, some e) h = detach-IsSound e s h

-- Whatever valid frame a session reads, in whatever state, and whatever the acceptors answer: its
-- counters stay the sums over its streams and within the limits, and its streams stay alive.
pub read_frame-IsSound :
    (host : Host) (f : ProtocolFrame) (s : Session)
    → IsSound s
    → validate_frame f ≡ ok tt
    → IsSound (read_frame host f s)
unfolding read_frame
read_frame-IsSound host f s h valid =
    elim (Bool-cases (f.sequence /= s.expected_incoming_sequence)) [
      | inl other ↦ rw other (detach-IsSound protocol_violation s h)
      | inr next ↦ rw next (
          settle_step-IsSound _ (
            handle_frame-IsSound host f
              (record s { expected_incoming_sequence = s.expected_incoming_sequence + 1 }) h valid))
    ]
