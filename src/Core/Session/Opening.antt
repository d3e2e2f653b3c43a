-- ===== src/Core/Session/Opening.antt =====
-- `openNext` of src/core/session.ts, when its turn in `openTail` comes. The stream is in the map while
-- the frames queued in `writeTail` and then its OPEN frame are written, and is taken out again if that
-- throws. Nothing else happens to the session in the meantime.
use pure_reactive_protocol.Prelude.{
  ◌+◌, ◌-◌, Bool, true, none, some, List, [], ◌∷◌, ltb, leb, codes, if◌then◌else◌,
}
use pure_reactive_protocol.Failure.{Failure, coded, Result, ok, err}
use pure_reactive_protocol.Core.Limits.{max_u64}
use pure_reactive_protocol.Core.Attributes.{ProtocolAttribute}
use pure_reactive_protocol.Core.Frame.{ProtocolFrame, open_stream}
use pure_reactive_protocol.Core.Session.State.{
  Session, StreamState, Host, create_stream_state, plain_frame,
}
use pure_reactive_protocol.Core.Session.Table.{find_stream, put_stream, remove_stream}
use pure_reactive_protocol.Core.Session.Receive.{resource_exhausted}
use pure_reactive_protocol.Core.Session.Local.{assert_ready}
use pure_reactive_protocol.Core.Session.Lane.{Lane, Written, write_frames_now}
use pure_reactive_protocol.Core.Session.Retire.{is_over}

abbrev pub stream_id_exhausted : Failure
stream_id_exhausted = coded (codes "STREAM_ID_EXHAUSTED")

-- The session, and the stream or what was thrown.
abbrev pub Opened : Type 0
Opened = Session × Result StreamState

unfoldable pub enter_local : StreamState → Session → Session
enter_local st s = record s {
  streams = put_stream st s.streams;
  local_active_streams = s.local_active_streams + 1;
  retained_stream_attribute_bytes = s.retained_stream_attribute_bytes + st.retained_attribute_bytes;
}

-- The `catch` of `openNext`: the stream may be gone, if the session was detached.
unfoldable pub take_back : StreamState → Session → Session
take_back st s = elim (find_stream st.id s.streams) [
  | none ↦ s
  | some old ↦ record s {
    streams = remove_stream st.id s.streams;
    local_active_streams = s.local_active_streams - 1;
    retained_stream_attribute_bytes =
        s.retained_stream_attribute_bytes - st.retained_attribute_bytes;
  }
]

abbrev pub open_frame : StreamState → ProtocolFrame
open_frame st = plain_frame open_stream st.id st.attributes []

-- A call of `writeFrame` at its turn. `this.lane` is undefined once the session is over.
unfoldable pub write_turn : Host → Bool → Lane → ProtocolFrame → Session → Written
write_turn host compact lane f s =
    write_frames_now host.codec compact (if is_over s.state then none else lane) (f ∷ []) s

-- The calls of `writeFrame` whose turn comes first; what they throw is not thrown here.
unfoldable pub write_queued : Host → Bool → Lane → List ProtocolFrame → Session → Session
write_queued host compact lane [] s = s
write_queued host compact lane (f ∷ rest) s =
    write_queued host compact lane rest (write_turn host compact lane f s).session

abbrev pub advance : Session → Session
advance s = record s { next_stream_id = s.next_stream_id + 2 }

unfoldable pub finish_open : StreamState → Written → Opened
finish_open st w = elim w.failure [
  | none ↦ (advance w.session, ok st)
  | some e ↦ (take_back st w.session, err e)
]

-- What follows the checks.
unfoldable pub open_stream_state : Host → Bool → Lane → StreamState → Session → Opened
open_stream_state host compact lane st s =
    let entered = enter_local st s in
    finish_open st (
      write_turn host compact lane (open_frame st)
        (write_queued host compact lane entered.outgoing (record entered { outgoing = [] })))

-- A check in front of what follows.
abbrev pub or_refuse : Session → Result (Unit {0}) → Opened → Opened
or_refuse s (err e) opened = (s, err e)
or_refuse s (ok passed) opened = opened

-- `compact` says whether compact frames were negotiated.
unfoldable pub open_next : Host → Bool → Lane → List ProtocolAttribute → Session → Opened
open_next host compact lane attributes s =
    let st = create_stream_state host.codec s.next_stream_id attributes true in
    or_refuse s (assert_ready s) (
      if ltb max_u64 s.next_stream_id
      then (s, err stream_id_exhausted)
      else if leb s.remote_max_inbound_streams s.local_active_streams
      then (s, err resource_exhausted)
      else if ltb s.limits.max_retained_stream_attribute_bytes
          (s.retained_stream_attribute_bytes + st.retained_attribute_bytes)
      then (s, err resource_exhausted)
      else open_stream_state host compact lane st s)
