-- ===== src/Core/Session/Local.antt =====
-- What the application calls on a stream, `ReactiveStreamImpl` of src/core/session.ts, and on its
-- session. A write is a frame in `outgoing`; if the lane fails later, the session is detached and its
-- streams are cancelled, so that the code that takes a failed write back does nothing, except for an
-- item that cannot be cut.
use pure_reactive_protocol.Prelude.{
  ℕ, ◌+◌, ◌-◌, Bool, true, ◌&&◌, ◌||◌, not, List, [], ◌++◌, ltb, leb, codes, if◌then◌else◌,
}
use pure_reactive_protocol.Failure.{
  Failure, coded, range_error, stream_closed, Result, ok, err, ◌>>◌, throw_if,
}
use pure_reactive_protocol.Core.Limits.{max_u32}
use pure_reactive_protocol.Core.Attributes.{ProtocolAttribute}
use pure_reactive_protocol.Core.Frame.{ProtocolFrame, demand, complete, cancel, signal, close}
use pure_reactive_protocol.Core.Session.State.{
  Session, StreamState, Host, Step, done, throw, add_credit, write_frame, plain_frame,
}
use pure_reactive_protocol.Core.Session.Retire.{
  release_stream, cancel_stream, is_over, is_closed, finish_closed,
}
use pure_reactive_protocol.Core.Session.Receive.{update_stream, fail_inbound_stream, is_ready}
use pure_reactive_protocol.Core.Session.Fragment.{item_frames}

-- `closed` of a stream.
abbrev pub is_stream_closed : StreamState → Bool
is_stream_closed st = st.cancelled || (st.inbound_closed && st.outbound_closed)

-- `request(count)`.
unfoldable pub request : StreamState → ℕ → Session → Step
request st count s =
    if leb count 0 || ltb max_u32 count
    then throw range_error s
    else if st.cancelled || is_over s.state
    then throw stream_closed s
    else if st.inbound_closed
    then done s
    else done (
        write_frame (record (plain_frame demand st.id [] []) { credit = count })
          (update_stream (record st { inbound_credit = add_credit st.inbound_credit count }) s))

-- `complete()`.
unfoldable pub complete_stream : StreamState → Session → Step
complete_stream st s =
    if st.outbound_closed || st.cancelled
    then done s
    else done (
        release_stream (record st { outbound_closed = true })
          (write_frame (plain_frame complete st.id [] []) s))

-- `cancel(reason)`, for the error that it makes of the reason.
unfoldable pub cancel_locally : Host → StreamState → Failure → Session → Step
cancel_locally host st e s =
    if is_stream_closed st
    then done s
    else done
        (write_frame (plain_frame cancel st.id [] (host.reason e)) (cancel_stream st e true s))

-- `fail(error)`.
unfoldable pub fail_stream : Host → StreamState → Failure → Session → Step
fail_stream host st e s =
    if is_stream_closed st then done s else done (fail_inbound_stream host st e s)

-- The frames of an item join the queue of writes.
unfoldable pub write_frames : List ProtocolFrame → Session → Session
write_frames frames s = record s { outgoing = s.outgoing ++ frames }

-- The end of `send`, with the credit taken: the frames, or the error that refused the item, for
-- which the credit is given back.
unfoldable pub send_frames : StreamState → Result (List ProtocolFrame) → Session → Step
send_frames st (ok frames) s = done (write_frames frames (update_stream st s))
send_frames st (err e) s =
    if is_ready s.state && (not st.cancelled && not st.outbound_closed)
    then throw e (update_stream (record st { outbound_credit = add_credit st.outbound_credit 1 }) s)
    else throw e (update_stream st s)

unfoldable pub ensure_outbound_open : StreamState → Session → Result (Unit {0})
ensure_outbound_open st s = do
  throw_if (st.cancelled || is_over s.state) stream_closed
  throw_if st.outbound_closed stream_closed

-- `waitForOutboundCredit` without credit: the call waits for a DEMAND frame.
unfoldable pub wait_for_outbound_credit : StreamState → Session → Session
wait_for_outbound_credit st s =
    update_stream (record st { credit_waiters = st.credit_waiters + 1 }) s

-- `send(data, attributes)` when its turn in `writeTail` comes; a call that waits runs again when credit
-- arrives. `compact` and `supported` say whether compact frames and fragmentation were negotiated.
unfoldable pub send :
    Host → Bool → Bool → StreamState → List ℕ → List ProtocolAttribute → Session → Step
send host compact supported st content attributes s = elim (ensure_outbound_open st s) [
  | err e ↦ throw e s
  | ok open' ↦
      if leb st.outbound_credit 0
      then done (wait_for_outbound_credit st s)
      else send_frames (record st { outbound_credit = st.outbound_credit - 1 })
          (item_frames host.codec s.outbound_limits s.remote_max_inbound_item_bytes compact
            supported s.streams st.id content attributes)
          s
]

-- `assertReady`.
abbrev pub assert_ready : Session → Result (Unit {0})
assert_ready s = throw_if (not (is_ready s.state)) (coded (codes "SESSION_NOT_READY"))

-- `signal(attributes, payload)` of a session.
unfoldable pub signal_session : List ProtocolAttribute → List ℕ → Session → Step
signal_session attributes payload s = elim (assert_ready s) [
  | err e ↦ throw e s
  | ok ready' ↦ done (write_frame (plain_frame signal 0 attributes payload) s)
]

-- `close(reason)`: a CLOSE frame if the session is connected, and its end.
unfoldable pub close_session : List ℕ → Session → Session
close_session reason s =
    if is_closed s.state
    then s
    else finish_closed
        (if is_ready s.state then write_frame (plain_frame close 0 [] reason) s else s)
