-- ===== src/Core/Session/Retire.antt =====
-- How streams leave the map: `clearReassembly`, `retire`, `releaseStream`, `cancelStream`, `detach` and
-- `finishClosed` of src/core/session.ts. Timers, lanes and the disposal of extensions are not state
-- that later frames depend on, and are left out. Counters are reduced by `Math.max(0, a - b)`, which
-- is subtraction on ℕ.
use pure_reactive_protocol.Prelude.{
  ℕ, ◌-◌, ◌%◌, Bool, true, false, ◌&&◌, ◌||◌, Option, none, some, List, [], ◌∷◌, ◌++◌, length, ltb,
  leb, ◌==◌, if◌then◌else◌,
}
use pure_reactive_protocol.Failure.{Failure}
use pure_reactive_protocol.Core.Queue.{finish}
use pure_reactive_protocol.Core.Session.State.{
  Session, SessionState, detached, closed, SessionOrigin, initiator, acceptor, StreamState,
  ReassemblyState,
}
use pure_reactive_protocol.Core.Session.Table.{find_stream, remove_stream, put_stream}

abbrev pub reassembly_bytes : Option ReassemblyState → ℕ
reassembly_bytes none = 0
reassembly_bytes (some r) = r.total

-- The budget that a stream's unfinished item holds is given back.
unfoldable pub clear_reassembly : StreamState → Session → Session
clear_reassembly st s = record s {
  in_flight_reassembly_bytes = s.in_flight_reassembly_bytes - reassembly_bytes st.reassembly;
}

-- `retiredStreams.get(id)`.
unfoldable pub find_retired : ℕ → List (ℕ × Bool) → Option Bool
find_retired id [] = none
find_retired id ((j, late) ∷ rest) = if j == id then some late else find_retired id rest

unfoldable pub drop_oldest : List (ℕ × Bool) → List (ℕ × Bool)
drop_oldest [] = []
drop_oldest (oldest ∷ rest) = rest

unfoldable pub retire_list : ℕ → ℕ → Bool → List (ℕ × Bool) → List (ℕ × Bool)
unfolding find_retired drop_oldest
retire_list max_retired id late l = elim (find_retired id l) [
  | some old ↦ l
  | none ↦
      if ltb max_retired (length (l ++ (id, late) ∷ []))
      then drop_oldest (l ++ (id, late) ∷ [])
      else l ++ (id, late) ∷ []
]

unfoldable pub retire : ℕ → Bool → Session → Session
retire id late s = record s {
  retired_streams = retire_list s.limits.max_retired_streams id late s.retired_streams;
}

-- `if (this.streams.delete(id)) { … }`, with the stream's own state as it is then.
unfoldable pub delete_stream : StreamState → Session → Session
delete_stream st s = elim (find_stream st.id s.streams) [
  | none ↦ s
  | some old ↦ record s {
    streams = remove_stream st.id s.streams;
    released = st ∷ s.released;
    local_active_streams =
        if st.initiated_locally then s.local_active_streams - 1 else s.local_active_streams;
    remote_active_streams =
        if st.initiated_locally then s.remote_active_streams else s.remote_active_streams - 1;
    retained_stream_attribute_bytes =
        s.retained_stream_attribute_bytes - st.retained_attribute_bytes;
  }
]

-- `releaseStream`, for a stream of the map whose new state is `st`.
unfoldable pub release_stream : StreamState → Session → Session
release_stream st s =
    if (st.inbound_closed && st.outbound_closed) || st.cancelled
    then retire st.id false (delete_stream st s)
    else record s { streams = put_stream st s.streams }

-- The state of a stream when it is cancelled: nothing is stored, and nobody waits.
unfoldable pub cancelled_state : Failure → StreamState → StreamState
cancelled_state e st = record st {
  reassembly = none;
  cancelled = true;
  inbound_closed = true;
  outbound_closed = true;
  incoming = (finish st.incoming (some e) true).0;
  settled = st.settled ++ (finish st.incoming (some e) true).1;
  aborted = true;
  credit_waiters = 0;
}

unfoldable pub cancel_stream : StreamState → Failure → Bool → Session → Session
cancel_stream st e allow_late_data s =
    if st.cancelled
    then s
    else retire st.id allow_late_data (delete_stream (cancelled_state e st) (clear_reassembly st s))

-- `for (const streamState of [...this.streams.values()]) this.cancelStream(streamState, failure, false)`.
unfoldable pub cancel_all : Failure → List StreamState → Session → Session
cancel_all e [] s = s
cancel_all e (st ∷ rest) s = cancel_all e rest (cancel_stream st e false s)

-- The common end of `detach` and `finishClosed`.
unfoldable pub shut_down : SessionState → Failure → Option Failure → Session → Session
shut_down state failure queue_failure s =
    let cancelled = cancel_all failure s.streams s in
    record cancelled {
      incoming_streams = (finish cancelled.incoming_streams queue_failure true).0;
      incoming_signals = (finish cancelled.incoming_signals queue_failure true).0;
      pending_signal_bytes = 0;
      state = state;
    }

abbrev pub is_over : SessionState → Bool
is_over detached = true
is_over closed = true
is_over _ = false

abbrev pub is_closed : SessionState → Bool
is_closed closed = true
is_closed _ = false

-- The error in the form that streams and queues end with: one that is no
-- `PureReactiveProtocolError` becomes a `ConnectionLostError`.
abbrev pub normalised : Failure → Failure
normalised Failure.range_error = Failure.connection_lost
normalised Failure.type_error = Failure.connection_lost
normalised Failure.plain_error = Failure.connection_lost
normalised e = e

-- `detach(error)`.
unfoldable pub detach : Failure → Session → Session
detach error s =
    if is_over s.state then s else shut_down detached (normalised error) (some (normalised error)) s

-- `finishClosed`; streams end with a `StreamClosedError`, the queues without error.
unfoldable pub finish_closed : Session → Session
finish_closed s = if is_closed s.state then s else shut_down closed Failure.stream_closed none s

abbrev pub local_parity : SessionOrigin → ℕ
local_parity initiator = 1
local_parity acceptor = 0

unfoldable pub is_past_stream_id : ℕ → Session → Bool
is_past_stream_id id s = elim s.origin [
  | none ↦ false
  | some origin ↦
      if leb id 0
      then false
      else if id % 2 == local_parity origin
      then ltb id s.next_stream_id
      else leb id s.highest_remote_stream_id
]

-- The first id of a stream that the peer opens.
abbrev pub first_remote_id : Option SessionOrigin → ℕ
first_remote_id none = 1
first_remote_id (some initiator) = 2
first_remote_id (some acceptor) = 1
