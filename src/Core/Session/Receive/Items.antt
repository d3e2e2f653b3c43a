-- ===== src/Core/Session/Receive/Items.antt =====
-- The frames of an item: `handleData`, `handleFragment` and `failInboundStream` of
-- src/core/session.ts.
use pure_reactive_protocol.Prelude.{
  not, ℕ, ◌+◌, ◌-◌, Bool, true, false, ◌||◌, none, some, List, ◌++◌, length, ltb, leb, codes, ◌==◌,
  ◌/=◌, if◌then◌else◌,
}
use pure_reactive_protocol.Failure.{Failure, protocol_violation, coded, ok, err}
use pure_reactive_protocol.Core.Frame.{ProtocolFrame, data_fragmented_flag}
use pure_reactive_protocol.Core.Queue.{push}
use pure_reactive_protocol.Core.Session.State.{
  Session, StreamState, StreamMessage, ReassemblyState, Host, Step, done, throw, write_frame,
}
use pure_reactive_protocol.Core.Session.Table.{put_stream}
use pure_reactive_protocol.Core.Session.Retire.{clear_reassembly, cancel_stream}
use pure_reactive_protocol.Core.Session.Diagnostics.{error_frame, code_of}

abbrev pub resource_exhausted : Failure
resource_exhausted = coded (codes "RESOURCE_EXHAUSTED")

-- A stream of the map is written back.
abbrev pub update_stream : StreamState → Session → Session
update_stream st s = record s { streams = put_stream st s.streams }

-- `streamState.incoming.push(message)`.
unfoldable pub deliver : StreamMessage → StreamState → Session → Step
deliver message st s = elim (push st.incoming message) [
  | err e ↦ throw e (update_stream st s)
  | ok (q, settled) ↦
      done (update_stream (record st { incoming = q; settled = st.settled ++ settled }) s)
]

-- `failInboundStream`.
unfoldable pub fail_inbound_stream : Host → StreamState → Failure → Session → Session
fail_inbound_stream host st e s =
    write_frame (error_frame host st.id e (code_of e (codes "APPLICATION_ERROR")))
      (cancel_stream st e true s)

-- The part of `handleData` for a fragmented item, the credit being taken.
unfoldable pub start_reassembly : Host → StreamState → ProtocolFrame → Session → Step
start_reassembly host st f s =
    if ltb s.limits.max_inbound_item_bytes f.fragment_length
    then throw protocol_violation (update_stream st s)
    else if ltb s.limits.max_in_flight_reassembly_bytes
        (s.in_flight_reassembly_bytes + f.fragment_length)
    then done (fail_inbound_stream host st resource_exhausted s)
    else if not (host.reserves f.fragment_length)
    then done (fail_inbound_stream host st resource_exhausted s)
    else done (
        update_stream
          (record st {
            reassembly = some (record {
              total = f.fragment_length;
              received = f.payload;
              attributes = f.attributes;
            });
          })
          (record s {
            in_flight_reassembly_bytes = s.in_flight_reassembly_bytes + f.fragment_length;
          }))

abbrev pub is_reassembling : StreamState → Bool
is_reassembling st = elim st.reassembly [ none ↦ false | some r ↦ true ]

-- The part of `handleData` behind its first three checks.
unfoldable pub accept_data : Host → StreamState → ProtocolFrame → Session → Step
accept_data host st f s =
    if f.flags == data_fragmented_flag
    then start_reassembly host st f s
    else if ltb s.limits.max_inbound_item_bytes (length f.payload)
    then throw protocol_violation (update_stream st s)
    else deliver (record { content = f.payload; attributes = f.attributes }) st s

unfoldable pub handle_data : Host → StreamState → ProtocolFrame → Session → Step
handle_data host st f s =
    if st.inbound_closed || st.cancelled
    then throw protocol_violation s
    else if is_reassembling st
    then throw protocol_violation s
    else if leb st.inbound_credit 0
    then throw protocol_violation s
    else accept_data host (record st { inbound_credit = st.inbound_credit - 1 }) f s

-- The part of `handleFragment` behind its checks: the bytes join the item, which is delivered when it
-- is complete.
unfoldable pub add_fragment : ReassemblyState → StreamState → List ℕ → Session → Step
add_fragment r st payload s =
    if ltb r.total (length r.received + length payload)
    then throw protocol_violation s
    else if length r.received + length payload /= r.total
    then done (
        update_stream
          (record st { reassembly = some (record r { received = r.received ++ payload }) }) s)
    else deliver (record { content = r.received ++ payload; attributes = r.attributes })
        (record st { reassembly = none }) (clear_reassembly st s)

unfoldable pub handle_fragment : StreamState → ProtocolFrame → Session → Step
handle_fragment st f s =
    if st.inbound_closed || st.cancelled then throw protocol_violation s else elim st.reassembly [
      | none ↦ throw protocol_violation s
      | some r ↦ add_fragment r st f.payload s
    ]
