-- ===== src/Core/Session/Sound/Calls.antt =====
-- What the application calls on a stream keeps the invariant of its session.
use pure_reactive_protocol.Prelude.{
  ℕ, ◌+◌, ◌-◌, ◌≤◌, ◌≡◌, refl, Bool, true, false, ◌||◌, Option, none, some, List, [], min, arith,
  inl, inr, Bool-cases,
}
use pure_reactive_protocol.Failure.{Failure, Result, ok, err}
use pure_reactive_protocol.Core.Limits.{ProtocolLimits, max_u32}
use pure_reactive_protocol.Core.Attributes.{ProtocolAttribute}
use pure_reactive_protocol.Core.Frame.{ProtocolFrame, complete}
use pure_reactive_protocol.Core.Session.State.{
  Session, StreamState, Host, Step, ReassemblyState, plain_frame, add_credit, write_frame,
}
use pure_reactive_protocol.Core.Session.Table.{find_stream, All-find}
use pure_reactive_protocol.Core.Session.Retire.{release_stream}
use pure_reactive_protocol.Core.Session.Receive.{update_stream, fail_inbound_stream}
use pure_reactive_protocol.Core.Session.Local.{
  ensure_outbound_open, wait_for_outbound_credit, request, complete_stream, cancel_locally,
  fail_stream, write_frames, send_frames, send,
}
use pure_reactive_protocol.Core.Session.Fragment.{item_frames}
use pure_reactive_protocol.Core.Session.Sound.{IsSound, IsLive, IsPartial}
use pure_reactive_protocol.Core.Session.Sound.Ending.{
  update-IsSound, cancel-IsSound, release-IsSound,
}

pub data LocalCall : Type 0 where
  requests : ℕ → LocalCall
  sends : Bool → Bool → List ℕ → List ProtocolAttribute → LocalCall
  completes : LocalCall
  cancels : Failure → LocalCall
  fails : Failure → LocalCall

pub handle_call : Host → StreamState → LocalCall → Session → Step
handle_call host st (requests count) s = request st count s
handle_call host st (sends compact supported content attributes) s =
    send host compact supported st content attributes s
handle_call host st completes s = complete_stream st s
handle_call host st (cancels e) s = cancel_locally host st e s
handle_call host st (fails e) s = fail_stream host st e s

closed_whole :
    (limits : ProtocolLimits) (inbound_closed : Bool) (reassembly : Option ReassemblyState)
    → IsPartial limits inbound_closed reassembly
    → inbound_closed ≡ true
    → reassembly ≡ none
closed_whole limits inbound_closed none h ended = refl
closed_whole limits inbound_closed (some r) h ended = ground (arith, h.2)

module _ (s : Session) (st : StreamState) (h : IsSound s)
    (found : find_stream st.id s.streams ≡ some st) where
  st-IsLive : IsLive s.limits st
  st-IsLive = (All-find (IsLive s.limits) st.id s.streams st found h.live).1

  request-IsSound : (count : ℕ) → IsSound (request st count s).0
  unfolding request write_frame
  request-IsSound count =
      let live = st-IsLive in
      ground (
        arith,
        update-IsSound s (record st { inbound_credit = add_credit st.inbound_credit count }) st h
            found (record { same_origin = refl; same_retained = refl })
            (record {
              not_cancelled = live.not_cancelled;
              half_open = live.half_open;
              queue_end = live.queue_end;
              partial = live.partial;
              credit_fits = live.credit_fits;
            })
            refl,
      )

  -- A change of the credit to send, and of who waits for it.
  outbound-IsSound :
      (credit waiting : ℕ)
      → credit ≤ max_u32
      → IsSound (update_stream (record st { outbound_credit = credit; credit_waiters = waiting }) s)
  outbound-IsSound credit waiting fits =
      let live = st-IsLive in
      update-IsSound s (record st { outbound_credit = credit; credit_waiters = waiting }) st h found
        (record { same_origin = refl; same_retained = refl })
        (record {
          not_cancelled = live.not_cancelled;
          half_open = live.half_open;
          queue_end = live.queue_end;
          partial = live.partial;
          credit_fits = fits;
        })
        refl

  send_frames-IsSound :
      (credit : ℕ) (frames : Result (List ProtocolFrame))
      → credit ≤ max_u32
      → IsSound (send_frames (record st { outbound_credit = credit }) frames s).0
  unfolding send_frames write_frames add_credit
  send_frames-IsSound credit (ok frames) fits = outbound-IsSound credit st.credit_waiters fits
  send_frames-IsSound credit (err e) fits = ground (
    arith,
    outbound-IsSound credit st.credit_waiters fits,
    outbound-IsSound (min max_u32 (credit + 1)) st.credit_waiters (omega arith),
  )

  send-IsSound :
      (host : Host) (compact supported : Bool) (content : List ℕ)
      (attributes : List ProtocolAttribute)
      → IsSound (send host compact supported st content attributes s).0
  unfolding send ensure_outbound_open wait_for_outbound_credit
  send-IsSound host compact supported content attributes =
      let live = st-IsLive in
      ground (
        arith,
        outbound-IsSound st.outbound_credit (st.credit_waiters + 1) live.credit_fits,
        send_frames-IsSound (st.outbound_credit - 1)
            (item_frames host.codec s.outbound_limits s.remote_max_inbound_item_bytes compact
              supported s.streams st.id content attributes)
            (omega (arith, live.credit_fits)),
      )

  half_closed :
      st.inbound_closed ≡ false
      → IsSound (
          release_stream
            (record st { outbound_closed = true })
            (write_frame (plain_frame complete st.id [] []) s))
  unfolding release_stream write_frame
  half_closed going_on =
      let live = st-IsLive in
      ground (
        arith,
        update-IsSound s (record st { outbound_closed = true }) st h found
            (record { same_origin = refl; same_retained = refl })
            (record {
              not_cancelled = live.not_cancelled;
              half_open = ground (arith, going_on);
              queue_end = live.queue_end;
              partial = live.partial;
              credit_fits = live.credit_fits;
            })
            refl,
        live.not_cancelled,
      )

  complete-IsSound : IsSound (complete_stream st s).0
  unfolding complete_stream write_frame
  complete-IsSound = elim (Bool-cases (st.outbound_closed || st.cancelled)) [
    | inl over ↦ rw over h
    | inr going ↦ rw going (elim (Bool-cases st.inbound_closed) [
      | inl ended ↦
          let whole : st.reassembly ≡ none =
            closed_whole s.limits st.inbound_closed st.reassembly st-IsLive.partial ended in
          release-IsSound (write_frame (plain_frame complete st.id [] []) s)
            (record st { outbound_closed = true }) st h found
            (record { same_origin = refl; same_retained = refl }) whole whole
            (λ open'. ground (arith, ended))
      | inr going_on ↦ half_closed going_on
    ])
  ]

  cancel_locally-IsSound : (host : Host) (e : Failure) → IsSound (cancel_locally host st e s).0
  unfolding cancel_locally write_frame
  cancel_locally-IsSound host e = ground (
    arith,
    cancel-IsSound s st st e true h found (record { same_origin = refl; same_retained = refl })
        refl,
  )

  fail_stream-IsSound : (host : Host) (e : Failure) → IsSound (fail_stream host st e s).0
  unfolding fail_stream fail_inbound_stream write_frame
  fail_stream-IsSound host e = ground (
    arith,
    cancel-IsSound s st st e true h found (record { same_origin = refl; same_retained = refl })
        refl,
  )

-- Whatever the application calls on a stream of the map, be it carried out, refused or made to wait:
-- the session's counters stay the sums over its streams and within the limits, and its streams alive.
pub handle_call-IsSound :
    (host : Host) (s : Session) (st : StreamState) (c : LocalCall)
    → IsSound s
    → find_stream st.id s.streams ≡ some st
    → IsSound (handle_call host st c s).0
unfolding handle_call
handle_call-IsSound host s st (requests count) h found = request-IsSound s st h found count
handle_call-IsSound host s st (sends compact supported content attributes) h found =
    send-IsSound s st h found host compact supported content attributes
handle_call-IsSound host s st completes h found = complete-IsSound s st h found
handle_call-IsSound host s st (cancels e) h found = cancel_locally-IsSound s st h found host e
handle_call-IsSound host s st (fails e) h found = fail_stream-IsSound s st h found host e
