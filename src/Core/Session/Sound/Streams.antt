-- ===== src/Core/Session/Sound/Streams.antt =====
-- The frames of a stream keep the books balanced, whether their handler returns or throws.
use pure_reactive_protocol.Prelude.{
  ℕ, ◌+◌, ◌-◌, ◌≤◌, ◌<◌, ◌≡◌, refl, ◌∙◌, true, false, none, some, List, ◌++◌, length, length-append,
  arith, Option-cases, inl, inr,
}
use pure_reactive_protocol.Failure.{Failure, Result, ok, err, Result-cases}
use pure_reactive_protocol.Core.Frame.{
  FrameKind, data_item, fragment, demand, complete, cancel, error, ProtocolFrame,
}
use pure_reactive_protocol.Core.Codec.Validate.{validate_frame, bad_shape}
use pure_reactive_protocol.Core.Queue.{push, finish}
use pure_reactive_protocol.Core.Queue.Order.{push-ended}
use pure_reactive_protocol.Core.Session.State.{
  Session, StreamState, StreamMessage, ReassemblyState, Host, add_credit, write_frame,
}
use pure_reactive_protocol.Core.Session.Table.{find_stream, All-find}
use pure_reactive_protocol.Core.Session.Retire.{clear_reassembly}
use pure_reactive_protocol.Core.Session.Receive.{
  deliver, fail_inbound_stream, start_reassembly, accept_data, handle_data, add_fragment,
  handle_fragment, handle_demand, handle_complete, handle_end, handle_stream_frame,
  resource_exhausted,
}
use pure_reactive_protocol.Core.Session.Sound.{IsSound, IsLive, held_bytes}
use pure_reactive_protocol.Core.Session.Sound.Table.{IsSame, put-IsSound}
use pure_reactive_protocol.Core.Session.Sound.Ending.{
  held-le, update-IsSound, cancel-IsSound, release-IsSound,
}

-- The first fragment of a valid frame is shorter than the item that it begins.
fragment_short :
    (f : ProtocolFrame)
    → validate_frame f ≡ ok tt
    → f.kind ≡ data_item
    → f.flags ≡ 1
    → length f.payload < f.fragment_length
unfolding validate_frame bad_shape
fragment_short f valid kind flagged = ground arith

module _ (s : Session) (old : StreamState) (h : IsSound s)
    (found : find_stream old.id s.streams ≡ some old) where
  old-IsLive : IsLive s.limits old
  old-IsLive = (All-find (IsLive s.limits) old.id s.streams old found h.live).1

  -- A message is stored or handed over; the bytes held for reassembly may have been given back.
  deliver-IsSound :
      (m : StreamMessage) (st : StreamState) (n : ℕ)
      → st.id ≡ old.id
      → IsSame st old
      → IsLive s.limits st
      → n + held_bytes old ≡ s.in_flight_reassembly_bytes + held_bytes st
      → n ≤ s.limits.max_in_flight_reassembly_bytes
      → IsSound (deliver m st (record s { in_flight_reassembly_bytes = n })).0
  unfolding deliver
  deliver-IsSound m st n same_id same live bytes fits = elim (Result-cases (push st.incoming m)) [
    | inl (e, refused) ↦
        rw (refused, deliver) (put-IsSound s st old n h (rw same_id found) same live bytes fits)
    | inr ((q, settled), pushed) ↦
        rw (pushed, deliver)
          (put-IsSound s (record st { incoming = q; settled = st.settled ++ settled }) old n h
            (rw same_id found)
            (record { same_origin = same.same_origin; same_retained = same.same_retained })
            (record {
              not_cancelled = live.not_cancelled;
              half_open = live.half_open;
              queue_end = push-ended st.incoming q m settled pushed ∙ live.queue_end;
              partial = live.partial;
              credit_fits = live.credit_fits;
            })
            bytes fits)
  ]

  start_reassembly-IsSound :
      (host : Host) (st : StreamState) (f : ProtocolFrame)
      → st.id ≡ old.id
      → IsSame st old
      → IsLive s.limits st
      → st.inbound_closed ≡ false
      → st.reassembly ≡ none
      → old.reassembly ≡ none
      → length f.payload < f.fragment_length
      → IsSound (start_reassembly host st f s).0
  unfolding start_reassembly fail_inbound_stream write_frame
  start_reassembly-IsSound host st f same_id same live open' whole old_whole short =
      let found' : find_stream st.id s.streams ≡ some old = rw same_id found in
      ground (
        arith,
        update-IsSound s st old h found' same live (ground arith),
        cancel-IsSound s st old resource_exhausted true h found' same (ground arith),
        put-IsSound s
            (record st {
              reassembly = some (record {
                total = f.fragment_length;
                received = f.payload;
                attributes = f.attributes;
              });
            })
            old (s.in_flight_reassembly_bytes + f.fragment_length) h found'
            (record { same_origin = same.same_origin; same_retained = same.same_retained }),
      )

  add_fragment-IsSound :
      (r : ReassemblyState) (payload : List ℕ)
      → old.reassembly ≡ some r
      → IsSound (add_fragment r old payload s).0
  unfolding add_fragment clear_reassembly
  add_fragment-IsSound r payload e =
      let whole : StreamState = record old { reassembly = none } in
      let longer : StreamState = record old {
        reassembly = some (record r { received = r.received ++ payload });
      } in
      let same_longer : IsSame longer old = record { same_origin = refl; same_retained = refl } in
      let live = old-IsLive in
      let below = held-le s old.id old h found in
      ground (
        arith,
        e,
        length-append r.received payload,
        update-IsSound s longer old h found same_longer,
        deliver-IsSound (record { content = r.received ++ payload; attributes = r.attributes })
            whole (s.in_flight_reassembly_bytes - r.total) refl
            (record { same_origin = refl; same_retained = refl }),
      )

  handle_fragment-IsSound : (f : ProtocolFrame) → IsSound (handle_fragment old f s).0
  unfolding handle_fragment
  handle_fragment-IsSound f = elim (Option-cases old.reassembly) [
    | inl e ↦ ground arith
    | inr (r, e) ↦ ground (arith, add_fragment-IsSound r f.payload e)
  ]

  handle_demand-IsSound : (f : ProtocolFrame) → IsSound (handle_demand old f s).0
  unfolding handle_demand add_credit
  handle_demand-IsSound f = ground (
    arith,
    update-IsSound s
        (record old {
          outbound_credit = add_credit old.outbound_credit f.credit;
          credit_waiters = 0;
        })
        old h found (record { same_origin = refl; same_retained = refl })
        (ground (arith, old-IsLive)) refl,
  )

  handle_complete-IsSound : IsSound (handle_complete old s).0
  unfolding handle_complete finish
  handle_complete-IsSound =
      let live = old-IsLive in
      ground (
        arith,
        release-IsSound s
            (record old {
              inbound_closed = true;
              incoming = (finish old.incoming none false).0;
              settled = old.settled ++ (finish old.incoming none false).1;
            })
            old h found (record { same_origin = refl; same_retained = refl }),
      )

  accept_data-IsSound :
      (host : Host) (st : StreamState) (f : ProtocolFrame)
      → validate_frame f ≡ ok tt
      → f.kind ≡ data_item
      → st.id ≡ old.id
      → IsSame st old
      → IsLive s.limits st
      → st.inbound_closed ≡ false
      → st.reassembly ≡ none
      → old.reassembly ≡ none
      → IsSound (accept_data host st f s).0
  unfolding accept_data
  accept_data-IsSound host st f valid kind same_id same live open' whole old_whole =
      let found' : find_stream st.id s.streams ≡ some old = rw same_id found in
      let held : held_bytes st ≡ held_bytes old = ground arith in
      ground (
        arith,
        start_reassembly-IsSound host st f same_id same live open' whole old_whole,
        fragment_short f valid kind,
        update-IsSound s st old h found' same live held,
        deliver-IsSound (record { content = f.payload; attributes = f.attributes }) st
            s.in_flight_reassembly_bytes same_id same live,
        h.reassembly_bound,
      )

  handle_data-IsSound :
      (host : Host) (f : ProtocolFrame)
      → validate_frame f ≡ ok tt
      → f.kind ≡ data_item
      → IsSound (handle_data host old f s).0
  unfolding handle_data
  handle_data-IsSound host f valid kind =
      let live = old-IsLive in
      let st : StreamState = record old { inbound_credit = old.inbound_credit - 1 } in
      ground (
        arith,
        accept_data-IsSound host st f valid kind refl
            (record { same_origin = refl; same_retained = refl }),
      )

  handle_end-IsSound : (r : Result Failure) → IsSound (handle_end old r s).0
  unfolding handle_end
  handle_end-IsSound (ok e) =
      cancel-IsSound s old old e false h found (record { same_origin = refl; same_retained = refl })
        refl
  handle_end-IsSound (err e) = h

  -- Every frame of a stream of the map.
  pub handle_stream_frame-IsSound :
      (host : Host) (k : FrameKind) (f : ProtocolFrame)
      → validate_frame f ≡ ok tt
      → f.kind ≡ k
      → IsSound (handle_stream_frame host old k f s).0
  unfolding handle_stream_frame
  handle_stream_frame-IsSound host data_item f valid e = handle_data-IsSound host f valid e
  handle_stream_frame-IsSound host fragment f valid e = handle_fragment-IsSound f
  handle_stream_frame-IsSound host demand f valid e = handle_demand-IsSound f
  handle_stream_frame-IsSound host complete f valid e = handle_complete-IsSound
  handle_stream_frame-IsSound host cancel f valid e = handle_end-IsSound _
  handle_stream_frame-IsSound host error f valid e = handle_end-IsSound _
  handle_stream_frame-IsSound host _ f valid e = h
