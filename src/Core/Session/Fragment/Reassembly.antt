-- ===== src/Core/Session/Fragment/Reassembly.antt =====
-- The frames of a fragmented item, handled one after the other, put it together.
use pure_reactive_protocol.Prelude.{
  ℕ, zero, suc, ◌+◌, ◌-◌, ◌≤◌, ◌<◌, ◌≡◌, refl, sym, ◌∙◌, ap, true, false, none, some, List, [], ◌∷◌,
  ◌++◌, length, length-append, append_assoc, append-nil, arith, inl, inr,
}
use pure_reactive_protocol.Failure.{Result-cases}
use pure_reactive_protocol.Core.Frame.{ProtocolFrame, data_item, fragment}
use pure_reactive_protocol.Core.Queue.{push}
use pure_reactive_protocol.Core.Session.State.{
  Session, StreamState, ReassemblyState, StreamMessage, Host, Step, done,
}
use pure_reactive_protocol.Core.Session.Table.{find_stream, put_stream, find-put, put-put}
use pure_reactive_protocol.Core.Session.Retire.{clear_reassembly}
use pure_reactive_protocol.Core.Session.Receive.{
  deliver, handle_frame, dispatch, to_stream, handle_stream_frame, handle_data, accept_data,
  start_reassembly, handle_fragment, add_fragment, is_ready,
}
use pure_reactive_protocol.Core.Session.Fragment.{fragments_from, fragment_at}
use pure_reactive_protocol.Core.Session.Fragment.Pieces.{payloads, AllPos}

-- The session after each frame in turn, up to the first whose handler throws.
unfoldable pub handle_frames : Host → List ProtocolFrame → Session → Step
handle_frames host [] s = done s
handle_frames host (f ∷ rest) s =
    let (s', thrown) = handle_frame host f s in
    elim thrown [ none ↦ handle_frames host rest s' | some e ↦ (s', some e) ]

pub handle_frames-cons :
    (host : Host) (f : ProtocolFrame) (rest : List ProtocolFrame) (s s' : Session)
    → handle_frame host f s ≡ done s'
    → handle_frames host (f ∷ rest) s ≡ handle_frames host rest s'
unfolding handle_frames
handle_frames-cons host f rest s s' e =
    rw (e, handle_frames) (ap (λ (x : Step). handle_frames host rest x.0) e)

pub handle_frames-one :
    (host : Host) (f : ProtocolFrame) (s : Session)
    → handle_frames host (f ∷ []) s ≡ handle_frame host f s
unfolding handle_frames
handle_frames-one host f s = ground arith

-- Fragments of one stream: nothing but the id and a payload that is not empty.
abbrev pub AllFragments : ℕ → List ProtocolFrame → Type 0
AllFragments id [] = Unit
AllFragments id (f ∷ rest) =
    (f.kind ≡ fragment) × (f.stream_id ≡ id) × (1 ≤ length f.payload) × AllFragments id rest

module _ (host : Host) (s : Session) (st : StreamState) (live : is_ready s.state ≡ true)
    (open' : st.inbound_closed ≡ false) (alive : st.cancelled ≡ false) where
  abbrev pub with_partial : ReassemblyState → StreamState
  with_partial r = record st { reassembly = some r }

  -- The session while the item is under way.
  abbrev pub under_way : ReassemblyState → Session
  under_way r = record s {
    streams = put_stream (with_partial r) s.streams;
    in_flight_reassembly_bytes = s.in_flight_reassembly_bytes + r.total;
  }

  to_partial :
      (r : ReassemblyState) (f : ProtocolFrame)
      → f.kind ≡ fragment
      → f.stream_id ≡ st.id
      → handle_frame host f (under_way r) ≡ add_fragment r (with_partial r) f.payload (under_way r)
  unfolding handle_frame dispatch to_stream handle_stream_frame handle_fragment
  to_partial r f kind id = ground (arith, find-put (with_partial r) s.streams)

  deliver_complete :
      (r : ReassemblyState) (m : StreamMessage)
      → deliver m
          (record st { reassembly = none })
          (clear_reassembly (with_partial r) (under_way r))
        ≡ deliver m (record st { reassembly = none }) s
  unfolding deliver clear_reassembly
  deliver_complete r m =
      let restored : s.in_flight_reassembly_bytes + r.total - r.total
          ≡ s.in_flight_reassembly_bytes =
        omega arith in
      elim (Result-cases (push st.incoming m)) [
        | inl (e, refused) ↦
            let last : StreamState = record st { reassembly = none } in
            rw (refused, deliver, put-put last (with_partial r) s.streams refl, restored) refl
        | inr ((q, settled), pushed) ↦
            let last : StreamState = record st {
              incoming = q;
              settled = st.settled ++ settled;
              reassembly = none;
            } in
            rw (pushed, deliver, put-put last (with_partial r) s.streams refl, restored) refl
      ]

  more_lem :
      (r : ReassemblyState) (payload : List ℕ)
      → length r.received + length payload < r.total
      → add_fragment r (with_partial r) payload (under_way r)
        ≡ done (under_way (record r { received = r.received ++ payload }))
  unfolding add_fragment
  more_lem r payload short = ground (
    arith,
    put-put (with_partial (record r { received = r.received ++ payload })) (with_partial r)
        s.streams,
  )

  last_lem :
      (r : ReassemblyState) (payload : List ℕ)
      → length r.received + length payload ≡ r.total
      → add_fragment r (with_partial r) payload (under_way r)
        ≡ deliver
            (record { content = r.received ++ payload; attributes = r.attributes })
            (record st { reassembly = none })
            s
  unfolding add_fragment
  last_lem r payload full = ground (
    arith,
    deliver_complete r (record { content = r.received ++ payload; attributes = r.attributes }),
  )

  -- The fragments that complete an item deliver it.
  pub fragments_arrive :
      (frames : List ProtocolFrame) (r : ReassemblyState)
      → AllFragments st.id frames
      → length r.received < r.total
      → length r.received + length (payloads frames) ≡ r.total
      → handle_frames host frames (under_way r)
        ≡ deliver
            (record { content = r.received ++ payloads frames; attributes = r.attributes })
            (record st { reassembly = none })
            s
  fragments_arrive [] r frags short full = absurd (omega arith)
  fragments_arrive (f ∷ []) r frags short full =
      handle_frames-one host f (under_way r)
      ∙ to_partial r f frags.0 frags.1
      ∙ last_lem r f.payload (omega (arith, ap length (append-nil f.payload)))
      ∙ ap
          (λ p.
            deliver (record { content = r.received ++ p; attributes = r.attributes })
              (record st { reassembly = none }) s)
          (sym (append-nil f.payload))
  fragments_arrive (f ∷ g ∷ rest) r frags short full =
      let cut = length-append f.payload (payloads (g ∷ rest)) in
      let cut' = length-append g.payload (payloads rest) in
      let joined = length-append r.received f.payload in
      let r' : ReassemblyState = record r { received = r.received ++ f.payload } in
      handle_frames-cons host f (g ∷ rest) (under_way r) (under_way r')
        (to_partial r f frags.0 frags.1 ∙ more_lem r f.payload (omega arith))
      ∙ fragments_arrive (g ∷ rest) r' frags.3 (omega arith) (omega arith)
      ∙ ap
          (λ p.
            deliver (record { content = p; attributes = r.attributes })
              (record st { reassembly = none }) s)
          (append_assoc r.received f.payload (payloads (g ∷ rest)))

  -- The first frame of an item opens its reassembly.
  pub first_arrives :
      (f : ProtocolFrame)
      → f.kind ≡ data_item
      → f.stream_id ≡ st.id
      → f.flags ≡ 1
      → find_stream st.id s.streams ≡ some (record st { inbound_credit = st.inbound_credit + 1 })
      → st.reassembly ≡ none
      → f.fragment_length ≤ s.limits.max_inbound_item_bytes
      → s.in_flight_reassembly_bytes + f.fragment_length ≤ s.limits.max_in_flight_reassembly_bytes
      → host.reserves f.fragment_length ≡ true
      → handle_frame host f s
        ≡ done (
            under_way (record {
              total = f.fragment_length;
              received = f.payload;
              attributes = f.attributes;
            }))
  unfolding handle_frame dispatch to_stream handle_stream_frame handle_data accept_data
      start_reassembly
  first_arrives f kind id flagged found whole fits budget memory = ground arith

pub fragments_from-AllFragments :
    (id : ℕ) (content : List ℕ) (first_bytes capacity index count : ℕ)
    → AllPos (fragments_from id content first_bytes capacity index count)
    → AllFragments id (fragments_from id content first_bytes capacity index count)
unfolding fragments_from fragment_at
fragments_from-AllFragments id content first_bytes capacity index zero pos = tt
fragments_from-AllFragments id content first_bytes capacity index (suc count) pos = (
  refl,
  refl,
  pos.0,
  fragments_from-AllFragments id content first_bytes capacity (index + 1) count pos.1,
)
