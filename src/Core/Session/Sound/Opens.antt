-- ===== src/Core/Session/Sound/Opens.antt =====
-- An OPEN frame of the peer keeps a session's books balanced.
use pure_reactive_protocol.Prelude.{
  ℕ, ◌≤◌, ◌<◌, ◌%◌, ◌≡◌, refl, Bool, true, false, Option, none, List, [], ◌∷◌, All, ◌/=◌, arith,
  Bool-cases, inl, inr,
}
use pure_reactive_protocol.Failure.{Failure}
use pure_reactive_protocol.Core.Frame.{ProtocolFrame}
use pure_reactive_protocol.Core.Attributes.{TextCodec, ProtocolAttribute}
use pure_reactive_protocol.Core.Session.State.{
  Session, SessionOrigin, StreamState, Host, write_frame, create_stream_state,
}
use pure_reactive_protocol.Core.Session.Table.{find_stream}
use pure_reactive_protocol.Core.Session.Retire.{first_remote_id}
use pure_reactive_protocol.Core.Session.Receive.{
  Verdict, accepted, refused, threw, admit, announce, reject_remote_open, place_stream,
  expected_remote_id, open_remote, handle_open, resource_exhausted, ask,
}
use pure_reactive_protocol.Core.Session.Sound.{IsSound, IsLive, IsAllocated}
use pure_reactive_protocol.Core.Session.Sound.Table.{admit-IsSound, retire-IsSound, find_fresh}
use pure_reactive_protocol.Core.Session.Sound.Ending.{cancel_absent-IsSound}

reject-IsSound :
    (host : Host) (id : ℕ) (e : Failure) (s : Session)
    → IsSound s
    → IsSound (reject_remote_open host id e s)
unfolding reject_remote_open write_frame
reject-IsSound host id e s h = retire-IsSound s id false h

announce-IsSound : (id : ℕ) (s : Session) → IsSound s → IsSound (announce id s).0
unfolding announce
announce-IsSound id s h = ground arith

IsAllocated-mono :
    (first highest highest' next : ℕ) (l : List StreamState)
    → highest ≤ highest'
    → All (IsAllocated first highest next) l
    → All (IsAllocated first highest' next) l
IsAllocated-mono first highest highest' next [] le a = tt
IsAllocated-mono first highest highest' next (st ∷ l) le a =
    (ground arith, IsAllocated-mono first highest highest' next l le a.1)

first_remote_id_pos : (o : Option SessionOrigin) → 1 ≤ first_remote_id o
first_remote_id_pos o = ground arith

-- The peer's next id is new, and of the peer's parity.
expected_remote_id_new :
    (s : Session)
    → IsSound s
    → (s.highest_remote_stream_id < expected_remote_id s)
      × (expected_remote_id s % 2 ≡ first_remote_id s.origin % 2)
unfolding expected_remote_id
expected_remote_id_new s h = ground (arith, first_remote_id_pos s.origin)

pub new_IsLive :
    (s : Session) (codec : TextCodec) (id : ℕ) (attributes : List ProtocolAttribute) (local : Bool)
    → IsLive s.limits (create_stream_state codec id attributes local)
unfolding create_stream_state
new_IsLive s codec id attributes local = ground arith

place_stream-IsSound :
    (host : Host) (st : StreamState) (v : Verdict) (s : Session)
    → IsSound s
    → IsSound (admit st s)
    → find_stream st.id s.streams ≡ none
    → st.reassembly ≡ none
    → IsSound (place_stream host st v s).0
unfolding place_stream write_frame
place_stream-IsSound host st accepted s h admitted fresh whole = admitted
place_stream-IsSound host st (threw e) s h admitted fresh whole =
    cancel_absent-IsSound s st e true h fresh whole
place_stream-IsSound host st refused s h admitted fresh whole = ground (
  arith,
  reject-IsSound host st.id resource_exhausted s h,
  announce-IsSound st.id (admit st s) admitted,
)

-- A new stream has its id, no unfinished item, and the peer for its origin.
created :
    (codec : TextCodec) (id : ℕ) (attributes : List ProtocolAttribute)
    → let st = create_stream_state codec id attributes false in
      (st.id ≡ id) × (st.reassembly ≡ none) × (st.initiated_locally ≡ false)
unfolding create_stream_state
created codec id attributes = (refl, refl, refl)

-- The highest id of the peer may rise within its parity.
raise-IsSound :
    (s : Session) (id : ℕ)
    → IsSound s
    → s.highest_remote_stream_id < id
    → id % 2 ≡ first_remote_id s.origin % 2
    → IsSound (record s { highest_remote_stream_id = id })
raise-IsSound s id h above parity = record {
  reassembly_sum = h.reassembly_sum;
  reassembly_bound = h.reassembly_bound;
  local_count = h.local_count;
  remote_count = h.remote_count;
  remote_bound = h.remote_bound;
  retained_sum = h.retained_sum;
  retained_bound = h.retained_bound;
  retired_bound = h.retired_bound;
  live = h.live;
  highest_parity = inr parity;
  next_parity = h.next_parity;
  allocated =
      IsAllocated-mono (first_remote_id s.origin) s.highest_remote_stream_id id s.next_stream_id
        s.streams (omega arith) h.allocated;
}

open_remote-IsSound :
    (host : Host) (f : ProtocolFrame) (s : Session)
    → IsSound s
    → find_stream f.stream_id s.streams ≡ none
    → f.stream_id % 2 ≡ first_remote_id s.origin % 2
    → f.stream_id ≤ s.highest_remote_stream_id
    → IsSound (open_remote host f s).0
unfolding open_remote
open_remote-IsSound host f s h fresh parity known =
    let st = create_stream_state host.codec f.stream_id f.attributes false in
    let live = new_IsLive s host.codec f.stream_id f.attributes false in
    ground (
      arith,
      reject-IsSound host f.stream_id resource_exhausted s h,
      place_stream-IsSound host st (ask host.stream_acceptors st) s h,
      admit-IsSound s st h,
      live,
      created host.codec f.stream_id f.attributes,
    )

-- An OPEN frame either breaks the order of ids, or is answered under a higher id.
pub handle_open-IsSound :
    (host : Host) (f : ProtocolFrame) (s : Session) → IsSound s → IsSound (handle_open host f s).0
unfolding handle_open
handle_open-IsSound host f s h =
    let (above, parity) = expected_remote_id_new s h in
    elim (Bool-cases (f.stream_id /= expected_remote_id s)) [
      | inl other ↦ rw other h
      | inr next ↦
          let same : f.stream_id ≡ expected_remote_id s = ground arith in
          rw next (
            open_remote-IsSound host f (record s { highest_remote_stream_id = f.stream_id })
              (raise-IsSound s f.stream_id h (omega arith) (omega arith))
              (find_fresh (first_remote_id s.origin) s.highest_remote_stream_id s.next_stream_id
                f.stream_id s.streams h.allocated (inl (omega arith, omega arith)))
              (omega arith) (omega arith))
    ]
