-- ===== src/Core/Session/Sound/Ending.antt =====
-- Streams that end, and sessions that end, keep the books balanced; an ended session has no streams.
use pure_reactive_protocol.Prelude.{
  ℕ, ◌-◌, ◌≤◌, ◌≡◌, refl, subst, Bool, false, ◌&&◌, ◌||◌, Option, none, some, List, [], ◌∷◌, All,
  arith, Bool-cases, inl, inr,
}
use pure_reactive_protocol.Failure.{Failure}
use pure_reactive_protocol.Core.Session.State.{Session, SessionState, detached, closed, StreamState}
use pure_reactive_protocol.Core.Session.Table.{
  find_stream, put_stream, remove_stream, sum_of-remove,
}
use pure_reactive_protocol.Core.Session.Retire.{
  clear_reassembly, delete_stream, retire, release_stream, cancelled_state, cancel_stream,
  cancel_all, reassembly_bytes, shut_down, detach, finish_closed, is_over, is_closed, normalised,
}
use pure_reactive_protocol.Core.Session.Sound.{IsSound, IsLive, held_bytes}
use pure_reactive_protocol.Core.Session.Sound.Table.{
  IsSame, put-IsSound, delete-IsSound, retire-IsSound,
}

-- What a stream of the map holds is part of the total.
pub held-le :
    (s : Session) (id : ℕ) (old : StreamState)
    → IsSound s
    → find_stream id s.streams ≡ some old
    → held_bytes old ≤ s.in_flight_reassembly_bytes
held-le s id old h found = omega (arith, sum_of-remove held_bytes id s.streams old found)

-- A stream changes that keeps the bytes that it holds.
pub update-IsSound :
    (s : Session) (new old : StreamState)
    → IsSound s
    → find_stream new.id s.streams ≡ some old
    → IsSame new old
    → IsLive s.limits new
    → held_bytes new ≡ held_bytes old
    → IsSound (record s { streams = put_stream new s.streams })
update-IsSound s new old h found same live held =
    put-IsSound s new old s.in_flight_reassembly_bytes h found same live (omega arith)
      h.reassembly_bound

pub cancel-IsSound :
    (s : Session) (st old : StreamState) (e : Failure) (late : Bool)
    → IsSound s
    → find_stream st.id s.streams ≡ some old
    → IsSame st old
    → held_bytes st ≡ held_bytes old
    → IsSound (cancel_stream st e late s)
unfolding cancel_stream clear_reassembly cancelled_state
cancel-IsSound s st old e late h found same held = elim (Bool-cases st.cancelled) [
  | inl over ↦ rw over h
  | inr alive ↦ rw alive (
      retire-IsSound _ st.id late (
        delete-IsSound s (cancelled_state e st) old (s.in_flight_reassembly_bytes - held_bytes st) h
          found (record { same_origin = same.same_origin; same_retained = same.same_retained })
          (omega (arith, held-le s st.id old h found))))
]

-- A stream that never entered the map.
pub cancel_absent-IsSound :
    (s : Session) (st : StreamState) (e : Failure) (late : Bool)
    → IsSound s
    → find_stream st.id s.streams ≡ none
    → st.reassembly ≡ none
    → IsSound (cancel_stream st e late s)
unfolding cancel_stream clear_reassembly cancelled_state delete_stream
cancel_absent-IsSound s st e late h absent whole = elim (Bool-cases st.cancelled) [
  | inl over ↦ rw over h
  | inr alive ↦
      let same : s.in_flight_reassembly_bytes
          ≡ s.in_flight_reassembly_bytes - reassembly_bytes st.reassembly =
        ground arith in
      rw alive (
        retire-IsSound _ st.id late (
          rw (absent, delete_stream)
            (subst (λ n. IsSound (record s { in_flight_reassembly_bytes = n })) same h)))
]

pub release-IsSound :
    (s : Session) (st old : StreamState)
    → IsSound s
    → find_stream st.id s.streams ≡ some old
    → IsSame st old
    → st.reassembly ≡ none
    → old.reassembly ≡ none
    → (((st.inbound_closed && st.outbound_closed) || st.cancelled) ≡ false → IsLive s.limits st)
    → IsSound (release_stream st s)
unfolding release_stream
release-IsSound s st old h found same whole old_whole live =
    elim (Bool-cases ((st.inbound_closed && st.outbound_closed) || st.cancelled)) [
      | inl over ↦ rw over (
          retire-IsSound _ st.id false
            (delete-IsSound s st old s.in_flight_reassembly_bytes h found same (ground arith)))
      | inr open' ↦ rw open' (update-IsSound s st old h found same (live open') (ground arith))
    ]

-- Cancelling the first stream of the map leaves the others.
cancel_first :
    (s : Session) (st : StreamState) (rest : List StreamState) (e : Failure) (late : Bool)
    → s.streams ≡ st ∷ rest
    → st.cancelled ≡ false
    → (cancel_stream st e late s).streams ≡ rest
unfolding cancel_stream delete_stream clear_reassembly retire find_stream remove_stream
    cancelled_state
cancel_first s st rest e late same alive = ground arith

cancel_stream-limits :
    (s : Session) (st : StreamState) (e : Failure) (late : Bool)
    → (cancel_stream st e late s).limits ≡ s.limits
unfolding cancel_stream delete_stream clear_reassembly retire
cancel_stream-limits s st e late = ground arith

-- Cancelling every stream empties the map and keeps the books.
pub cancel_all-IsSound :
    (e : Failure) (l : List StreamState) (s : Session)
    → s.streams ≡ l
    → IsSound s
    → IsSound (cancel_all e l s) × ((cancel_all e l s).streams ≡ [])
unfolding cancel_all
cancel_all-IsSound e [] s same h = (h, same)
cancel_all-IsSound e (st ∷ rest) s same h =
    let live : All (IsLive s.limits) (st ∷ rest) = subst (All (IsLive s.limits)) same h.live in
    let found : find_stream st.id s.streams ≡ some st = unfold find_stream in ground arith in
    cancel_all-IsSound e rest (cancel_stream st e false s)
      (cancel_first s st rest e false same live.0.not_cancelled)
      (cancel-IsSound s st st e false h found (record { same_origin = refl; same_retained = refl })
        refl)

-- The books of a session whose streams are gone: nothing is held and nothing is counted.
pub record IsCleared (s : Session) : Type 0 where
  pub no_streams : s.streams ≡ []
  pub nothing_held : s.in_flight_reassembly_bytes ≡ 0
  pub none_local : s.local_active_streams ≡ 0
  pub none_remote : s.remote_active_streams ≡ 0
  pub nothing_retained : s.retained_stream_attribute_bytes ≡ 0
  pub nothing_pending : s.pending_signal_bytes ≡ 0

pub shut_down-IsSound :
    (state : SessionState) (e : Failure) (q : Option Failure) (s : Session)
    → IsSound s
    → IsSound (shut_down state e q s) × IsCleared (shut_down state e q s)
unfolding shut_down
shut_down-IsSound state e q s h =
    let (sound, gone) = cancel_all-IsSound e s.streams s refl h in
    (
      sound,
      record {
        no_streams = gone;
        nothing_held = ground arith;
        none_local = ground arith;
        none_remote = ground arith;
        nothing_retained = ground arith;
        nothing_pending = refl;
      },
    )

pub detach-IsSound : (e : Failure) (s : Session) → IsSound s → IsSound (detach e s)
unfolding detach
detach-IsSound e s h = elim (Bool-cases (is_over s.state)) [
  | inl over ↦ rw over h
  | inr live ↦ rw live (shut_down-IsSound detached (normalised e) (some (normalised e)) s h).0
]

pub finish_closed-IsSound : (s : Session) → IsSound s → IsSound (finish_closed s)
unfolding finish_closed
finish_closed-IsSound s h = elim (Bool-cases (is_closed s.state)) [
  | inl over ↦ rw over h
  | inr live ↦ rw live (shut_down-IsSound closed Failure.stream_closed none s h).0
]
