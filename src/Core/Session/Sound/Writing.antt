-- ===== src/Core/Session/Sound/Writing.antt =====
-- What writing a frame does to a session: it takes a sequence number, or the session is detached.
use pure_reactive_protocol.Prelude.{
  ℕ, ◌+◌, ◌≡◌, ◌≢◌, refl, sym, ap, ◌∙◌, Bool, true, false, Option, none, some, List, [], ◌∷◌, ◌⊎◌,
  inl, inr, Bool-cases, Option-cases, if◌then◌else◌,
}
use pure_reactive_protocol.Failure.{Failure, Result, ok, err, connection_lost}
use pure_reactive_protocol.Core.Frame.{ProtocolFrame}
use pure_reactive_protocol.Core.Session.State.{Session, StreamState, Host}
use pure_reactive_protocol.Core.Session.Table.{find_stream}
use pure_reactive_protocol.Core.Session.Retire.{
  detach, is_over, shut_down, cancel_all, cancel_stream, delete_stream, clear_reassembly, retire,
  cancelled_state,
}
use pure_reactive_protocol.Core.Session.Lane.{
  Lane, Written, write_frame_now, encoded_for, lane_answered, write_each, then_write,
  write_frames_now,
}
use pure_reactive_protocol.Core.Session.Opening.{write_turn}

-- The session takes the next sequence number or none, or it is detached by an error that is thrown.
abbrev pub IsWrite : Session → Written → Type 0
IsWrite s w =
    ((k : ℕ) × (w.session ≡ record s { outgoing_sequence = k }))
    ⊎ ((e : Failure) × (w.session ≡ detach e s) × (w.failure ≢ none))

lane_answered-IsWrite :
    (s : Session) (bytes : List ℕ) (answer : Option Failure)
    → IsWrite s (lane_answered s bytes answer)
unfolding lane_answered
lane_answered-IsWrite s bytes none = inl (s.outgoing_sequence + 1, refl)
lane_answered-IsWrite s bytes (some cause) = inr (_, refl, λ h. cc)

encoded_for-IsWrite :
    (lane : List ℕ → Option Failure) (s : Session) (encoded : Result (List ℕ))
    → IsWrite s (encoded_for lane s encoded)
unfolding encoded_for
encoded_for-IsWrite lane s (err e) = inl (s.outgoing_sequence, refl)
encoded_for-IsWrite lane s (ok bytes) = lane_answered-IsWrite s bytes (lane bytes)

guarded-IsWrite :
    (over : Bool) (s : Session) (e e' : Failure) (sent : List (List ℕ)) (w : Written)
    → IsWrite s w
    → IsWrite s
        (if over then record { session = detach e s; sent = sent; failure = some e' } else w)
guarded-IsWrite true s e e' sent w h = inr (e, refl, λ h'. cc)
guarded-IsWrite false s e e' sent w h = h

write_frame_now-IsWrite :
    (host : Host) (compact : Bool) (lane : Lane) (f : ProtocolFrame) (s : Session)
    → IsWrite s (write_frame_now host.codec compact lane f s)
unfolding write_frame_now
write_frame_now-IsWrite host compact none f s = inl (s.outgoing_sequence, refl)
write_frame_now-IsWrite host compact (some lane) f s =
    guarded-IsWrite _ s _ _ _ _ (encoded_for-IsWrite lane s _)

pub write_turn-IsWrite :
    (host : Host) (compact : Bool) (lane : Lane) (f : ProtocolFrame) (s : Session)
    → IsWrite s (write_turn host compact lane f s)
unfolding write_turn write_frames_now write_each then_write
write_turn-IsWrite host compact lane f s =
    guarded-IsWrite _ s _ _ _ _
      (write_frame_now-IsWrite host compact (if is_over s.state then none else lane) f s)

guarded-throws :
    (over : Bool) (s : Session) (e e' : Failure) (w : Written)
    → w.failure ≡ some e'
    → (if over then record { session = s; sent = []; failure = some e } else w).failure ≢ none
guarded-throws true s e e' w h = λ h'. cc
guarded-throws false s e e' w h = λ h'. cc

-- A session that is over has no lane.
pub write_turn-throws :
    (host : Host) (compact : Bool) (lane : Lane) (f : ProtocolFrame) (s : Session)
    → is_over s.state ≡ true
    → (write_turn host compact lane f s).failure ≢ none
unfolding write_turn write_frames_now write_each then_write write_frame_now
write_turn-throws host compact lane f s over = rw over (guarded-throws _ _ _ connection_lost _ refl)

-- Nor does a write end a session without a throw.
pub write_turn-ends :
    (host : Host) (compact : Bool) (lane : Lane) (f : ProtocolFrame) (s : Session)
    → is_over (write_turn host compact lane f s).session.state ≡ true
    → (write_turn host compact lane f s).failure ≢ none
write_turn-ends host compact lane f s over = elim (write_turn-IsWrite host compact lane f s) [
  | inl (k, same) ↦
      write_turn-throws host compact lane f s
        (ap (λ (x : Session). is_over x.state) (sym same) ∙ over)
  | inr (e, same, thrown) ↦ thrown
]

-- The next id of a session plays no part in how its streams end.
delete_stream_next :
    (st : StreamState) (s : Session) (n : ℕ)
    → delete_stream st (record s { next_stream_id = n })
      ≡ record (delete_stream st s) { next_stream_id = n }
unfolding delete_stream
delete_stream_next st s n = elim (Option-cases (find_stream st.id s.streams)) [
  | inl absent ↦ rw (absent, delete_stream) refl
  | inr (old, found) ↦ rw (found, delete_stream) refl
]

cancel_stream_next :
    (st : StreamState) (e : Failure) (late : Bool) (s : Session) (n : ℕ)
    → cancel_stream st e late (record s { next_stream_id = n })
      ≡ record (cancel_stream st e late s) { next_stream_id = n }
unfolding cancel_stream clear_reassembly retire cancelled_state
cancel_stream_next st e late s n = elim (Bool-cases st.cancelled) [
  | inl gone ↦ rw gone refl
  | inr going ↦
      rw going (
        ap (retire st.id late)
          (delete_stream_next (cancelled_state e st) (clear_reassembly st s) n))
]

cancel_all_next :
    (e : Failure) (l : List StreamState) (s : Session) (n : ℕ)
    → cancel_all e l (record s { next_stream_id = n })
      ≡ record (cancel_all e l s) { next_stream_id = n }
unfolding cancel_all
cancel_all_next e [] s n = refl
cancel_all_next e (st ∷ rest) s n =
    ap (cancel_all e rest) (cancel_stream_next st e false s n)
    ∙ cancel_all_next e rest (cancel_stream st e false s) n

pub detach_next :
    (e : Failure) (s : Session) (n : ℕ)
    → detach e (record s { next_stream_id = n }) ≡ record (detach e s) { next_stream_id = n }
unfolding detach shut_down
detach_next e s n = elim (Bool-cases (is_over s.state)) [
  | inl over ↦ rw over refl
  | inr live ↦ rw (live, cancel_all_next _ s.streams s n) refl
]

pub detach_over : (e : Failure) (s : Session) → is_over s.state ≡ true → detach e s ≡ s
unfolding detach
detach_over e s over = rw over refl
