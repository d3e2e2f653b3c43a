-- ===== src/Core/Session/Sound/Closing.antt =====
-- What closing a session leaves.
use pure_reactive_protocol.Prelude.{ℕ, ◌≡◌, refl, false, List, [], none, inl, inr, Bool-cases}
use pure_reactive_protocol.Failure.{Failure}
use pure_reactive_protocol.Core.Frame.{close}
use pure_reactive_protocol.Core.Session.State.{Session, closed, write_frame, plain_frame}
use pure_reactive_protocol.Core.Session.Retire.{finish_closed, shut_down, is_closed}
use pure_reactive_protocol.Core.Session.Receive.{is_ready}
use pure_reactive_protocol.Core.Session.Local.{close_session}
use pure_reactive_protocol.Core.Session.Sound.{IsSound}
use pure_reactive_protocol.Core.Session.Sound.Ending.{IsCleared, shut_down-IsSound}

finish_closed-IsCleared :
    (s : Session)
    → IsSound s
    → is_closed s.state ≡ false
    → ((finish_closed s).state ≡ closed) × IsCleared (finish_closed s) × IsSound (finish_closed s)
unfolding finish_closed
finish_closed-IsCleared s h live =
    let (sound, cleared) = shut_down-IsSound closed Failure.stream_closed none s h in
    rw live (unfold shut_down in (refl, cleared, sound))

-- A sound session that is not closed yet, connected or not, is closed by `close` with no stream left:
-- everything that its streams held or counted is given back, and closing again changes nothing.
pub close_session-IsCleared :
    (reason again : List ℕ) (s : Session)
    → IsSound s
    → is_closed s.state ≡ false
    → ((close_session reason s).state ≡ closed)
      × IsCleared (close_session reason s)
      × IsSound (close_session reason s)
      × (close_session again (close_session reason s) ≡ close_session reason s)
unfolding close_session write_frame
close_session-IsCleared reason again s h live = elim (Bool-cases (is_ready s.state)) [
  | inl connected ↦
      let (over, cleared, sound) =
        finish_closed-IsCleared (write_frame (plain_frame close 0 [] reason) s) h live in
      rw (live, connected) (over, cleared, sound, rw over refl)
  | inr apart ↦
      let (over, cleared, sound) = finish_closed-IsCleared s h live in
      rw (live, apart) (over, cleared, sound, rw over refl)
]
