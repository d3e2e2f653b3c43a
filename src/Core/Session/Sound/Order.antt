-- ===== src/Core/Session/Sound/Order.antt =====
-- What a session does when a frame is lost, repeated or out of order, and how it ends.
use pure_reactive_protocol.Prelude.{◌≡◌, refl, some, false}
use pure_reactive_protocol.Failure.{Failure}
use pure_reactive_protocol.Core.Session.State.{Session, detached}
use pure_reactive_protocol.Core.Session.Retire.{shut_down, detach, is_over, normalised}
use pure_reactive_protocol.Core.Session.Sound.{IsSound}
use pure_reactive_protocol.Core.Session.Sound.Ending.{IsCleared, shut_down-IsSound}

-- A session that is not over and fails is detached with no stream left: whatever its streams held
-- or counted is given back, its bookkeeping stays sound, and failing again changes nothing.
pub detach-IsCleared :
    (e again : Failure) (s : Session)
    → IsSound s
    → is_over s.state ≡ false
    → ((detach e s).state ≡ detached)
      × IsCleared (detach e s)
      × IsSound (detach e s)
      × (detach again (detach e s) ≡ detach e s)
unfolding detach
detach-IsCleared e again s h live =
    let (sound, cleared) = shut_down-IsSound detached (normalised e) (some (normalised e)) s h in
    rw live (unfold shut_down in (refl, cleared, sound, refl))
