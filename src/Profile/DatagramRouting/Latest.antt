-- ===== src/Profile/DatagramRouting/Latest.antt =====
-- `sendLatest` and `drainLatest`, for one route. Nothing here looks into the data. A call brings a
-- ticket for its promise. `drainLatest` runs up to the `await` of `send`, and goes on when that send
-- settles; while it waits, `sending` is what it spliced off.
pub mod Order
pub mod Fresh
use pure_reactive_protocol.Prelude.{
  ℕ, zero, suc, Bool, true, false, Option, none, some, List, [], ◌∷◌, ◌++◌, map,
}
use pure_reactive_protocol.Failure.{Failure}

pub record LatestEntry {ℓ} (A : Type ℓ) : Type ℓ where
  pub newest : A
  pub waiters : List ℕ
  pub sending : List ℕ

-- `settled` holds the tickets that were resolved or rejected, in order, and `sent` what `send` was
-- called with.
pub record LatestState {ℓ} (A : Type ℓ) : Type ℓ where
  pub entry : Option (LatestEntry A)
  pub settled : List (ℕ × Option Failure)
  pub sent : List A

abbrev pub idle {ℓ} : {A : Type ℓ} → LatestState A
idle = record { entry = none; settled = []; sent = [] }

module _ {ℓ} {A : Type ℓ} where
  -- `drainLatest` at the head of its loop.
  unfoldable pub drain_latest : LatestState A → LatestEntry A → List ℕ → LatestState A
  drain_latest s e [] = record s { entry = none }
  drain_latest s e (ticket ∷ waiters) = record s {
    entry = some (record e { waiters = []; sending = ticket ∷ waiters });
    sent = s.sent ++ e.newest ∷ [];
  }

  send_latest_to : LatestState A → A → ℕ → Option (LatestEntry A) → LatestState A
  unfolding drain_latest
  send_latest_to s content ticket none =
      drain_latest s (record { newest = content; waiters = ticket ∷ []; sending = [] })
        (ticket ∷ [])
  send_latest_to s content ticket (some e) = record s {
    entry = some (record e { newest = content; waiters = e.waiters ++ ticket ∷ [] });
  }

  -- `sendLatest`, after its checks.
  unfoldable pub send_latest : LatestState A → A → ℕ → LatestState A
  unfolding send_latest_to
  send_latest s content ticket = send_latest_to s content ticket s.entry

  send_settled_at : LatestState A → Option Failure → Option (LatestEntry A) → LatestState A
  unfolding drain_latest
  send_settled_at s outcome none = s
  send_settled_at s outcome (some e) =
      drain_latest (record s { settled = s.settled ++ map (λ ticket. (ticket, outcome)) e.sending })
        (record e { sending = [] }) e.waiters

  -- The pending send settles, with its error if it fails.
  unfoldable pub send_settled : LatestState A → Option Failure → LatestState A
  unfolding send_settled_at
  send_settled s outcome = send_settled_at s outcome s.entry

-- What happens to a route: a call of `sendLatest`, and the end of a send.
pub data LatestEvent {ℓ} (A : Type ℓ) : Type ℓ where
  called : A → LatestEvent A
  settled : Option Failure → LatestEvent A

-- The events in turn; the calls have the numbers from `next` on as their tickets.
unfoldable pub run_latest {ℓ} :
    {A : Type ℓ} → LatestState A → ℕ → List (LatestEvent A) → LatestState A × ℕ
run_latest s next [] = (s, next)
run_latest s next (called content ∷ events) =
    run_latest (send_latest s content next) (suc next) events
run_latest s next (settled outcome ∷ events) = run_latest (send_settled s outcome) next events
