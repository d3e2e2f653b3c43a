-- ===== src/Core/Queue.antt =====
-- `AsyncQueue` of src/core/async-queue.ts. A call of `next` that has to wait leaves a deferred result;
-- here each call brings a ticket, and an operation returns the tickets that it settles.
pub mod Order
use pure_reactive_protocol.Prelude.{
  ℕ, Bool, true, false, Option, none, some, List, [], ◌∷◌, ◌++◌, map, length, if◌then◌else◌,
}
use pure_reactive_protocol.Failure.{Failure, plain_error, Result, ok, err}

pub record AsyncQueue {ℓ} (A : Type ℓ) : Type ℓ where
  pub values : List A
  pub waiters : List ℕ
  pub ended : Bool
  pub failure : Option Failure

pub data Settled {ℓ} (A : Type ℓ) : Type ℓ where
  value_for : ℕ → A → Settled A
  done_for : ℕ → Settled A
  failed_for : ℕ → Failure → Settled A

abbrev pub empty {ℓ} : {A : Type ℓ} → AsyncQueue A
empty = record { values = []; waiters = []; ended = false; failure = none }

abbrev pub size {ℓ} : {A : Type ℓ} → AsyncQueue A → ℕ
size q = length q.values

-- What a waiter gets when the queue ends.
abbrev pub settle_end {ℓ} : {A : Type ℓ} → Option Failure → ℕ → Settled A
settle_end none ticket = done_for ticket
settle_end (some error) ticket = failed_for ticket error

module _ {ℓ} {A : Type ℓ} where
  -- The values and the waiters are matched first: `waiters.shift()`.
  hand_over : AsyncQueue A → List ℕ → A → AsyncQueue A × List (Settled A)
  hand_over q [] value = (record q { values = q.values ++ value ∷ [] }, [])
  hand_over q (ticket ∷ rest) value = (record q { waiters = rest }, value_for ticket value ∷ [])

  unfoldable pub push : AsyncQueue A → A → Result (AsyncQueue A × List (Settled A))
  unfolding hand_over
  push q value = if q.ended then err plain_error else ok (hand_over q q.waiters value)

  unfoldable pub finish : AsyncQueue A → Option Failure → Bool → AsyncQueue A × List (Settled A)
  finish q error discard_values = if q.ended then (q, []) else (
    record {
      values = if discard_values then [] else q.values;
      waiters = [];
      ended = true;
      failure = error;
    },
    map (settle_end error) q.waiters,
  )

  shift : AsyncQueue A → ℕ → List A → AsyncQueue A × List (Settled A)
  shift q ticket (value ∷ rest) = (record q { values = rest }, value_for ticket value ∷ [])
  shift q ticket [] =
      if q.ended
      then (q, settle_end q.failure ticket ∷ [])
      else (record q { waiters = q.waiters ++ ticket ∷ [] }, [])

  unfoldable pub next : AsyncQueue A → ℕ → AsyncQueue A × List (Settled A)
  unfolding shift
  next q ticket = shift q ticket q.values
