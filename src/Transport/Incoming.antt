-- ===== src/Transport/Incoming.antt =====
-- `IncomingFrameQueue` of src/transport/incoming.ts: the bounded queue between a socket and the reader
-- of a lane. A call of `next` that waits has a ticket, and so has a call of `pushWait`: it waits in
-- `space_waiters` with its value, and moves to `woken` when its promise is resolved, until its
-- continuation runs.
pub mod Bounds
use pure_reactive_protocol.Prelude.{
  ℕ, ◌+◌, ◌-◌, ◌*◌, min, max, Bool, true, false, ◌&&◌, Option, none, some, List, [], ◌∷◌, ◌++◌, map,
  length, ltb, leb, if◌then◌else◌,
}
use pure_reactive_protocol.Failure.{Failure, plain_error, protocol_violation, Result, ok, err}
use pure_reactive_protocol.Core.Queue.{Settled, value_for, done_for, settle_end}

pub record IncomingFrameQueue : Type 0 where
  pub max_frame_bytes : ℕ
  pub max_buffered_frames : ℕ
  pub max_buffered_bytes : ℕ
  pub values : List (List ℕ)
  pub waiters : List ℕ
  pub space_waiters : List (ℕ × List ℕ)
  pub woken : List (ℕ × List ℕ)
  pub buffered_bytes : ℕ
  pub ended : Bool
  pub failure : Option Failure

-- `bufferBytesFor`.
abbrev pub buffer_bytes_for : ℕ → ℕ
buffer_bytes_for max_frame_bytes =
    max (max max_frame_bytes (64 * 1024)) (min (64 * 1024 * 1024) (max_frame_bytes * 2))

abbrev pub empty_incoming : ℕ → IncomingFrameQueue
empty_incoming max_frame_bytes = record {
  max_frame_bytes = max_frame_bytes;
  max_buffered_frames = 64;
  max_buffered_bytes = buffer_bytes_for max_frame_bytes;
  values = [];
  waiters = [];
  space_waiters = [];
  woken = [];
  buffered_bytes = 0;
  ended = false;
  failure = none;
}

-- What a call leaves, the consumers that it settles, and what it returns: whether the value was
-- taken, or a throw.
abbrev pub Reply : Type 0
Reply = IncomingFrameQueue × List (Settled (List ℕ)) × Result Bool

-- What `assertOpen` throws.
abbrev pub closed_error : Option Failure → Failure
closed_error none = plain_error
closed_error (some failure) = failure

unfoldable pub has_space : IncomingFrameQueue → ℕ → Bool
has_space q bytes =
    ltb (length q.values) q.max_buffered_frames
    && leb (q.buffered_bytes + bytes) q.max_buffered_bytes

-- The first waiter gets the value; without one it is stored if there is space.
unfoldable pub place : IncomingFrameQueue → List ℕ → List ℕ → Reply
place q (ticket ∷ rest) value = (record q { waiters = rest }, value_for ticket value ∷ [], ok true)
place q [] value =
    if has_space q (length value)
    then (
      record q {
        values = q.values ++ value ∷ [];
        buffered_bytes = q.buffered_bytes + length value;
      },
      [],
      ok true,
    )
    else (q, [], ok false)

-- `tryPush`.
unfoldable pub try_push : IncomingFrameQueue → List ℕ → Reply
try_push q value =
    if q.ended
    then (q, [], err (closed_error q.failure))
    else if ltb q.max_frame_bytes (length value)
    then (q, [], err protocol_violation)
    else place q q.waiters value

abbrev or_overflow : Reply → Reply
or_overflow (q, settled, ok false) = (q, settled, err protocol_violation)
or_overflow r = r

-- `pushOrThrow`.
unfoldable pub push_or_throw : IncomingFrameQueue → List ℕ → Reply
push_or_throw q value = or_overflow (try_push q value)

abbrev or_wait : ℕ × List ℕ → Reply → Reply
or_wait pusher (q, settled, ok false) =
    (record q { space_waiters = q.space_waiters ++ pusher ∷ [] }, settled, ok false)
or_wait pusher r = r

-- `pushWait` up to its first `await`; `ok false` is a call that waits.
unfoldable pub push_wait : IncomingFrameQueue → ℕ → List ℕ → Reply
push_wait q ticket value = or_wait (ticket, value) (try_push q value)

-- The continuation of the first call of `pushWait` that was woken.
unfoldable pub resume : IncomingFrameQueue → List (ℕ × List ℕ) → Reply
resume q [] = (q, [], ok false)
resume q (pusher ∷ rest) =
    let running = record q { woken = rest } in
    if q.ended
    then (running, [], err (closed_error q.failure))
    else or_wait pusher (place running running.waiters pusher.1)

-- `next`, which wakes every producer when it makes space.
unfoldable pub next_frame : IncomingFrameQueue → ℕ → List (List ℕ) → Reply
next_frame q ticket (value ∷ rest) = (
  record q {
    values = rest;
    buffered_bytes = q.buffered_bytes - length value;
    space_waiters = [];
    woken = q.woken ++ q.space_waiters;
  },
  value_for ticket value ∷ [],
  ok true,
)
next_frame q ticket [] =
    if q.ended
    then (q, settle_end q.failure ticket ∷ [], ok true)
    else (record q { waiters = q.waiters ++ ticket ∷ [] }, [], ok true)

-- `end(error, discardValues)`; the producers that wait are rejected.
unfoldable pub end_frames : IncomingFrameQueue → Option Failure → Bool → Reply
end_frames q error discard_values = if q.ended then (q, [], ok true) else (
  record q {
    ended = true;
    failure = error;
    values = if discard_values then [] else q.values;
    buffered_bytes = if discard_values then 0 else q.buffered_bytes;
    waiters = [];
    space_waiters = [];
  },
  map (settle_end error) q.waiters,
  ok true,
)
