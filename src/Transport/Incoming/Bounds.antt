-- ===== src/Transport/Incoming/Bounds.antt =====
-- The queue stays within its bounds, whatever the producers and the consumer do, and in order.
use pure_reactive_protocol.Prelude.{
  ℕ, ◌+◌, ◌≤◌, ◌≡◌, ◌⊎◌, refl, ap, subst, ◌∙◌, Bool, false, Option, List, [], ◌∷◌, ◌++◌, All,
  All-append, length, length-append, arith,
}
use pure_reactive_protocol.Failure.{Failure}
use pure_reactive_protocol.Transport.Incoming.{
  IncomingFrameQueue, Reply, has_space, place, try_push, push_or_throw, push_wait, resume,
  next_frame, end_frames,
}

abbrev pub total : List (List ℕ) → ℕ
total [] = 0
total (value ∷ rest) = length value + total rest

total-append : (a b : List (List ℕ)) → total (a ++ b) ≡ total a + total b
total-append [] b = omega arith
total-append (value ∷ a) b = omega (arith, total-append a b)

-- Values, and the values of producers, of at most `m` bytes each.
unfoldable pub AreWithin : ℕ → List (List ℕ) → Type 0
AreWithin m = All (λ value. length value ≤ m)

unfoldable pub ArePushers : ℕ → List (ℕ × List ℕ) → Type 0
ArePushers m = All (λ pusher. length pusher.1 ≤ m)

nil-AreWithin : (m : ℕ) → AreWithin m []
unfolding AreWithin
nil-AreWithin m = tt

snoc-AreWithin :
    (m : ℕ) (values : List (List ℕ)) (value : List ℕ)
    → AreWithin m values
    → length value ≤ m
    → AreWithin m (values ++ value ∷ [])
unfolding AreWithin
snoc-AreWithin m values value h fits =
    All-append (λ v. length v ≤ m) values (value ∷ []) h (fits, tt)

tail-AreWithin :
    (m : ℕ) (value : List ℕ) (rest : List (List ℕ)) → AreWithin m (value ∷ rest) → AreWithin m rest
unfolding AreWithin
tail-AreWithin m value rest h = h.1

nil-ArePushers : (m : ℕ) → ArePushers m []
unfolding ArePushers
nil-ArePushers m = tt

append-ArePushers :
    (m : ℕ) (a b : List (ℕ × List ℕ)) → ArePushers m a → ArePushers m b → ArePushers m (a ++ b)
unfolding ArePushers
append-ArePushers m a b h k = All-append (λ pusher. length pusher.1 ≤ m) a b h k

one-ArePushers :
    (m ticket : ℕ) (value : List ℕ) → length value ≤ m → ArePushers m ((ticket, value) ∷ [])
unfolding ArePushers
one-ArePushers m ticket value fits = (fits, tt)

first-ArePushers :
    (m : ℕ) (pusher : ℕ × List ℕ) (rest : List (ℕ × List ℕ))
    → ArePushers m (pusher ∷ rest)
    → (length pusher.1 ≤ m) × ArePushers m rest
unfolding ArePushers
first-ArePushers m pusher rest h = h

pub record IsBounded (q : IncomingFrameQueue) : Type 0 where
  pub counted : q.buffered_bytes ≡ total q.values
  pub frames_fit : length q.values ≤ q.max_buffered_frames
  pub bytes_fit : q.buffered_bytes ≤ q.max_buffered_bytes
  pub values_fit : AreWithin q.max_frame_bytes q.values
  pub waiting_fit : ArePushers q.max_frame_bytes q.space_waiters
  pub woken_fit : ArePushers q.max_frame_bytes q.woken
  pub no_idle_value : (q.waiters ≡ []) ⊎ (q.values ≡ [])
  pub no_late_waiter : (q.ended ≡ false) ⊎ ((q.waiters ≡ []) × (q.space_waiters ≡ []))

-- What the two sides and the socket may call.
pub data Request : Type 0 where
  tries : List ℕ → Request
  throws : List ℕ → Request
  waits : ℕ → List ℕ → Request
  resumes : Request
  nexts_frame : ℕ → Request
  ends : Option Failure → Bool → Request

pub handle_request : IncomingFrameQueue → Request → Reply
handle_request q (tries value) = try_push q value
handle_request q (throws value) = push_or_throw q value
handle_request q (waits ticket value) = push_wait q ticket value
handle_request q resumes = resume q q.woken
handle_request q (nexts_frame ticket) = next_frame q ticket q.values
handle_request q (ends error discard_values) = end_frames q error discard_values

pub run_requests : IncomingFrameQueue → List Request → IncomingFrameQueue
run_requests q [] = q
run_requests q (r ∷ rs) = run_requests (handle_request q r).0 rs

place-IsBounded :
    (q : IncomingFrameQueue) (value : List ℕ)
    → IsBounded q
    → q.ended ≡ false
    → length value ≤ q.max_frame_bytes
    → IsBounded (place q q.waiters value).0
unfolding place has_space
place-IsBounded q value h live fits = ground (
  arith,
  total-append q.values (value ∷ []),
  length-append q.values (value ∷ []),
  snoc-AreWithin q.max_frame_bytes q.values value h.values_fit fits,
)

try_push-IsBounded :
    (q : IncomingFrameQueue) (value : List ℕ) → IsBounded q → IsBounded (try_push q value).0
unfolding try_push
try_push-IsBounded q value h = ground (arith, place-IsBounded q value h)

wait-IsBounded :
    (q : IncomingFrameQueue) (ticket : ℕ) (value : List ℕ)
    → IsBounded q
    → IsBounded (push_wait q ticket value).0
unfolding push_wait try_push place has_space
wait-IsBounded q ticket value h = ground (
  arith,
  total-append q.values (value ∷ []),
  length-append q.values (value ∷ []),
  snoc-AreWithin q.max_frame_bytes q.values value h.values_fit,
  append-ArePushers q.max_frame_bytes q.space_waiters ((ticket, value) ∷ []) h.waiting_fit,
  one-ArePushers q.max_frame_bytes ticket value,
)

resume-IsBounded :
    (q : IncomingFrameQueue) (pushers : List (ℕ × List ℕ))
    → q.woken ≡ pushers
    → IsBounded q
    → IsBounded (resume q pushers).0
unfolding resume place has_space
resume-IsBounded q [] same h = h
resume-IsBounded q ((ticket, value) ∷ rest) same h =
    let (fits, others) =
      first-ArePushers q.max_frame_bytes (ticket, value) rest
        (subst (ArePushers q.max_frame_bytes) same h.woken_fit) in
    ground (
      arith,
      total-append q.values (value ∷ []),
      length-append q.values (value ∷ []),
      snoc-AreWithin q.max_frame_bytes q.values value h.values_fit fits,
      append-ArePushers q.max_frame_bytes q.space_waiters ((ticket, value) ∷ []) h.waiting_fit,
      one-ArePushers q.max_frame_bytes ticket value fits,
    )

next-IsBounded :
    (q : IncomingFrameQueue) (ticket : ℕ) (values : List (List ℕ))
    → q.values ≡ values
    → IsBounded q
    → IsBounded (next_frame q ticket values).0
unfolding next_frame
next-IsBounded q ticket [] same h = ground arith
next-IsBounded q ticket (value ∷ rest) same h =
    let counted : q.buffered_bytes ≡ length value + total rest = h.counted ∙ ap total same in
    let few : length (value ∷ rest) ≤ q.max_buffered_frames =
      subst (λ v. length v ≤ q.max_buffered_frames) same h.frames_fit in
    ground (
      arith,
      tail-AreWithin q.max_frame_bytes value rest
          (subst (AreWithin q.max_frame_bytes) same h.values_fit),
      nil-ArePushers q.max_frame_bytes,
      append-ArePushers q.max_frame_bytes q.woken q.space_waiters h.woken_fit h.waiting_fit,
    )

end-IsBounded :
    (q : IncomingFrameQueue) (error : Option Failure) (discard_values : Bool)
    → IsBounded q
    → IsBounded (end_frames q error discard_values).0
unfolding end_frames
end-IsBounded q error discard_values h =
    ground (arith, nil-AreWithin q.max_frame_bytes, nil-ArePushers q.max_frame_bytes)

push_or_throw-IsBounded :
    (q : IncomingFrameQueue) (value : List ℕ) → IsBounded q → IsBounded (push_or_throw q value).0
unfolding push_or_throw
push_or_throw-IsBounded q value h = ground (arith, try_push-IsBounded q value h)

handle_request-IsBounded :
    (q : IncomingFrameQueue) (r : Request) → IsBounded q → IsBounded (handle_request q r).0
unfolding handle_request
handle_request-IsBounded q (tries value) h = try_push-IsBounded q value h
handle_request-IsBounded q (throws value) h = push_or_throw-IsBounded q value h
handle_request-IsBounded q (waits ticket value) h = wait-IsBounded q ticket value h
handle_request-IsBounded q resumes h = resume-IsBounded q q.woken refl h
handle_request-IsBounded q (nexts_frame ticket) h = next-IsBounded q ticket q.values refl h
handle_request-IsBounded q (ends error discard_values) h = end-IsBounded q error discard_values h

-- Whatever the producers, the consumer and the socket call, and in whatever order: the bytes of the
-- stored frames are counted exactly, frames and bytes stay within their bounds, no frame is larger
-- than allowed, nobody waits for a frame while one is stored, and nobody waits after the end.
pub run_requests-IsBounded :
    (q : IncomingFrameQueue) (rs : List Request) → IsBounded q → IsBounded (run_requests q rs)
unfolding run_requests
run_requests-IsBounded q [] h = h
run_requests-IsBounded q (r ∷ rs) h =
    run_requests-IsBounded (handle_request q r).0 rs (handle_request-IsBounded q r h)
