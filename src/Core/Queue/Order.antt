-- ===== src/Core/Queue/Order.antt =====
-- The queue does not reorder, and loses only what an end discards: what was delivered, followed by what
-- was discarded and what is stored, is what was pushed, and waiters are served in the order of their
-- calls.
use pure_reactive_protocol.Prelude.{
  ℕ, ◌≡◌, refl, ap, Bool, true, false, Option, none, some, List, [], ◌∷◌, ◌++◌, map, append-nil,
  append_assoc, arith, ◌⊎◌, if◌then◌else◌, ◌∙◌,
}
use pure_reactive_protocol.Failure.{Failure, Result, ok, err}
use pure_reactive_protocol.Core.Queue.{
  AsyncQueue, Settled, value_for, done_for, failed_for, settle_end, push, finish, next,
}

pub data Call {ℓ} (A : Type ℓ) : Type ℓ where
  pushes : A → Call A
  nexts : ℕ → Call A
  finishes : Option Failure → Bool → Call A

module _ {ℓ} {A : Type ℓ} where
  -- Nobody waits while a value is stored, nor at all after the end.
  pub record IsTidy (q : AsyncQueue A) : Type ℓ where
    pub no_idle_value : (q.waiters ≡ []) ⊎ (q.values ≡ [])
    pub no_late_waiter : (q.ended ≡ false) ⊎ (q.waiters ≡ [])

  abbrev pub delivered : List (Settled A) → List A
  delivered [] = []
  delivered (value_for ticket value ∷ rest) = value ∷ delivered rest
  delivered (done_for ticket ∷ rest) = delivered rest
  delivered (failed_for ticket e ∷ rest) = delivered rest

  abbrev pub served : List (Settled A) → List ℕ
  served [] = []
  served (value_for ticket value ∷ rest) = ticket ∷ served rest
  served (done_for ticket ∷ rest) = ticket ∷ served rest
  served (failed_for ticket e ∷ rest) = ticket ∷ served rest

  -- A push that fails changes nothing.
  abbrev after_push :
      AsyncQueue A → Result (AsyncQueue A × List (Settled A)) → AsyncQueue A × List (Settled A)
  after_push q (ok r) = r
  after_push q (err e) = (q, [])

  pub step : AsyncQueue A → Call A → AsyncQueue A × List (Settled A)
  step q (pushes value) = after_push q (push q value)
  step q (nexts ticket) = next q ticket
  step q (finishes error discard_values) = finish q error discard_values

  pub run : AsyncQueue A → List (Call A) → AsyncQueue A × List (Settled A)
  run q [] = (q, [])
  run q (c ∷ cs) = let (q1, s1) = step q c in let (q2, s2) = run q1 cs in (q2, s1 ++ s2)

  -- The values of the pushes that come before the first end, and the tickets of all calls of `next`.
  abbrev pub pushed : Bool → List (Call A) → List A
  pushed ended [] = []
  pushed true (pushes value ∷ cs) = pushed true cs
  pushed false (pushes value ∷ cs) = value ∷ pushed false cs
  pushed ended (nexts ticket ∷ cs) = pushed ended cs
  pushed ended (finishes e discard_values ∷ cs) = pushed true cs

  abbrev pub asked : List (Call A) → List ℕ
  asked [] = []
  asked (pushes value ∷ cs) = asked cs
  asked (nexts ticket ∷ cs) = ticket ∷ asked cs
  asked (finishes e discard_values ∷ cs) = asked cs

  -- What an end throws away: all that is stored, if it discards and is the first.
  abbrev pub lost_by : AsyncQueue A → Call A → List A
  lost_by q (pushes value) = []
  lost_by q (nexts ticket) = []
  lost_by q (finishes e discard_values) =
      if q.ended then [] else if discard_values then q.values else []

  pub lost : AsyncQueue A → List (Call A) → List A
  lost q [] = []
  lost q (c ∷ cs) = lost_by q c ++ lost (step q c).0 cs

module _ {ℓ} (A : Type ℓ) where
  served-settle_end :
      (e : Option Failure) (ws : List ℕ) → served (map (settle_end {A = A} e) ws) ≡ ws
  served-settle_end none [] = refl
  served-settle_end none (w ∷ ws) = ap (◌∷◌ w) (served-settle_end none ws)
  served-settle_end (some e) [] = refl
  served-settle_end (some e) (w ∷ ws) = ap (◌∷◌ w) (served-settle_end (some e) ws)

  delivered-settle_end :
      (e : Option Failure) (ws : List ℕ) → delivered (map (settle_end {A = A} e) ws) ≡ []
  delivered-settle_end none [] = refl
  delivered-settle_end none (w ∷ ws) = delivered-settle_end none ws
  delivered-settle_end (some e) [] = refl
  delivered-settle_end (some e) (w ∷ ws) = delivered-settle_end (some e) ws

module _ {ℓ} {A : Type ℓ} where
  delivered-append :
      (xs ys : List (Settled A)) → delivered (xs ++ ys) ≡ delivered xs ++ delivered ys
  delivered-append [] ys = refl
  delivered-append (value_for t v ∷ xs) ys = ap (◌∷◌ v) (delivered-append xs ys)
  delivered-append (done_for t ∷ xs) ys = delivered-append xs ys
  delivered-append (failed_for t e ∷ xs) ys = delivered-append xs ys

  served-append : (xs ys : List (Settled A)) → served (xs ++ ys) ≡ served xs ++ served ys
  served-append [] ys = refl
  served-append (value_for t v ∷ xs) ys = ap (◌∷◌ t) (served-append xs ys)
  served-append (done_for t ∷ xs) ys = ap (◌∷◌ t) (served-append xs ys)
  served-append (failed_for t e ∷ xs) ys = ap (◌∷◌ t) (served-append xs ys)

  step-IsTidy : (q : AsyncQueue A) (c : Call A) → IsTidy q → IsTidy (step q c).0
  unfolding step push next finish
  step-IsTidy q (pushes v) t = ground arith
  step-IsTidy q (nexts n) t = ground arith
  step-IsTidy q (finishes e d) t = ground arith

  step_values :
      (q : AsyncQueue A) (c : Call A)
      → IsTidy q
      → (delivered (step q c).1 ++ (lost_by q c ++ (step q c).0.values)
          ≡ q.values ++ pushed q.ended (c ∷ []))
  unfolding step push next finish
  step_values q (pushes v) t = ground (arith, append-nil q.values)
  step_values q (nexts n) t = ground (arith, append-nil q.values)
  step_values q (finishes e d) t =
      ground (arith, append-nil q.values, delivered-settle_end A e q.waiters)

  step_tickets :
      (q : AsyncQueue A) (c : Call A)
      → IsTidy q
      → (served (step q c).1 ++ (step q c).0.waiters ≡ q.waiters ++ asked (c ∷ []))
  unfolding step push next finish
  step_tickets q (pushes v) t = ground (arith, append-nil q.waiters)
  step_tickets q (nexts n) t = ground (arith, append-nil q.waiters)
  step_tickets q (finishes e d) t = ground (
    arith,
    append-nil q.waiters,
    append-nil (served (map (settle_end {A = A} e) q.waiters)),
    served-settle_end A e q.waiters,
  )

  pushed-cons :
      (q : AsyncQueue A) (c : Call A) (cs : List (Call A))
      → pushed q.ended (c ∷ cs) ≡ pushed q.ended (c ∷ []) ++ pushed (step q c).0.ended cs
  unfolding step push next finish
  pushed-cons q (pushes v) cs = ground arith
  pushed-cons q (nexts n) cs = ground arith
  pushed-cons q (finishes e d) cs = ground arith

  asked-cons : (c : Call A) (cs : List (Call A)) → asked (c ∷ cs) ≡ asked (c ∷ []) ++ asked cs
  asked-cons (pushes v) cs = refl
  asked-cons (nexts n) cs = refl
  asked-cons (finishes e d) cs = refl

  pushed_late : (cs : List (Call A)) → pushed true cs ≡ []
  pushed_late [] = refl
  pushed_late (pushes v ∷ cs) = pushed_late cs
  pushed_late (nexts n ∷ cs) = pushed_late cs
  pushed_late (finishes e d ∷ cs) = pushed_late cs

  append-empty : (xs ys : List A) → xs ++ ys ≡ [] → (xs ≡ []) × (ys ≡ [])
  append-empty [] ys h = (refl, h)
  append-empty (x ∷ xs) ys h = cc

  -- An end that discards leaves nothing to be delivered, so that what it throws away comes last.
  lost_last :
      (q : AsyncQueue A) (c : Call A) (rest : List A)
      → IsTidy q
      → ((step q c).0.ended ≡ true → (step q c).0.values ≡ [] → rest ≡ [])
      → rest ++ lost_by q c ≡ lost_by q c ++ rest
  unfolding step push next finish
  lost_last q (pushes v) rest t late = append-nil rest
  lost_last q (nexts n) rest t late = append-nil rest
  lost_last q (finishes e d) rest t late = ground (arith, append-nil rest, append-nil q.values)

  -- Whatever the calls, with ends that keep the stored values and ends that discard them, from a
  -- queue where nobody waits beside a stored value: what is delivered, followed by what an end threw
  -- away, followed by what stays stored, is what was stored followed by what was pushed before the end.
  pub run_values :
      (q : AsyncQueue A) (cs : List (Call A))
      → IsTidy q
      → delivered (run q cs).1 ++ (lost q cs ++ (run q cs).0.values) ≡ q.values ++ pushed q.ended cs
  unfolding run lost
  run_values q [] t = simp append-nil
  run_values q (c ∷ cs) t =
      let q1 = (step q c).0 in
      let later = run_values q1 cs (step-IsTidy q c t) in
      let last : delivered (run q1 cs).1 ++ lost_by q c ≡ lost_by q c ++ delivered (run q1 cs).1 =
        lost_last q c (delivered (run q1 cs).1) t (λ over none_left.
          (append-empty (delivered (run q1 cs).1) _
            (later ∙ rw (over, none_left) (pushed_late cs))).0) in
      rw
        (
          delivered-append (step q c).1 (run q1 cs).1,
          append_assoc (delivered (step q c).1),
          append_assoc (lost_by q c),
          ← append_assoc (delivered (run q1 cs).1) (lost_by q c),
          last,
          append_assoc (lost_by q c),
          later,
          ← append_assoc (lost_by q c),
          ← append_assoc (delivered (step q c).1),
          step_values q c t,
          pushed-cons q c cs,
        )
        (append_assoc q.values (pushed q.ended (c ∷ [])) _)

  -- Likewise, with ends of both kinds, the calls of `next` are settled in the order in which they were
  -- made: the tickets settled, followed by those that wait, are those that waited followed by the new
  -- ones.
  pub run_tickets :
      (q : AsyncQueue A) (cs : List (Call A))
      → IsTidy q
      → served (run q cs).1 ++ (run q cs).0.waiters ≡ q.waiters ++ asked cs
  unfolding run
  run_tickets q [] t = simp append-nil
  run_tickets q (c ∷ cs) t =
      rw
        (
          served-append (step q c).1 (run (step q c).0 cs).1,
          append_assoc (served (step q c).1),
          run_tickets (step q c).0 cs (step-IsTidy q c t),
          ← append_assoc (served (step q c).1),
          step_tickets q c t,
          asked-cons c cs,
        )
        (append_assoc q.waiters (asked (c ∷ [])) _)

  -- A push that succeeds finds the queue open, and leaves it open.
  pub push-ended :
      (q q' : AsyncQueue A) (v : A) (settled : List (Settled A))
      → push q v ≡ ok (q', settled)
      → q'.ended ≡ q.ended
  unfolding push
  push-ended q q' v settled h = ground arith
