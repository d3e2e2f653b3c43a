-- ===== src/Profile/DatagramRouting/Latest/Fresh.antt =====
-- A call of `sendLatest` is answered after data as new as its own was handed to `send`.
use pure_reactive_protocol.Prelude.{
  ℕ, suc, ◌≤◌, ◌<◌, ◌≡◌, refl, ap, subst, max, Option, none, some, List, [], ◌∷◌, ◌++◌, map, All,
  All-append, arith,
}
use pure_reactive_protocol.Failure.{Failure}
use pure_reactive_protocol.Profile.DatagramRouting.Latest.Order.{IsAnswered, run_latest-IsAnswered}
use pure_reactive_protocol.Profile.DatagramRouting.Latest.{
  LatestEntry, LatestState, idle, drain_latest, send_latest, send_latest_to, send_settled,
  send_settled_at, LatestEvent, called, settled, run_latest,
}

module _ {ℓ} {A : Type ℓ} (number : A → ℕ) where
  -- One more than the largest number among what was sent.
  abbrev pub reach : List A → ℕ
  reach [] = 0
  reach (content ∷ rest) = max (suc (number content)) (reach rest)

  -- Each call's data has the number of the call.
  abbrev pub IsNumbered : ℕ → List (LatestEvent A) → Type 0
  IsNumbered next [] = Unit
  IsNumbered next (called content ∷ events) = (number content ≡ next) × IsNumbered (suc next) events
  IsNumbered next (settled outcome ∷ events) = IsNumbered next events

  abbrev pub IsReached : List A → List (ℕ × Option Failure) → Type 0
  IsReached sent = All (λ (p : ℕ × Option Failure). p.0 < reach sent)

  abbrev IsFreshEntry : List A → ℕ → Option (LatestEntry A) → Type 0
  IsFreshEntry sent next none = Unit
  IsFreshEntry sent next (some e) =
      (suc (number e.newest) ≡ next)
      × All (λ ticket. ticket < reach sent) e.sending
      × All (λ ticket. ticket < next) e.waiters

  abbrev IsFresh : LatestState A → ℕ → Type 0
  IsFresh s next = IsReached s.sent s.settled × IsFreshEntry s.sent next s.entry

  reach-append :
      (sent : List A) (content : A)
      → (reach sent ≤ reach (sent ++ content ∷ []))
        × (suc (number content) ≤ reach (sent ++ content ∷ []))
  reach-append [] content = omega arith
  reach-append (c ∷ sent) content = let (old, new) = reach-append sent content in omega arith

  All-le :
      (ts : List ℕ) (m n : ℕ)
      → m ≤ n
      → All (λ ticket. ticket < m) ts
      → All (λ ticket. ticket < n) ts
  All-le [] m n h all = tt
  All-le (t ∷ ts) m n h (p, all) = (omega arith, All-le ts m n h all)

  IsReached-le :
      (ps : List (ℕ × Option Failure)) (sent sent' : List A)
      → reach sent ≤ reach sent'
      → IsReached sent ps
      → IsReached sent' ps
  IsReached-le [] sent sent' h all = tt
  IsReached-le (p ∷ ps) sent sent' h (q, all) = (omega arith, IsReached-le ps sent sent' h all)

  drain-IsFresh :
      (s : LatestState A) (next : ℕ) (e : LatestEntry A) (waiters : List ℕ)
      → IsReached s.sent s.settled
      → suc (number e.newest) ≡ next
      → All (λ ticket. ticket < next) waiters
      → IsFresh (drain_latest s e waiters) next
  unfolding drain_latest
  drain-IsFresh s next e [] reached newest waiting = (reached, tt)
  drain-IsFresh s next e (ticket ∷ waiters) reached newest waiting =
      let (old, new) = reach-append s.sent e.newest in
      let sent = s.sent ++ e.newest ∷ [] in
      (
        IsReached-le s.settled s.sent sent old reached,
        (newest, All-le (ticket ∷ waiters) next (reach sent) (omega arith) waiting, tt),
      )

  send_latest-IsFresh :
      (s : LatestState A) (next : ℕ) (content : A) (entry : Option (LatestEntry A))
      → IsReached s.sent s.settled
      → IsFreshEntry s.sent next entry
      → number content ≡ next
      → IsFresh (send_latest_to s content next entry) (suc next)
  unfolding send_latest_to
  send_latest-IsFresh s next content none reached fresh same =
      drain-IsFresh s (suc next) (record { newest = content; waiters = next ∷ []; sending = [] })
        (next ∷ []) reached (ap suc same) (omega arith)
  send_latest-IsFresh s next content (some e) reached (newest, sending, waiting) same = (
    reached,
    (
      ap suc same,
      sending,
      All-append (λ ticket. ticket < suc next) e.waiters (next ∷ [])
          (All-le e.waiters next (suc next) (omega arith) waiting) (omega arith),
    ),
  )

  outcome-IsReached :
      (sent : List A) (outcome : Option Failure) (ts : List ℕ)
      → All (λ ticket. ticket < reach sent) ts
      → IsReached sent (map (λ ticket. (ticket, outcome)) ts)
  outcome-IsReached sent outcome [] all = tt
  outcome-IsReached sent outcome (t ∷ ts) (p, all) = (p, outcome-IsReached sent outcome ts all)

  send_settled-IsFresh :
      (s : LatestState A) (next : ℕ) (outcome : Option Failure) (entry : Option (LatestEntry A))
      → IsReached s.sent s.settled
      → IsFreshEntry s.sent next entry
      → entry ≡ s.entry
      → IsFresh (send_settled_at s outcome entry) next
  unfolding send_settled_at
  send_settled-IsFresh s next outcome none reached fresh same =
      (reached, subst (IsFreshEntry s.sent next) same fresh)
  send_settled-IsFresh s next outcome (some e) reached (newest, sending, waiting) same =
      let answers = map (λ ticket. (ticket, outcome)) e.sending in
      drain-IsFresh (record s { settled = s.settled ++ answers }) next (record e { sending = [] })
        e.waiters
        (All-append (λ (p : ℕ × Option Failure). p.0 < reach s.sent) s.settled answers reached
          (outcome-IsReached s.sent outcome e.sending sending))
        newest waiting

  run_latest-IsFresh :
      (events : List (LatestEvent A)) (s : LatestState A) (next : ℕ)
      → IsFresh s next
      → IsNumbered next events
      → IsFresh (run_latest s next events).0 (run_latest s next events).1
  unfolding run_latest send_latest send_settled
  run_latest-IsFresh [] s next fresh numbered = fresh
  run_latest-IsFresh (called content ∷ events) s next (reached, fresh) (same, numbered) =
      run_latest-IsFresh events (send_latest s content next) (suc next)
        (send_latest-IsFresh s next content s.entry reached fresh same) numbered
  run_latest-IsFresh (settled outcome ∷ events) s next (reached, fresh) numbered =
      run_latest-IsFresh events (send_settled s outcome) next
        (send_settled-IsFresh s next outcome s.entry reached fresh refl) numbered

  -- From the start on, whatever calls and ends of sends follow each other: the calls answered,
  -- followed by those pending, are all the calls in order; while any is pending a send is under way
  -- that answers one; and a call is answered only after `send` was called with data at least as new
  -- as its own. Data is told apart by the number of its call.
  pub run_latest_lem :
      (events : List (LatestEvent A))
      → IsNumbered 0 events
      → IsAnswered (run_latest idle 0 events).0 (run_latest idle 0 events).1
        × IsReached (run_latest idle 0 events).0.sent (run_latest idle 0 events).0.settled
  run_latest_lem events numbered = (
    run_latest-IsAnswered events idle 0 (refl, tt),
    (run_latest-IsFresh events idle 0 (tt, tt) numbered).0,
  )
