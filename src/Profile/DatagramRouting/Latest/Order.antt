-- ===== src/Profile/DatagramRouting/Latest/Order.antt =====
-- Every call of `sendLatest` is answered, in order, by a send of data as new as its own.
use pure_reactive_protocol.Prelude.{
  ℕ, zero, suc, ◌≤◌, ◌≡◌, refl, sym, ap, subst, ◌∙◌, Option, none, some, List, [], ◌∷◌, ◌++◌, map,
  length, append_assoc, append-nil, arith,
}
use pure_reactive_protocol.Failure.{Failure}
use pure_reactive_protocol.Profile.DatagramRouting.Latest.{
  LatestEntry, LatestState, drain_latest, send_latest, send_latest_to, send_settled,
  send_settled_at, LatestEvent, called, settled, run_latest,
}

-- The tickets of the promises that are pending.
abbrev pub pending {ℓ} : {A : Type ℓ} → Option (LatestEntry A) → List ℕ
pending none = []
pending (some e) = e.sending ++ e.waiters

abbrev pub tickets : List (ℕ × Option Failure) → List ℕ
tickets [] = []
tickets (p ∷ rest) = p.0 ∷ tickets rest

-- The numbers below `n`.
abbrev pub below : ℕ → List ℕ
below zero = []
below (suc n) = below n ++ n ∷ []

-- A send is under way.
abbrev pub IsBusy {ℓ} : {A : Type ℓ} → Option (LatestEntry A) → Type 0
IsBusy none = Unit
IsBusy (some e) = 1 ≤ length e.sending

abbrev pub IsAnswered {ℓ} : {A : Type ℓ} → LatestState A → ℕ → Type 0
IsAnswered s next = (tickets s.settled ++ pending s.entry ≡ below next) × IsBusy s.entry

tickets-append :
    (xs : List (ℕ × Option Failure)) (ys : List (ℕ × Option Failure))
    → tickets (xs ++ ys) ≡ tickets xs ++ tickets ys
tickets-append [] ys = refl
tickets-append (x ∷ xs) ys = ap (◌∷◌ x.0) (tickets-append xs ys)

tickets-map :
    (outcome : Option Failure) (ts : List ℕ) → tickets (map (λ ticket. (ticket, outcome)) ts) ≡ ts
tickets-map outcome [] = refl
tickets-map outcome (t ∷ ts) = ap (◌∷◌ t) (tickets-map outcome ts)

module _ {ℓ} {A : Type ℓ} where
  -- The loop's head takes all that wait.
  drain_latest_lem :
      (s : LatestState A) (e : LatestEntry A) (waiters : List ℕ)
      → ((drain_latest s e waiters).settled ≡ s.settled)
        × (pending (drain_latest s e waiters).entry ≡ waiters)
        × IsBusy (drain_latest s e waiters).entry
  unfolding drain_latest
  drain_latest_lem s e [] = (refl, refl, tt)
  drain_latest_lem s e (ticket ∷ waiters) = (refl, append-nil (ticket ∷ waiters), omega arith)

  send_latest-IsAnswered :
      (s : LatestState A) (next : ℕ) (content : A) (entry : Option (LatestEntry A))
      → (tickets s.settled ++ pending entry ≡ below next) × IsBusy entry
      → IsAnswered (send_latest_to s content next entry) (suc next)
  unfolding send_latest_to drain_latest
  send_latest-IsAnswered s next content none (all, busy) =
      (ap (λ ts. ts ++ next ∷ []) (sym (append-nil (tickets s.settled)) ∙ all), omega arith)
  send_latest-IsAnswered s next content (some e) (all, busy) = (
    sym (
          append_assoc (tickets s.settled) (e.sending ++ e.waiters) (next ∷ [])
          ∙ ap (λ ts. tickets s.settled ++ ts) (append_assoc e.sending e.waiters (next ∷ [])))
        ∙ ap (λ ts. ts ++ next ∷ []) all,
    busy,
  )

  send_settled-IsAnswered :
      (s : LatestState A) (next : ℕ) (outcome : Option Failure) (entry : Option (LatestEntry A))
      → (tickets s.settled ++ pending entry ≡ below next) × IsBusy entry
      → entry ≡ s.entry
      → IsAnswered (send_settled_at s outcome entry) next
  unfolding send_settled_at
  send_settled-IsAnswered s next outcome none answered same =
      subst
        (λ (entry : Option (LatestEntry A)).
          (tickets s.settled ++ pending entry ≡ below next) × IsBusy entry)
        same answered
  send_settled-IsAnswered s next outcome (some e) (all, busy) same =
      let after : LatestState A = record s {
        settled = s.settled ++ map (λ ticket. (ticket, outcome)) e.sending;
      } in
      let (kept, waiting, busy') = drain_latest_lem after (record e { sending = [] }) e.waiters in
      let answered : tickets after.settled ≡ tickets s.settled ++ e.sending =
        tickets-append s.settled _
        ∙ ap (λ ts. tickets s.settled ++ ts) (tickets-map outcome e.sending) in
      (
        rw (kept, waiting, answered, append_assoc (tickets s.settled) e.sending e.waiters) all,
        busy',
      )

  pub run_latest-IsAnswered :
      (events : List (LatestEvent A)) (s : LatestState A) (next : ℕ)
      → IsAnswered s next
      → IsAnswered (run_latest s next events).0 (run_latest s next events).1
  unfolding run_latest send_latest send_settled
  run_latest-IsAnswered [] s next answered = answered
  run_latest-IsAnswered (called content ∷ events) s next answered =
      run_latest-IsAnswered events (send_latest s content next) (suc next)
        (send_latest-IsAnswered s next content s.entry answered)
  run_latest-IsAnswered (settled outcome ∷ events) s next answered =
      run_latest-IsAnswered events (send_settled s outcome) next
        (send_settled-IsAnswered s next outcome s.entry answered refl)
