-- ===== src/Core/Session/Sound/Opening.antt =====
-- Opening a stream keeps the invariant of the session, and changes nothing if it fails.
use pure_reactive_protocol.Prelude.{
  ℕ, ◌+◌, ◌-◌, ◌%◌, ◌≤◌, ◌≡◌, ◌≢◌, ◌⊎◌, ◌∙◌, refl, ap, sym, subst, Bool, Bool-cases, Option-cases,
  inl, true, false, none, some, List, [], ◌∷◌, All, ltb, leb, if◌then◌else◌, arith, inr,
}
use pure_reactive_protocol.Failure.{Failure, Result, ok, err}
use pure_reactive_protocol.Core.Limits.{max_u64}
use pure_reactive_protocol.Core.Attributes.{ProtocolAttribute, TextCodec}
use pure_reactive_protocol.Core.Session.State.{
  Session, StreamState, Host, create_stream_state, detached,
}
use pure_reactive_protocol.Core.Session.Table.{
  find_stream, put_stream, remove_stream, find-put, sum_of-put_new, All-put,
}
use pure_reactive_protocol.Core.Session.Retire.{first_remote_id, detach, is_over}
use pure_reactive_protocol.Core.Frame.{ProtocolFrame}
use pure_reactive_protocol.Core.Session.Local.{assert_ready}
use pure_reactive_protocol.Core.Session.Lane.{Lane, Written}
use pure_reactive_protocol.Core.Session.Sound.Writing.{
  write_turn-IsWrite, write_turn-ends, detach_next, detach_over,
}
use pure_reactive_protocol.Core.Session.Sound.Ending.{IsCleared}
use pure_reactive_protocol.Core.Session.Sound.Order.{detach-IsCleared}
use pure_reactive_protocol.Core.Session.Opening.{
  Opened, enter_local, take_back, advance, write_turn, write_queued, open_frame, or_refuse,
  finish_open, open_stream_state, open_next,
}
use pure_reactive_protocol.Core.Session.Sound.{
  IsSound, IsBalanced, Books, books, IsLive, IsAllocated, held_bytes, counts_local, counts_remote,
  retained_bytes,
}
use pure_reactive_protocol.Core.Session.Sound.Table.{find_fresh}
use pure_reactive_protocol.Core.Session.Sound.Opens.{new_IsLive}

IsAllocated-raise :
    (first highest next : ℕ) (l : List StreamState)
    → All (IsAllocated first highest next) l
    → All (IsAllocated first highest (next + 2)) l
IsAllocated-raise first highest next [] a = tt
IsAllocated-raise first highest next (st ∷ l) a =
    (ground arith, IsAllocated-raise first highest next l a.1)

created_local :
    (codec : TextCodec) (id : ℕ) (attributes : List ProtocolAttribute)
    → let st = create_stream_state codec id attributes true in
      (st.id ≡ id) × (st.reassembly ≡ none) × (st.initiated_locally ≡ true)
unfolding create_stream_state
created_local codec id attributes = (refl, refl, refl)

remove-put :
    (st : StreamState) (l : List StreamState)
    → find_stream st.id l ≡ none
    → remove_stream st.id (put_stream st l) ≡ l
unfolding find_stream put_stream remove_stream
remove-put st [] h = ground arith
remove-put st (x ∷ l) h = ground (arith, remove-put st l)

-- What is shown of an attempt to open a stream of `s`.
abbrev pub IsOpening : Session → Opened → Type 0
IsOpening s (later, err e) =
    ((books later ≡ books s) × (later.state ≡ s.state))
    ⊎ ((later.state ≡ detached) × IsCleared later × IsSound later)
IsOpening s (later, ok opened) =
    IsSound later
    × (opened.id ≡ s.next_stream_id)
    × (find_stream opened.id s.streams ≡ none)
    × (find_stream opened.id later.streams ≡ some opened)

IsCleared-numbered :
    (y : Session) (k : ℕ) → IsCleared y → IsCleared (record y { outgoing_sequence = k })
IsCleared-numbered y k c = record {
  no_streams = c.no_streams;
  nothing_held = c.nothing_held;
  none_local = c.none_local;
  none_remote = c.none_remote;
  nothing_retained = c.nothing_retained;
  nothing_pending = c.nothing_pending;
}

-- A detached session, with its books cleared.
abbrev IsDetached : Session → Type 0
IsDetached y = (y.state ≡ detached) × IsCleared y × IsSound y

-- Nothing hangs on the next id, but for its parity.
IsDetached-earlier :
    (y : Session) (n : ℕ)
    → y.next_stream_id ≡ n
    → IsDetached (record y { next_stream_id = n + 2 })
    → IsDetached y
IsDetached-earlier y n same (state, cleared, sound) =
    let parity : y.next_stream_id % 2 ≢ first_remote_id y.origin % 2 =
      λ e. sound.next_parity (omega (arith, e, same)) in
    (
      state,
      record {
        no_streams = cleared.no_streams;
        nothing_held = cleared.nothing_held;
        none_local = cleared.none_local;
        none_remote = cleared.none_remote;
        nothing_retained = cleared.nothing_retained;
        nothing_pending = cleared.nothing_pending;
      },
      record {
        reassembly_sum = sound.reassembly_sum;
        reassembly_bound = sound.reassembly_bound;
        local_count = sound.local_count;
        remote_count = sound.remote_count;
        remote_bound = sound.remote_bound;
        retained_sum = sound.retained_sum;
        retained_bound = sound.retained_bound;
        retired_bound = sound.retired_bound;
        live = sound.live;
        highest_parity = sound.highest_parity;
        next_parity = parity;
        allocated =
            subst
              (All (
                IsAllocated (first_remote_id y.origin) y.highest_remote_stream_id y.next_stream_id))
              (sym cleared.no_streams) tt;
      },
    )

module _ (s : Session) (h : IsSound s) (st : StreamState) (same_id : st.id ≡ s.next_stream_id) where
  fresh_id : find_stream st.id s.streams ≡ none
  fresh_id =
      find_fresh (first_remote_id s.origin) s.highest_remote_stream_id s.next_stream_id st.id
        s.streams h.allocated (inr (ground (arith, h.next_parity)))

  taken_back :
      (y : Session)
      → books y ≡ books (enter_local st s)
      → books (record y {
        streams = remove_stream st.id y.streams;
        local_active_streams = y.local_active_streams - 1;
        retained_stream_attribute_bytes =
            y.retained_stream_attribute_bytes - st.retained_attribute_bytes;
      })
        ≡ books s
  unfolding enter_local
  taken_back y same =
      let count : s.local_active_streams + 1 - 1 ≡ s.local_active_streams = omega arith in
      let kept : s.retained_stream_attribute_bytes + st.retained_attribute_bytes
            - st.retained_attribute_bytes
          ≡ s.retained_stream_attribute_bytes =
        omega arith in
      ap
        (λ (b : Books). record b {
          streams = remove_stream st.id b.streams;
          local_active_streams = b.local_active_streams - 1;
          retained_stream_attribute_bytes =
              b.retained_stream_attribute_bytes - st.retained_attribute_bytes;
        })
        same
      ∙ rw (remove-put st s.streams fresh_id, count, kept) refl

  -- The stream enters the map under the next id.
  opened-IsSound :
      IsLive s.limits st
      → st.reassembly ≡ none
      → st.initiated_locally ≡ true
      → s.retained_stream_attribute_bytes + st.retained_attribute_bytes
        ≤ s.limits.max_retained_stream_attribute_bytes
      → IsSound (advance (enter_local st s))
  unfolding enter_local
  opened-IsSound live whole own budget = record {
    reassembly_sum =
        ground (arith, sum_of-put_new held_bytes s.streams st fresh_id, h.reassembly_sum);
    reassembly_bound = h.reassembly_bound;
    local_count = ground (arith, sum_of-put_new counts_local s.streams st fresh_id, h.local_count);
    remote_count =
        ground (arith, sum_of-put_new counts_remote s.streams st fresh_id, h.remote_count);
    remote_bound = h.remote_bound;
    retained_sum =
        omega (arith, sum_of-put_new retained_bytes s.streams st fresh_id, h.retained_sum);
    retained_bound = budget;
    retired_bound = h.retired_bound;
    live = All-put (IsLive s.limits) st s.streams live h.live;
    highest_parity = h.highest_parity;
    next_parity = λ e. h.next_parity (omega arith);
    allocated =
        All-put
          (IsAllocated (first_remote_id s.origin) s.highest_remote_stream_id (s.next_stream_id + 2))
          st s.streams (inr (λ e. h.next_parity (omega arith), omega arith))
          (IsAllocated-raise (first_remote_id s.origin) s.highest_remote_stream_id s.next_stream_id
            s.streams h.allocated);
  }

  -- What the session is while the frames are written: it has the stream, or it was detached.
  abbrev IsEntered : Session → Type 0
  IsEntered y =
      ((books y ≡ books (enter_local st s)) × (y.state ≡ s.state))
      ⊎ ((y.state ≡ detached) × IsCleared y × IsSound y)

  module _ (opened : IsSound (advance (enter_local st s))) where
    advanced : (y : Session) → books y ≡ books (enter_local st s) → IsSound (advance y)
    advanced y same =
        subst (λ b. IsBalanced (record b { next_stream_id = b.next_stream_id + 2 })) (sym same)
          opened

    detach-IsEntered :
        (e : Failure) (y : Session)
        → books y ≡ books (enter_local st s)
        → is_over y.state ≡ false
        → IsEntered (detach e y)
    detach-IsEntered e y same live =
        let (state, cleared, sound, _) = detach-IsCleared e e (advance y) (advanced y same) live in
        let moved = detach_next e y (y.next_stream_id + 2) in
        let back : IsDetached (record (detach e y) { next_stream_id = y.next_stream_id + 2 }) =
          subst IsDetached moved (state, cleared, sound) in
        let next : (detach e y).next_stream_id ≡ y.next_stream_id =
          ap (λ (x : Session). x.next_stream_id) (detach_next e y y.next_stream_id) in
        inr (IsDetached-earlier (detach e y) y.next_stream_id next back)

    write_turn-IsEntered :
        (host : Host) (compact : Bool) (lane : Lane) (f : ProtocolFrame) (y : Session)
        → IsEntered y
        → IsEntered (write_turn host compact lane f y).session
    write_turn-IsEntered host compact lane f y entered =
        elim (write_turn-IsWrite host compact lane f y) [
          | inl (k, same) ↦ subst IsEntered (sym same) (elim entered [
            | inl kept ↦ inl kept
            | inr (gone, cleared, sound) ↦ inr (gone, IsCleared-numbered y k cleared, sound)
          ])
          | inr (e, same, thrown) ↦
              subst IsEntered (sym same) (elim (Bool-cases (is_over y.state)) [
                | inl over ↦ subst IsEntered (sym (detach_over e y over)) entered
                | inr live ↦ elim entered [
                  | inl (kept, state) ↦ detach-IsEntered e y kept live
                  | inr (gone, cleared, sound) ↦ let never = rw gone at live in cc
                ]
              ])
        ]

    write_queued-IsEntered :
        (host : Host) (compact : Bool) (lane : Lane) (frames : List ProtocolFrame) (y : Session)
        → IsEntered y
        → IsEntered (write_queued host compact lane frames y)
    unfolding write_queued
    write_queued-IsEntered host compact lane [] y entered = entered
    write_queued-IsEntered host compact lane (f ∷ rest) y entered =
        write_queued-IsEntered host compact lane rest _
          (write_turn-IsEntered host compact lane f y entered)

    -- Taking the stream back leaves the books of the session as they were.
    take_back-IsOpening :
        (e : Failure) (y : Session) → IsEntered y → IsOpening s (take_back st y, err e)
    unfolding take_back enter_local
    take_back-IsOpening e y (inl (same, state)) =
        let streams : y.streams ≡ put_stream st s.streams = ap (λ (b : Books). b.streams) same in
        let found : find_stream st.id y.streams ≡ some st =
          ap (find_stream st.id) streams ∙ find-put st s.streams in
        inl (rw (found, take_back) (taken_back y same, state))
    take_back-IsOpening e y (inr (gone, cleared, sound)) =
        let absent : find_stream st.id y.streams ≡ none =
          ap (find_stream st.id) cleared.no_streams ∙ unfold find_stream in refl in
        inr (rw (absent, take_back) (gone, cleared, sound))

    finish_open-IsOpening :
        (w : Written)
        → IsEntered w.session
        → (is_over w.session.state ≡ true → w.failure ≢ none)
        → IsOpening s (finish_open st w)
    unfolding finish_open put_stream find_stream enter_local
    finish_open-IsOpening w entered throws = elim (Option-cases w.failure) [
      | inr (e, failed) ↦ rw (failed, finish_open) (take_back-IsOpening e w.session entered)
      | inl fine ↦
          rw (fine, finish_open)
            (elim entered [
              | inl (same, state) ↦ (
                advanced w.session same,
                same_id,
                fresh_id,
                ap (λ (b : Books). find_stream st.id b.streams) same ∙ find-put st s.streams,
              )
              | inr (gone, cleared, sound) ↦ elim (throws (ap is_over gone) fine) [ ]
            ])
    ]

written-IsOpening :
    (s : Session) (h : IsSound s) (st : StreamState) (same_id : st.id ≡ s.next_stream_id)
    (host : Host) (compact : Bool) (lane : Lane)
    → IsSound (advance (enter_local st s))
    → IsOpening s (open_stream_state host compact lane st s)
unfolding open_stream_state enter_local
written-IsOpening s h st same_id host compact lane opened =
    let start : Session = record (enter_local st s) { outgoing = [] } in
    let queued = write_queued host compact lane (enter_local st s).outgoing start in
    let entered =
      write_queued-IsEntered s h st same_id opened host compact lane (enter_local st s).outgoing
        start (inl (refl, refl)) in
    finish_open-IsOpening s h st same_id opened
      (write_turn host compact lane (open_frame st) queued)
      (write_turn-IsEntered s h st same_id opened host compact lane (open_frame st) queued entered)
      (write_turn-ends host compact lane (open_frame st) queued)

guarded-IsOpening :
    (s : Session) (refusal : Failure) (over : Bool) (opened : Opened)
    → (over ≡ false → IsOpening s opened)
    → IsOpening s (if over then (s, err refusal) else opened)
guarded-IsOpening s refusal true opened h = inl (refl, refl)
guarded-IsOpening s refusal false opened h = h refl

or_refuse-IsOpening :
    (s : Session) (check : Result (Unit {0})) (opened : Opened)
    → IsOpening s opened
    → IsOpening s (or_refuse s check opened)
or_refuse-IsOpening s (err e) opened h = inl (refl, refl)
or_refuse-IsOpening s (ok passed) opened h = h

-- A call of `open` on a sound session either opens a stream under the session's next id: the id is
-- new, the stream is in the map, and the session stays sound; or it fails and leaves the streams,
-- counters and ids as they were; or it fails because the session was detached while frames were
-- written, with no stream left, all that was counted given back, and sound.
pub open_next-IsOpening :
    (host : Host) (compact : Bool) (lane : Lane) (attributes : List ProtocolAttribute) (s : Session)
    → IsSound s
    → IsOpening s (open_next host compact lane attributes s)
unfolding open_next open_stream_state
open_next-IsOpening host compact lane attributes s h =
    let st = create_stream_state host.codec s.next_stream_id attributes true in
    let (same_id, whole, own) = created_local host.codec s.next_stream_id attributes in
    or_refuse-IsOpening s (assert_ready s) _ (
      guarded-IsOpening s _ (ltb max_u64 s.next_stream_id) _ (λ room.
        guarded-IsOpening s _ (leb s.remote_max_inbound_streams s.local_active_streams) _ (λ few.
          guarded-IsOpening s _
            (ltb s.limits.max_retained_stream_attribute_bytes
              (s.retained_stream_attribute_bytes + st.retained_attribute_bytes))
            _
            (λ fits. written-IsOpening s h st same_id host compact lane (
              opened-IsSound s h st same_id
                (new_IsLive s host.codec s.next_stream_id attributes true) whole own
                (ground arith))))))
