-- ===== src/Core/Session/Sound/Table.antt =====
-- The three ways in which the map of streams changes keep a session sound.
use pure_reactive_protocol.Prelude.{
  ℕ, ◌+◌, ◌-◌, ◌≤◌, ◌<◌, ◌%◌, ◌≡◌, ◌≢◌, ◌⊎◌, refl, Bool, false, none, some, List, [], ◌∷◌, ◌++◌,
  All, length, length-append, arith,
}
use pure_reactive_protocol.Core.Session.State.{Session, StreamState}
use pure_reactive_protocol.Core.Session.Table.{
  find_stream, put_stream, sum_of-put, sum_of-put_new, sum_of-remove, All-put, All-remove, All-find,
}
use pure_reactive_protocol.Core.Session.Retire.{
  delete_stream, retire, retire_list, drop_oldest, first_remote_id,
}
use pure_reactive_protocol.Core.Session.Receive.{admit}
use pure_reactive_protocol.Core.Session.Sound.{
  IsSound, IsLive, IsAllocated, held_bytes, counts_local, counts_remote, retained_bytes,
}

-- Two states of one stream agree in what never changes.
pub record IsSame (new old : StreamState) : Type 0 where
  pub same_origin : new.initiated_locally ≡ old.initiated_locally
  pub same_retained : new.retained_attribute_bytes ≡ old.retained_attribute_bytes

IsAllocated-put :
    (s : Session) (new old : StreamState)
    → IsSound s
    → find_stream new.id s.streams ≡ some old
    → All
        (IsAllocated (first_remote_id s.origin) s.highest_remote_stream_id s.next_stream_id)
        (put_stream new s.streams)
IsAllocated-put s new old h found =
    let Known =
      IsAllocated (first_remote_id s.origin) s.highest_remote_stream_id s.next_stream_id in
    let (same, known) = All-find Known new.id s.streams old found h.allocated in
    All-put Known new s.streams (ground arith) h.allocated

-- No stream of the map has an id that is not allocated.
pub find_fresh :
    (first highest next id : ℕ) (l : List StreamState)
    → All (IsAllocated first highest next) l
    → ((id % 2 ≡ first % 2) × (highest < id)) ⊎ ((id % 2 ≢ first % 2) × (next ≤ id))
    → find_stream id l ≡ none
unfolding find_stream
find_fresh first highest next id [] a fresh = refl
find_fresh first highest next id (st ∷ l) a fresh =
    ground (arith, find_fresh first highest next id l a.1)

-- A stream changes, and the bytes that it holds for reassembly with it.
pub put-IsSound :
    (s : Session) (new old : StreamState) (n : ℕ)
    → IsSound s
    → find_stream new.id s.streams ≡ some old
    → IsSame new old
    → IsLive s.limits new
    → n + held_bytes old ≡ s.in_flight_reassembly_bytes + held_bytes new
    → n ≤ s.limits.max_in_flight_reassembly_bytes
    → IsSound (record s { streams = put_stream new s.streams; in_flight_reassembly_bytes = n })
put-IsSound s new old n h found same live bytes fits = record {
  reassembly_sum = omega (arith, sum_of-put held_bytes s.streams new old found);
  reassembly_bound = fits;
  local_count = ground (arith, sum_of-put counts_local s.streams new old found);
  remote_count = ground (arith, sum_of-put counts_remote s.streams new old found);
  remote_bound = h.remote_bound;
  retained_sum = omega (arith, sum_of-put retained_bytes s.streams new old found);
  retained_bound = h.retained_bound;
  retired_bound = h.retired_bound;
  live = All-put (IsLive s.limits) new s.streams live h.live;
  highest_parity = h.highest_parity;
  next_parity = h.next_parity;
  allocated = IsAllocated-put s new old h found;
}

-- A stream leaves the map, and the bytes that it held are given back.
pub delete-IsSound :
    (s : Session) (new old : StreamState) (n : ℕ)
    → IsSound s
    → find_stream new.id s.streams ≡ some old
    → IsSame new old
    → n + held_bytes old ≡ s.in_flight_reassembly_bytes
    → IsSound (delete_stream new (record s { in_flight_reassembly_bytes = n }))
unfolding delete_stream
delete-IsSound s new old n h found same bytes =
    rw (found, delete_stream)
      (record {
        reassembly_sum = omega (arith, sum_of-remove held_bytes new.id s.streams old found);
        reassembly_bound = omega arith;
        local_count = ground (arith, sum_of-remove counts_local new.id s.streams old found);
        remote_count = ground (arith, sum_of-remove counts_remote new.id s.streams old found);
        remote_bound = ground arith;
        retained_sum = omega (arith, sum_of-remove retained_bytes new.id s.streams old found);
        retained_bound = omega arith;
        retired_bound = h.retired_bound;
        live = All-remove (IsLive s.limits) new.id s.streams h.live;
        highest_parity = h.highest_parity;
        next_parity = h.next_parity;
        allocated =
            All-remove
              (IsAllocated (first_remote_id s.origin) s.highest_remote_stream_id s.next_stream_id)
              new.id s.streams h.allocated;
      })

length-drop_oldest : (l : List (ℕ × Bool)) → length (drop_oldest l) ≡ length l - 1
unfolding drop_oldest
length-drop_oldest [] = omega arith
length-drop_oldest (x ∷ l) = omega arith

retire_list_bound :
    (m id : ℕ) (late : Bool) (l : List (ℕ × Bool))
    → length l ≤ m
    → length (retire_list m id late l) ≤ m
unfolding retire_list
retire_list_bound m id late l h =
    ground (arith, length-append l ((id, late) ∷ []), length-drop_oldest (l ++ (id, late) ∷ []))

pub retire-IsSound : (s : Session) (id : ℕ) (late : Bool) → IsSound s → IsSound (retire id late s)
unfolding retire
retire-IsSound s id late h = record {
  reassembly_sum = h.reassembly_sum;
  reassembly_bound = h.reassembly_bound;
  local_count = h.local_count;
  remote_count = h.remote_count;
  remote_bound = h.remote_bound;
  retained_sum = h.retained_sum;
  retained_bound = h.retained_bound;
  retired_bound =
      retire_list_bound s.limits.max_retired_streams id late s.retired_streams h.retired_bound;
  live = h.live;
  highest_parity = h.highest_parity;
  next_parity = h.next_parity;
  allocated = h.allocated;
}

-- A stream of the peer that is within the limits enters the map.
pub admit-IsSound :
    (s : Session) (new : StreamState)
    → IsSound s
    → find_stream new.id s.streams ≡ none
    → IsLive s.limits new
    → new.initiated_locally ≡ false
    → new.reassembly ≡ none
    → s.remote_active_streams < s.limits.max_inbound_streams
    → s.retained_stream_attribute_bytes + new.retained_attribute_bytes
      ≤ s.limits.max_retained_stream_attribute_bytes
    → IsAllocated (first_remote_id s.origin) s.highest_remote_stream_id s.next_stream_id new
    → IsSound (admit new s)
unfolding admit
admit-IsSound s new h fresh live remote whole room budget known = record {
  reassembly_sum = ground (arith, sum_of-put_new held_bytes s.streams new fresh);
  reassembly_bound = h.reassembly_bound;
  local_count = ground (arith, sum_of-put_new counts_local s.streams new fresh);
  remote_count = ground (arith, sum_of-put_new counts_remote s.streams new fresh);
  remote_bound = omega arith;
  retained_sum = omega (arith, sum_of-put_new retained_bytes s.streams new fresh);
  retained_bound = budget;
  retired_bound = h.retired_bound;
  live = All-put (IsLive s.limits) new s.streams live h.live;
  highest_parity = h.highest_parity;
  next_parity = h.next_parity;
  allocated =
      All-put (IsAllocated (first_remote_id s.origin) s.highest_remote_stream_id s.next_stream_id)
        new s.streams known h.allocated;
}
