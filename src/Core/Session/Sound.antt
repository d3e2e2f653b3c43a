-- ===== src/Core/Session/Sound.antt =====
-- What holds of a session between two steps: its counters are the sums over its streams and within
-- the limits, and every stream of the map is alive. The modules below show that each step keeps it.
pub mod Table
pub mod Ending
pub mod Streams
pub mod Opens
pub mod Frames
pub mod Bytes
pub mod Order
pub mod Calls
pub mod Closing
pub mod Writing
pub mod Opening
use pure_reactive_protocol.Prelude.{
  ℕ, ◌≤◌, ◌<◌, ◌%◌, ◌≡◌, ◌≢◌, ◌⊎◌, Bool, true, false, ◌&&◌, Option, none, some, List, All, length,
  if◌then◌else◌,
}
use pure_reactive_protocol.Core.Limits.{ProtocolLimits, max_u32}
use pure_reactive_protocol.Core.Session.State.{Session, SessionOrigin, StreamState, ReassemblyState}
use pure_reactive_protocol.Core.Session.Table.{sum_of}
use pure_reactive_protocol.Core.Session.Retire.{reassembly_bytes, first_remote_id}

abbrev pub held_bytes : StreamState → ℕ
held_bytes st = reassembly_bytes st.reassembly

abbrev pub counts_local : StreamState → ℕ
counts_local st = if st.initiated_locally then 1 else 0

abbrev pub counts_remote : StreamState → ℕ
counts_remote st = if st.initiated_locally then 0 else 1

abbrev pub retained_bytes : StreamState → ℕ
retained_bytes st = st.retained_attribute_bytes

-- An unfinished item is short of its length, within the limit, and its stream is open.
abbrev pub IsPartial : ProtocolLimits → Bool → Option ReassemblyState → Type 0
IsPartial limits inbound_closed none = Unit
IsPartial limits inbound_closed (some r) =
    (length r.received < r.total)
    × (r.total ≤ limits.max_inbound_item_bytes)
    × (inbound_closed ≡ false)

-- A stream of the map: not cancelled, open in one direction at least, and its queue ends exactly
-- when the peer has completed.
pub record IsLive (limits : ProtocolLimits) (st : StreamState) : Type 0 where
  pub not_cancelled : st.cancelled ≡ false
  pub half_open : (st.inbound_closed && st.outbound_closed) ≡ false
  pub queue_end : st.incoming.ended ≡ st.inbound_closed
  pub partial : IsPartial limits st.inbound_closed st.reassembly
  pub credit_fits : st.outbound_credit ≤ max_u32

-- A stream's id was allocated by its side: by the peer up to `highest`, or here below `next`. The
-- parity of the peer's ids is that of `first`.
abbrev pub IsAllocated : ℕ → ℕ → ℕ → StreamState → Type 0
IsAllocated first highest next st =
    ((st.id % 2 ≡ first % 2) × (st.id ≤ highest)) ⊎ ((st.id % 2 ≢ first % 2) × (st.id < next))

-- The part of a session that the counters are about.
pub record Books : Type 0 where
  pub limits : ProtocolLimits
  pub origin : Option SessionOrigin
  pub streams : List StreamState
  pub retired_streams : List (ℕ × Bool)
  pub next_stream_id : ℕ
  pub highest_remote_stream_id : ℕ
  pub in_flight_reassembly_bytes : ℕ
  pub local_active_streams : ℕ
  pub remote_active_streams : ℕ
  pub retained_stream_attribute_bytes : ℕ

abbrev pub books : Session → Books
books s = record {
  limits = s.limits;
  origin = s.origin;
  streams = s.streams;
  retired_streams = s.retired_streams;
  next_stream_id = s.next_stream_id;
  highest_remote_stream_id = s.highest_remote_stream_id;
  in_flight_reassembly_bytes = s.in_flight_reassembly_bytes;
  local_active_streams = s.local_active_streams;
  remote_active_streams = s.remote_active_streams;
  retained_stream_attribute_bytes = s.retained_stream_attribute_bytes;
}

pub record IsBalanced (s : Books) : Type 0 where
  pub reassembly_sum : s.in_flight_reassembly_bytes ≡ sum_of held_bytes s.streams
  pub reassembly_bound : s.in_flight_reassembly_bytes ≤ s.limits.max_in_flight_reassembly_bytes
  pub local_count : s.local_active_streams ≡ sum_of counts_local s.streams
  pub remote_count : s.remote_active_streams ≡ sum_of counts_remote s.streams
  pub remote_bound : s.remote_active_streams ≤ s.limits.max_inbound_streams
  pub retained_sum : s.retained_stream_attribute_bytes ≡ sum_of retained_bytes s.streams
  pub retained_bound :
      s.retained_stream_attribute_bytes ≤ s.limits.max_retained_stream_attribute_bytes
  pub retired_bound : length s.retired_streams ≤ s.limits.max_retired_streams
  pub live : All (IsLive s.limits) s.streams
  pub highest_parity :
      (s.highest_remote_stream_id ≡ 0)
      ⊎ (s.highest_remote_stream_id % 2 ≡ first_remote_id s.origin % 2)
  pub next_parity : s.next_stream_id % 2 ≢ first_remote_id s.origin % 2
  pub allocated :
      All
        (IsAllocated (first_remote_id s.origin) s.highest_remote_stream_id s.next_stream_id)
        s.streams

abbrev pub IsSound : Session → Type 0
IsSound s = IsBalanced (books s)
