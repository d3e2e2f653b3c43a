-- ===== src/Core/Limits/Exchange.antt =====
-- What resolved limits satisfy, and that a peer reads exactly the limits that were announced.
use pure_reactive_protocol.Prelude.{
  ℕ, ◌≤◌, ◌<◌, ◌≡◌, refl, ◌∙◌, subst, Option, some, arith, ap, List, length, ◌/=◌,
}
use pure_reactive_protocol.Failure.{Result, ok, throw_if, range_error, ◌>>=◌, >>=-eq-ok, from_ok}
use pure_reactive_protocol.Bytes.{be16-set_u16, be32-set_u32}
use pure_reactive_protocol.Core.Limits.{
  ProtocolLimits, LimitOverrides, PeerProtocolLimits, resolve_protocol_limits, fill_limits,
  check_limits, positive_integer, or_default, default_protocol_limits, encode_peer_protocol_limits,
  decode_peer_protocol_limits, read_peer_limits, check_peer_limits, max_u16, max_u32,
  frame_header_bytes, peer_limits_bytes,
}

-- What `resolveProtocolLimits` promises of its result.
pub record IsResolved (l : ProtocolLimits) : Type 0 where
  pub frame_holds_header : frame_header_bytes ≤ l.max_frame_bytes
  pub frame_fits : l.max_frame_bytes ≤ max_u32
  pub area_in_frame : l.max_attribute_bytes < l.max_frame_bytes
  pub count_fits : l.max_attributes ≤ max_u32
  pub id_fits : l.max_attribute_id_bytes ≤ max_u16
  pub value_in_area : l.max_attribute_value_bytes ≤ l.max_attribute_bytes
  pub item_fits : l.max_inbound_item_bytes ≤ max_u32
  pub item_in_reassembly : l.max_inbound_item_bytes ≤ l.max_in_flight_reassembly_bytes
  pub streams_fit : l.max_inbound_streams ≤ max_u32
  pub pending_in_streams : l.max_pending_incoming_streams ≤ l.max_inbound_streams
  pub area_pos : 1 ≤ l.max_attribute_bytes
  pub count_pos : 1 ≤ l.max_attributes
  pub id_pos : 1 ≤ l.max_attribute_id_bytes
  pub value_pos : 1 ≤ l.max_attribute_value_bytes
  pub item_pos : 1 ≤ l.max_inbound_item_bytes
  pub streams_pos : 1 ≤ l.max_inbound_streams
  pub retired_pos : 1 ≤ l.max_retired_streams
  pub reassembly_pos : 1 ≤ l.max_in_flight_reassembly_bytes
  pub pending_pos : 1 ≤ l.max_pending_incoming_streams
  pub signals_pos : 1 ≤ l.max_pending_signals
  pub signal_bytes_pos : 1 ≤ l.max_in_flight_signal_bytes
  pub retained_pos : 1 ≤ l.max_retained_stream_attribute_bytes
  pub frame_pos : 1 ≤ l.max_frame_bytes

-- What the first half of the code ensures: every field is positive.
record IsPositive (l : ProtocolLimits) : Type 0 where
  area_pos : 1 ≤ l.max_attribute_bytes
  count_pos : 1 ≤ l.max_attributes
  id_pos : 1 ≤ l.max_attribute_id_bytes
  value_pos : 1 ≤ l.max_attribute_value_bytes
  item_pos : 1 ≤ l.max_inbound_item_bytes
  streams_pos : 1 ≤ l.max_inbound_streams
  retired_pos : 1 ≤ l.max_retired_streams
  reassembly_pos : 1 ≤ l.max_in_flight_reassembly_bytes
  pending_pos : 1 ≤ l.max_pending_incoming_streams
  signals_pos : 1 ≤ l.max_pending_signals
  signal_bytes_pos : 1 ≤ l.max_in_flight_signal_bytes
  retained_pos : 1 ≤ l.max_retained_stream_attribute_bytes
  frame_pos : 1 ≤ l.max_frame_bytes

positive_integer_pos : (v w : ℕ) → positive_integer v ≡ ok w → 1 ≤ w
unfolding positive_integer
positive_integer_pos v w h = ground arith

-- A field that is given or has its default, where what follows succeeds.
given_pos {ℓ} :
    {A : Type ℓ} (given : Option ℕ) (d : ℕ) (next : ℕ → Result A) (a : A)
    → positive_integer (or_default given d) >>= next ≡ ok a
    → (w : ℕ) × (1 ≤ w) × (next w ≡ ok a)
given_pos given d next a h =
    let (w, e, h') = >>=-eq-ok (positive_integer (or_default given d)) next h in
    (w, positive_integer_pos (or_default given d) w e, h')

fill_limits-IsPositive :
    (o : LimitOverrides) (l : ProtocolLimits) → fill_limits o ≡ ok l → IsPositive l
unfolding fill_limits
fill_limits-IsPositive o l h0 =
    let d = default_protocol_limits in
    let (frame, frame_pos, h1) = given_pos o.max_frame_bytes d.max_frame_bytes _ l h0 in
    let (area, area_pos, h2) = given_pos o.max_attribute_bytes d.max_attribute_bytes _ l h1 in
    let (count, count_pos, h3) = given_pos o.max_attributes d.max_attributes _ l h2 in
    let (id, id_pos, h4) = given_pos o.max_attribute_id_bytes d.max_attribute_id_bytes _ l h3 in
    let (value, value_pos, h5) =
      given_pos o.max_attribute_value_bytes d.max_attribute_value_bytes _ l h4 in
    let (item, item_pos, h6) = given_pos o.max_inbound_item_bytes d.max_inbound_item_bytes _ l h5 in
    let (reassembly, reassembly_pos, h7) =
      given_pos o.max_in_flight_reassembly_bytes d.max_in_flight_reassembly_bytes _ l h6 in
    let (streams, streams_pos, h8) = given_pos o.max_inbound_streams d.max_inbound_streams _ l h7 in
    let (pending, pending_pos, h9) =
      given_pos o.max_pending_incoming_streams d.max_pending_incoming_streams _ l h8 in
    let (signals, signals_pos, h10) =
      given_pos o.max_pending_signals d.max_pending_signals _ l h9 in
    let (signal_bytes, signal_bytes_pos, h11) =
      given_pos o.max_in_flight_signal_bytes d.max_in_flight_signal_bytes _ l h10 in
    let (retained, retained_pos, h12) =
      given_pos o.max_retained_stream_attribute_bytes d.max_retained_stream_attribute_bytes _ l
        h11 in
    let (retired, retired_pos, h13) =
      given_pos o.max_retired_streams d.max_retired_streams _ l h12 in
    subst IsPositive (from_ok h13) (record {
      frame_pos = frame_pos;
      area_pos = area_pos;
      count_pos = count_pos;
      id_pos = id_pos;
      value_pos = value_pos;
      item_pos = item_pos;
      reassembly_pos = reassembly_pos;
      streams_pos = streams_pos;
      pending_pos = pending_pos;
      signals_pos = signals_pos;
      signal_bytes_pos = signal_bytes_pos;
      retained_pos = retained_pos;
      retired_pos = retired_pos;
    })

check_limits-IsResolved :
    (l m : ProtocolLimits) → check_limits l ≡ ok m → IsPositive l → IsResolved m
unfolding check_limits
check_limits-IsResolved l m h p = ground arith

-- Limits that `resolveProtocolLimits` accepts, whatever is overridden, are positive, fit their fields
-- on the wire, and contain each other: attributes in frames, items in the reassembly budget.
pub resolve-IsResolved :
    (o : LimitOverrides) (l : ProtocolLimits) → resolve_protocol_limits o ≡ ok l → IsResolved l
unfolding resolve_protocol_limits
resolve-IsResolved o l h =
    let (m, filled, checked) = >>=-eq-ok (fill_limits o) check_limits h in
    check_limits-IsResolved m l checked (fill_limits-IsPositive o m filled)

-- The limits that `encodePeerProtocolLimits` announces.
abbrev pub announced : ProtocolLimits → PeerProtocolLimits
announced l = record {
  max_frame_bytes = l.max_frame_bytes;
  max_attribute_bytes = l.max_attribute_bytes;
  max_attributes = l.max_attributes;
  max_attribute_id_bytes = l.max_attribute_id_bytes;
  max_attribute_value_bytes = l.max_attribute_value_bytes;
  max_inbound_streams = l.max_inbound_streams;
  max_inbound_item_bytes = l.max_inbound_item_bytes;
}

read-encode :
    (l : ProtocolLimits)
    → IsResolved l
    → read_peer_limits (encode_peer_protocol_limits l) ≡ announced l
unfolding read_peer_limits encode_peer_protocol_limits
read-encode l r =
    rw
      (
        be32-set_u32 l.max_frame_bytes (omega arith),
        be32-set_u32 l.max_attribute_bytes (omega arith),
        be32-set_u32 l.max_attributes (omega arith),
        be16-set_u16 l.max_attribute_id_bytes (omega arith),
        be32-set_u32 l.max_attribute_value_bytes (omega arith),
        be32-set_u32 l.max_inbound_streams (omega arith),
        be32-set_u32 l.max_inbound_item_bytes (omega arith),
      )
      refl

check_announced :
    (l : ProtocolLimits) → IsResolved l → check_peer_limits (announced l) ≡ ok (announced l)
unfolding check_peer_limits
check_announced l r = ground arith

-- A peer accepts the limits that a runtime resolved and announced, and reads them unchanged.
pub decode-encode_limits :
    (o : LimitOverrides) (l : ProtocolLimits)
    → resolve_protocol_limits o ≡ ok l
    → decode_peer_protocol_limits (some (encode_peer_protocol_limits l)) ≡ ok (announced l)
unfolding decode_peer_protocol_limits encode_peer_protocol_limits
decode-encode_limits o l h =
    let r = resolve-IsResolved o l h in ap check_peer_limits (read-encode l r) ∙ check_announced l r

-- What a peer's limits satisfy once they are read, whatever bytes they came from.
pub record IsUsable (l : PeerProtocolLimits) : Type 0 where
  pub frame_holds_header : frame_header_bytes ≤ l.max_frame_bytes
  pub area_in_frame : l.max_attribute_bytes < l.max_frame_bytes
  pub value_in_area : l.max_attribute_value_bytes ≤ l.max_attribute_bytes
  pub area_pos : 1 ≤ l.max_attribute_bytes
  pub count_pos : 1 ≤ l.max_attributes
  pub id_pos : 1 ≤ l.max_attribute_id_bytes
  pub value_pos : 1 ≤ l.max_attribute_value_bytes

check_peer_limits-IsUsable : (l m : PeerProtocolLimits) → check_peer_limits l ≡ ok m → IsUsable m
unfolding check_peer_limits
check_peer_limits-IsUsable l m h = ground arith

pub decode_limits-IsUsable :
    (bs : List ℕ) (l : PeerProtocolLimits)
    → decode_peer_protocol_limits (some bs) ≡ ok l
    → IsUsable l
unfolding decode_peer_protocol_limits
decode_limits-IsUsable bs l h =
    let (u, long, checked) =
      >>=-eq-ok (throw_if (length bs /= peer_limits_bytes) range_error) _ h in
    check_peer_limits-IsUsable (read_peer_limits bs) l checked
