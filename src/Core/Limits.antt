-- ===== src/Core/Limits.antt =====
-- src/core/limits.ts: the limits of a runtime, and their exchange between peers. Fields are
-- JavaScript numbers that the code requires to be safe integers; here they are natural numbers.
pub mod Exchange
use pure_reactive_protocol.Prelude.{
  ℕ, ◌+◌, ◌*◌, ◌≤◌, ◌<◌, ◌≡◌, Bool, ◌||◌, not, Option, none, some, List, ◌++◌, length, ltb, leb,
  ◌==◌, ◌/=◌, if◌then◌else◌, arith,
}
use pure_reactive_protocol.Failure.{Result, ok, err, ◌>>=◌, ◌>>◌, throw_if, range_error}
use pure_reactive_protocol.Bytes.{set_u16, set_u32, get_u16, get_u32}

abbrev pub max_u16 : ℕ
max_u16 = 65535

abbrev pub max_u32 : ℕ
max_u32 = 4294967295

abbrev pub max_u64 : ℕ
max_u64 = 18446744073709551615

-- `Number.MAX_SAFE_INTEGER`.
abbrev pub max_safe_integer : ℕ
max_safe_integer = 9007199254740991

-- `FRAME_HEADER_BYTES` of src/core/frame.ts.
abbrev pub frame_header_bytes : ℕ
frame_header_bytes = 36

pub record ProtocolLimits : Type 0 where
  pub max_frame_bytes : ℕ
  pub max_attribute_bytes : ℕ
  pub max_attributes : ℕ
  pub max_attribute_id_bytes : ℕ
  pub max_attribute_value_bytes : ℕ
  pub max_inbound_item_bytes : ℕ
  pub max_in_flight_reassembly_bytes : ℕ
  pub max_inbound_streams : ℕ
  pub max_pending_incoming_streams : ℕ
  pub max_pending_signals : ℕ
  pub max_in_flight_signal_bytes : ℕ
  pub max_retained_stream_attribute_bytes : ℕ
  pub max_retired_streams : ℕ

abbrev pub default_protocol_limits : ProtocolLimits
default_protocol_limits = record {
  max_frame_bytes = 16 * 1024 * 1024;
  max_attribute_bytes = 1024 * 1024;
  max_attributes = 256;
  max_attribute_id_bytes = 1024;
  max_attribute_value_bytes = 1024 * 1024;
  max_inbound_item_bytes = 64 * 1024 * 1024;
  max_in_flight_reassembly_bytes = 128 * 1024 * 1024;
  max_inbound_streams = 4096;
  max_pending_incoming_streams = 1024;
  max_pending_signals = 1024;
  max_in_flight_signal_bytes = 16 * 1024 * 1024;
  max_retained_stream_attribute_bytes = 64 * 1024 * 1024;
  max_retired_streams = 4096;
}

-- The envelope that is used before the peer's limits are known.
abbrev pub bootstrap_protocol_limits : ProtocolLimits
bootstrap_protocol_limits = record default_protocol_limits {
  max_frame_bytes = 64 * 1024;
  max_attribute_bytes = 60 * 1024;
  max_attribute_value_bytes = 16 * 1024;
}

-- `Partial<ProtocolLimits>`.
pub record LimitOverrides : Type 0 where
  pub max_frame_bytes : Option ℕ
  pub max_attribute_bytes : Option ℕ
  pub max_attributes : Option ℕ
  pub max_attribute_id_bytes : Option ℕ
  pub max_attribute_value_bytes : Option ℕ
  pub max_inbound_item_bytes : Option ℕ
  pub max_in_flight_reassembly_bytes : Option ℕ
  pub max_inbound_streams : Option ℕ
  pub max_pending_incoming_streams : Option ℕ
  pub max_pending_signals : Option ℕ
  pub max_in_flight_signal_bytes : Option ℕ
  pub max_retained_stream_attribute_bytes : Option ℕ
  pub max_retired_streams : Option ℕ

-- `given ?? default`.
abbrev pub or_default : Option ℕ → ℕ → ℕ
or_default none default = default
or_default (some given) default = given

unfoldable pub positive_integer : ℕ → Result ℕ
positive_integer v = do throw_if (not (leb v max_safe_integer) || leb v 0) range_error; ok v

-- The first half of `resolveProtocolLimits`: each field given or taken from the defaults.
fill_limits : LimitOverrides → Result ProtocolLimits
fill_limits o = do
  frame ← positive_integer (or_default o.max_frame_bytes default_protocol_limits.max_frame_bytes)
  area ←
      positive_integer
        (or_default o.max_attribute_bytes default_protocol_limits.max_attribute_bytes)
  count ← positive_integer (or_default o.max_attributes default_protocol_limits.max_attributes)
  id ←
      positive_integer
        (or_default o.max_attribute_id_bytes default_protocol_limits.max_attribute_id_bytes)
  value ←
      positive_integer
        (or_default o.max_attribute_value_bytes default_protocol_limits.max_attribute_value_bytes)
  item ←
      positive_integer
        (or_default o.max_inbound_item_bytes default_protocol_limits.max_inbound_item_bytes)
  reassembly ← positive_integer (
      or_default o.max_in_flight_reassembly_bytes
        default_protocol_limits.max_in_flight_reassembly_bytes)
  streams ←
      positive_integer
        (or_default o.max_inbound_streams default_protocol_limits.max_inbound_streams)
  pending ← positive_integer (
      or_default o.max_pending_incoming_streams
        default_protocol_limits.max_pending_incoming_streams)
  signals ←
      positive_integer
        (or_default o.max_pending_signals default_protocol_limits.max_pending_signals)
  signal_bytes ←
      positive_integer
        (or_default o.max_in_flight_signal_bytes default_protocol_limits.max_in_flight_signal_bytes)
  retained ← positive_integer (
      or_default o.max_retained_stream_attribute_bytes
        default_protocol_limits.max_retained_stream_attribute_bytes)
  retired ←
      positive_integer
        (or_default o.max_retired_streams default_protocol_limits.max_retired_streams)
  ok (record {
    max_frame_bytes = frame;
    max_attribute_bytes = area;
    max_attributes = count;
    max_attribute_id_bytes = id;
    max_attribute_value_bytes = value;
    max_inbound_item_bytes = item;
    max_in_flight_reassembly_bytes = reassembly;
    max_inbound_streams = streams;
    max_pending_incoming_streams = pending;
    max_pending_signals = signals;
    max_in_flight_signal_bytes = signal_bytes;
    max_retained_stream_attribute_bytes = retained;
    max_retired_streams = retired;
  })

-- The second half: the relations between the fields.
check_limits : ProtocolLimits → Result ProtocolLimits
check_limits l = do
  throw_if (ltb l.max_frame_bytes frame_header_bytes) range_error
  throw_if (ltb max_u32 l.max_frame_bytes) range_error
  throw_if (leb l.max_frame_bytes l.max_attribute_bytes) range_error
  throw_if (ltb max_u32 l.max_attributes) range_error
  throw_if (ltb max_u16 l.max_attribute_id_bytes) range_error
  throw_if (ltb l.max_attribute_bytes l.max_attribute_value_bytes) range_error
  throw_if (ltb max_u32 l.max_inbound_item_bytes) range_error
  throw_if (ltb l.max_in_flight_reassembly_bytes l.max_inbound_item_bytes) range_error
  throw_if (ltb max_u32 l.max_inbound_streams) range_error
  throw_if (ltb l.max_inbound_streams l.max_pending_incoming_streams) range_error
  ok l

unfoldable pub resolve_protocol_limits : LimitOverrides → Result ProtocolLimits
unfolding fill_limits check_limits positive_integer
resolve_protocol_limits o = do l ← fill_limits o; check_limits l

pub record PeerProtocolLimits : Type 0 where
  pub max_frame_bytes : ℕ
  pub max_attribute_bytes : ℕ
  pub max_attributes : ℕ
  pub max_attribute_id_bytes : ℕ
  pub max_attribute_value_bytes : ℕ
  pub max_inbound_streams : ℕ
  pub max_inbound_item_bytes : ℕ

abbrev pub peer_limits_bytes : ℕ
peer_limits_bytes = 26

unfoldable pub encode_peer_protocol_limits : ProtocolLimits → List ℕ
encode_peer_protocol_limits l =
    set_u32 l.max_frame_bytes
    ++ (set_u32 l.max_attribute_bytes
        ++ (set_u32 l.max_attributes
            ++ (set_u16 l.max_attribute_id_bytes
                ++ (set_u32 l.max_attribute_value_bytes
                    ++ (set_u32 l.max_inbound_streams ++ set_u32 l.max_inbound_item_bytes)))))

-- The fields of the 26 bytes, at their offsets.
read_peer_limits : List ℕ → PeerProtocolLimits
read_peer_limits bs = record {
  max_frame_bytes = get_u32 bs 0;
  max_attribute_bytes = get_u32 bs 4;
  max_attributes = get_u32 bs 8;
  max_attribute_id_bytes = get_u16 bs 12;
  max_attribute_value_bytes = get_u32 bs 14;
  max_inbound_streams = get_u32 bs 18;
  max_inbound_item_bytes = get_u32 bs 22;
}

-- Every field is positive (a field that was read is a safe integer), and the relations hold.
check_peer_limits : PeerProtocolLimits → Result PeerProtocolLimits
check_peer_limits l = do
  throw_if (leb l.max_frame_bytes 0) range_error
  throw_if (leb l.max_attribute_bytes 0) range_error
  throw_if (leb l.max_attributes 0) range_error
  throw_if (leb l.max_attribute_id_bytes 0) range_error
  throw_if (leb l.max_attribute_value_bytes 0) range_error
  throw_if (leb l.max_inbound_streams 0) range_error
  throw_if (leb l.max_inbound_item_bytes 0) range_error
  throw_if (ltb l.max_frame_bytes frame_header_bytes) range_error
  throw_if (leb l.max_frame_bytes l.max_attribute_bytes) range_error
  throw_if (ltb l.max_attribute_bytes l.max_attribute_value_bytes) range_error
  ok l

unfoldable pub decode_peer_protocol_limits : Option (List ℕ) → Result PeerProtocolLimits
unfolding read_peer_limits check_peer_limits
decode_peer_protocol_limits none = err range_error
decode_peer_protocol_limits (some bs) = do
  throw_if (length bs /= peer_limits_bytes) range_error
  check_peer_limits (read_peer_limits bs)
