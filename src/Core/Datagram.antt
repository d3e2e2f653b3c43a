-- ===== src/Core/Datagram.antt =====
-- src/core/datagram.ts: the options, the capability parameter and the envelope of native datagrams.
-- The check that a payload is a `Uint8Array` is the type `List ℕ`.
pub mod Envelope
use pure_reactive_protocol.Prelude.{
  ℕ, ◌+◌, ◌-◌, ◌*◌, ◌≤◌, ◌<◌, ◌≡◌, Bool, ◌||◌, not, Option, none, some, List, [], ◌∷◌, ◌++◌, length,
  drop, ltb, leb, ◌==◌, ◌/=◌, if◌then◌else◌, arith,
}
use pure_reactive_protocol.Failure.{
  Result, ok, err, ◌>>=◌, ◌>>◌, throw_if, range_error, protocol_violation,
}
use pure_reactive_protocol.Bytes.{set_u32, get_u8, get_u32}
use pure_reactive_protocol.Core.Limits.{max_u32, or_default, positive_integer}

abbrev pub prp_datagram_magic : ℕ
prp_datagram_magic = 0x50524431

abbrev pub prp_datagram_header_bytes : ℕ
prp_datagram_header_bytes = 4

abbrev pub prp_compact_datagram_magic : ℕ
prp_compact_datagram_magic = 0xd1

abbrev pub prp_compact_datagram_header_bytes : ℕ
prp_compact_datagram_header_bytes = 1

pub record DatagramOptions : Type 0 where
  pub max_inbound_bytes : Option ℕ
  pub max_pending : Option ℕ

pub record ResolvedDatagramOptions : Type 0 where
  pub max_inbound_bytes : ℕ
  pub max_pending : ℕ

abbrev pub default_datagram_options : ResolvedDatagramOptions
default_datagram_options = record { max_inbound_bytes = 64 * 1024; max_pending = 256 }

unfoldable pub resolve_datagram_options : DatagramOptions → Result ResolvedDatagramOptions
unfolding positive_integer
resolve_datagram_options o = do
  inbound ←
      positive_integer (or_default o.max_inbound_bytes default_datagram_options.max_inbound_bytes)
  pending ← positive_integer (or_default o.max_pending default_datagram_options.max_pending)
  ok (record { max_inbound_bytes = inbound; max_pending = pending })

unfoldable pub encode_datagram_capability : ℕ → Result (List ℕ)
unfolding positive_integer
encode_datagram_capability max_inbound_bytes = do
  _ ← positive_integer max_inbound_bytes
  throw_if (ltb max_u32 max_inbound_bytes) range_error
  ok (set_u32 max_inbound_bytes)

unfoldable pub decode_datagram_capability : Option (List ℕ) → Result ℕ
decode_datagram_capability none = err range_error
decode_datagram_capability (some bs) = do
  throw_if (length bs /= 4) range_error
  let max_inbound_bytes = get_u32 bs 0
  throw_if (leb max_inbound_bytes 0) range_error
  ok max_inbound_bytes

abbrev pub header_bytes : Bool → ℕ
header_bytes compact =
    if compact then prp_compact_datagram_header_bytes else prp_datagram_header_bytes

abbrev pub datagram_header : Bool → List ℕ
datagram_header compact =
    if compact then prp_compact_datagram_magic ∷ [] else set_u32 prp_datagram_magic

unfoldable pub encode_datagram : List ℕ → ℕ → Bool → Result (List ℕ)
encode_datagram payload max_frame_bytes compact = do
  let frame_bytes = header_bytes compact + length payload
  throw_if (ltb max_frame_bytes frame_bytes) range_error
  ok (datagram_header compact ++ payload)

unfoldable pub decode_datagram : List ℕ → ℕ → Bool → Result (List ℕ)
decode_datagram frame max_payload_bytes compact = do
  throw_if (ltb (length frame) (header_bytes compact)) protocol_violation
  throw_if
      (if compact
        then get_u8 frame 0 /= prp_compact_datagram_magic
        else get_u32 frame 0 /= prp_datagram_magic)
      protocol_violation
  let payload_bytes = length frame - header_bytes compact
  throw_if (ltb max_payload_bytes payload_bytes) protocol_violation
  ok (drop (header_bytes compact) frame)
