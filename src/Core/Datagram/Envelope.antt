-- ===== src/Core/Datagram/Envelope.antt =====
-- A datagram that fits is delivered unchanged, one that does not is refused, and an accepted one
-- respects the receiver's bound.
use pure_reactive_protocol.Prelude.{
  ℕ, ◌≤◌, ◌≡◌, Bool, true, false, some, List, length, arith, if◌then◌else◌, ltb,
}
use pure_reactive_protocol.Failure.{ok, err, protocol_violation}
use pure_reactive_protocol.Bytes.{be32, be32-set_u32}
use pure_reactive_protocol.Core.Datagram.{
  encode_datagram, decode_datagram, encode_datagram_capability, decode_datagram_capability,
}

-- For a frame that the sender's carrier takes, the receiver returns the payload if it is within
-- the receiver's bound, and rejects the frame otherwise.
pub decode-encode_datagram :
    (payload frame : List ℕ) (max_frame max_payload : ℕ) (compact : Bool)
    → encode_datagram payload max_frame compact ≡ ok frame
    → (length frame ≤ max_frame)
      × (decode_datagram frame max_payload compact
          ≡ (if ltb max_payload (length payload) then err protocol_violation else ok payload))
unfolding encode_datagram decode_datagram be32
decode-encode_datagram payload frame max_frame max_payload true h = ground arith
decode-encode_datagram payload frame max_frame max_payload false h = ground arith

-- A capability parameter that is sent is read back.
pub decode-encode_datagram_capability :
    (n : ℕ) (bs : List ℕ)
    → encode_datagram_capability n ≡ ok bs
    → decode_datagram_capability (some bs) ≡ ok n
unfolding encode_datagram_capability decode_datagram_capability
decode-encode_datagram_capability n bs h = ground (arith, be32-set_u32 n)
