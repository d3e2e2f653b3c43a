-- ===== src/Core/Session/Sound/Bytes.antt =====
-- Whatever bytes arrive on the lane, a session keeps its books balanced.
use pure_reactive_protocol.Prelude.{
  ℕ, refl, Bool, ◌&&◌, List, length, ◌==◌, ◌/=◌, inl, inr, Bool-cases,
}
use pure_reactive_protocol.Failure.{Result, ok, err, throw_if, protocol_violation}
use pure_reactive_protocol.Bytes.{get_u8}
use pure_reactive_protocol.Core.Limits.{ProtocolLimits}
use pure_reactive_protocol.Core.Attributes.{TextCodec}
use pure_reactive_protocol.Core.Frame.{ProtocolFrame}
use pure_reactive_protocol.Core.Codec.Valid.{IsChecked, >>=-IsChecked, decode_frame-IsChecked}
use pure_reactive_protocol.Core.Compact.Frames.{compact_frame_magic}
use pure_reactive_protocol.Core.Compact.Valid.{decode_compact_frame-IsChecked}
use pure_reactive_protocol.Core.Session.State.{Session, SessionState, Host}
use pure_reactive_protocol.Core.Session.Lane.{decode_for, read_decoded, read_bytes}
use pure_reactive_protocol.Core.Session.Receive.{is_ready}
use pure_reactive_protocol.Core.Session.Sound.{IsSound}
use pure_reactive_protocol.Core.Session.Sound.Ending.{detach-IsSound}
use pure_reactive_protocol.Core.Session.Sound.Frames.{read_frame-IsSound}

decode_for-IsChecked :
    (codec : TextCodec) (compact : Bool) (state : SessionState) (limits : ProtocolLimits)
    (raw : List ℕ)
    → IsChecked (decode_for codec compact state limits raw)
unfolding decode_for
decode_for-IsChecked codec compact state limits raw =
    elim (Bool-cases (is_ready state && compact)) [
      | inl compacted ↦ rw compacted (decode_compact_frame-IsChecked codec limits raw)
      | inr plain ↦ rw plain (
          >>=-IsChecked
            (throw_if (length raw /= 0 && get_u8 raw 0 == compact_frame_magic) protocol_violation) _
            (λ u. decode_frame-IsChecked codec _ raw))
    ]

read_decoded-IsSound :
    (host : Host) (s : Session) (r : Result ProtocolFrame)
    → IsSound s
    → IsChecked r
    → IsSound (read_decoded host s r)
unfolding read_decoded
read_decoded-IsSound host s (err e) h checked = detach-IsSound e s h
read_decoded-IsSound host s (ok f) h checked = read_frame-IsSound host f s h (checked.valid f refl)

-- Whatever bytes a sound session reads in a round of `readLoop`, in either encoding, other than a
-- HELLO or WELCOME while it connects, and whatever the acceptors answer: its counters of streams,
-- retained bytes and bytes under reassembly stay the sums over its streams and within the limits, the
-- retired list stays within its limit, every stream of the map stays alive, and the parity of stream
-- ids is kept.
pub read_bytes-IsSound :
    (host : Host) (compact : Bool) (raw : List ℕ) (s : Session)
    → IsSound s
    → IsSound (read_bytes host compact raw s)
unfolding read_bytes
read_bytes-IsSound host compact raw s h =
    read_decoded-IsSound host s (decode_for host.codec compact s.state s.limits raw) h
      (decode_for-IsChecked host.codec compact s.state s.limits raw)
