-- ===== src/Core/Session/Lane.antt =====
-- The end of a session at its lane: `writeFrames` with `writeFrameNow`, and a round of `readLoop`.
pub mod Sequence
pub mod Taken
use pure_reactive_protocol.Prelude.{
  ℕ, ◌+◌, Bool, true, false, ◌&&◌, ◌||◌, not, Option, none, some, List, [], ◌∷◌, ◌++◌, length, ltb,
  ◌==◌, ◌/=◌, ◌-◌, codes, if◌then◌else◌,
}
use pure_reactive_protocol.Failure.{
  Failure, coded, connection_lost, protocol_violation, Result, ok, err, ◌>>=◌, ◌>>◌, throw_if,
}
use pure_reactive_protocol.Bytes.{get_u8}
use pure_reactive_protocol.Core.Limits.{ProtocolLimits, max_u64, bootstrap_protocol_limits}
use pure_reactive_protocol.Core.Attributes.{TextCodec}
use pure_reactive_protocol.Core.Frame.{FrameKind, hello, welcome, error, ProtocolFrame}
use pure_reactive_protocol.Core.Codec.Frames.{encode_frame, decode_frame}
use pure_reactive_protocol.Core.Compact.Frames.{
  compact_frame_magic, encode_compact_frame, decode_compact_frame,
}
use pure_reactive_protocol.Core.Session.State.{Session, SessionState, connecting, Host}
use pure_reactive_protocol.Core.Session.Retire.{detach, normalised}
use pure_reactive_protocol.Core.Session.Receive.{is_ready, read_frame}

-- A lane takes the bytes of a frame, or fails; a session may have none.
abbrev pub Lane : Type 0
Lane = Option (List ℕ → Option Failure)

-- What writing leaves: the session, the bytes that the lane took, and what was thrown.
pub record Written : Type 0 where
  pub session : Session
  pub sent : List (List ℕ)
  pub failure : Option Failure

abbrev pub sequence_exhausted : Failure
sequence_exhausted = coded (codes "SEQUENCE_EXHAUSTED")

abbrev pub is_connecting : SessionState → Bool
is_connecting connecting = true
is_connecting _ = false

-- `bootstrapFrame`.
abbrev pub is_bootstrap : SessionState → FrameKind → ℕ → Bool
is_bootstrap state hello stream_id = true
is_bootstrap state welcome stream_id = true
is_bootstrap state error stream_id = stream_id == 0 && is_connecting state
is_bootstrap state kind stream_id = false

-- `compact` says whether compact frames were negotiated.
unfoldable pub encode_for : TextCodec → Bool → ProtocolFrame → Session → Result (List ℕ)
encode_for codec compact f s =
    if not (is_bootstrap s.state f.kind f.stream_id) && (is_ready s.state && compact)
    then encode_compact_frame codec f s.outbound_limits
    else encode_frame codec f (
        if is_bootstrap s.state f.kind f.stream_id
        then bootstrap_protocol_limits
        else s.outbound_limits)

-- The end of `writeFrameNow`, with the answer of `lane.write`.
unfoldable pub lane_answered : Session → List ℕ → Option Failure → Written
lane_answered s bytes none = record {
  session = record s { outgoing_sequence = s.outgoing_sequence + 1 };
  sent = bytes ∷ [];
  failure = none;
}
lane_answered s bytes (some cause) = record {
  session = detach (normalised cause) s;
  sent = [];
  failure = some (normalised cause);
}

abbrev refused : Session → Failure → Written
refused s e = record { session = s; sent = []; failure = some e }

unfoldable pub encoded_for : (List ℕ → Option Failure) → Session → Result (List ℕ) → Written
unfolding lane_answered
encoded_for lane s (err e) = refused s e
encoded_for lane s (ok bytes) = lane_answered s bytes (lane bytes)

unfoldable pub write_frame_now : TextCodec → Bool → Lane → ProtocolFrame → Session → Written
unfolding encoded_for
write_frame_now codec compact none f s = refused s connection_lost
write_frame_now codec compact (some lane) f s =
    if ltb max_u64 s.outgoing_sequence
    then refused (detach sequence_exhausted s) sequence_exhausted
    else encoded_for lane s
        (encode_for codec compact (record f { sequence = s.outgoing_sequence }) s)

-- A round of the loop of `writeFrames`, which is left at the first throw.
unfoldable pub then_write :
    TextCodec → Bool → Lane → ProtocolFrame → Written → Option Failure → Written
then_write codec compact lane f w (some e) = w
then_write codec compact lane f w none =
    let next = write_frame_now codec compact lane f w.session in
    record next { sent = w.sent ++ next.sent }

unfoldable pub write_each : TextCodec → Bool → Lane → List ProtocolFrame → Written → Written
unfolding then_write
write_each codec compact lane [] w = w
write_each codec compact lane (f ∷ frames) w =
    write_each codec compact lane frames (then_write codec compact lane f w w.failure)

-- `writeFrames`, when its turn in `writeTail` comes.
unfoldable pub write_frames_now : TextCodec → Bool → Lane → List ProtocolFrame → Session → Written
write_frames_now codec compact lane [] s = record { session = s; sent = []; failure = none }
write_frames_now codec compact lane (f ∷ frames) s =
    if ltb max_u64 (s.outgoing_sequence + length (f ∷ frames) - 1)
    then refused (detach sequence_exhausted s) sequence_exhausted
    else write_each codec compact lane (f ∷ frames)
        (record { session = s; sent = []; failure = none })

-- What `readLoop` makes of the bytes of a frame.
unfoldable pub decode_for :
    TextCodec → Bool → SessionState → ProtocolLimits → List ℕ → Result ProtocolFrame
decode_for codec compact state limits raw =
    if is_ready state && compact then decode_compact_frame codec raw limits else do
      throw_if (length raw /= 0 && get_u8 raw 0 == compact_frame_magic) protocol_violation
      decode_frame codec raw (if is_connecting state then bootstrap_protocol_limits else limits)

unfoldable pub read_decoded : Host → Session → Result ProtocolFrame → Session
read_decoded host s (err e) = detach e s
read_decoded host s (ok f) = read_frame host f s

-- A round of `readLoop`, other than for a HELLO or WELCOME while the session connects.
unfoldable pub read_bytes : Host → Bool → List ℕ → Session → Session
unfolding read_decoded
read_bytes host compact raw s =
    read_decoded host s (decode_for host.codec compact s.state s.limits raw)
