-- ===== src/Core/Session/State.antt =====
-- The state of src/core/session.ts. A `ReactiveSessionImpl` is a `Session`; the streams of its map are
-- `streams`, and those that left it, which the application may still hold, are `released`. Frames
-- that the code hands to `writeFrame` wait in `outgoing`, in order, until `write_frame_now` gives
-- them their sequence number.
use pure_reactive_protocol.Prelude.{
  ℕ, ◌+◌, min, Bool, false, Option, none, some, List, [], ◌∷◌, ◌++◌, length,
}
use pure_reactive_protocol.Failure.{Failure, Result}
use pure_reactive_protocol.Core.Limits.{ProtocolLimits, max_u32}
use pure_reactive_protocol.Core.Attributes.{ProtocolAttribute, TextCodec}
use pure_reactive_protocol.Core.Frame.{FrameKind, ProtocolFrame}
use pure_reactive_protocol.Core.Queue.{AsyncQueue, Settled, empty}

pub data SessionState : Type 0 where
  idle connecting ready detached closed : SessionState

pub data SessionOrigin : Type 0 where
  initiator acceptor : SessionOrigin

pub record StreamMessage : Type 0 where
  pub content : List ℕ
  pub attributes : List ProtocolAttribute

-- `data` of the code is an array of `total` bytes of which the first `offset` are written; here
-- `received` is that part, and the offset is its length.
pub record ReassemblyState : Type 0 where
  pub total : ℕ
  pub received : List ℕ
  pub attributes : List ProtocolAttribute

-- `settled` collects what the calls of `next` on `incoming` were given, and `rejected_waiters` and
-- `resumed_waiters` count the settled waits for credit.
pub record StreamState : Type 0 where
  pub id : ℕ
  pub attributes : List ProtocolAttribute
  pub incoming : AsyncQueue StreamMessage
  pub settled : List (Settled StreamMessage)
  pub aborted : Bool
  pub retained_attribute_bytes : ℕ
  pub initiated_locally : Bool
  pub reassembly : Option ReassemblyState
  pub inbound_credit : ℕ
  pub outbound_credit : ℕ
  pub outbound_closed : Bool
  pub inbound_closed : Bool
  pub cancelled : Bool
  pub credit_waiters : ℕ

pub record SessionSignal : Type 0 where
  pub content : List ℕ
  pub attributes : List ProtocolAttribute

pub record QueuedSignal : Type 0 where
  pub signal : SessionSignal
  pub bytes : ℕ

-- `retired_streams` is the map of that name in the order of `retiredOrder`, which always holds its
-- keys: an id, and whether late data is allowed.
pub record Session : Type 0 where
  pub limits : ProtocolLimits
  pub state : SessionState
  pub origin : Option SessionOrigin
  pub streams : List StreamState
  pub released : List StreamState
  pub retired_streams : List (ℕ × Bool)
  pub next_stream_id : ℕ
  pub highest_remote_stream_id : ℕ
  pub outgoing_sequence : ℕ
  pub expected_incoming_sequence : ℕ
  pub outbound_limits : ProtocolLimits
  pub remote_max_inbound_streams : ℕ
  pub remote_max_inbound_item_bytes : ℕ
  pub in_flight_reassembly_bytes : ℕ
  pub local_active_streams : ℕ
  pub remote_active_streams : ℕ
  pub retained_stream_attribute_bytes : ℕ
  pub pending_signal_bytes : ℕ
  pub active_signal_tasks : ℕ
  pub incoming_streams : AsyncQueue ℕ
  pub incoming_signals : AsyncQueue QueuedSignal
  pub outgoing : List ProtocolFrame

-- What surrounds a session: the text codec; the registered acceptors, whose `accepts` may throw;
-- `boundedErrorPayload(error.message)`, the bytes by which an error is reported; and for which lengths
-- `new Uint8Array` does not throw.
pub record Host : Type 0 where
  pub codec : TextCodec
  pub stream_acceptors : List (StreamState → Result Bool)
  pub signal_acceptors : List (SessionSignal → Result Bool)
  pub reason : Failure → List ℕ
  pub reserves : ℕ → Bool

-- A handler returns the state that it leaves, also when it throws.
abbrev pub Step : Type 0
Step = Session × Option Failure

abbrev pub done : Session → Step
done s = (s, none)

abbrev pub throw : Failure → Session → Step
throw e s = (s, some e)

-- `addCredit`.
unfoldable pub add_credit : ℕ → ℕ → ℕ
add_credit current amount = min max_u32 (current + amount)

-- `attributeMemoryBytes`.
unfoldable pub attribute_memory_bytes : TextCodec → List ProtocolAttribute → ℕ
attribute_memory_bytes codec [] = 0
attribute_memory_bytes codec (item ∷ rest) =
    (length (codec.encode item.id) + length item.value + 7) + attribute_memory_bytes codec rest

-- `createStreamState`.
unfoldable pub create_stream_state : TextCodec → ℕ → List ProtocolAttribute → Bool → StreamState
create_stream_state codec stream_id attributes initiated_locally = record {
  id = stream_id;
  attributes = attributes;
  incoming = empty;
  settled = [];
  aborted = false;
  retained_attribute_bytes = attribute_memory_bytes codec attributes;
  initiated_locally = initiated_locally;
  reassembly = none;
  inbound_credit = 0;
  outbound_credit = 0;
  outbound_closed = false;
  inbound_closed = false;
  cancelled = false;
  credit_waiters = 0;
}

-- `writeFrame`: the frame joins the queue of writes.
unfoldable pub write_frame : ProtocolFrame → Session → Session
write_frame f s = record s { outgoing = s.outgoing ++ f ∷ [] }

-- A frame with the fields that are given, before its sequence number is known.
abbrev pub plain_frame : FrameKind → ℕ → List ProtocolAttribute → List ℕ → ProtocolFrame
plain_frame kind stream_id attributes payload = record {
  kind = kind;
  stream_id = stream_id;
  sequence = 0;
  flags = 0;
  credit = 0;
  fragment_length = 0;
  attributes = attributes;
  payload = payload;
}
