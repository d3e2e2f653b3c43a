-- ===== src/Core/Frame.antt =====
-- src/core/frame.ts: frame kinds and frames. An optional field that is absent means the same to
-- the code as its neutral value (`?? 0`, `?? []`, an empty payload), which stands here.
use pure_reactive_protocol.Prelude.{ℕ, Option, none, some, List, ◌==◌, if◌then◌else◌, ◌≡◌, refl}
use pure_reactive_protocol.Core.Attributes.{ProtocolAttribute}

abbrev pub protocol_magic : ℕ
protocol_magic = 0x50525031

abbrev pub protocol_major : ℕ
protocol_major = 1

abbrev pub protocol_minor : ℕ
protocol_minor = 0

abbrev pub data_fragmented_flag : ℕ
data_fragmented_flag = 1

-- `OPEN` and `DATA` are reserved words here.
pub data FrameKind : Type 0 where
  hello welcome close ping pong : FrameKind
  open_stream data_item demand complete cancel error signal fragment : FrameKind

abbrev pub kind_code : FrameKind → ℕ
kind_code hello = 0x01
kind_code welcome = 0x02
kind_code close = 0x03
kind_code ping = 0x04
kind_code pong = 0x05
kind_code open_stream = 0x10
kind_code data_item = 0x11
kind_code demand = 0x12
kind_code complete = 0x13
kind_code cancel = 0x14
kind_code error = 0x15
kind_code signal = 0x16
kind_code fragment = 0x17

-- `isKnownKind`, with the kind that it establishes.
unfoldable pub known_kind : ℕ → Option FrameKind
known_kind v =
    if v == 0x01
    then some hello
    else if v == 0x02
    then some welcome
    else if v == 0x03
    then some close
    else if v == 0x04
    then some ping
    else if v == 0x05
    then some pong
    else if v == 0x10
    then some open_stream
    else if v == 0x11
    then some data_item
    else if v == 0x12
    then some demand
    else if v == 0x13
    then some complete
    else if v == 0x14
    then some cancel
    else if v == 0x15
    then some error
    else if v == 0x16
    then some signal
    else if v == 0x17
    then some fragment
    else none

pub record ProtocolFrame : Type 0 where
  pub kind : FrameKind
  pub stream_id : ℕ
  pub sequence : ℕ
  pub flags : ℕ
  pub credit : ℕ
  pub fragment_length : ℕ
  pub attributes : List ProtocolAttribute
  pub payload : List ℕ

-- A kind is recognised by its code.
pub known_kind-kind_code : (k : FrameKind) → known_kind (kind_code k) ≡ some k
unfolding known_kind
known_kind-kind_code hello = refl
known_kind-kind_code welcome = refl
known_kind-kind_code close = refl
known_kind-kind_code ping = refl
known_kind-kind_code pong = refl
known_kind-kind_code open_stream = refl
known_kind-kind_code data_item = refl
known_kind-kind_code demand = refl
known_kind-kind_code complete = refl
known_kind-kind_code cancel = refl
known_kind-kind_code error = refl
known_kind-kind_code signal = refl
known_kind-kind_code fragment = refl
