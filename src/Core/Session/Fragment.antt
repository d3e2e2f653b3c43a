-- ===== src/Core/Session/Fragment.antt =====
-- `writeDataItem` of src/core/session.ts up to its calls of `writeDataFrames`: how a logical item
-- becomes DATA and FRAGMENT frames. How frames are written is in Lane.
pub mod Pieces
pub mod Reassembly
pub mod Delivery
use pure_reactive_protocol.Prelude.{
  ℕ, zero, suc, ◌+◌, ◌-◌, ◌*◌, ◌/◌, ◌≤◌, ◌≡◌, min, max, Bool, true, false, ◌&&◌, not, Option, none,
  some, List, [], ◌∷◌, ◌++◌, length, take, drop, ltb, leb, ◌==◌, codes, if◌then◌else◌,
}
use pure_reactive_protocol.Failure.{
  Failure, capability_mismatch, range_error, coded, stream_closed, Result, ok, err, ◌>>=◌, ◌>>◌,
  throw_if,
}
use pure_reactive_protocol.Core.Limits.{ProtocolLimits, frame_header_bytes}
use pure_reactive_protocol.Core.Attributes.{ProtocolAttribute, TextCodec}
use pure_reactive_protocol.Core.Frame.{ProtocolFrame, data_item, fragment, data_fragmented_flag}
use pure_reactive_protocol.Core.Codec.Tlv.{measure_attribute_bytes}
use pure_reactive_protocol.Core.Codec.Frames.{encode_frame}
use pure_reactive_protocol.Core.Compact.Dictionary.{measure_compact_attribute_bytes}
use pure_reactive_protocol.Core.Session.State.{StreamState, plain_frame}
use pure_reactive_protocol.Core.Session.Table.{find_stream}

-- `data.subarray(from, to)`.
abbrev pub subarray : List ℕ → ℕ → ℕ → List ℕ
subarray content from to = take (to - from) (drop from content)

-- The first frame of a fragmented item, with as many payload bytes as fit beside the attributes.
unfoldable pub first_frame : ℕ → List ℕ → List ProtocolAttribute → ℕ → ProtocolFrame
first_frame id content attributes first_bytes =
    record (plain_frame data_item id attributes (take first_bytes content)) {
      flags = data_fragmented_flag;
      fragment_length = length content;
    }

-- The frame `frameAt(index + 1)`.
unfoldable pub fragment_at : ℕ → List ℕ → ℕ → ℕ → ℕ → ProtocolFrame
fragment_at id content first_bytes capacity index =
    let offset = first_bytes + index * capacity in
    plain_frame fragment id [] (subarray content offset (min (length content) (offset + capacity)))

-- The loop of `writeDataFrames` from an index on.
unfoldable pub fragments_from : ℕ → List ℕ → ℕ → ℕ → ℕ → ℕ → List ProtocolFrame
fragments_from id content first_bytes capacity index zero = []
fragments_from id content first_bytes capacity index (suc count) =
    fragment_at id content first_bytes capacity index
    ∷ fragments_from id content first_bytes capacity (index + 1) count

-- `Math.ceil(remainingBytes / fragmentPayloadCapacity)`.
unfoldable pub fragment_count : ℕ → ℕ → ℕ
fragment_count remaining capacity = (remaining + capacity - 1) / capacity

-- The frames of a fragmented item.
unfoldable pub fragmented_frames : ℕ → List ℕ → List ProtocolAttribute → ℕ → ℕ → List ProtocolFrame
fragmented_frames id content attributes first_bytes capacity =
    first_frame id content attributes first_bytes
    ∷ fragments_from id content first_bytes capacity 0
        (fragment_count (length content - first_bytes) capacity)

-- The validation of the distinct frame shapes before the first byte is written.
unfoldable pub check_shapes :
    TextCodec → ProtocolLimits → ℕ → List ℕ → List ProtocolAttribute → ℕ → ℕ → Result (Unit {0})
check_shapes codec limits id content attributes first_bytes capacity = do
  _ ←
      encode_frame codec (record (first_frame id content attributes first_bytes) { sequence = 1 })
        limits
  if ltb 0 (fragment_count (length content - first_bytes) capacity)
      then (do
        _ ←
            encode_frame codec
              (record (fragment_at id content first_bytes capacity 0) { sequence = 1 }) limits
        ok tt)
      else ok tt

-- The bytes that attributes may take: with compact frames, in the longer one of both encodings.
unfoldable pub reserved_attribute_bytes :
    TextCodec → ProtocolLimits → Bool → List ProtocolAttribute → Result ℕ
reserved_attribute_bytes codec limits compact attributes = do
  legacy ← measure_attribute_bytes codec attributes limits
  if compact
      then (do
        encoded ← measure_compact_attribute_bytes codec attributes limits
        ok (max legacy encoded))
      else ok legacy

-- `if (!streamState) throw new StreamClosedError()`.
unfoldable pub check_stream : Option StreamState → Result (Unit {0})
check_stream none = err stream_closed
check_stream (some st) = ok tt

-- The frames that `writeDataItem` hands to the writer: one if the item fits, and fragments if not.
-- `compact` and `supported` say whether compact frames and fragmentation were negotiated, and
-- `streams` is the sender's map.
unfoldable pub item_frames :
    TextCodec
    → ProtocolLimits
    → ℕ
    → Bool
    → Bool
    → List StreamState
    → ℕ
    → List ℕ
    → List ProtocolAttribute
    → Result (List ProtocolFrame)
item_frames codec limits remote_max_item compact supported streams id content attributes = do
  throw_if (ltb remote_max_item (length content)) (coded (codes "ITEM_TOO_LARGE"))
  attribute_bytes ← reserved_attribute_bytes codec limits compact attributes
  throw_if (ltb limits.max_frame_bytes (frame_header_bytes + attribute_bytes)) range_error
  let first_bytes = limits.max_frame_bytes - frame_header_bytes - attribute_bytes
  let capacity = limits.max_frame_bytes - frame_header_bytes
  check_stream (find_stream id streams)
  if leb (length content) first_bytes
      then (do
        let frame = plain_frame data_item id attributes content
        _ ← encode_frame codec (record frame { sequence = 1 }) limits
        ok (frame ∷ []))
      else (do
        throw_if (not supported) capability_mismatch
        throw_if (leb capacity 0) range_error
        check_shapes codec limits id content attributes first_bytes capacity
        ok (fragmented_frames id content attributes first_bytes capacity))
