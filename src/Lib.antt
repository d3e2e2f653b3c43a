-- ===== src/Lib.antt =====
-- Verification of the pure reactive protocol (PRP/1), a full-duplex multiplexed stream protocol in
-- TypeScript.
--
-- The parts of the program. `src/core/codec.ts` turns frames (`src/core/frame.ts`) with attributes
-- (`src/core/attributes.ts`) into bytes under limits (`src/core/limits.ts`). `src/core/session.ts`
-- reads frames in sequence, keeps a map of logical streams with credit, fragmentation and counters,
-- and gives items to the application through `src/core/async-queue.ts`. `src/core/liveness.ts` and
-- `src/core/datagram.ts` hold the parameters of probes and the envelope of datagrams.
--
-- Which file models which part:
-- - Texts: `new Set` and `sort` on texts.
-- - Prelude, Failure, Bytes: shared names, the errors of src/core/errors.ts as values, big-endian
--   numbers as `DataView` reads and writes them.
-- - Core/Limits, Core/Liveness, Core/Datagram, Core/Attributes, Core/Frame: the files of those names;
--   what they promise stands in Core/Limits/Exchange, Core/Liveness/Exchange, Core/Datagram/Envelope.
-- - Core/Codec: Tlv is `encodeAttributes` and `decodeAttributes`, Validate is `validateFrame`, Frames is
--   `encodeFrame` and `decodeFrame`; TlvRoundTrip, RoundTrip, Wider and Valid are about them.
-- - Core/Compact: `src/core/compact.ts`. Varint is `writeVarint` and `readVarint`, Dictionary the
--   attributes, Frames `encodeCompactFrame` and `decodeCompactFrame`, RoundTrip about both,
--   Wider about a decoder with wider limits, and Valid about the frames it returns.
-- - Core/Capabilities: `src/core/capabilities.ts`; Agreement and Offers are about it.
-- - Core/Runtime: the constructor of `ProtocolRuntime`; Core/Runtime/Installed is about it.
-- - Core/Queue: the class `AsyncQueue`; Core/Queue/Order is about sequences of its calls.
-- - Core/Session: State is the state of `ReactiveSessionImpl` and of a stream, Table the map of streams,
--   Retire how streams and sessions end (`releaseStream`, `cancelStream`, `detach`, `finishClosed`),
--   Diagnostics the errors of the peer, Receive the body of `readLoop` after decoding: `handleFrame` and
--   every handler but those of a handshake, with `handleData` and `handleFragment` in Items, and `handleOpen`
--   and `handleSignal` in Offers.
--   Sound and its children are the invariant of a session. Fragment is `writeDataItem` up to its calls of
--   `writeDataFrames`,
--   and its children follow the frames into the receiver. Local is what the application calls on a
--   stream (`request`, `send`, `complete`, `cancel`, `fail`), and a session's `signal` and `close`. Lane is
--   `writeFrames`, `writeFrameNow` and a round of `readLoop`, with Taken and Sequence; Opening is
--   `openNext`, with the frames that wait in `writeTail` before its own.
--   Offer is the loop of `attach` over what it offers, with Largest. Negotiated is what the two handlers of
--   a handshake share: the check of its attributes, `applyPeerLimits`, `applyDatagramCapability` and
--   `attachExtensions`. Handshake is `handleHello` and `handleWelcome`, with Limited and Established about
--   what they set, and Versions, Agreement, Same, Answer and RoundTrip about the negotiation of both sides,
--   and Delivery about what is sent afterwards.
-- - Transport/Framing: `src/transport/framing.ts` and `src/compatibility/rsocket-v1/framing.ts`, with
--   Single, Chunks and RoundTrip about how the bytes are cut. Transport/Incoming: `src/transport/incoming.ts`, the
--   queue between a socket and a session, with its Bounds.
-- - Rsocket: `src/compatibility/rsocket-v1`. Frame is frame.ts with the fields of codec.ts, Body the cases
--   of `encodeRSocketFrame` and `decodeRSocketFrame` by type, Codec the two with their header; RoundTrip and
--   its neighbours are about them. Metadata is metadata.ts, with Loop and RoundTrip.
-- - Profile/DatagramRouting: `src/profile/datagram-routing/index.ts`. Routes is the
--   announced table, Peer the envelope, `attach` and `DatagramPeer`, Latest its `sendLatest` with
--   `drainLatest`. The children are about them.
-- - Profile/Rpc: `src/profile/rpc`. Rpc is the attributes of a call, with Open about them; Attach
--   the checks of `attachRpcProfile`; Serve is `handleIncomingRpc` and the response, with Calls
--   about it; Registry is the handlers of an `RpcPeer`, with Disposal about them.
-- - Tests: the theorems at concrete values.
--
-- How the code is read. A byte string is a list of numbers, a JavaScript string the list of its
-- UTF-16 units, and a bigint or safe integer a natural number; subtraction is written
-- `Math.max(0, a - b)` in the code. `TextEncoder` and `TextDecoder` are a parameter, with the laws
-- that the code relies on as `IsUtf8`. Each handler is a function of the session that returns the
-- session it leaves, with an error if it throws, since a throw in JavaScript undoes nothing.
-- `writeFrame` is a queue of frames: `outgoing` holds them in order. The acceptors of an
-- application are functions, which may throw; what they do after they accepted runs in later
-- turns, and is not part of a handler's step.
--
-- Bounds and fuel. `decode_loop` runs on fuel, the length of the area: each attribute takes seven bytes
-- at least, so that the fuel lasts, as the round trip shows. `push_loop` runs on the length of its
-- chunk, of which each turn takes a byte at least; it equals a decoder of single bytes that needs no
-- fuel. The loops of Rsocket/Metadata run on the length of their input; Loop shows that it lasts. The
-- varint reader counts its rounds, ten or five at most. The loop of Core/Session/Offer runs on one more
-- than the ids it starts from, and Largest shows that it ends by its test. The other loops are structural.
--
-- What is not modelled. What else happens to a session while a call of `open` waits for its turn to
-- write; the connection and the lanes that `attach` opens, the liveness timer, the
-- adapters of sockets, of the RPC profile the state that an attachment keeps, aborts and the pump of a
-- duplex call, and the sessions of the RSocket compatibility layer.
pub mod Prelude
pub mod Failure
pub mod Bytes
pub mod Core
pub mod Transport
pub mod Texts
pub mod Rsocket
pub mod Profile
mod Tests
