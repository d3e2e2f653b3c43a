-- ===== src/Core/Codec.antt =====
-- src/core/codec.ts: the PRP/1 frame codec, in its parts.
pub mod Tlv
pub mod TlvRoundTrip
pub mod Validate
pub mod Frames
pub mod RoundTrip
pub mod Wider
pub mod Valid
