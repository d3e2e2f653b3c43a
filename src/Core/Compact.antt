-- ===== src/Core/Compact.antt =====
-- src/core/compact.ts: compact frames, in their parts.
pub mod Varint
pub mod Dictionary
pub mod Frames
pub mod RoundTrip
pub mod Wider
pub mod Valid
