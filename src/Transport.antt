-- ===== src/Transport.antt =====
-- src/transport: what lies between the bytes of a connection and frames.
pub mod Framing
pub mod Incoming
