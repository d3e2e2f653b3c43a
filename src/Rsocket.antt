-- ===== src/Rsocket.antt =====
-- src/compatibility/rsocket-v1: frames and metadata of RSocket 1.0.
pub mod Frame
pub mod Body
pub mod Codec
pub mod Metadata
