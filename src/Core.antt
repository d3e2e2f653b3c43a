-- ===== src/Core.antt =====
-- src/core: the protocol's core.
pub mod Limits
pub mod Capabilities
pub mod Liveness
pub mod Datagram
pub mod Attributes
pub mod Frame
pub mod Codec
pub mod Compact
pub mod Queue
pub mod Session
pub mod Runtime
