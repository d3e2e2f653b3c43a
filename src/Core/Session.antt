-- ===== src/Core/Session.antt =====
-- src/core/session.ts: streams and their frames, once a session is connected.
pub mod State
pub mod Table
pub mod Retire
pub mod Diagnostics
pub mod Receive
pub mod Local
pub mod Sound
pub mod Fragment
pub mod Lane
pub mod Opening
pub mod Offer
pub mod Negotiated
pub mod Handshake
