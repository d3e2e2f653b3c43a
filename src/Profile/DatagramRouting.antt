-- ===== src/Profile/DatagramRouting.antt =====
-- src/profile/datagram-routing/index.ts: the table of routes, the routed envelope, and the peer.
pub mod Routes
pub mod Peer
pub mod Latest
