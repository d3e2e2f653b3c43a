-- ===== src/Profile.antt =====
-- The profiles of src/profile, which extensions bring into a session.
pub mod DatagramRouting
pub mod Rpc
