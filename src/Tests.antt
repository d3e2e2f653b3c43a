-- ===== src/Tests.antt =====
-- The theorems at work on concrete values.
mod Wire
mod Agreements
mod Carriers
mod Settings
mod Streams
mod Compact
mod Rsocket
mod Routing
mod Lanes
mod Calls
mod Offers
mod Handshakes
mod Welcomes
