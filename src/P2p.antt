-- ===== src/P2p.antt =====
-- internal/p2p: message frames and the payloads of the protocol's messages.
pub mod Message
pub mod Version
pub mod Sync
