-- ===== src/Webrtc.antt =====
-- internal/webrtc: one peer's connection, and the table of the peers.
pub mod Peer
pub mod Manager
mod Tests
pub mod Signaling
