-- ===== src/Webrtc/Manager.antt =====
-- The table of the peers in internal/webrtc/peer.go.
pub mod State
pub mod Cleanup
pub mod Connect
pub mod Signals
pub mod Restart
pub mod Steps
pub mod Shrinks
pub mod Quiet
pub mod Table
pub mod Reachable
pub mod Stale
