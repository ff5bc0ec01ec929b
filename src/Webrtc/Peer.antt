-- ===== src/Webrtc/Peer.antt =====
-- A `Peer` of internal/webrtc/peer.go, with the messages that it receives and sends.
pub mod State
pub mod Fingerprints
pub mod Send
pub mod Auth
pub mod Steps
pub mod Possession
pub mod Sent
pub mod Inbound
pub mod Phases
pub mod Outbound
pub mod Honest
