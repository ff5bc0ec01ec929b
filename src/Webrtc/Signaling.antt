-- ===== src/Webrtc/Signaling.antt =====
-- The signaling client of internal/webrtc/signaling.go.
pub mod State
pub mod Token
pub mod Loop
pub mod Steps
pub mod Pace
pub mod Serving
pub mod Steady
pub mod Wake
