-- ===== src/Webrtc/Tests.antt =====
-- Tests of internal/webrtc on a small platform and a small network, and the theorems at inputs that
-- meet their hypotheses.
pub mod Channel
pub mod Table
pub mod Signals
