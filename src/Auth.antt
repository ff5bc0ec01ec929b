-- ===== src/Auth.antt =====
-- internal/auth: the pairing session of the host.
pub mod Session
pub mod Pairing
pub mod Tests
