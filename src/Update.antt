-- ===== src/Update.antt =====
-- internal/update: the recorded result of an update check, and the order of versions.
pub mod State
pub mod Version
pub mod Checker
pub mod Tests
