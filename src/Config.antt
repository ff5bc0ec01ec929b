-- ===== src/Config.antt =====
-- internal/config/config.go: the settings, where they come from, and their check.
pub mod Settings
pub mod Load
pub mod Provenance
pub mod Traced
pub mod Check
pub mod Usable
pub mod Tests
