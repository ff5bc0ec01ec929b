-- ===== src/Agent.antt =====
-- internal/agent: the handler of protocol messages.
pub mod Handler
pub mod Tests
