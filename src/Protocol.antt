-- ===== src/Protocol.antt =====
-- internal/protocol: the messages between the mobile and the agent, and the agent's decoder.
pub mod Messages
pub mod Validation
pub mod Codec
mod Tests
