-- ===== src/Agent/Handler.antt =====
-- internal/agent/handler.go. A message is handled as one call, which runs to its end; a goroutine
-- that the code waits for has exited when the wait is over.
pub mod State
pub mod Detach
pub mod Sessions
pub mod Attach
pub mod Requests
pub mod Stream
pub mod Isolation
pub mod Attachment
pub mod Events
pub mod Answers
