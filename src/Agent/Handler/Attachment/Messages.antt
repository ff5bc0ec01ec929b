-- ===== src/Agent/Handler/Attachment/Messages.antt =====
-- `HandleMessage` of internal/agent/handler.go on the entries of its peer.
use pmux_agent.Base.{Bytes}
use pmux_agent.Protocol.Messages.{Message}
use pmux_agent.Agent.Handler.State.{Backend, State}
use pmux_agent.Agent.Handler.Sessions.{handle_list_sessions}
use pmux_agent.Agent.Handler.Requests.{
  handle_detach, handle_ping, handle_create_session, handle_message,
}
use pmux_agent.Agent.Handler.Attachment.{IsSound}
use pmux_agent.Agent.Handler.Attachment.Neutral.{
  world-IsSound, say-IsSound, detach_peer-IsSound, query-IsSound, answer_sessions-IsSound,
  handle_input-IsSound, handle_resize-IsSound, answer_create-IsSound, handle_kill_session-IsSound,
  ping-IsSound,
}
use pmux_agent.Agent.Handler.Attachment.Attach.{handle_attach-IsSound}

module _ (backend : Backend) (p : Bytes) where
  open backend use {World}

  -- A message keeps what the handler holds for its peer sound.
  pub handle_message-IsSound :
      (m : Message) (s : State World) → IsSound p s → IsSound p (handle_message backend p m s)
  unfolding handle_message handle_list_sessions handle_detach handle_ping handle_create_session
  handle_message-IsSound Message.list_sessions s h =
      answer_sessions-IsSound backend p _ _ (query-IsSound backend p s h)
  handle_message-IsSound (Message.attach req) s h = handle_attach-IsSound backend p req s h
  handle_message-IsSound Message.detach s h =
      say-IsSound backend p _ _ (detach_peer-IsSound backend p s h)
  handle_message-IsSound (Message.input d) s h = handle_input-IsSound backend p d s h
  handle_message-IsSound (Message.resize req) s h = handle_resize-IsSound backend p req s h
  handle_message-IsSound Message.ping s h = say-IsSound backend p _ _ (ping-IsSound backend p _ s h)
  handle_message-IsSound (Message.kill_session n) s h = handle_kill_session-IsSound backend p n s h
  handle_message-IsSound Message.create_session s h =
      answer_create-IsSound backend p _ _ (world-IsSound backend p s _ h)
  handle_message-IsSound _ s h = h
