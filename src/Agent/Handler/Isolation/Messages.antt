-- ===== src/Agent/Handler/Isolation/Messages.antt =====
-- `HandleMessage` of internal/agent/handler.go, seen from another peer.
use pmux_agent.Base.{ℕ, ◌≡◌, refl, ◌∙◌, false, List, Option, none, some, Bytes, str_eq}
use pmux_agent.Base.Map.{insert, delete, lookup-insert, lookup-delete}
use pmux_agent.Protocol.Messages.{Message, ResizeRequest, TmuxSession}
use pmux_agent.Tmux.Listing.{Session}
use pmux_agent.Agent.Handler.State.{Backend, Bridge, State}
use pmux_agent.Agent.Handler.Requests.{
  handle_detach, write_input, handle_input, resize_attached, handle_resize, set_dims, handle_ping,
  handle_kill_session, answer_created, answer_listed, answer_create, handle_create_session,
  handle_message, peer_disconnected,
}
use pmux_agent.Agent.Handler.Isolation.{view, world-view, if-view}
use pmux_agent.Agent.Handler.Isolation.Detach.{detach_peer-view}
use pmux_agent.Agent.Handler.Isolation.Sessions.{
  say, complain, query-view, handle_list_sessions-view,
}
use pmux_agent.Agent.Handler.Isolation.Attach.{handle_attach-view}

module _ (backend : Backend) (p q : Bytes) (apart : str_eq p q ≡ false) where
  open backend use {World}

  handle_detach-view : (s : State World) → view q (handle_detach backend p s) ≡ view q s
  unfolding handle_detach
  handle_detach-view s = say backend p q apart _ _ ∙ detach_peer-view backend p q apart s

  write_input-view :
      (d : Bytes) (b : Option Bridge) (s : State World)
      → view q (write_input backend p d b s) ≡ view q s
  unfolding write_input
  write_input-view d none s = complain backend p q apart _ _ s
  write_input-view d (some b) s =
      if-view q _ _ _ _ (world-view q s _) (complain backend p q apart _ _ _ ∙ world-view q s _)

  handle_input-view : (d : Bytes) (s : State World) → view q (handle_input backend p d s) ≡ view q s
  unfolding handle_input
  handle_input-view d s =
      if-view q _ _ _ _ (complain backend p q apart _ _ s) (write_input-view d _ s)

  set_dims-view : (req : ResizeRequest) (s : State World) → view q (set_dims p req s) ≡ view q s
  unfolding set_dims view
  set_dims-view req s = simp (lookup-insert, apart)

  resize_attached-view :
      (req : ResizeRequest) (b : Option Bridge) (s : State World)
      → view q (resize_attached backend p req b s) ≡ view q s
  unfolding resize_attached
  resize_attached-view req none s = complain backend p q apart _ _ s
  resize_attached-view req (some b) s = if-view q _ _ _ _ refl (
      if-view q _ _ _ _ (set_dims-view req _ ∙ world-view q s _)
        (complain backend p q apart _ _ _ ∙ world-view q s _))

  handle_resize-view :
      (req : ResizeRequest) (s : State World) → view q (handle_resize backend p req s) ≡ view q s
  unfolding handle_resize
  handle_resize-view req s =
      if-view q _ _ _ _ (complain backend p q apart _ _ s) (resize_attached-view req _ s)

  ping-view :
      (n : ℕ) (s : State World)
      → view q (record s { last_ping_time = insert p n s.last_ping_time }) ≡ view q s
  unfolding view
  ping-view n s = simp (lookup-insert, apart)

  handle_ping-view : (s : State World) → view q (handle_ping backend p s) ≡ view q s
  unfolding handle_ping
  handle_ping-view s = say backend p q apart _ _ ∙ ping-view _ s

  handle_kill_session-view :
      (n : Bytes) (s : State World) → view q (handle_kill_session backend p n s) ≡ view q s
  unfolding handle_kill_session
  handle_kill_session-view n s = if-view q _ _ _ _ (complain backend p q apart _ _ s) (
      if-view q _ _ _ _ (say backend p q apart _ _ ∙ world-view q s _)
        (complain backend p q apart _ _ _ ∙ world-view q s _))

  answer_created-view :
      (r : Option TmuxSession) (s : State World) → view q (answer_created backend p r s) ≡ view q s
  unfolding answer_created
  answer_created-view none s = complain backend p q apart _ _ s
  answer_created-view (some c) s = say backend p q apart _ s

  answer_listed-view :
      (id : Bytes) (r : Option (List Session)) (s : State World)
      → view q (answer_listed backend p id r s) ≡ view q s
  unfolding answer_listed
  answer_listed-view id none s = complain backend p q apart _ _ s
  answer_listed-view id (some r) s = answer_created-view _ s

  answer_create-view :
      (r : Option Bytes) (s : State World) → view q (answer_create backend p r s) ≡ view q s
  unfolding answer_create
  answer_create-view none s = complain backend p q apart _ _ s
  answer_create-view (some id) s = answer_listed-view id _ _ ∙ query-view backend p q apart s

  handle_create_session-view :
      (s : State World) → view q (handle_create_session backend p s) ≡ view q s
  unfolding handle_create_session
  handle_create_session-view s = answer_create-view _ _ ∙ world-view q s _

  -- A message of one peer changes nothing that the handler holds for another peer, and sends that
  -- peer nothing.
  pub handle_message-view :
      (m : Message) (s : State World) → view q (handle_message backend p m s) ≡ view q s
  unfolding handle_message
  handle_message-view Message.list_sessions s = handle_list_sessions-view backend p q apart s
  handle_message-view (Message.attach req) s = handle_attach-view backend p q apart req s
  handle_message-view Message.detach s = handle_detach-view s
  handle_message-view (Message.input d) s = handle_input-view d s
  handle_message-view (Message.resize req) s = handle_resize-view req s
  handle_message-view Message.ping s = handle_ping-view s
  handle_message-view (Message.kill_session n) s = handle_kill_session-view n s
  handle_message-view Message.create_session s = handle_create_session-view s
  handle_message-view _ s = refl

  unping-view :
      (s : State World)
      → view q (record s { last_ping_time = delete p s.last_ping_time }) ≡ view q s
  unfolding view
  unping-view s = simp (lookup-delete, apart)

  pub peer_disconnected-view : (s : State World) → view q (peer_disconnected backend p s) ≡ view q s
  unfolding peer_disconnected
  peer_disconnected-view s = detach_peer-view backend p q apart _ ∙ unping-view s
