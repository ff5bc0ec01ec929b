-- ===== src/Agent/Handler/Isolation/Sessions.antt =====
-- The session tree and the end of a pane, in internal/agent/handler.go, seen from another peer.
use pmux_agent.Base.{◌≡◌, refl, ◌∙◌, Bool, false, List, Option, none, some, Bytes, str_eq}
use pmux_agent.Base.Map.{lookup-insert}
use pmux_agent.Protocol.Messages.{Message}
use pmux_agent.Tmux.Listing.{Session}
use pmux_agent.Agent.Handler.State.{Backend, Bridge, Stream, State}
use pmux_agent.Agent.Handler.Sessions.{
  close_pane, query_sessions, send_sessions, send_sessions_if_listed, answer_sessions,
  handle_list_sessions, mark_exit, handle_pane_exit,
}
use pmux_agent.Agent.Handler.Isolation.{view, world-view, if-view}
use pmux_agent.Agent.Handler.Isolation.Detach.{
  send_msg-view, send_error-view, detach_peer_wait-view, detach_peer-view,
}

module _ (backend : Backend) (p q : Bytes) (apart : str_eq p q ≡ false) where
  open backend use {World}

  pub say :
      (m : Message) (s : State World)
      → view q (pmux_agent.Agent.Handler.State.send_msg backend p m s).1 ≡ view q s
  say = send_msg-view backend p q apart

  pub complain :
      (c t : Bytes) (s : State World)
      → view q (pmux_agent.Agent.Handler.State.send_error backend p c t s) ≡ view q s
  complain = send_error-view backend p q apart

  pub query-view : (s : State World) → view q (query_sessions backend s).1 ≡ view q s
  unfolding query_sessions
  query-view s = world-view q s _

  pub close_pane-view :
      (pane : Bytes) (s : State World) → view q (close_pane backend p pane s) ≡ view q s
  unfolding close_pane
  close_pane-view pane s = say _ s

  send_sessions-view :
      (r : List Session) (s : State World) → view q (send_sessions backend p r s) ≡ view q s
  unfolding send_sessions
  send_sessions-view r s = say _ s

  pub listed-view :
      (r : Option (List Session)) (s : State World)
      → view q (send_sessions_if_listed backend p r s) ≡ view q s
  unfolding send_sessions_if_listed
  listed-view none s = refl
  listed-view (some r) s = say _ s

  answer_sessions-view :
      (r : Option (List Session)) (s : State World)
      → view q (answer_sessions backend p r s) ≡ view q s
  unfolding answer_sessions
  answer_sessions-view none s = complain _ _ s
  answer_sessions-view (some r) s =
      say _ _ ∙ if-view q _ _ _ _ (detach_peer-view backend p q apart _ ∙ say _ s) refl

  pub handle_list_sessions-view :
      (s : State World) → view q (handle_list_sessions backend p s) ≡ view q s
  unfolding handle_list_sessions
  handle_list_sessions-view s = answer_sessions-view _ _ ∙ world-view q s _

  mark_exit-view : (s : State World) → view q (mark_exit backend p s) ≡ view q s
  unfolding mark_exit view
  mark_exit-view s = simp (lookup-insert, apart)

  pub handle_pane_exit-view :
      (wait : Bool) (s : State World) → view q (handle_pane_exit backend p wait s) ≡ view q s
  unfolding handle_pane_exit
  handle_pane_exit-view wait s =
      if-view q _ _ _ _
        (detach_peer_wait-view backend p q apart wait _
          ∙ listed-view _ _
          ∙ world-view q _ _
          ∙ say _ _
          ∙ mark_exit-view s)
        refl
