-- ===== src/Agent/Handler/Sessions.antt =====
-- The session tree as it is sent, and the end of a pane, in internal/agent/handler.go.
use pmux_agent.Base.{
  Bool, true, false, not, ◌&&◌, ◌||◌, List, [], ◌∷◌, map, Option, none, some, Bytes, codes, str_eq,
  if◌then◌else◌,
}
use pmux_agent.Base.Map.{lookup, insert}
use pmux_agent.Protocol.Messages.{Message, TmuxSession, TmuxWindow, TmuxPane}
use pmux_agent.Tmux.Listing.{Session, Window, Pane}
use pmux_agent.Update.State.{UpdateState, is_stale}
use pmux_agent.Agent.Handler.State.{Backend, State, pane_of_peer, send_msg, send_error}
use pmux_agent.Agent.Handler.Detach.{detach_peer, detach_peer_wait}

unfoldable pub to_protocol_pane : Pane → TmuxPane
to_protocol_pane p = record {
  id = p.id;
  index = p.index;
  active = p.active;
  size = record { cols = p.size.cols; rows = p.size.rows };
  title = p.title;
  current_command = p.current_command;
}

unfoldable pub to_protocol_window : Window → TmuxWindow
unfolding to_protocol_pane
to_protocol_window w = record {
  id = w.id;
  name = w.name;
  index = w.index;
  active = w.active;
  panes = map to_protocol_pane w.panes;
}

unfoldable pub to_protocol_session : Session → TmuxSession
unfolding to_protocol_window
to_protocol_session s = record {
  id = s.id;
  name = s.name;
  created_at = s.created_at;
  windows = map to_protocol_window s.windows;
  last_activity_at = s.last_activity_at;
  attached = s.attached;
}

unfoldable pub to_protocol_sessions : List Session → List TmuxSession
unfolding to_protocol_session
to_protocol_sessions ss = map to_protocol_session ss

-- The loops that look for a pane in the tree.
unfoldable pub has_pane : Bytes → List Pane → Bool
has_pane pane [] = false
has_pane pane (p ∷ ps) = str_eq p.id pane || has_pane pane ps

unfoldable pub window_has_pane : Bytes → List Window → Bool
unfolding has_pane
window_has_pane pane [] = false
window_has_pane pane (w ∷ ws) = has_pane pane w.panes || window_has_pane pane ws

unfoldable pub tree_has_pane : Bytes → List Session → Bool
unfolding window_has_pane
tree_has_pane pane [] = false
tree_has_pane pane (s ∷ ss) = window_has_pane pane s.windows || tree_has_pane pane ss

-- The version to announce: of an update that is available and was found by this version.
unfoldable pub announced : Bytes → Option UpdateState → Bytes
announced version none = []
announced version (some u) =
    if u.update_available && not (is_stale u version) then u.latest_version else []

module _ (backend : Backend) where
  open backend use {World, list_all, load_state}

  unfoldable pub new_sessions_event : List Session → State World → Message
  unfolding announced to_protocol_sessions
  new_sessions_event sessions s = Message.sessions (record {
    sessions = to_protocol_sessions sessions;
    agent_version = s.agent_version;
    update_available =
        if str_eq s.update_state_file []
        then []
        else announced s.agent_version (load_state s.world);
  })

  -- `h.tmux.ListAll()`.
  unfoldable pub query_sessions : State World → Option (List Session) × State World
  query_sessions s = let (r, w) = list_all s.world in (r, record s { world = w })

  unfoldable pub send_sessions : Bytes → List Session → State World → State World
  send_sessions peer sessions s = (send_msg backend peer (new_sessions_event sessions s) s).1

  unfoldable pub send_sessions_if_listed : Bytes → Option (List Session) → State World → State World
  unfolding send_sessions
  send_sessions_if_listed peer none s = s
  send_sessions_if_listed peer (some sessions) s = send_sessions peer sessions s

  unfoldable pub close_pane : Bytes → Bytes → State World → State World
  close_pane peer pane s = (send_msg backend peer (Message.pane_closed pane) s).1

  -- The safety net of `handleListSessions`.
  unfoldable pub drop_missing_pane : Bytes → List Session → State World → State World
  unfolding close_pane
  drop_missing_pane peer sessions s =
      let pane = pane_of_peer peer s in
      if not (str_eq pane []) && not (tree_has_pane pane sessions)
      then detach_peer backend peer (close_pane peer pane s)
      else s

  unfoldable pub answer_sessions : Bytes → Option (List Session) → State World → State World
  unfolding drop_missing_pane send_sessions
  answer_sessions peer none s =
      send_error backend peer (codes "list_sessions_failed") (codes "failed to list sessions") s
  answer_sessions peer (some sessions) s =
      send_sessions peer sessions (drop_missing_pane peer sessions s)

  unfoldable pub handle_list_sessions : Bytes → State World → State World
  unfolding query_sessions answer_sessions
  handle_list_sessions peer s = let (r, s') = query_sessions s in answer_sessions peer r s'

  -- Whether `handlePaneExit` has something to do: an attached pane whose end is not yet announced.
  unfoldable pub exit_pending : Bytes → State World → Bool
  exit_pending peer s =
      not (str_eq (pane_of_peer peer s) [])
      && not (elim (lookup peer s.exit_notified) [ none ↦ false | some b ↦ b ])

  unfoldable pub mark_exit : Bytes → State World → State World
  mark_exit peer s = record s { exit_notified = insert peer true s.exit_notified }

  -- `handlePaneExit` once it has claimed the exit.
  unfoldable pub announce_exit : Bytes → Bytes → Bool → State World → State World
  unfolding close_pane query_sessions send_sessions_if_listed
  announce_exit peer pane wait s =
      let (r, s') = query_sessions (close_pane peer pane s) in
      detach_peer_wait backend peer wait (send_sessions_if_listed peer r s')

  unfoldable pub handle_pane_exit : Bytes → Bool → State World → State World
  unfolding exit_pending mark_exit announce_exit
  handle_pane_exit peer wait s =
      if exit_pending peer s
      then announce_exit peer (pane_of_peer peer s) wait (mark_exit peer s)
      else s
