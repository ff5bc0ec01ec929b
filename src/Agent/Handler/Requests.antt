-- ===== src/Agent/Handler/Requests.antt =====
-- The other requests, `HandleMessage`, and the two ways in which a peer goes, in
-- internal/agent/handler.go.
use pmux_agent.Base.{
  ℕ, ◌-◌, ℤ, pos, int_eq, Bool, not, ◌&&◌, List, [], ◌∷◌, ◌++◌, Option, none, some, Bytes, codes,
  length, ltb, str_eq, if◌then◌else◌,
}
use pmux_agent.Base.Map.{Map, lookup, insert, delete}
use pmux_agent.Strings.Numbers.{itoa}
use pmux_agent.Protocol.Messages.{Message, ResizeRequest, TmuxSession}
use pmux_agent.Protocol.Validation.{max_input_size}
use pmux_agent.Tmux.Client.{valid_target}
use pmux_agent.Tmux.Listing.{Session}
use pmux_agent.Agent.Handler.State.{Backend, Bridge, State, send_msg, send_error}
use pmux_agent.Agent.Handler.Detach.{detach_peer}
use pmux_agent.Agent.Handler.Sessions.{handle_list_sessions, query_sessions, to_protocol_sessions}
use pmux_agent.Agent.Handler.Attach.{handle_attach, out_of_range, range_text}

-- `[2]int{0, 0}` for a peer without an entry.
unfoldable pub dims_of_peer : {W : Type 0} → Bytes → State W → ℤ × ℤ
dims_of_peer peer s = elim (lookup peer s.last_dims) [ none ↦ (pos 0, pos 0) | some d ↦ d ]

unfoldable pub same_dims : ℤ × ℤ → ResizeRequest → Bool
same_dims last req = int_eq last.0 req.cols && int_eq last.1 req.rows

unfoldable pub set_dims : {W : Type 0} → Bytes → ResizeRequest → State W → State W
set_dims peer req s = record s { last_dims = insert peer (req.cols, req.rows) s.last_dims }

unfoldable pub find_session : Bytes → List TmuxSession → Option TmuxSession
find_session id [] = none
find_session id (s ∷ ss) = if str_eq s.id id then some s else find_session id ss

-- `GetStalePeers` at a time, in the order of the entries.
unfoldable pub stale_peers : ℕ → ℕ → Map ℕ → List Bytes
stale_peers now timeout [] = []
stale_peers now timeout ((peer, last) ∷ m) =
    let rest = stale_peers now timeout m in if ltb timeout (now - last) then peer ∷ rest else rest

module _ (backend : Backend) where
  open backend use {World, kill_session, create_session, write_bridge, resize_bridge, now, quote}

  unfoldable pub handle_detach : Bytes → State World → State World
  handle_detach peer s = (send_msg backend peer Message.detached (detach_peer backend peer s)).1

  unfoldable pub write_input : Bytes → Bytes → Option Bridge → State World → State World
  write_input peer input none s =
      send_error backend peer (codes "not_attached") (codes "no pane attached") s
  write_input peer input (some bridge) s =
      let (written, w) = write_bridge bridge input s.world in
      let s' = record s { world = w } in
      if written
      then s'
      else send_error backend peer (codes "input_failed") (codes "failed to send input") s'

  unfoldable pub handle_input : Bytes → Bytes → State World → State World
  unfolding write_input
  handle_input peer input s =
      if ltb max_input_size (length input)
      then send_error backend peer (codes "input_too_large")
          (codes "input size "
            ++ itoa (pos (length input))
            ++ codes " exceeds "
            ++ itoa (pos max_input_size)
            ++ codes " byte limit")
          s
      else write_input peer input (lookup peer s.bridges) s

  unfoldable pub resize_attached : Bytes → ResizeRequest → Option Bridge → State World → State World
  unfolding same_dims dims_of_peer set_dims
  resize_attached peer req none s =
      send_error backend peer (codes "not_attached") (codes "no pane attached") s
  resize_attached peer req (some bridge) s =
      if same_dims (dims_of_peer peer s) req
      then s
      else let (resized, w) = resize_bridge bridge req.cols req.rows s.world in
        let s' = record s { world = w } in
        if resized
        then set_dims peer req s'
        else send_error backend peer (codes "resize_failed") (codes "failed to resize pane") s'

  unfoldable pub handle_resize : Bytes → ResizeRequest → State World → State World
  unfolding resize_attached
  handle_resize peer req s =
      if out_of_range req.cols req.rows
      then send_error backend peer (codes "resize_failed") (range_text req.cols req.rows) s
      else resize_attached peer req (lookup peer s.bridges) s

  unfoldable pub handle_ping : Bytes → State World → State World
  handle_ping peer s =
      (send_msg backend peer (Message.pong (pos 0))
        (record s { last_ping_time = insert peer (now s.world) s.last_ping_time })).1

  unfoldable pub handle_kill_session : Bytes → Bytes → State World → State World
  handle_kill_session peer session s =
      if not (valid_target session)
      then send_error backend peer (codes "kill_session_failed")
          (codes "invalid session ID: " ++ quote session) s
      else let (killed, w) = kill_session session s.world in
        let s' = record s { world = w } in
        if killed
        then (send_msg backend peer (Message.session_ended session) s').1
        else send_error backend peer (codes "kill_session_failed") (codes "failed to kill session")
            s'

  unfoldable pub answer_created : Bytes → Option TmuxSession → State World → State World
  answer_created peer none s =
      send_error backend peer (codes "create_session_failed")
        (codes "session created but not found in session list") s
  answer_created peer (some created) s =
      (send_msg backend peer (Message.session_created created) s).1

  unfoldable pub answer_listed : Bytes → Bytes → Option (List Session) → State World → State World
  unfolding answer_created
  answer_listed peer id none s =
      send_error backend peer (codes "create_session_failed")
        (codes "session created but failed to fetch details") s
  answer_listed peer id (some sessions) s =
      answer_created peer (find_session id (to_protocol_sessions sessions)) s

  unfoldable pub answer_create : Bytes → Option Bytes → State World → State World
  unfolding answer_listed
  answer_create peer none s =
      send_error backend peer (codes "create_session_failed") (codes "failed to create session") s
  answer_create peer (some id) s =
      let (r, s') = query_sessions backend s in answer_listed peer id r s'

  unfoldable pub handle_create_session : Bytes → State World → State World
  unfolding answer_create
  handle_create_session peer s =
      let (r, w) = create_session s.world in answer_create peer r (record s { world = w })

  -- `HandleMessage`. Other types are logged and dropped.
  unfoldable pub handle_message : Bytes → Message → State World → State World
  handle_message peer Message.list_sessions s = handle_list_sessions backend peer s
  handle_message peer (Message.attach req) s = handle_attach backend peer req s
  handle_message peer Message.detach s = handle_detach peer s
  handle_message peer (Message.input input) s = handle_input peer input s
  handle_message peer (Message.resize req) s = handle_resize peer req s
  handle_message peer Message.ping s = handle_ping peer s
  handle_message peer (Message.kill_session session) s = handle_kill_session peer session s
  handle_message peer Message.create_session s = handle_create_session peer s
  handle_message peer _ s = s

  unfoldable pub peer_disconnected : Bytes → State World → State World
  peer_disconnected peer s =
      detach_peer backend peer (record s { last_ping_time = delete peer s.last_ping_time })

  unfoldable pub get_stale_peers : ℕ → State World → List Bytes
  unfolding stale_peers
  get_stale_peers timeout s = stale_peers (now s.world) timeout s.last_ping_time
