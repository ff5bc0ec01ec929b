-- ===== src/Agent/Handler/Attachment/Neutral.antt =====
-- The operations of internal/agent/handler.go that keep or empty the entries of their peer.
use pmux_agent.Base.{
  ℕ, ℤ, ◌≡◌, refl, ap, inl, inr, Bool, false, not, List, Option, none, some, Bytes, Bool-cases,
}
use pmux_agent.Base.Map.{lookup, insert, delete, lookup-insert_self}
use pmux_agent.Protocol.Messages.{Message, ResizeRequest, TmuxSession}
use pmux_agent.Tmux.Client.{valid_target}
use pmux_agent.Tmux.Listing.{Session}
use pmux_agent.Agent.Handler.State.{Backend, Bridge, Stream, State, send_msg, send_error}
use pmux_agent.Agent.Handler.Detach.{detach_peer}
use pmux_agent.Agent.Handler.Sessions.{
  close_pane, query_sessions, send_sessions, send_sessions_if_listed, drop_missing_pane,
  answer_sessions,
}
use pmux_agent.Agent.Handler.Attach.{out_of_range, start_stream, refuse_attach}
use pmux_agent.Agent.Handler.Requests.{
  write_input, handle_input, resize_attached, handle_resize, set_dims, handle_kill_session,
  answer_created, answer_listed, answer_create, peer_disconnected,
}
use pmux_agent.Agent.Handler.Attachment.{
  slot, full_slot, IsSound, IsSoundSlot, keeps, empties, if-IsSound,
}
use pmux_agent.Agent.Handler.Attachment.Sound.{world-slot, send_msg-slot, detach_peer-slot}

pub start_stream-IsSound :
    {W : Type 0} (p : Bytes) (t : Stream) (s : State W) → IsSound p s → IsSound p (start_stream t s)
unfolding start_stream IsSound slot
start_stream-IsSound p t s h = h

no_bridge_there : (r : Option Bridge) (b : Bridge) → r ≡ some b → r ≡ none → ⊥
no_bridge_there r b there gone = cc

set_dims-slot :
    {W : Type 0} (p : Bytes) (req : ResizeRequest) (s : State W) (b : Bridge) (c : ℕ) (pane : Bytes)
    (d : ℤ × ℤ)
    → slot p s ≡ full_slot b c pane d
    → slot p (set_dims p req s) ≡ full_slot b c pane (req.cols, req.rows)
unfolding set_dims slot
set_dims-slot p req s b c pane d h = simp (
  lookup-insert_self,
  ap (λ v. v.bridge) h,
  ap (λ v. v.cancel) h,
  ap (λ v. v.pane) h,
  ap (λ v. v.exit) h,
)

module _ (backend : Backend) (p : Bytes) where
  open backend use {World}

  pub world-IsSound :
      (s : State World) (w : World) → IsSound p s → IsSound p (record s { world = w })
  world-IsSound s w h = keeps p s _ (world-slot p s w) h

  pub say-IsSound :
      (m : Message) (s : State World) → IsSound p s → IsSound p (send_msg backend p m s).1
  say-IsSound m s h = keeps p s _ (send_msg-slot backend p m s) h

  pub send_error-IsSound :
      (c t : Bytes) (s : State World) → IsSound p s → IsSound p (send_error backend p c t s)
  unfolding send_error
  send_error-IsSound c t s h = say-IsSound _ s h

  pub detach_peer-IsSound : (s : State World) → IsSound p s → IsSound p (detach_peer backend p s)
  detach_peer-IsSound s h = empties p _ (detach_peer-slot backend p s h)

  pub query-IsSound : (s : State World) → IsSound p s → IsSound p (query_sessions backend s).1
  unfolding query_sessions
  query-IsSound s h = world-IsSound s _ h

  close_pane-IsSound :
      (pane : Bytes) (s : State World) → IsSound p s → IsSound p (close_pane backend p pane s)
  unfolding close_pane
  close_pane-IsSound pane s h = say-IsSound _ s h

  listed-IsSound :
      (r : Option (List Session)) (s : State World)
      → IsSound p s
      → IsSound p (send_sessions_if_listed backend p r s)
  unfolding send_sessions_if_listed send_sessions
  listed-IsSound none s h = h
  listed-IsSound (some r) s h = say-IsSound _ s h

  drop_missing_pane-IsSound :
      (r : List Session) (s : State World)
      → IsSound p s
      → IsSound p (drop_missing_pane backend p r s)
  unfolding drop_missing_pane
  drop_missing_pane-IsSound r s h =
      if-IsSound p _ _ _ (detach_peer-IsSound _ (close_pane-IsSound _ s h)) h

  pub answer_sessions-IsSound :
      (r : Option (List Session)) (s : State World)
      → IsSound p s
      → IsSound p (answer_sessions backend p r s)
  unfolding answer_sessions send_sessions
  answer_sessions-IsSound none s h = send_error-IsSound _ _ s h
  answer_sessions-IsSound (some r) s h = say-IsSound _ _ (drop_missing_pane-IsSound r s h)

  pub refuse_attach-IsSound :
      (pane : Bytes) (tracked : Bool) (s : State World)
      → IsSound p s
      → IsSound p (refuse_attach backend p pane tracked s)
  unfolding refuse_attach
  refuse_attach-IsSound pane tracked s h =
      if-IsSound p _ _ _ (send_error-IsSound _ _ _ (world-IsSound s _ h))
        (listed-IsSound _ _ (query-IsSound _ (close_pane-IsSound pane _ (world-IsSound s _ h))))

  write_input-IsSound :
      (d : Bytes) (b : Option Bridge) (s : State World)
      → IsSound p s
      → IsSound p (write_input backend p d b s)
  unfolding write_input
  write_input-IsSound d none s h = send_error-IsSound _ _ s h
  write_input-IsSound d (some b) s h =
      if-IsSound p _ _ _ (world-IsSound s _ h) (send_error-IsSound _ _ _ (world-IsSound s _ h))

  pub handle_input-IsSound :
      (d : Bytes) (s : State World) → IsSound p s → IsSound p (handle_input backend p d s)
  unfolding handle_input
  handle_input-IsSound d s h =
      if-IsSound p _ _ _ (send_error-IsSound _ _ s h) (write_input-IsSound d _ s h)

  set_dims-IsSound :
      (req : ResizeRequest) (s : State World) (b : Bridge)
      → out_of_range req.cols req.rows ≡ false
      → lookup p s.bridges ≡ some b
      → IsSound p s
      → IsSound p (set_dims p req s)
  unfolding IsSound IsSoundSlot slot
  set_dims-IsSound req s b range there (inl h) =
      absurd (no_bridge_there (lookup p s.bridges) b there (ap (λ v. v.bridge) h))
  set_dims-IsSound req s b range there (inr (b', c, pane, d, h, valid, r)) =
      inr (b', c, pane, (req.cols, req.rows), set_dims-slot p req s b' c pane d h, valid, range)

  resize_attached-IsSound :
      (req : ResizeRequest) (b : Option Bridge) (s : State World)
      → out_of_range req.cols req.rows ≡ false
      → lookup p s.bridges ≡ b
      → IsSound p s
      → IsSound p (resize_attached backend p req b s)
  unfolding resize_attached
  resize_attached-IsSound req none s range there h = send_error-IsSound _ _ s h
  resize_attached-IsSound req (some b) s range there h = if-IsSound p _ _ _ h (
      if-IsSound p _ _ _ (set_dims-IsSound req _ b range there (world-IsSound s _ h))
        (send_error-IsSound _ _ _ (world-IsSound s _ h)))

  pub handle_resize-IsSound :
      (req : ResizeRequest) (s : State World)
      → IsSound p s
      → IsSound p (handle_resize backend p req s)
  unfolding handle_resize
  handle_resize-IsSound req s h = elim (Bool-cases (out_of_range req.cols req.rows)) [
    | inl out ↦ rw out (send_error-IsSound _ _ s h)
    | inr range ↦ rw range (resize_attached-IsSound req _ s range refl h)
  ]

  answer_created-IsSound :
      (r : Option TmuxSession) (s : State World)
      → IsSound p s
      → IsSound p (answer_created backend p r s)
  unfolding answer_created
  answer_created-IsSound none s h = send_error-IsSound _ _ s h
  answer_created-IsSound (some c) s h = say-IsSound _ s h

  answer_listed-IsSound :
      (id : Bytes) (r : Option (List Session)) (s : State World)
      → IsSound p s
      → IsSound p (answer_listed backend p id r s)
  unfolding answer_listed
  answer_listed-IsSound id none s h = send_error-IsSound _ _ s h
  answer_listed-IsSound id (some r) s h = answer_created-IsSound _ s h

  pub answer_create-IsSound :
      (r : Option Bytes) (s : State World) → IsSound p s → IsSound p (answer_create backend p r s)
  unfolding answer_create
  answer_create-IsSound none s h = send_error-IsSound _ _ s h
  answer_create-IsSound (some id) s h = answer_listed-IsSound id _ _ (query-IsSound s h)

  pub handle_kill_session-IsSound :
      (n : Bytes) (s : State World) → IsSound p s → IsSound p (handle_kill_session backend p n s)
  unfolding handle_kill_session
  handle_kill_session-IsSound n s h =
      if-IsSound p (not (valid_target n)) _ _ (send_error-IsSound _ _ s h) (
        if-IsSound p _ _ _ (say-IsSound _ _ (world-IsSound s _ h))
          (send_error-IsSound _ _ _ (world-IsSound s _ h)))

  pub ping-IsSound :
      (n : ℕ) (s : State World)
      → IsSound p s
      → IsSound p (record s { last_ping_time = insert p n s.last_ping_time })
  unfolding IsSound slot
  ping-IsSound n s h = h

  unping-IsSound :
      (s : State World)
      → IsSound p s
      → IsSound p (record s { last_ping_time = delete p s.last_ping_time })
  unfolding IsSound slot
  unping-IsSound s h = h

  pub peer_disconnected-IsSound :
      (s : State World) → IsSound p s → IsSound p (peer_disconnected backend p s)
  unfolding peer_disconnected
  peer_disconnected-IsSound s h = detach_peer-IsSound _ (unping-IsSound s h)
