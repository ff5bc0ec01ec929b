-- ===== src/Agent/Handler/Isolation/Attach.antt =====
-- `handleAttach` of internal/agent/handler.go, seen from another peer.
use pmux_agent.Base.{ℤ, ◌≡◌, refl, ◌∙◌, Bool, false, not, Option, none, some, Bytes, str_eq}
use pmux_agent.Base.Map.{lookup-insert}
use pmux_agent.Protocol.Messages.{AttachRequest}
use pmux_agent.Tmux.Client.{valid_target}
use pmux_agent.Agent.Handler.State.{elem, Backend, Bridge, Stream, State}
use pmux_agent.Agent.Handler.Attach.{
  register, start_stream, abandon_attach, send_pre_stream, send_compressed, begin_output,
  open_stream, refuse_attach, attach_bridge, reattach_to, handle_attach, new_stream, out_of_range,
}
use pmux_agent.Agent.Handler.Isolation.{view, world-view, if-view}
use pmux_agent.Agent.Handler.Isolation.Detach.{
  exit_stream-view, detach_peer-view, reset_stream-view,
}
use pmux_agent.Agent.Handler.Isolation.Sessions.{
  say, complain, query-view, close_pane-view, listed-view,
}

module _ (backend : Backend) (q : Bytes) (t : Stream) (apart : str_eq t.peer q ≡ false) where
  open backend use {World}

  start_stream-view : (s : State World) → view q (start_stream t s) ≡ view q s
  unfolding start_stream view
  start_stream-view s = refl

  register-view : (cols rows : ℤ) (s : State World) → view q (register t cols rows s) ≡ view q s
  unfolding register view
  register-view cols rows s = simp (lookup-insert, apart)

  abandon_attach-view :
      (reason : Bytes) (s : State World) → view q (abandon_attach backend t reason s) ≡ view q s
  unfolding abandon_attach
  abandon_attach-view reason s =
      exit_stream-view backend t.peer q apart _ _
      ∙ if-view q (elem t.id s.canceled) s _ _ refl (reset_stream-view backend t.peer q apart _ _ s)

  send_pre_stream-view :
      (c : Bytes) (s : State World) → view q (send_pre_stream backend t c s) ≡ view q s
  unfolding send_pre_stream
  send_pre_stream-view c s =
      if-view q _ _ _ _ (start_stream-view _ ∙ say backend t.peer q apart _ s)
        (abandon_attach-view _ _ ∙ say backend t.peer q apart _ s)

  send_compressed-view :
      (r : Option Bytes) (s : State World) → view q (send_compressed backend t r s) ≡ view q s
  unfolding send_compressed
  send_compressed-view none s = abandon_attach-view _ s
  send_compressed-view (some c) s = send_pre_stream-view c s

  begin_output-view :
      (r : Option Bytes) (s : State World) → view q (begin_output backend t r s) ≡ view q s
  unfolding begin_output
  begin_output-view none s = start_stream-view s
  begin_output-view (some c) s =
      if-view q _ _ _ _ (send_compressed-view _ _ ∙ world-view q s _) (send_pre_stream-view c s)

  pub open_stream-view :
      (req : AttachRequest) (s : State World) → view q (open_stream backend t req s) ≡ view q s
  unfolding open_stream
  open_stream-view req s =
      begin_output-view _ _
      ∙ world-view q _ _
      ∙ say backend t.peer q apart _ _
      ∙ register-view _ _ s

module _ (backend : Backend) (p q : Bytes) (apart : str_eq p q ≡ false) where
  open backend use {World}

  refuse_attach-view :
      (pane : Bytes) (tracked : Bool) (s : State World)
      → view q (refuse_attach backend p pane tracked s) ≡ view q s
  unfolding refuse_attach
  refuse_attach-view pane tracked s =
      if-view q _ _ _ _ (complain backend p q apart _ _ _ ∙ world-view q s _) (
        listed-view backend p q apart _ _
        ∙ query-view backend p q apart _
        ∙ close_pane-view backend p q apart pane _
        ∙ world-view q s _)

  attach_bridge-view :
      (req : AttachRequest) (tracked : Bool) (b : Option Bridge) (s : State World)
      → view q (attach_bridge backend p req tracked b s) ≡ view q s
  unfolding attach_bridge new_stream
  attach_bridge-view req tracked none s = refuse_attach-view req.pane_id tracked s
  attach_bridge-view req tracked (some b) s =
      open_stream-view backend q (new_stream backend p req b s) apart req s

  reattach_to-view :
      (req : AttachRequest) (s : State World) → view q (reattach_to backend p req s) ≡ view q s
  unfolding reattach_to
  reattach_to-view req s =
      attach_bridge-view req _ _ _ ∙ world-view q _ _ ∙ detach_peer-view backend p q apart s

  pub handle_attach-view :
      (req : AttachRequest) (s : State World) → view q (handle_attach backend p req s) ≡ view q s
  unfolding handle_attach
  handle_attach-view req s =
      if-view q (not (valid_target req.pane_id)) _ _ _ (complain backend p q apart _ _ s) (
        if-view q (out_of_range req.cols req.rows) _ _ _ (complain backend p q apart _ _ s)
          (reattach_to-view req s))
