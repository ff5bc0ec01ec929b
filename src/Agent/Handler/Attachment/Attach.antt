-- ===== src/Agent/Handler/Attachment/Attach.antt =====
-- `handleAttach` of internal/agent/handler.go on the entries of its peer.
use pmux_agent.Base.{
  ℤ, ◌≡◌, ◌∙◌, inl, inr, Bool, true, false, Option, none, some, Bytes, Bool-cases,
}
use pmux_agent.Protocol.Messages.{AttachRequest}
use pmux_agent.Tmux.Client.{valid_target}
use pmux_agent.Agent.Handler.State.{elem, Backend, Bridge, Stream, State}
use pmux_agent.Agent.Handler.Attach.{
  out_of_range, register, abandon_attach, send_pre_stream, send_compressed, begin_output,
  open_stream, attach_bridge, reattach_to, handle_attach, new_stream,
}
use pmux_agent.Agent.Handler.Attachment.{
  slot, empty_slot, IsSound, IsSoundSlot, keeps, empties, if-IsSound,
}
use pmux_agent.Agent.Handler.Attachment.Sound.{
  world-slot, exit_stream-slot, register-slot, detach_peer-slot, reset_stream-slot,
}
use pmux_agent.Agent.Handler.Attachment.Neutral.{
  start_stream-IsSound, world-IsSound, say-IsSound, send_error-IsSound, refuse_attach-IsSound,
}

module _ (backend : Backend) (t : Stream) (valid : valid_target t.pane_id ≡ true) where
  open backend use {World}

  pub register-IsSound :
      (cols rows : ℤ) (s : State World)
      → out_of_range cols rows ≡ false
      → slot t.peer s ≡ empty_slot
      → IsSound t.peer (register t cols rows s)
  unfolding IsSound IsSoundSlot
  register-IsSound cols rows s range idle =
      inr (t.bridge, t.id, t.pane_id, (cols, rows), register-slot t cols rows s idle, valid, range)

  abandon_attach-IsSound :
      (reason : Bytes) (s : State World)
      → IsSound t.peer s
      → IsSound t.peer (abandon_attach backend t reason s)
  unfolding abandon_attach
  abandon_attach-IsSound reason s h = keeps t.peer _ _ (exit_stream-slot backend t.peer _ _) (
      if-IsSound t.peer (elem t.id s.canceled) s _ h
        (empties t.peer _ (reset_stream-slot backend t.peer _ _ s h)))

  send_pre_stream-IsSound :
      (c : Bytes) (s : State World)
      → IsSound t.peer s
      → IsSound t.peer (send_pre_stream backend t c s)
  unfolding send_pre_stream
  send_pre_stream-IsSound c s h =
      if-IsSound t.peer _ _ _ (start_stream-IsSound t.peer t _ (say-IsSound backend t.peer _ s h))
        (abandon_attach-IsSound _ _ (say-IsSound backend t.peer _ s h))

  send_compressed-IsSound :
      (r : Option Bytes) (s : State World)
      → IsSound t.peer s
      → IsSound t.peer (send_compressed backend t r s)
  unfolding send_compressed
  send_compressed-IsSound none s h = abandon_attach-IsSound _ s h
  send_compressed-IsSound (some c) s h = send_pre_stream-IsSound c s h

  begin_output-IsSound :
      (r : Option Bytes) (s : State World)
      → IsSound t.peer s
      → IsSound t.peer (begin_output backend t r s)
  unfolding begin_output
  begin_output-IsSound none s h = start_stream-IsSound t.peer t s h
  begin_output-IsSound (some c) s h =
      if-IsSound t.peer _ _ _ (send_compressed-IsSound _ _ (world-IsSound backend t.peer s _ h))
        (send_pre_stream-IsSound c s h)

  open_stream-IsSound :
      (req : AttachRequest) (s : State World)
      → out_of_range req.cols req.rows ≡ false
      → slot t.peer s ≡ empty_slot
      → IsSound t.peer (open_stream backend t req s)
  unfolding open_stream
  open_stream-IsSound req s range idle = begin_output-IsSound _ _ (
      world-IsSound backend t.peer _ _
        (say-IsSound backend t.peer _ _ (register-IsSound _ _ s range idle)))

module _ (backend : Backend) (p : Bytes) where
  open backend use {World}

  attach_bridge-IsSound :
      (req : AttachRequest) (tracked : Bool) (b : Option Bridge) (s : State World)
      → valid_target req.pane_id ≡ true
      → out_of_range req.cols req.rows ≡ false
      → slot p s ≡ empty_slot
      → IsSound p (attach_bridge backend p req tracked b s)
  unfolding attach_bridge new_stream
  attach_bridge-IsSound req tracked none s valid range idle =
      refuse_attach-IsSound backend p _ _ s (empties p s idle)
  attach_bridge-IsSound req tracked (some b) s valid range idle =
      open_stream-IsSound backend (new_stream backend p req b s) valid req s range idle

  reattach_to-IsSound :
      (req : AttachRequest) (s : State World)
      → valid_target req.pane_id ≡ true
      → out_of_range req.cols req.rows ≡ false
      → IsSound p s
      → IsSound p (reattach_to backend p req s)
  unfolding reattach_to
  reattach_to-IsSound req s valid range h =
      attach_bridge-IsSound req _ _ _ valid range
        (world-slot p _ _ ∙ detach_peer-slot backend p s h)

  pub handle_attach-IsSound :
      (req : AttachRequest) (s : State World)
      → IsSound p s
      → IsSound p (handle_attach backend p req s)
  unfolding handle_attach
  handle_attach-IsSound req s h = elim (Bool-cases (valid_target req.pane_id)) [
    | inr bad ↦ rw bad (send_error-IsSound backend p _ _ s h)
    | inl valid ↦ rw valid (elim (Bool-cases (out_of_range req.cols req.rows)) [
      | inl out ↦ rw out (send_error-IsSound backend p _ _ s h)
      | inr range ↦ rw range (reattach_to-IsSound req s valid range h)
    ])
  ]
