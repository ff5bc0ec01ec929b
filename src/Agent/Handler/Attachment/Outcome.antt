-- ===== src/Agent/Handler/Attachment/Outcome.antt =====
-- `handleAttach` of internal/agent/handler.go: what its peer is attached to afterwards.
use pmux_agent.Base.{
  ℤ, refl, ap, List, ◌∷◌, ◌≡◌, ◌⊎◌, inl, inr, ◌∙◌, Bool, true, false, Option, none, some, Bytes,
  if◌then◌else◌, Bool-cases, if_holds, subst, [], arith,
}
use pmux_agent.Protocol.Messages.{Message, AttachRequest}
use pmux_agent.Tmux.Client.{valid_target}
use pmux_agent.Agent.Handler.State.{Backend, Bridge, Stream, State, send_msg, send_error, elem}
use pmux_agent.Agent.Handler.Attachment.Started.{
  send_msg-started, detach_peer-started, reset_stream-started, refuse_attach-started,
}
use pmux_agent.Agent.Handler.Detach.{end_stream, exit_stream, reset_stream}
use pmux_agent.Agent.Handler.Sessions.{close_pane, query_sessions}
use pmux_agent.Agent.Handler.Attachment.Streams.{listed-slot}
use pmux_agent.Agent.Handler.Attach.{
  register, out_of_range, start_stream, abandon_attach, send_pre_stream, send_compressed,
  begin_output, open_stream, refuse_attach, attach_bridge, reattach_to, handle_attach, new_stream,
}
use pmux_agent.Agent.Handler.Attachment.{Slot, slot, empty_slot, full_slot, IsSound, keeps}
use pmux_agent.Agent.Handler.Attachment.Sound.{
  world-slot, send_msg-slot, exit_stream-slot, register-slot, detach_peer-slot, reset_stream-slot,
}
use pmux_agent.Agent.Handler.Attachment.Attach.{register-IsSound}

-- Nothing and no new stream; or the stream's pane at its bridge, with the stream started or its context
-- canceled.
unfoldable pub IsOutcome : {W : Type 0} → Stream → ℤ × ℤ → List Stream → State W → Type 0
IsOutcome t d ts s =
    ((slot t.peer s ≡ empty_slot) × (s.started ≡ ts))
    ⊎ ((slot t.peer s ≡ full_slot t.bridge t.id t.pane_id d)
        × ((s.started ≡ t ∷ ts) ⊎ ((s.started ≡ ts) × (elem t.id s.canceled ≡ true))))

module _ (backend : Backend) (t : Stream) (d : ℤ × ℤ) (ts : List Stream) where
  open backend use {World}

  -- The stream is registered, and not started yet.
  IsOpen : State World → Type 0
  IsOpen s =
      IsSound t.peer s × (slot t.peer s ≡ full_slot t.bridge t.id t.pane_id d) × (s.started ≡ ts)

  IsOpen-keeps :
      (s u : State World)
      → slot t.peer u ≡ slot t.peer s
      → u.started ≡ s.started
      → IsOpen s
      → IsOpen u
  unfolding IsOpen
  IsOpen-keeps s u e f (sound, full, old) = (keeps t.peer s u e sound, e ∙ full, f ∙ old)

  say-IsOpen : (m : Message) (s : State World) → IsOpen s → IsOpen (send_msg backend t.peer m s).1
  say-IsOpen m s h =
      IsOpen-keeps s _ (send_msg-slot backend t.peer m s) (send_msg-started backend t.peer m s) h

  world-IsOpen : (s : State World) (w : World) → IsOpen s → IsOpen (record s { world = w })
  world-IsOpen s w h = IsOpen-keeps s _ (world-slot t.peer s w) refl h

  if-IsOutcome :
      (b : Bool) (s u : State World)
      → IsOutcome t d ts s
      → IsOutcome t d ts u
      → IsOutcome t d ts (if b then s else u)
  if-IsOutcome true s u hs hu = hs
  if-IsOutcome false s u hs hu = hu

  start_stream-IsOutcome : (s : State World) → IsOpen s → IsOutcome t d ts (start_stream t s)
  unfolding IsOutcome IsOpen start_stream slot
  start_stream-IsOutcome s (sound, full, old) = inr (full, inl (ap (λ us. t ∷ us) old))

  reset-IsOutcome :
      (reason : Bytes) (s : State World)
      → IsOpen s
      → IsOutcome t d ts (reset_stream backend t.peer t.id reason s)
  unfolding IsOutcome IsOpen
  reset-IsOutcome reason s (sound, full, old) = inl (
    reset_stream-slot backend t.peer _ _ s sound,
    reset_stream-started backend t.peer _ _ s ∙ old,
  )

  canceled-IsOutcome :
      (s : State World) → elem t.id s.canceled ≡ true → IsOpen s → IsOutcome t d ts s
  unfolding IsOutcome IsOpen
  canceled-IsOutcome s c (sound, full, old) = inr (full, inr (old, c))

  exit-IsOutcome :
      (s : State World) → IsOutcome t d ts s → IsOutcome t d ts (exit_stream backend t.peer t.id s)
  unfolding IsOutcome exit_stream end_stream
  exit-IsOutcome s (inl (h, old)) = inl (exit_stream-slot backend t.peer t.id s ∙ h, old)
  exit-IsOutcome s (inr (h, c)) = inr (exit_stream-slot backend t.peer t.id s ∙ h, c)

  abandon_attach-IsOutcome :
      (reason : Bytes) (s : State World)
      → IsOpen s
      → IsOutcome t d ts (abandon_attach backend t reason s)
  unfolding abandon_attach
  abandon_attach-IsOutcome reason s h = exit-IsOutcome _ (
      if_holds (IsOutcome t d ts) (elem t.id s.canceled) s
        (reset_stream backend t.peer t.id reason s) (λ c. canceled-IsOutcome s c h)
        (λ c. reset-IsOutcome reason s h))

  send_pre_stream-IsOutcome :
      (c : Bytes) (s : State World) → IsOpen s → IsOutcome t d ts (send_pre_stream backend t c s)
  unfolding send_pre_stream
  send_pre_stream-IsOutcome c s h =
      if-IsOutcome _ _ _ (start_stream-IsOutcome _ (say-IsOpen _ s h))
        (abandon_attach-IsOutcome _ _ (say-IsOpen _ s h))

  send_compressed-IsOutcome :
      (r : Option Bytes) (s : State World)
      → IsOpen s
      → IsOutcome t d ts (send_compressed backend t r s)
  unfolding send_compressed
  send_compressed-IsOutcome none s h = abandon_attach-IsOutcome _ s h
  send_compressed-IsOutcome (some c) s h = send_pre_stream-IsOutcome c s h

  begin_output-IsOutcome :
      (r : Option Bytes) (s : State World)
      → IsOpen s
      → IsOutcome t d ts (begin_output backend t r s)
  unfolding begin_output
  begin_output-IsOutcome none s h = start_stream-IsOutcome s h
  begin_output-IsOutcome (some c) s h =
      if-IsOutcome _ _ _ (send_compressed-IsOutcome _ _ (world-IsOpen s _ h))
        (send_pre_stream-IsOutcome c s h)

module _ (backend : Backend) (t : Stream) (req : AttachRequest) where
  open backend use {World}

  open_stream-IsOutcome :
      (s : State World)
      → valid_target t.pane_id ≡ true
      → out_of_range req.cols req.rows ≡ false
      → slot t.peer s ≡ empty_slot
      → IsOutcome t (req.cols, req.rows) s.started (open_stream backend t req s)
  unfolding open_stream IsOpen register
  open_stream-IsOutcome s valid range idle =
      begin_output-IsOutcome backend t (req.cols, req.rows) s.started _ _
        (world-IsOpen backend t (req.cols, req.rows) s.started _ _
          (say-IsOpen backend t (req.cols, req.rows) s.started _ _
            (register-IsSound backend t valid _ _ s range idle, register-slot t _ _ s idle, refl)))

-- An attach that is refused for its pane or its dimensions.
unfoldable pub IsRefused : AttachRequest → Type 0
IsRefused req = (valid_target req.pane_id ≡ false) ⊎ (out_of_range req.cols req.rows ≡ true)

-- A refused attach leaves the peer as before; any other leaves it attached to nothing, with no new
-- stream, or to the pane that was asked for at the dimensions that were asked for, with a stream for
-- that pane and bridge started last, or with its context canceled.
unfoldable pub IsAttachOutcome : {W : Type 0} → Bytes → AttachRequest → State W → State W → Type 0
IsAttachOutcome p req s u =
    (IsRefused req × (slot p u ≡ slot p s) × (u.started ≡ s.started))
    ⊎ (¬ IsRefused req
        × ((t : Stream) × (t.peer ≡ p)
            × (t.pane_id ≡ req.pane_id)
            × IsOutcome t (req.cols, req.rows) s.started u))

module _ (backend : Backend) (p : Bytes) (req : AttachRequest) where
  open backend use {World}

  if-slot :
      (b : Bool) (s u : State World) (v : Slot)
      → slot p s ≡ v
      → slot p u ≡ v
      → slot p (if b then s else u) ≡ v
  if-slot true s u v hs hu = hs
  if-slot false s u v hs hu = hu

  refuse_attach-slot :
      (tracked : Bool) (s : State World)
      → slot p (refuse_attach backend p req.pane_id tracked s) ≡ slot p s
  unfolding refuse_attach send_error close_pane query_sessions
  refuse_attach-slot tracked s =
      let w =
        (backend.pane_exists req.pane_id
          (if tracked then backend.release_if_forced req.pane_id s.world else s.world)).1 in
      if-slot _ _ _ _ (send_msg-slot backend p _ _ ∙ world-slot p s w) (
        listed-slot backend p _ _
        ∙ world-slot p _ _
        ∙ send_msg-slot backend p _ _
        ∙ world-slot p s w)

  -- The attach got past its guards.
  IsAttempt : List Stream → State World → Type 0
  IsAttempt ts u =
      (t : Stream) × (t.peer ≡ p)
      × (t.pane_id ≡ req.pane_id)
      × IsOutcome t (req.cols, req.rows) ts u

  attach_bridge-IsAttempt :
      (tracked : Bool) (r : Option Bridge) (u : State World)
      → valid_target req.pane_id ≡ true
      → out_of_range req.cols req.rows ≡ false
      → slot p u ≡ empty_slot
      → IsAttempt u.started (attach_bridge backend p req tracked r u)
  unfolding attach_bridge IsAttempt new_stream IsOutcome
  attach_bridge-IsAttempt tracked none u valid range idle = (
    new_stream backend p req (record { id = 0; initial_content = [] }) u,
    refl,
    refl,
    inl (
      refuse_attach-slot tracked u ∙ idle,
      refuse_attach-started backend p req.pane_id tracked u,
    ),
  )
  attach_bridge-IsAttempt tracked (some b) u valid range idle =
      let t = new_stream backend p req b u in
      (t, refl, refl, open_stream-IsOutcome backend t req u valid range idle)

  reattach_to-IsAttempt :
      (s : State World)
      → valid_target req.pane_id ≡ true
      → out_of_range req.cols req.rows ≡ false
      → IsSound p s
      → IsAttempt s.started (reattach_to backend p req s)
  unfolding reattach_to
  reattach_to-IsAttempt s valid range h =
      subst (λ ts. IsAttempt ts (reattach_to backend p req s)) (detach_peer-started backend p s)
        (attach_bridge-IsAttempt _ _ _ valid range
          (world-slot p _ _ ∙ detach_peer-slot backend p s h))

  refused :
      (c m : Bytes) (s : State World)
      → IsRefused req
      → IsAttachOutcome p req s (send_error backend p c m s)
  unfolding IsAttachOutcome send_error send_msg
  refused c m s why = inl (why, send_msg-slot backend p _ s, refl)

  allowed :
      valid_target req.pane_id ≡ true → out_of_range req.cols req.rows ≡ false → ¬ IsRefused req
  unfolding IsRefused
  allowed valid range why = elim why [
    | inl bad ↦ ground (arith, valid, bad)
    | inr out ↦ ground (arith, range, out)
  ]

  badly_named : valid_target req.pane_id ≡ false → IsRefused req
  unfolding IsRefused
  badly_named bad = inl bad

  badly_sized : out_of_range req.cols req.rows ≡ true → IsRefused req
  unfolding IsRefused
  badly_sized out = inr out

  attempted :
      (s u : State World) → ¬ IsRefused req → IsAttempt s.started u → IsAttachOutcome p req s u
  unfolding IsAttachOutcome IsAttempt
  attempted s u free a = inr (free, a)

  -- If what the handler holds for a peer is sound, an attach to an invalid target or at dimensions
  -- out of range changes neither that nor the streams started. Whatever fails in any other attach, the
  -- peer is attached to nothing afterwards and no stream was started; or it is attached to the pane that
  -- was asked for, at the dimensions that were asked for, and a stream for that pane and its bridge was
  -- started last, or the context of the attachment is canceled already.
  pub handle_attach-IsAttachOutcome :
      (s : State World) → IsSound p s → IsAttachOutcome p req s (handle_attach backend p req s)
  unfolding handle_attach
  handle_attach-IsAttachOutcome s h = elim (Bool-cases (valid_target req.pane_id)) [
    | inr bad ↦ rw bad (refused _ _ s (badly_named bad))
    | inl valid ↦ rw valid (elim (Bool-cases (out_of_range req.cols req.rows)) [
      | inl out ↦ rw out (refused _ _ s (badly_sized out))
      | inr range ↦
          rw range (attempted s _ (allowed valid range) (reattach_to-IsAttempt s valid range h))
    ])
  ]
