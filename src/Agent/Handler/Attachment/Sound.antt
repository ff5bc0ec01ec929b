-- ===== src/Agent/Handler/Attachment/Sound.antt =====
-- `detachPeerWait` and `handleAttach` of internal/agent/handler.go on the entries of their peer.
use pmux_agent.Base.{
  if_holds, ◌&&◌, if◌then◌else◌, ℕ, ℤ, ◌≡◌, refl, ap, ◌∙◌, inl, inr, Bool, true, false, [], ◌∷◌,
  Option, none, some, Bytes, Bool-cases,
}
use pmux_agent.Base.Map.{lookup, lookup-insert_self, lookup-delete_self}
use pmux_agent.Protocol.Messages.{Message}
use pmux_agent.Agent.Handler.State.{Backend, Bridge, Stream, State, send_msg, send_error, elem}
use pmux_agent.Agent.Handler.Detach.{
  mark_superseded, forget_attachment, cancel_context, end_stream, exit_stream, await_stream,
  is_shut, close_if_any, release_pane, forget_if_any, detach_peer_wait, detach_peer, reset_stream,
}
use pmux_agent.Agent.Handler.Attach.{register}
use pmux_agent.Agent.Handler.Attachment.{slot, empty_slot, full_slot, IsSound, IsSoundSlot}

pub world-slot :
    {W : Type 0} (p : Bytes) (s : State W) (w : W) → slot p (record s { world = w }) ≡ slot p s
unfolding slot
world-slot p s w = refl

forget_attachment-slot :
    {W : Type 0} (p : Bytes) (s : State W) → slot p (forget_attachment p s) ≡ empty_slot
unfolding slot forget_attachment
forget_attachment-slot p s = simp lookup-delete_self

pub register-slot :
    {W : Type 0} (t : Stream) (cols rows : ℤ) (s : State W)
    → slot t.peer s ≡ empty_slot
    → slot t.peer (register t cols rows s) ≡ full_slot t.bridge t.id t.pane_id (cols, rows)
unfolding slot register
register-slot t cols rows s h = simp (lookup-insert_self, ap (λ v. v.exit) h)

mark_superseded-slot :
    {W : Type 0} (p : Bytes) (wait : Bool) (done : Option ℕ) (s : State W)
    → slot p (mark_superseded wait done s) ≡ slot p s
unfolding slot mark_superseded
mark_superseded-slot p true (some d) s = refl
mark_superseded-slot p true none s = refl
mark_superseded-slot p false o s = refl

cancel_context-slot :
    {W : Type 0} (p : Bytes) (c : Option ℕ) (s : State W) → slot p (cancel_context c s) ≡ slot p s
unfolding slot cancel_context
cancel_context-slot p none s = refl
cancel_context-slot p (some c) s = refl

module _ (backend : Backend) (p : Bytes) where
  open backend use {World}

  pub send_msg-slot : (m : Message) (s : State World) → slot p (send_msg backend p m s).1 ≡ slot p s
  unfolding slot send_msg
  send_msg-slot m s = refl

  pub exit_stream-slot : (d : ℕ) (s : State World) → slot p (exit_stream backend p d s) ≡ slot p s
  unfolding slot exit_stream end_stream
  exit_stream-slot d s = refl

  await_stream-slot :
      (wait : Bool) (b : Option Bridge) (done : Option ℕ) (s : State World)
      → slot p (await_stream backend p wait b done s) ≡ slot p s
  unfolding await_stream slot
  await_stream-slot true b (some d) s =
      let P = λ (u : State World). slot p u ≡ slot p s in
      let over = elem d s.canceled && is_shut b s.shut in
      let vain = record s { blocked = d ∷ s.blocked } in
      if_holds P (elem d s.closed) s (if over then exit_stream backend p d s else vain) (λ e. refl)
        (λ e.
          if_holds P over (exit_stream backend p d s) vain (λ f. exit_stream-slot d s) (λ f. refl))
  await_stream-slot true b none s = refl
  await_stream-slot false b o s = refl

  close_if_any-slot :
      (b : Option Bridge) (s : State World) → slot p (close_if_any backend b s) ≡ slot p s
  unfolding close_if_any slot
  close_if_any-slot none s = refl
  close_if_any-slot (some b) s = refl

  release_pane-slot :
      (pane : Bytes) (s : State World) → slot p (release_pane backend pane s) ≡ slot p s
  unfolding release_pane
  release_pane-slot [] s = refl
  release_pane-slot (c ∷ pane) s = world-slot p s _

  no_bridge :
      (s : State World) (b : Bridge)
      → lookup p s.bridges ≡ none
      → lookup p s.bridges ≡ some b
      → slot p s ≡ empty_slot
  no_bridge s b none_there some_there = cc

  bridge-empty : (s : State World) → IsSound p s → lookup p s.bridges ≡ none → slot p s ≡ empty_slot
  unfolding IsSound IsSoundSlot slot
  bridge-empty s (inl h) none_there = h
  bridge-empty s (inr (b, c, pane, d, h, v, r)) none_there =
      no_bridge s b none_there (ap (λ v. v.bridge) h)

  forget_if_any-slot :
      (b : Option Bridge) (s t : State World)
      → (lookup p s.bridges ≡ none → slot p s ≡ empty_slot)
      → slot p t ≡ slot p s
      → lookup p s.bridges ≡ b
      → slot p (forget_if_any backend p b t) ≡ empty_slot
  unfolding forget_if_any
  forget_if_any-slot none s t idle same h = same ∙ idle h
  forget_if_any-slot (some b) s t idle same h = forget_attachment-slot p t

  pub idle_or_attached-slot :
      (wait : Bool) (s : State World)
      → (lookup p s.bridges ≡ none → slot p s ≡ empty_slot)
      → slot p (detach_peer_wait backend p wait s) ≡ empty_slot
  unfolding detach_peer_wait
  idle_or_attached-slot wait s idle =
      release_pane-slot _ _
      ∙ await_stream-slot wait _ _ _
      ∙ close_if_any-slot _ _
      ∙ cancel_context-slot p _ _
      ∙ forget_if_any-slot _ s _ idle (mark_superseded-slot p wait _ s) refl

  detach_peer_wait-slot :
      (wait : Bool) (s : State World)
      → IsSound p s
      → slot p (detach_peer_wait backend p wait s) ≡ empty_slot
  detach_peer_wait-slot wait s sound = idle_or_attached-slot wait s (bridge-empty s sound)

  -- If what the handler holds for a peer is sound, then after a detach of it none of the five maps of
  -- the attachment has an entry for it.
  pub detach_peer-slot :
      (s : State World) → IsSound p s → slot p (detach_peer backend p s) ≡ empty_slot
  unfolding detach_peer
  detach_peer-slot s sound = detach_peer_wait-slot true s sound

  pub reset_stream-slot :
      (d : ℕ) (reason : Bytes) (s : State World)
      → IsSound p s
      → slot p (reset_stream backend p d reason s) ≡ empty_slot
  unfolding reset_stream send_error
  reset_stream-slot d reason s sound =
      elim (Bool-cases (elem d (detach_peer_wait backend p false s).superseded)) [
        | inl stale ↦ rw stale (detach_peer_wait-slot false s sound)
        | inr own ↦ rw own (send_msg-slot _ _ ∙ detach_peer_wait-slot false s sound)
      ]
