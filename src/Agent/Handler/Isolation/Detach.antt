-- ===== src/Agent/Handler/Isolation/Detach.antt =====
-- Sending and detaching, in internal/agent/handler.go, seen from another peer.
use mathlib.Core.List.{append-nil}
use pmux_agent.Base.{
  if_holds, ◌&&◌, if◌then◌else◌, ℕ, ◌≡◌, refl, ◌∙◌, Bool, true, false, [], ◌∷◌, Option, none, some,
  Bytes, str_eq, Bool-cases, inl, inr,
}
use pmux_agent.Base.Map.{lookup-delete}
use pmux_agent.Protocol.Messages.{Message}
use pmux_agent.Agent.Handler.State.{Backend, Bridge, State, send_msg, send_error, elem}
use pmux_agent.Agent.Handler.Detach.{
  mark_superseded, forget_attachment, cancel_context, is_stream_of, end_stream, exit_stream,
  await_stream, is_shut, close_if_any, release_pane, forget_if_any, detach_peer_wait, detach_peer,
  reset_stream,
}
use pmux_agent.Agent.Handler.Isolation.{view, world-view, outbox, outbox-append}

outbox-other : (p q : Bytes) (m : Message) → str_eq p q ≡ false → outbox q ((p, m) ∷ []) ≡ []
unfolding outbox
outbox-other p q m h = rw h

module _ (backend : Backend) (p q : Bytes) (apart : str_eq p q ≡ false) where
  open backend use {World}

  pub send_msg-view : (m : Message) (s : State World) → view q (send_msg backend p m s).1 ≡ view q s
  unfolding send_msg view
  send_msg-view m s = simp (outbox-append, outbox-other p q m apart, append-nil)

  pub send_error-view :
      (c t : Bytes) (s : State World) → view q (send_error backend p c t s) ≡ view q s
  unfolding send_error
  send_error-view c t s = send_msg-view _ s

  forget_attachment-view : (s : State World) → view q (forget_attachment p s) ≡ view q s
  unfolding forget_attachment view
  forget_attachment-view s = simp (lookup-delete, apart)

  end_stream-view : (d : ℕ) (s : State World) → view q (end_stream p d s) ≡ view q s
  unfolding end_stream view
  end_stream-view d s = elim (Bool-cases (is_stream_of p d s)) [
    | inl mine ↦ rw (mine, end_stream) (simp (lookup-delete, apart))
    | inr other ↦ rw (other, end_stream)
  ]

  pub exit_stream-view : (d : ℕ) (s : State World) → view q (exit_stream backend p d s) ≡ view q s
  unfolding exit_stream
  exit_stream-view d s = end_stream-view d _ ∙ world-view q s _

  await_stream-view :
      (wait : Bool) (b : Option Bridge) (done : Option ℕ) (s : State World)
      → view q (await_stream backend p wait b done s) ≡ view q s
  unfolding await_stream view
  await_stream-view true b (some d) s =
      let P = λ (u : State World). view q u ≡ view q s in
      let over = elem d s.canceled && is_shut b s.shut in
      let vain = record s { blocked = d ∷ s.blocked } in
      if_holds P (elem d s.closed) s (if over then exit_stream backend p d s else vain) (λ e. refl)
        (λ e.
          if_holds P over (exit_stream backend p d s) vain (λ f. exit_stream-view d s) (λ f. refl))
  await_stream-view true b none s = refl
  await_stream-view false b o s = refl

  mark_superseded-view :
      (wait : Bool) (done : Option ℕ) (s : State World)
      → view q (mark_superseded wait done s) ≡ view q s
  unfolding mark_superseded view
  mark_superseded-view true (some d) s = refl
  mark_superseded-view true none s = refl
  mark_superseded-view false o s = refl

  forget_if_any-view :
      (b : Option Bridge) (s : State World) → view q (forget_if_any backend p b s) ≡ view q s
  unfolding forget_if_any
  forget_if_any-view none s = refl
  forget_if_any-view (some b) s = forget_attachment-view s

  cancel_context-view : (c : Option ℕ) (s : State World) → view q (cancel_context c s) ≡ view q s
  unfolding cancel_context view
  cancel_context-view none s = refl
  cancel_context-view (some c) s = refl

  close_if_any-view :
      (b : Option Bridge) (s : State World) → view q (close_if_any backend b s) ≡ view q s
  unfolding close_if_any view
  close_if_any-view none s = refl
  close_if_any-view (some b) s = refl

  release_pane-view :
      (pane : Bytes) (s : State World) → view q (release_pane backend pane s) ≡ view q s
  unfolding release_pane view
  release_pane-view [] s = refl
  release_pane-view (c ∷ pane) s = refl

  pub detach_peer_wait-view :
      (wait : Bool) (s : State World) → view q (detach_peer_wait backend p wait s) ≡ view q s
  unfolding detach_peer_wait
  detach_peer_wait-view wait s =
      release_pane-view _ _
      ∙ await_stream-view wait _ _ _
      ∙ close_if_any-view _ _
      ∙ cancel_context-view _ _
      ∙ forget_if_any-view _ _
      ∙ mark_superseded-view wait _ s

  pub detach_peer-view : (s : State World) → view q (detach_peer backend p s) ≡ view q s
  unfolding detach_peer
  detach_peer-view s = detach_peer_wait-view true s

  pub reset_stream-view :
      (d : ℕ) (reason : Bytes) (s : State World)
      → view q (reset_stream backend p d reason s) ≡ view q s
  unfolding reset_stream
  reset_stream-view d reason s =
      elim (Bool-cases (elem d (detach_peer_wait backend p false s).superseded)) [
        | inl quiet ↦ rw (quiet, reset_stream) (detach_peer_wait-view false s)
        | inr loud ↦ rw (loud, reset_stream) (send_error-view _ _ _ ∙ detach_peer_wait-view false s)
      ]
