-- ===== src/Agent/Handler/Attachment/Started.antt =====
-- What internal/agent/handler.go starts streams in: neither a detach, nor a message, nor the end of a stream.
use pmux_agent.Base.{
  ℕ, ◌≡◌, refl, ◌∙◌, ◌&&◌, Bool, true, false, List, [], ◌∷◌, Option, none, some, Bytes, if_holds,
  if◌then◌else◌,
}
use pmux_agent.Protocol.Messages.{Message}
use pmux_agent.Tmux.Listing.{Session}
use pmux_agent.Agent.Handler.State.{Backend, Bridge, Stream, State, send_msg, send_error, elem}
use pmux_agent.Agent.Handler.Detach.{
  mark_superseded, forget_attachment, cancel_context, is_shut, end_stream, exit_stream,
  await_stream, close_if_any, release_pane, forget_if_any, detach_peer_wait, detach_peer,
  reset_stream,
}
use pmux_agent.Agent.Handler.Sessions.{
  close_pane, query_sessions, send_sessions, send_sessions_if_listed,
}
use pmux_agent.Agent.Handler.Attach.{refuse_attach}

module _ (backend : Backend) (p : Bytes) where
  open backend use {World}

  pub send_msg-started :
      (m : Message) (s : State World) → (send_msg backend p m s).1.started ≡ s.started
  unfolding send_msg
  send_msg-started m s = refl

  pub exit_stream-started :
      (d : ℕ) (s : State World) → (exit_stream backend p d s).started ≡ s.started
  unfolding exit_stream end_stream
  exit_stream-started d s = refl

  pub exit_stream-canceled :
      (d : ℕ) (s : State World) → (exit_stream backend p d s).canceled ≡ s.canceled
  unfolding exit_stream end_stream
  exit_stream-canceled d s = refl

  await_stream-started :
      (wait : Bool) (b : Option Bridge) (done : Option ℕ) (s : State World)
      → (await_stream backend p wait b done s).started ≡ s.started
  unfolding await_stream
  await_stream-started true b (some d) s =
      let P = λ (u : State World). u.started ≡ s.started in
      let over = elem d s.canceled && is_shut b s.shut in
      let vain = record s { blocked = d ∷ s.blocked } in
      if_holds P (elem d s.closed) s (if over then exit_stream backend p d s else vain) (λ e. refl)
        (λ e.
          if_holds P over (exit_stream backend p d s) vain (λ f. exit_stream-started d s)
            (λ f. refl))
  await_stream-started true b none s = refl
  await_stream-started false b o s = refl

  release_pane-started :
      (pane : Bytes) (s : State World) → (release_pane backend pane s).started ≡ s.started
  unfolding release_pane
  release_pane-started [] s = refl
  release_pane-started (c ∷ pane) s = refl

  close_if_any-started :
      (b : Option Bridge) (s : State World) → (close_if_any backend b s).started ≡ s.started
  unfolding close_if_any
  close_if_any-started none s = refl
  close_if_any-started (some b) s = refl

  cancel_context-started :
      (c : Option ℕ) (s : State World) → (cancel_context c s).started ≡ s.started
  unfolding cancel_context
  cancel_context-started none s = refl
  cancel_context-started (some c) s = refl

  forget_if_any-started :
      (b : Option Bridge) (s : State World) → (forget_if_any backend p b s).started ≡ s.started
  unfolding forget_if_any forget_attachment
  forget_if_any-started none s = refl
  forget_if_any-started (some b) s = refl

  mark_superseded-started :
      (wait : Bool) (o : Option ℕ) (s : State World)
      → (mark_superseded wait o s).started ≡ s.started
  unfolding mark_superseded
  mark_superseded-started true (some d) s = refl
  mark_superseded-started true none s = refl
  mark_superseded-started false o s = refl

  pub detach_peer_wait-started :
      (wait : Bool) (s : State World) → (detach_peer_wait backend p wait s).started ≡ s.started
  unfolding detach_peer_wait
  detach_peer_wait-started wait s =
      release_pane-started _ _
      ∙ await_stream-started wait _ _ _
      ∙ close_if_any-started _ _
      ∙ cancel_context-started _ _
      ∙ forget_if_any-started _ _
      ∙ mark_superseded-started wait _ s

  pub detach_peer-started : (s : State World) → (detach_peer backend p s).started ≡ s.started
  unfolding detach_peer
  detach_peer-started s = detach_peer_wait-started true s

  pub reset_stream-started :
      (d : ℕ) (reason : Bytes) (s : State World)
      → (reset_stream backend p d reason s).started ≡ s.started
  unfolding reset_stream send_error send_msg
  reset_stream-started d reason s =
      let P = λ (u : State World). u.started ≡ s.started in
      let t = detach_peer_wait backend p false s in
      if_holds P (elem d t.superseded) t _ (λ e. detach_peer_wait-started false s)
        (λ e. detach_peer_wait-started false s)

  listed-started :
      (r : Option (List Session)) (s : State World)
      → (send_sessions_if_listed backend p r s).started ≡ s.started
  unfolding send_sessions_if_listed send_sessions
  listed-started none s = refl
  listed-started (some r) s = send_msg-started _ s

  if-started :
      (b : Bool) (s u : State World) (ts : List Stream)
      → s.started ≡ ts
      → u.started ≡ ts
      → (if b then s else u).started ≡ ts
  if-started true s u ts hs hu = hs
  if-started false s u ts hs hu = hu

  pub refuse_attach-started :
      (pane : Bytes) (tracked : Bool) (s : State World)
      → (refuse_attach backend p pane tracked s).started ≡ s.started
  unfolding refuse_attach send_error close_pane query_sessions send_msg
  refuse_attach-started pane tracked s = if-started _ _ _ s.started refl (listed-started _ _)
