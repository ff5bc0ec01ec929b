-- ===== src/Agent/Handler/Isolation/Streams.antt =====
-- The rounds of a stream, in internal/agent/handler.go, seen from another peer.
use pmux_agent.Base.{
  ◌≡◌, refl, ◌∙◌, Bool, true, false, [], ◌∷◌, Option, none, some, Bytes, str_eq, if◌then◌else◌,
  Bool-cases, inl, inr,
}
use pmux_agent.Tmux.TitleFilter.{TitleFilter}
use pmux_agent.Agent.Handler.State.{Backend, Stream, State, elem}
use pmux_agent.Agent.Handler.Stream.{
  ReadResult, Round, leave, fail_stream, give_up, after_send, send_chunk, send_deflated,
  send_filtered, after_read, stream_round,
}
use pmux_agent.Agent.Handler.Isolation.{View, view, world-view}
use pmux_agent.Agent.Handler.Isolation.Detach.{send_msg-view, exit_stream-view, reset_stream-view}
use pmux_agent.Agent.Handler.Isolation.Sessions.{handle_pane_exit-view}

module _ (backend : Backend) (q : Bytes) (t : Stream) (apart : str_eq t.peer q ≡ false) where
  open backend use {World}

  if_round-view :
      (b : Bool) (x y : Round World) (v : View)
      → view q x.1 ≡ v
      → view q y.1 ≡ v
      → view q (if b then x else y).1 ≡ v
  if_round-view true x y v hx hy = hx
  if_round-view false x y v hx hy = hy

  leave-view : (s : State World) → view q (leave backend t s).1 ≡ view q s
  unfolding leave
  leave-view s = exit_stream-view backend t.peer q apart _ s

  fail_stream-view :
      (reason : Bytes) (s : State World) → view q (fail_stream backend t reason s).1 ≡ view q s
  unfolding fail_stream
  fail_stream-view reason s = leave-view _ ∙ reset_stream-view backend t.peer q apart _ _ s

  give_up-view :
      (reason : Bytes) (s : State World) → view q (give_up backend t reason s).1 ≡ view q s
  unfolding give_up
  give_up-view reason s = elim (Bool-cases (elem t.id s.canceled)) [
    | inl gone ↦ rw gone (leave-view s)
    | inr live ↦ rw live (fail_stream-view reason s)
  ]

  after_send-view :
      (taken : Bool) (f : TitleFilter) (s : State World)
      → view q (after_send backend t taken f s).1 ≡ view q s
  unfolding after_send
  after_send-view true f s = refl
  after_send-view false f s = give_up-view _ s

  send_chunk-view :
      (o : Bytes) (f : TitleFilter) (s : State World)
      → view q (send_chunk backend t o f s).1 ≡ view q s
  unfolding send_chunk
  send_chunk-view o f s = after_send-view _ f _ ∙ send_msg-view backend t.peer q apart _ s

  send_deflated-view :
      (r : Option Bytes) (f : TitleFilter) (s : State World)
      → view q (send_deflated backend t r f s).1 ≡ view q s
  unfolding send_deflated
  send_deflated-view none f s = give_up-view _ s
  send_deflated-view (some o) f s = send_chunk-view o f s

  send_filtered-view :
      (r : Option (Bytes × TitleFilter)) (s : State World)
      → view q (send_filtered backend t r s).1 ≡ view q s
  unfolding send_filtered
  send_filtered-view none s = refl
  send_filtered-view (some ([], f)) s = refl
  send_filtered-view (some (b ∷ o, f)) s =
      if_round-view _ _ _ _ (send_deflated-view _ f _ ∙ world-view q s _) (send_chunk-view _ f s)

  after_read-view :
      (r : ReadResult) (f : TitleFilter) (s : State World)
      → view q (after_read backend t r f s).1 ≡ view q s
  unfolding after_read
  after_read-view ReadResult.displaced f s = fail_stream-view _ s
  after_read-view ReadResult.ended f s =
      leave-view _ ∙ handle_pane_exit-view backend t.peer q apart false s
  after_read-view (ReadResult.chunk c) f s = send_filtered-view _ s

  pub stream_round-view :
      (r : ReadResult) (f : TitleFilter) (s : State World)
      → view q (stream_round backend t r f s).1 ≡ view q s
  unfolding stream_round
  stream_round-view r f s = if_round-view _ _ _ _ (leave-view s) (after_read-view r f s)
