-- ===== src/Agent/Handler/Attachment/Streams.antt =====
-- `handlePaneExit` and `streamOutput` of internal/agent/handler.go on the entries of their peer.
use pmux_agent.Base.{
  ◌≡◌, refl, ap, ◌∙◌, inl, inr, Bool, true, false, List, [], ◌∷◌, Option, none, some, Bytes,
  if◌then◌else◌, Bool-cases,
}
use pmux_agent.Base.Map.{lookup, lookup-insert_self}
use pmux_agent.Tmux.Listing.{Session}
use pmux_agent.Tmux.TitleFilter.{TitleFilter}
use pmux_agent.Agent.Handler.State.{Backend, Bridge, Stream, State, pane_of_peer, elem}
use pmux_agent.Agent.Handler.Sessions.{
  close_pane, query_sessions, send_sessions, send_sessions_if_listed, exit_pending, mark_exit,
  announce_exit, handle_pane_exit,
}
use pmux_agent.Agent.Handler.Stream.{
  ReadResult, Round, leave, fail_stream, give_up, after_send, send_chunk, send_deflated,
  send_filtered, after_read, stream_round,
}
use pmux_agent.Agent.Handler.Attachment.{
  Slot, slot, empty_slot, IsSound, IsSoundSlot, keeps, empties,
}
use pmux_agent.Agent.Handler.Attachment.Sound.{
  world-slot, send_msg-slot, exit_stream-slot, idle_or_attached-slot, reset_stream-slot,
}
use pmux_agent.Agent.Handler.Attachment.Neutral.{world-IsSound, say-IsSound}

bridge_clash : (r : Option Bridge) (b : Bridge) → r ≡ some b → r ≡ none → ⊥
bridge_clash r b there gone = cc

-- The slot of a peer whose pane's end is announced.
announced_slot : Slot → Slot
announced_slot v = record v { exit = some true }

module _ (backend : Backend) (p : Bytes) where
  open backend use {World}

  mark_exit-slot : (s : State World) → slot p (mark_exit backend p s) ≡ announced_slot (slot p s)
  unfolding mark_exit slot announced_slot
  mark_exit-slot s = simp lookup-insert_self

  no_pane : (s : State World) → lookup p s.pane_for_peer ≡ none → exit_pending backend p s ≡ false
  unfolding exit_pending pane_of_peer
  no_pane s h = rw (h, exit_pending, pane_of_peer) refl

  pending_clash :
      (s : State World) → exit_pending backend p s ≡ true → exit_pending backend p s ≡ false → ⊥
  pending_clash s h k = cc

  pending-attached :
      (s u : State World)
      → exit_pending backend p s ≡ true
      → IsSound p s
      → slot p u ≡ announced_slot (slot p s)
      → lookup p u.bridges ≡ none
      → slot p u ≡ empty_slot
  unfolding IsSound IsSoundSlot slot announced_slot
  pending-attached s u pending (inl h) same gone =
      absurd (pending_clash s pending (no_pane s (ap (λ v. v.pane) h)))
  pending-attached s u pending (inr (b, c, pane, d, h, _, _)) same gone =
      absurd (bridge_clash _ b (ap (λ v. v.bridge) same ∙ ap (λ v. v.bridge) h) gone)

  pub listed-slot :
      (r : Option (List Session)) (s : State World)
      → slot p (send_sessions_if_listed backend p r s) ≡ slot p s
  unfolding send_sessions_if_listed send_sessions
  listed-slot none s = refl
  listed-slot (some r) s = send_msg-slot backend p _ s

  announce_exit-slot :
      (pane : Bytes) (wait : Bool) (s : State World)
      → exit_pending backend p s ≡ true
      → IsSound p s
      → slot p (announce_exit backend p pane wait (mark_exit backend p s)) ≡ empty_slot
  unfolding announce_exit query_sessions close_pane
  announce_exit-slot pane wait s pending h = idle_or_attached-slot backend p wait _ (
      pending-attached s _ pending h
        (listed-slot _ _ ∙ world-slot p _ _ ∙ send_msg-slot backend p _ _ ∙ mark_exit-slot s))

  pub handle_pane_exit-IsSound :
      (wait : Bool) (s : State World) → IsSound p s → IsSound p (handle_pane_exit backend p wait s)
  unfolding handle_pane_exit
  handle_pane_exit-IsSound wait s h = elim (Bool-cases (exit_pending backend p s)) [
    | inl pending ↦ rw pending (empties p _ (announce_exit-slot _ wait s pending h))
    | inr over ↦ rw over h
  ]

module _ (backend : Backend) (t : Stream) where
  open backend use {World}

  leave-IsSound : (s : State World) → IsSound t.peer s → IsSound t.peer (leave backend t s).1
  unfolding leave
  leave-IsSound s h = keeps t.peer s _ (exit_stream-slot backend t.peer _ s) h

  fail_stream-IsSound :
      (reason : Bytes) (s : State World)
      → IsSound t.peer s
      → IsSound t.peer (fail_stream backend t reason s).1
  unfolding fail_stream
  fail_stream-IsSound reason s h =
      leave-IsSound _ (empties t.peer _ (reset_stream-slot backend t.peer _ _ s h))

  round-IsSound :
      (b : Bool) (x y : Round World)
      → IsSound t.peer x.1
      → IsSound t.peer y.1
      → IsSound t.peer (if b then x else y).1
  round-IsSound true x y hx hy = hx
  round-IsSound false x y hx hy = hy

  give_up-IsSound :
      (reason : Bytes) (s : State World)
      → IsSound t.peer s
      → IsSound t.peer (give_up backend t reason s).1
  unfolding give_up
  give_up-IsSound reason s h = elim (Bool-cases (elem t.id s.canceled)) [
    | inl gone ↦ rw gone (leave-IsSound s h)
    | inr live ↦ rw live (fail_stream-IsSound reason s h)
  ]

  after_send-IsSound :
      (taken : Bool) (f : TitleFilter) (s : State World)
      → IsSound t.peer s
      → IsSound t.peer (after_send backend t taken f s).1
  unfolding after_send
  after_send-IsSound true f s h = h
  after_send-IsSound false f s h = give_up-IsSound _ s h

  send_chunk-IsSound :
      (o : Bytes) (f : TitleFilter) (s : State World)
      → IsSound t.peer s
      → IsSound t.peer (send_chunk backend t o f s).1
  unfolding send_chunk
  send_chunk-IsSound o f s h = after_send-IsSound _ f _ (say-IsSound backend t.peer _ s h)

  send_deflated-IsSound :
      (r : Option Bytes) (f : TitleFilter) (s : State World)
      → IsSound t.peer s
      → IsSound t.peer (send_deflated backend t r f s).1
  unfolding send_deflated
  send_deflated-IsSound none f s h = give_up-IsSound _ s h
  send_deflated-IsSound (some o) f s h = send_chunk-IsSound o f s h

  send_filtered-IsSound :
      (r : Option (Bytes × TitleFilter)) (s : State World)
      → IsSound t.peer s
      → IsSound t.peer (send_filtered backend t r s).1
  unfolding send_filtered
  send_filtered-IsSound none s h = h
  send_filtered-IsSound (some ([], f)) s h = h
  send_filtered-IsSound (some (b ∷ o, f)) s h =
      round-IsSound _ _ _ (send_deflated-IsSound _ f _ (world-IsSound backend t.peer s _ h))
        (send_chunk-IsSound _ f s h)

  after_read-IsSound :
      (r : ReadResult) (f : TitleFilter) (s : State World)
      → IsSound t.peer s
      → IsSound t.peer (after_read backend t r f s).1
  unfolding after_read
  after_read-IsSound ReadResult.displaced f s h = fail_stream-IsSound _ s h
  after_read-IsSound ReadResult.ended f s h =
      leave-IsSound _ (handle_pane_exit-IsSound backend t.peer false s h)
  after_read-IsSound (ReadResult.chunk c) f s h = send_filtered-IsSound _ s h

  pub stream_round-IsSound :
      (r : ReadResult) (f : TitleFilter) (s : State World)
      → IsSound t.peer s
      → IsSound t.peer (stream_round backend t r f s).1
  unfolding stream_round
  stream_round-IsSound r f s h =
      round-IsSound _ _ _ (leave-IsSound s h) (after_read-IsSound r f s h)
