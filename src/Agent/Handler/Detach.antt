-- ===== src/Agent/Handler/Detach.antt =====
-- Detaching a peer and ending its stream: `detachPeerWait`, `endStream` and `resetStream` of
-- internal/agent/handler.go.
use pmux_agent.Base.{
  ℕ, Bool, true, false, ◌&&◌, List, [], ◌∷◌, Option, none, some, Bytes, codes, str_eq, ◌==◌,
  if◌then◌else◌,
}
use pmux_agent.Base.Map.{lookup, delete}
use pmux_agent.Agent.Handler.State.{Backend, Bridge, State, elem, remove, pane_of_peer, send_error}

-- Under the lock: mark the stream that is waited for, and forget the attachment.
unfoldable pub mark_superseded : {W : Type 0} → Bool → Option ℕ → State W → State W
mark_superseded true (some d) s = record s { superseded = d ∷ s.superseded }
mark_superseded _ _ s = s

unfoldable pub forget_attachment : {W : Type 0} → Bytes → State W → State W
forget_attachment peer s = record s {
  bridges = delete peer s.bridges;
  cancels = delete peer s.cancels;
  pane_for_peer = delete peer s.pane_for_peer;
  last_dims = delete peer s.last_dims;
  exit_notified = delete peer s.exit_notified;
}

-- `cancel()`.
unfoldable pub cancel_context : {W : Type 0} → Option ℕ → State W → State W
cancel_context none s = s
cancel_context (some c) s = record s { canceled = c ∷ s.canceled }

-- Whether the bridge of a stream, if it is still known, has been closed.
unfoldable pub is_shut : Option Bridge → List ℕ → Bool
is_shut none shut = true
is_shut (some b) shut = elem b.id shut

-- `endStream`: under the lock, and then the channel is closed.
unfoldable pub is_stream_of : {W : Type 0} → Bytes → ℕ → State W → Bool
is_stream_of peer done s = elim (lookup peer s.stream_done) [ none ↦ false | some d ↦ d == done ]

unfoldable pub end_stream : {W : Type 0} → Bytes → ℕ → State W → State W
unfolding is_stream_of
end_stream peer done s = record s {
  stream_done = if is_stream_of peer done s then delete peer s.stream_done else s.stream_done;
  superseded = remove done s.superseded;
  closed = done ∷ s.closed;
}

module _ (backend : Backend) where
  open backend use {World, close_bridge, close_compressor, release_if_forced}

  -- The deferred calls of `streamOutput`. The compressor of a stream without one is no compressor.
  unfoldable pub exit_stream : Bytes → ℕ → State World → State World
  unfolding end_stream
  exit_stream peer done s =
      end_stream peer done (record s { world = close_compressor done s.world })

  -- `<-done`. A stream whose context is canceled and whose bridge is closed leaves its loop and runs
  -- its deferred calls, if it has not ended yet; any other stream is waited for in vain.
  unfoldable pub await_stream : Bytes → Bool → Option Bridge → Option ℕ → State World → State World
  unfolding is_shut exit_stream
  await_stream peer true bridge (some d) s =
      if elem d s.closed
      then s
      else if elem d s.canceled && is_shut bridge s.shut
      then exit_stream peer d s
      else record s { blocked = d ∷ s.blocked }
  await_stream peer _ _ _ s = s

  unfoldable pub close_if_any : Option Bridge → State World → State World
  close_if_any none s = s
  close_if_any (some b) s = record s { shut = b.id ∷ s.shut; world = close_bridge b s.world }

  unfoldable pub release_pane : Bytes → State World → State World
  release_pane pane s =
      if str_eq pane [] then s else record s { world = release_if_forced pane s.world }

  unfoldable pub forget_if_any : Bytes → Option Bridge → State World → State World
  unfolding forget_attachment
  forget_if_any peer none s = s
  forget_if_any peer (some b) s = forget_attachment peer s

  unfoldable pub detach_peer_wait : Bytes → Bool → State World → State World
  unfolding mark_superseded forget_if_any cancel_context close_if_any await_stream release_pane
  detach_peer_wait peer wait s =
      let bridge = lookup peer s.bridges in
      let cancel = lookup peer s.cancels in
      let pane = pane_of_peer peer s in
      let done = lookup peer s.stream_done in
      let marked = mark_superseded wait done s in
      let forgotten = forget_if_any peer bridge marked in
      let canceled = cancel_context cancel forgotten in
      let unbridged = close_if_any bridge canceled in
      let awaited = await_stream peer wait bridge done unbridged in release_pane pane awaited

  unfoldable pub detach_peer : Bytes → State World → State World
  detach_peer peer s = detach_peer_wait peer true s

  -- `resetStream`.
  unfoldable pub reset_stream : Bytes → ℕ → Bytes → State World → State World
  reset_stream peer done reason s =
      let detached = detach_peer_wait peer false s in
      if elem done detached.superseded
      then detached
      else send_error backend peer (codes "stream_reset") reason detached
