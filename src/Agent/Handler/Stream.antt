-- ===== src/Agent/Handler/Stream.antt =====
-- One round of `streamOutput` of internal/agent/handler.go, on what `Read` returned.
use pmux_agent.Base.{Bool, true, false, [], ◌∷◌, Option, none, some, Bytes, codes, if◌then◌else◌}
use pmux_agent.Protocol.Messages.{Message}
use pmux_agent.Tmux.TitleFilter.{TitleFilter}
use pmux_agent.Tmux.TitleFilter
use pmux_agent.Agent.Handler.State.{Backend, Stream, State, elem, send_msg}
use pmux_agent.Agent.Handler.Detach.{reset_stream, exit_stream}
use pmux_agent.Agent.Handler.Sessions.{handle_pane_exit}

pub data ReadResult : Type 0 where
  chunk : Bytes → ReadResult
  displaced : ReadResult
  ended : ReadResult

-- The filter for the next round, or `none` if the goroutine has returned.
abbrev pub Round : Type 0 → Type 0
Round W = Option TitleFilter × State W

module _ (backend : Backend) where
  open backend use {World, compress}

  -- Return, with the deferred calls.
  unfoldable pub leave : Stream → State World → Round World
  leave t s = (none, exit_stream backend t.peer t.id s)

  unfoldable pub fail_stream : Stream → Bytes → State World → Round World
  unfolding leave
  fail_stream t reason s = leave t (reset_stream backend t.peer t.id reason s)

  -- Nothing is announced if the context has been canceled.
  unfoldable pub give_up : Stream → Bytes → State World → Round World
  unfolding fail_stream leave
  give_up t reason s = if elem t.id s.canceled then leave t s else fail_stream t reason s

  unfoldable pub after_send : Stream → Bool → TitleFilter → State World → Round World
  unfolding give_up
  after_send t true f s = (some f, s)
  after_send t false f s = give_up t (codes "output stream stalled; re-attach") s

  unfoldable pub send_chunk : Stream → Bytes → TitleFilter → State World → Round World
  unfolding after_send
  send_chunk t output f s =
      let (taken, s') = send_msg backend t.peer (Message.output output) s in after_send t taken f s'

  unfoldable pub send_deflated : Stream → Option Bytes → TitleFilter → State World → Round World
  unfolding send_chunk give_up
  send_deflated t none f s = give_up t (codes "output compression failed; re-attach") s
  send_deflated t (some output) f s = send_chunk t output f s

  -- The output of the filter for a chunk; `none` stands for a loop that is out of fuel.
  unfoldable pub send_filtered : Stream → Option (Bytes × TitleFilter) → State World → Round World
  unfolding send_deflated send_chunk
  send_filtered t none s = (none, s)
  send_filtered t (some ([], f)) s = (some f, s)
  send_filtered t (some (b ∷ output, f)) s =
      if t.deflate
      then (let (r, w) = compress t.id (b ∷ output) s.world in
          send_deflated t r f (record s { world = w }))
      else send_chunk t (b ∷ output) f s

  unfoldable pub after_read : Stream → ReadResult → TitleFilter → State World → Round World
  unfolding leave fail_stream send_filtered
  after_read t ReadResult.displaced f s =
      fail_stream t (codes "pane attached elsewhere; re-attach") s
  after_read t ReadResult.ended f s = leave t (handle_pane_exit backend t.peer false s)
  after_read t (ReadResult.chunk input) f s = send_filtered t (TitleFilter.filter input f) s

  -- A canceled context ends the stream, whether it is seen before or after the read.
  unfoldable pub stream_round : Stream → ReadResult → TitleFilter → State World → Round World
  unfolding leave after_read
  stream_round t read f s = if elem t.id s.canceled then leave t s else after_read t read f s
