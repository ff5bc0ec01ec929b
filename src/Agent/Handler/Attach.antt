-- ===== src/Agent/Handler/Attach.antt =====
-- `handleAttach` of internal/agent/handler.go.
use Prim.Native.Nat.{zero}
use pmux_agent.Base.{
  suc, ◌+◌, ◌-◌, ◌^◌, ℤ, pos, negsuc, ltbℤ, Bool, true, false, not, ◌||◌, [], ◌∷◌, ◌++◌, Option,
  none, some, Bytes, codes, str_eq, ◌==◌, if◌then◌else◌,
}
use pmux_agent.Base.Map.{insert}
use pmux_agent.Strings.Numbers.{itoa}
use pmux_agent.Protocol.Messages.{Message, AttachRequest}
use pmux_agent.Protocol.Validation.{min_dimension, max_dimension}
use pmux_agent.Tmux.Client.{PaneCursorState, valid_target}
use pmux_agent.Agent.Handler.State.{Backend, Bridge, Stream, State, elem, send_msg, send_error}
use pmux_agent.Agent.Handler.Detach.{detach_peer, reset_stream, exit_stream}
use pmux_agent.Agent.Handler.Sessions.{close_pane, query_sessions, send_sessions_if_listed}

unfoldable pub out_of_range : ℤ → ℤ → Bool
out_of_range cols rows =
    ltbℤ cols min_dimension
    || ltbℤ max_dimension cols
    || ltbℤ rows min_dimension
    || ltbℤ max_dimension rows

abbrev pub range_text : ℤ → ℤ → Bytes
range_text cols rows =
    codes "dimensions out of range: cols="
    ++ itoa cols
    ++ codes " rows="
    ++ itoa rows
    ++ codes " (must be "
    ++ itoa min_dimension
    ++ codes "-"
    ++ itoa max_dimension
    ++ codes ")"

-- `n + 1` on `int`.
unfoldable pub plus_one : ℤ → ℤ
plus_one (pos n) = if n + 1 == 2 ^ 63 then negsuc (2 ^ 63 - 1) else pos (n + 1)
plus_one (negsuc zero) = pos 0
plus_one (negsuc (suc n)) = negsuc n

abbrev esc_text : Bytes → Bytes
esc_text s = 0x1b ∷ s

unfoldable pub mode_prefix : Option PaneCursorState → Bytes
mode_prefix none = []
mode_prefix (some c) = if c.alternate_on then esc_text (codes "[?1049h") else []

abbrev hide_cursor : PaneCursorState → Bytes
hide_cursor c = if c.cursor_visible then [] else esc_text (codes "[?25l")

unfoldable pub cursor_suffix : Option PaneCursorState → Bytes
unfolding plus_one
cursor_suffix none = []
cursor_suffix (some c) =
    esc_text (
      codes "["
      ++ itoa (plus_one c.cursor_y)
      ++ codes ";"
      ++ itoa (plus_one c.cursor_x)
      ++ codes "H")
    ++ hide_cursor c

-- What is sent before the stream: on a reattach the pane's content between mode and cursor, on a
-- fresh attach the modes that differ from a new terminal's.
unfoldable pub fresh_output : Option PaneCursorState → Option Bytes
fresh_output none = none
fresh_output (some c) =
    if c.alternate_on || not c.cursor_visible
    then some (mode_prefix (some c) ++ hide_cursor c)
    else none

unfoldable pub pre_stream_output : Bool → Bytes → Option PaneCursorState → Option Bytes
unfolding mode_prefix cursor_suffix fresh_output
pre_stream_output true initial cursor =
    if str_eq initial [] then none else some (mode_prefix cursor ++ initial ++ cursor_suffix cursor)
pre_stream_output false initial cursor = fresh_output cursor

-- Under the lock.
unfoldable pub register : {W : Type 0} → Stream → ℤ → ℤ → State W → State W
register t cols rows s = record s {
  bridges = insert t.peer t.bridge s.bridges;
  cancels = insert t.peer t.id s.cancels;
  stream_done = insert t.peer t.id s.stream_done;
  pane_for_peer = insert t.peer t.pane_id s.pane_for_peer;
  last_dims = insert t.peer (cols, rows) s.last_dims;
  next_id = suc s.next_id;
}

-- `go h.streamOutput(…)` and `go h.watchPane(…)`.
unfoldable pub start_stream : {W : Type 0} → Stream → State W → State W
start_stream t s = record s { started = t ∷ s.started }

module _ (backend : Backend) where
  open backend use {
    World, cursor_state, track_and_resize, release_if_forced, attach_pane, pane_exists, compress,
    quote,
  }

  -- The attachment ends before the stream has started: `failPreStream`, which says nothing if the
  -- context is canceled, then the deferred guard.
  unfoldable pub abandon_attach : Stream → Bytes → State World → State World
  abandon_attach t reason s =
      exit_stream backend t.peer t.id
        (if elem t.id s.canceled then s else reset_stream backend t.peer t.id reason s)

  unfoldable pub send_pre_stream : Stream → Bytes → State World → State World
  unfolding abandon_attach start_stream
  send_pre_stream t chunk s =
      let (taken, s') = send_msg backend t.peer (Message.output chunk) s in
      if taken
      then start_stream t s'
      else abandon_attach t (codes "output stream stalled; re-attach") s'

  unfoldable pub send_compressed : Stream → Option Bytes → State World → State World
  unfolding send_pre_stream abandon_attach
  send_compressed t none s = abandon_attach t (codes "output compression failed; re-attach") s
  send_compressed t (some chunk) s = send_pre_stream t chunk s

  unfoldable pub begin_output : Stream → Option Bytes → State World → State World
  unfolding send_compressed send_pre_stream start_stream
  begin_output t none s = start_stream t s
  begin_output t (some chunk) s =
      if t.deflate
      then (let (r, w) = compress t.id chunk s.world in
          send_compressed t r (record s { world = w }))
      else send_pre_stream t chunk s

  unfoldable pub new_stream : Bytes → AttachRequest → Bridge → State World → Stream
  new_stream peer req bridge s = record {
    peer = peer;
    pane_id = req.pane_id;
    bridge = bridge;
    id = s.next_id;
    deflate = str_eq req.compression (codes "deflate");
  }

  unfoldable pub open_stream : Stream → AttachRequest → State World → State World
  unfolding register begin_output
  open_stream t req s =
      let event = Message.attached (record {
        pane_id = req.pane_id;
        compression = if t.deflate then codes "deflate" else [];
      }) in
      let s1 = (send_msg backend t.peer event (register t req.cols req.rows s)).1 in
      let (cursor, w) = cursor_state req.pane_id s1.world in
      begin_output t (pre_stream_output req.reattach t.bridge.initial_content cursor)
        (record s1 { world = w })

  -- `AttachPane` failed.
  unfoldable pub refuse_attach : Bytes → Bytes → Bool → State World → State World
  refuse_attach peer pane tracked s =
      let w1 = if tracked then release_if_forced pane s.world else s.world in
      let (exists, w2) = pane_exists pane w1 in
      let s2 = record s { world = w2 } in
      if exists
      then send_error backend peer (codes "attach_failed") (codes "failed to attach pane") s2
      else (let (r, s3) = query_sessions backend (close_pane backend peer pane s2) in
          send_sessions_if_listed backend peer r s3)

  unfoldable pub attach_bridge :
      Bytes → AttachRequest → Bool → Option Bridge → State World → State World
  unfolding refuse_attach new_stream open_stream
  attach_bridge peer req tracked none s = refuse_attach peer req.pane_id tracked s
  attach_bridge peer req tracked (some bridge) s = open_stream (new_stream peer req bridge s) req s

  unfoldable pub reattach_to : Bytes → AttachRequest → State World → State World
  reattach_to peer req s =
      let s1 = detach_peer backend peer s in
      let (tracked, w2) = track_and_resize req.pane_id req.cols req.rows s1.world in
      let (bridge, w3) = attach_pane req.pane_id w2 in
      attach_bridge peer req tracked bridge (record s1 { world = w3 })

  unfoldable pub handle_attach : Bytes → AttachRequest → State World → State World
  handle_attach peer req s =
      if not (valid_target req.pane_id)
      then send_error backend peer (codes "attach_failed")
          (codes "invalid pane ID: " ++ quote req.pane_id) s
      else if out_of_range req.cols req.rows
      then send_error backend peer (codes "attach_failed") (range_text req.cols req.rows) s
      else reattach_to peer req s
