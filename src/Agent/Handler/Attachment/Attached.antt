-- ===== src/Agent/Handler/Attachment/Attached.antt =====
-- `handleAttach` of internal/agent/handler.go when nothing that it calls fails.
use pmux_agent.Base.{
  ℕ, ◌≡◌, refl, ◌∙◌, ap, Bool, true, false, List, ◌∷◌, Option, none, some, Bytes, if◌then◌else◌,
}
use pmux_agent.Protocol.Messages.{Message, AttachRequest}
use pmux_agent.Tmux.Client.{valid_target}
use pmux_agent.Agent.Handler.State.{Backend, Bridge, Stream, State, send_msg}
use pmux_agent.Agent.Handler.Attach.{
  out_of_range, start_stream, send_pre_stream, send_compressed, begin_output, open_stream,
  attach_bridge, reattach_to, handle_attach, new_stream,
}
use pmux_agent.Agent.Handler.Attachment.{slot, empty_slot, full_slot, IsSound}
use pmux_agent.Agent.Handler.Attachment.Sound.{
  world-slot, send_msg-slot, register-slot, detach_peer-slot,
}

-- Every message is taken, every chunk is compressed, and every pane can be attached.
pub record IsWilling (backend : Backend) : Type 0 where
  pub takes : (p : Bytes) (m : Message) (w : backend.World) → (backend.send p m w).0 ≡ true
  pub compresses :
      (t : ℕ) (c : Bytes) (w : backend.World) → (d : Bytes) × ((backend.compress t c w).0 ≡ some d)
  pub attaches :
      (pane : Bytes) (w : backend.World) → (b : Bridge) × ((backend.attach_pane pane w).0 ≡ some b)

-- A stream for the pane that was asked for is the last that was started, and its bridge and number
-- are what the handler holds for the peer.
unfoldable pub IsStreaming : {W : Type 0} → Bytes → AttachRequest → State W → Type 0
IsStreaming p req u =
    (t : Stream) × (older : List Stream) × (u.started ≡ t ∷ older)
    × (t.peer ≡ p)
    × (t.pane_id ≡ req.pane_id)
    × (slot p u ≡ full_slot t.bridge t.id req.pane_id (req.cols, req.rows))

module _ (backend : Backend) (willing : IsWilling backend) (t : Stream) where
  open backend use {World}

  -- The stream starts on a state that differs from `s` in messages and the world.
  Starts : State World → State World → Type 0
  Starts s v = (u : State World) × (v ≡ start_stream t u) × (slot t.peer u ≡ slot t.peer s)

  send_pre_stream-Starts : (c : Bytes) (s : State World) → Starts s (send_pre_stream backend t c s)
  unfolding Starts send_pre_stream send_msg
  send_pre_stream-Starts c s =
      let m = Message.output c in
      (
        (send_msg backend t.peer m s).1,
        rw (willing.takes t.peer m s.world, send_msg) refl,
        send_msg-slot backend t.peer m s,
      )

  send_compressed-Starts :
      (r : Option Bytes) (d : Bytes) (s : State World)
      → r ≡ some d
      → Starts s (send_compressed backend t r s)
  unfolding send_compressed
  send_compressed-Starts none d s h = absurd (cc)
  send_compressed-Starts (some c) d s h = send_pre_stream-Starts c s

  if-Starts :
      (b : Bool) (s u v : State World) → Starts s u → Starts s v → Starts s (if b then u else v)
  if-Starts true s u v hu hv = hu
  if-Starts false s u v hu hv = hv

  world-Starts : (s v : State World) (w : World) → Starts (record s { world = w }) v → Starts s v
  unfolding Starts
  world-Starts s v w (u, same, kept) = (u, same, kept ∙ world-slot t.peer s w)

  begin_output-Starts : (r : Option Bytes) (s : State World) → Starts s (begin_output backend t r s)
  unfolding begin_output Starts
  begin_output-Starts none s = (s, refl, refl)
  begin_output-Starts (some c) s =
      let (d, e) = willing.compresses t.id c s.world in
      if-Starts t.deflate s _ _ (world-Starts s _ _ (send_compressed-Starts _ d _ e))
        (send_pre_stream-Starts c s)

  start_stream-slot : (u : State World) → slot t.peer (start_stream t u) ≡ slot t.peer u
  unfolding slot start_stream
  start_stream-slot u = refl

  start_stream-started : (u : State World) → (start_stream t u).started ≡ t ∷ u.started
  unfolding start_stream
  start_stream-started u = refl

  open_stream-IsStreaming :
      (req : AttachRequest) (s : State World)
      → t.pane_id ≡ req.pane_id
      → slot t.peer s ≡ empty_slot
      → IsStreaming t.peer req (open_stream backend t req s)
  unfolding open_stream IsStreaming Starts
  open_stream-IsStreaming req s pane idle =
      let (u, same, kept) = begin_output-Starts _ _ in
      (
        t,
        u.started,
        ap (λ v. v.started) same ∙ start_stream-started u,
        refl,
        pane,
        ap (slot t.peer) same
            ∙ start_stream-slot u
            ∙ kept
            ∙ world-slot t.peer _ _
            ∙ send_msg-slot backend t.peer _ _
            ∙ register-slot t _ _ s idle
            ∙ ap (λ x. full_slot t.bridge t.id x (req.cols, req.rows)) pane,
      )

module _ (backend : Backend) (willing : IsWilling backend) (p : Bytes) (req : AttachRequest) where
  open backend use {World}

  attach_bridge-IsStreaming :
      (tracked : Bool) (r : Option Bridge) (b : Bridge) (s : State World)
      → r ≡ some b
      → slot p s ≡ empty_slot
      → IsStreaming p req (attach_bridge backend p req tracked r s)
  unfolding attach_bridge new_stream
  attach_bridge-IsStreaming tracked none b s h idle = absurd (cc)
  attach_bridge-IsStreaming tracked (some c) b s h idle =
      open_stream-IsStreaming backend willing (new_stream backend p req c s) req s refl idle

  reattach_to-IsStreaming :
      (s : State World) → IsSound p s → IsStreaming p req (reattach_to backend p req s)
  unfolding reattach_to
  reattach_to-IsStreaming s sound =
      let (b, e) = willing.attaches req.pane_id _ in
      attach_bridge-IsStreaming _ _ b _ e (world-slot p _ _ ∙ detach_peer-slot backend p s sound)

  -- If every message is taken, every chunk is compressed and every pane can be attached, and what the
  -- handler holds for a peer is sound, an attach to a valid target at dimensions in range starts a stream for that pane, whatever the peer was attached to before, and
  -- the handler holds that stream's bridge, the pane and the dimensions for the peer.
  pub handle_attach-IsStreaming :
      (s : State World)
      → valid_target req.pane_id ≡ true
      → out_of_range req.cols req.rows ≡ false
      → IsSound p s
      → IsStreaming p req (handle_attach backend p req s)
  unfolding handle_attach
  handle_attach-IsStreaming s valid range sound =
      rw (valid, range) (reattach_to-IsStreaming s sound)
