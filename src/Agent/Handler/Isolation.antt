-- ===== src/Agent/Handler/Isolation.antt =====
-- internal/agent/handler.go: what an event of a peer does to what the handler holds for the other peers.
pub mod Detach
pub mod Sessions
pub mod Attach
pub mod Messages
pub mod Streams
use pmux_agent.Base.{
  ℕ, ℤ, ◌≡◌, refl, ◌∙◌, ap, Bool, true, false, List, [], ◌∷◌, ◌++◌, Option, none, some, Bytes,
  str_eq, if◌then◌else◌, arith,
}
use pmux_agent.Base.Map.{Map, lookup}
use pmux_agent.Protocol.Messages.{Message}
use pmux_agent.Agent.Handler.State.{Bridge, State}

-- The messages for a peer.
unfoldable pub outbox : Bytes → List (Bytes × Message) → List Message
outbox q [] = []
outbox q ((p, m) ∷ rest) = if str_eq p q then m ∷ outbox q rest else outbox q rest

pub outbox-append :
    (q : Bytes) (xs ys : List (Bytes × Message)) → outbox q (xs ++ ys) ≡ outbox q xs ++ outbox q ys
unfolding outbox
outbox-append q [] ys = refl
outbox-append q ((p, m) ∷ xs) ys = ground (arith, outbox-append q xs ys)

-- All that the handler holds for a peer, and all that it has sent to it.
pub record View : Type 0 where
  pub bridge : Option Bridge
  pub cancel : Option ℕ
  pub stream_done : Option ℕ
  pub pane : Option Bytes
  pub last_ping : Option ℕ
  pub dims : Option (ℤ × ℤ)
  pub exit : Option Bool
  pub outbox : List Message

unfoldable pub view : {W : Type 0} → Bytes → State W → View
view q s = record {
  bridge = lookup q s.bridges;
  cancel = lookup q s.cancels;
  stream_done = lookup q s.stream_done;
  pane = lookup q s.pane_for_peer;
  last_ping = lookup q s.last_ping_time;
  dims = lookup q s.last_dims;
  exit = lookup q s.exit_notified;
  outbox = outbox q s.sent;
}

-- The world is no part of a view.
pub world-view :
    {W : Type 0} (q : Bytes) (s : State W) (w : W) → view q (record s { world = w }) ≡ view q s
unfolding view
world-view q s w = refl

-- A branch leaves a view alone if both its sides do.
pub if-view :
    {W : Type 0} (q : Bytes) (b : Bool) (s t : State W) (v : View)
    → view q s ≡ v
    → view q t ≡ v
    → view q (if b then s else t) ≡ v
if-view q true s t v hs ht = hs
if-view q false s t v hs ht = ht
