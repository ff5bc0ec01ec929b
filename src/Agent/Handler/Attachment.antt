-- ===== src/Agent/Handler/Attachment.antt =====
-- internal/agent/handler.go: what the maps of the handler hold for one peer.
pub mod Sound
pub mod Neutral
pub mod Attach
pub mod Messages
pub mod Streams
pub mod Exit
pub mod Started
pub mod Outcome
pub mod Attached
use pmux_agent.Base.{
  ℤ, ℕ, ◌≡◌, refl, sym, subst, ◌⊎◌, inl, inr, Bool, true, false, Option, none, some, Bytes,
  if◌then◌else◌,
}
use pmux_agent.Base.Map.{lookup}
use pmux_agent.Tmux.Client.{valid_target}
use pmux_agent.Agent.Handler.State.{Bridge, State}
use pmux_agent.Agent.Handler.Attach.{out_of_range}

-- The entries of one peer in the five maps of its attachment.
pub record Slot : Type 0 where
  pub bridge : Option Bridge
  pub cancel : Option ℕ
  pub pane : Option Bytes
  pub dims : Option (ℤ × ℤ)
  pub exit : Option Bool

unfoldable pub slot : {W : Type 0} → Bytes → State W → Slot
slot p s = record {
  bridge = lookup p s.bridges;
  cancel = lookup p s.cancels;
  pane = lookup p s.pane_for_peer;
  dims = lookup p s.last_dims;
  exit = lookup p s.exit_notified;
}

abbrev pub empty_slot : Slot
empty_slot = record { bridge = none; cancel = none; pane = none; dims = none; exit = none }

abbrev pub full_slot : Bridge → ℕ → Bytes → ℤ × ℤ → Slot
full_slot b c pane d = record {
  bridge = some b;
  cancel = some c;
  pane = some pane;
  dims = some d;
  exit = none;
}

-- A peer has no entry at all, or it has a bridge, the bridge's cancel function, a pane that tmux may
-- be asked for, and dimensions within the bounds, and the end of that pane is not announced.
unfoldable pub IsSoundSlot : Slot → Type 0
IsSoundSlot v =
    (v ≡ empty_slot)
    ⊎ ((b : Bridge) × (c : ℕ) × (pane : Bytes) × (d : ℤ × ℤ) × (v ≡ full_slot b c pane d)
        × (valid_target pane ≡ true)
        × (out_of_range d.0 d.1 ≡ false))

unfoldable pub IsSound : {W : Type 0} → Bytes → State W → Type 0
IsSound p s = IsSoundSlot (slot p s)

pub keeps :
    {W : Type 0} (p : Bytes) (s t : State W) → slot p t ≡ slot p s → IsSound p s → IsSound p t
unfolding IsSound
keeps p s t h = subst IsSoundSlot (sym h)

pub empties : {W : Type 0} (p : Bytes) (t : State W) → slot p t ≡ empty_slot → IsSound p t
unfolding IsSound IsSoundSlot
empties p t h = inl h

pub if-IsSound :
    {W : Type 0} (p : Bytes) (b : Bool) (s t : State W)
    → IsSound p s
    → IsSound p t
    → IsSound p (if b then s else t)
if-IsSound p true s t hs ht = hs
if-IsSound p false s t hs ht = ht
