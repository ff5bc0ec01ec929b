-- ===== src/Webrtc/Manager/Stale.antt =====
-- Callbacks of a peer of internal/webrtc/peer.go after another peer has taken its place.
use pmux_agent.Base.{ℕ, ◌≡◌, true, false, Option, ◌==◌}
use pmux_agent.Webrtc.Manager.State.{ConnectionState, Link, Manager, new_memory, is_current}
use pmux_agent.Webrtc.Manager.Cleanup.{has_notice}
use pmux_agent.Webrtc.Manager.Restart.{Candidate}
use pmux_agent.Webrtc.Manager.Steps.{Event}

-- The callbacks, timers and goroutines that know a peer by its pointer.
pub data IsCallback (p : Link) : Event → Type 0 where
  state_changed : (s : ConnectionState) → IsCallback p (Event.state_changed p s)
  gathered : (c : Option Candidate) → IsCallback p (Event.gathered p c)
  answer_overdue : IsCallback p (Event.answer_overdue p)
  teardown : IsCallback p (Event.teardown p)
  notified : IsCallback p (Event.notified p)
  close : IsCallback p (Event.close p)

module _ {W : Type 0} where
  -- The manager but for what its peers hold.
  unfoldable pub blank : Manager W → Manager W
  blank m = record m { memory = λ i. new_memory }

  pub record Unmoved (p : Link) (m n : Manager W) : Type 0 where
    pub table : blank n ≡ blank m
    pub others : (i : ℕ) → (p.id == i) ≡ false → n.memory i ≡ m.memory i

  pub record IsStale (p : Link) (m : Manager W) : Type 0 where
    pub replaced : is_current p m ≡ false
    pub silent : (m.memory p.id).silenced ≡ true
    pub unnoticed : has_notice p.id m.notices ≡ false

  -- Nothing has changed, or the peer itself has.
  pub record Still (p : Link) (m n : Manager W) : Type 0 where
    pub unmoved : Unmoved p m n
    pub stale : IsStale p n
