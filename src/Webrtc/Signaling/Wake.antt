-- ===== src/Webrtc/Signaling/Wake.antt =====
-- The end of a wait of `Run` in internal/webrtc/signaling.go by `Resume`.
use pmux_agent.Base.{ℕ, ◌≡◌, ◌⊎◌, inl, inr, refl, Bool, true, false, List, none, if_holds, arith}
use pmux_agent.Webrtc.Signaling.State.{
  Server, Phase, Client, new_signaling_client, signal_activity, resume,
}
use pmux_agent.Webrtc.Signaling.Loop.{
  fresh_window, check_suspended, at_top, wake_dormant, wake_suspended, wake_backoff, proceed,
  proceed_at,
}
use pmux_agent.Webrtc.Signaling.Steps.{Event, happen_all}
use pmux_agent.Webrtc.Signaling.Pace.{is_resting, IsSteady-awake}
use pmux_agent.Webrtc.Signaling.Steady.{reachable-IsSteady}

-- The phases in which `Run` listens for a signal.
unfoldable pub is_waiting : Phase → Bool
is_waiting p = elim p [
  | Phase.dormant_wait ↦ true
  | Phase.suspend_wait ↦ true
  | Phase.backing_off since wait ↦ true
  | _ ↦ false
]

-- About to connect, with a fresh window of retries.
pub record IsReady {W : Type 0} (c : Client W) : Type 0 where
  pub connects : c.phase ≡ Phase.connecting
  pub paced : c.backoff ≡ c.start_backoff
  pub fresh : c.failure_start ≡ none
  pub awake : c.dormant ≡ false
  pub up : c.suspended ≡ false

module _ (server : Server) where
  open server use {World}

  resumed_at-IsReady :
      (p : Phase) (c : Client World)
      → is_waiting p ≡ true
      → (is_resting p ≡ false → c.dormant ≡ false)
      → IsReady (proceed_at server p (resume c))
        ⊎ IsReady (proceed server (proceed_at server p (resume c)))
  unfolding is_waiting is_resting proceed proceed_at resume signal_activity wake_dormant
      wake_suspended wake_backoff fresh_window check_suspended at_top
  resumed_at-IsReady Phase.dormant_wait c _ d =
      inl (record { connects = refl; paced = refl; fresh = refl; awake = refl; up = refl })
  resumed_at-IsReady Phase.suspend_wait c _ d = inr (
      if_holds IsReady c.dormant _ _ (λ e. absurd (ground (arith, e, d refl)))
        (λ e. record { connects = refl; paced = refl; fresh = refl; awake = e; up = refl }))
  resumed_at-IsReady (Phase.backing_off since wait) c _ d =
      inr (record { connects = refl; paced = refl; fresh = refl; awake = refl; up = refl })
  resumed_at-IsReady Phase.top c e d = absurd (ground (arith, e))
  resumed_at-IsReady Phase.connecting c e d = absurd (ground (arith, e))
  resumed_at-IsReady Phase.authenticated c e d = absurd (ground (arith, e))
  resumed_at-IsReady (Phase.serving since) c e d = absurd (ground (arith, e))
  resumed_at-IsReady (Phase.stopped reason) c e d = absurd (ground (arith, e))

  -- A client that after any events waits, dormant, for the host to wake or to reconnect: a `Resume` takes
  -- it in at most two steps to an attempt to connect with a fresh window of retries, with its starting
  -- backoff and no failures, and neither dormant nor suspended.
  pub resumed-IsReady :
      (es : List (Event × World)) (configured : ℕ) (w : World)
      → is_waiting (happen_all server es (new_signaling_client configured w)).phase ≡ true
      → let c = resume (happen_all server es (new_signaling_client configured w)) in
        IsReady (proceed server c) ⊎ IsReady (proceed server (proceed server c))
  unfolding proceed resume signal_activity
  resumed-IsReady es configured w waits =
      let c = happen_all server es (new_signaling_client configured w) in
      resumed_at-IsReady c.phase c waits
        (λ busy. IsSteady-awake c busy (reachable-IsSteady server es configured w))
