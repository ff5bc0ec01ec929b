-- ===== src/Webrtc/Manager/Quiet/Restart.antt =====
-- State changes, timers and watchdogs in internal/webrtc/peer.go add no peer to the table.
use pmux_agent.Base.{
  ℕ, refl, inl, inr, Bool, true, false, not, ◌||◌, Option, none, some, Bytes, ◌==◌, Option-cases,
  arith,
}
use pmux_agent.Base.Map.{lookup, delete}
use pmux_agent.Webrtc.Manager.State.{Network, ConnectionState, Link, Manager, is_current}
use pmux_agent.Webrtc.Manager.Cleanup.{stop_timers}
use pmux_agent.Webrtc.Manager.Connect.{make_offer, sdp_offer}
use pmux_agent.Webrtc.Manager.Restart.{
  Candidate, has_timer, is_early, is_connected, is_disconnected, cancel_timers, end_failed,
  start_grace, lost, change_state, handle_peer_state_change, arm_watchdog, after_restart_offer,
  send_restart, attempt_ice_restart, grace_over, on_disconnect_timer_fired, drop_own_timer,
  watchdog_fired, answer_timeout, send_ice_candidate,
}
use pmux_agent.Webrtc.Manager.Shrinks.{core, store-Shrinks}
use pmux_agent.Webrtc.Manager.Quiet.{
  IsQuiet, quiet, IsQuiet-Shrinks, IsQuiet-trans, if_IsQuiet, schedule_cleanup-IsQuiet,
  send_signal-IsQuiet,
}

module _ {W : Type 0} where
  cancel_timers-IsQuiet : (device : Bytes) (m : Manager W) → IsQuiet m (cancel_timers device m)
  unfolding cancel_timers
  cancel_timers-IsQuiet device m =
      if_IsQuiet m (has_timer (lookup device m.disconnect_timers)) (quiet m _ refl) (quiet m _ refl)

  end_failed-IsQuiet : (p : Link) (m : Manager W) → IsQuiet m (end_failed p m)
  unfolding end_failed stop_timers
  end_failed-IsQuiet p m =
      IsQuiet-trans (quiet m (stop_timers p.device_id m) refl) (schedule_cleanup-IsQuiet p _)

module _ (network : Network) where
  open network use {World, now, connection_state, is_answered}

  lost-IsQuiet : (p : Link) (m : Manager World) → IsQuiet m (lost network p m)
  unfolding lost start_grace
  lost-IsQuiet p m =
      if_IsQuiet m
        (has_timer (lookup p.device_id m.restart_timers)
          || has_timer (lookup p.device_id m.disconnect_timers))
        (quiet m m refl) (quiet m _ refl)

  change_state-IsQuiet :
      (p : Link) (s : ConnectionState) (m : Manager World) → IsQuiet m (change_state network p s m)
  unfolding change_state
  change_state-IsQuiet p ConnectionState.fresh m = quiet m m refl
  change_state-IsQuiet p ConnectionState.connecting m = quiet m m refl
  change_state-IsQuiet p ConnectionState.connected m = cancel_timers-IsQuiet p.device_id m
  change_state-IsQuiet p ConnectionState.disconnected m = lost-IsQuiet p m
  change_state-IsQuiet p ConnectionState.failed m = end_failed-IsQuiet p m
  change_state-IsQuiet p ConnectionState.closed m = end_failed-IsQuiet p m

  pub handle_peer_state_change-IsQuiet :
      (p : Link) (s : ConnectionState) (m : Manager World)
      → IsQuiet m (handle_peer_state_change network p s m)
  unfolding handle_peer_state_change
  handle_peer_state_change-IsQuiet p s m =
      if_IsQuiet m (is_current p m) (change_state-IsQuiet p s m) (quiet m m refl)

  after_restart_offer-IsQuiet :
      (p : Link) (r : Bool × Manager World) → IsQuiet r.1 (after_restart_offer network p r)
  unfolding after_restart_offer arm_watchdog
  after_restart_offer-IsQuiet p (true, m) =
      if_IsQuiet m (m.closed || not (is_current p m)) (quiet m m refl) (quiet m _ refl)
  after_restart_offer-IsQuiet p (false, m) = schedule_cleanup-IsQuiet p m

  send_restart-IsQuiet :
      (p : Link) (r : Option Bytes × Manager World) → IsQuiet r.1 (send_restart network p r)
  unfolding send_restart
  send_restart-IsQuiet p (none, m) = schedule_cleanup-IsQuiet p m
  send_restart-IsQuiet p (some sdp, m) =
      IsQuiet-trans (IsQuiet-Shrinks m _ (store-Shrinks p.id _ (core m) refl (λ h. omega arith))) (
        IsQuiet-trans (send_signal-IsQuiet network (sdp_offer p sdp) _)
          (after_restart_offer-IsQuiet p _))

  attempt_ice_restart-IsQuiet :
      (device : Bytes) (m : Manager World) → IsQuiet m (attempt_ice_restart network device m)
  unfolding attempt_ice_restart make_offer
  attempt_ice_restart-IsQuiet device m = elim (Option-cases (lookup device m.peers)) [
    | inl e ↦ rw (e, attempt_ice_restart) (quiet m m refl)
    | inr (p, e) ↦
        rw (e, attempt_ice_restart)
          (IsQuiet-trans (quiet m (make_offer network p true m).1 refl) (send_restart-IsQuiet p _))
  ]

  regrace-IsQuiet :
      (device : Bytes) (since : Option ℕ) (m : Manager World)
      → IsQuiet m (elim since [ none ↦ m | some time ↦ start_grace network device time m ])
  unfolding start_grace
  regrace-IsQuiet device none m = quiet m m refl
  regrace-IsQuiet device (some time) m = quiet m _ refl

  grace_over-IsQuiet :
      (device : Bytes) (since : Option ℕ) (p : Link) (m : Manager World)
      → IsQuiet m (grace_over network device since p m)
  unfolding grace_over
  grace_over-IsQuiet device since p m =
      if_IsQuiet m (not (is_disconnected (connection_state p.id m.world))) (quiet m m refl) (
        if_IsQuiet m (is_early network since (now m.world)) (regrace-IsQuiet device since m)
          (attempt_ice_restart-IsQuiet device m))

  pub on_disconnect_timer_fired-IsQuiet :
      (device : Bytes) (m : Manager World) → IsQuiet m (on_disconnect_timer_fired network device m)
  unfolding on_disconnect_timer_fired
  on_disconnect_timer_fired-IsQuiet device m = elim (Option-cases (lookup device m.peers)) [
    | inl e ↦ rw (e, on_disconnect_timer_fired) (quiet m _ refl)
    | inr (p, e) ↦
        rw (e, on_disconnect_timer_fired)
          (IsQuiet-trans
            (quiet m
              (record m {
                disconnect_timers = delete device m.disconnect_timers;
                disconnect_times = delete device m.disconnect_times;
              })
              refl)
            (grace_over-IsQuiet device _ p _))
  ]

  drop_own_timer-IsQuiet :
      (timer : ℕ) (device : Bytes) (m : Manager World)
      → IsQuiet m (drop_own_timer network timer device m)
  unfolding drop_own_timer
  drop_own_timer-IsQuiet timer device m = elim (Option-cases (lookup device m.restart_timers)) [
    | inl e ↦ rw (e, drop_own_timer) (quiet m m refl)
    | inr (t, e) ↦
        rw (e, drop_own_timer) (if_IsQuiet m (t == timer) (quiet m _ refl) (quiet m m refl))
  ]

  pub watchdog_fired-IsQuiet :
      (timer : ℕ) (p : Link) (m : Manager World) → IsQuiet m (watchdog_fired network timer p m)
  unfolding watchdog_fired
  watchdog_fired-IsQuiet timer p m =
      let n = drop_own_timer network timer p.device_id m in
      IsQuiet-trans (drop_own_timer-IsQuiet timer p.device_id m) (
        if_IsQuiet n (not (is_current p n)) (quiet n n refl) (
          if_IsQuiet n (not (is_connected (connection_state p.id n.world)))
            (schedule_cleanup-IsQuiet p n) (quiet n n refl)))

  pub answer_timeout-IsQuiet :
      (p : Link) (m : Manager World) → IsQuiet m (answer_timeout network p m)
  unfolding answer_timeout
  answer_timeout-IsQuiet p m =
      if_IsQuiet m (m.closed || not (is_current p m)) (quiet m m refl)
        (if_IsQuiet m (is_answered p.id m.world) (quiet m m refl) (schedule_cleanup-IsQuiet p m))

  pub send_ice_candidate-IsQuiet :
      (p : Link) (c : Option Candidate) (m : Manager World)
      → IsQuiet m (send_ice_candidate network p c m)
  unfolding send_ice_candidate
  send_ice_candidate-IsQuiet p none m = quiet m m refl
  send_ice_candidate-IsQuiet p (some c) m =
      if_IsQuiet m (m.memory p.id).silenced (quiet m m refl) (send_signal-IsQuiet network _ m)
