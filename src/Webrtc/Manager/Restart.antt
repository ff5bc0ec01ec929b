-- ===== src/Webrtc/Manager/Restart.antt =====
-- The state callbacks, the grace timer, the ICE restart and the two watchdogs of internal/webrtc/peer.go.
use pmux_agent.Base.{
  ℕ, ◌+◌, ◌-◌, ◌*◌, ◌/◌, ◌^◌, Bool, true, false, not, ◌||◌, [], Option, none, some, Bytes, codes,
  pos, ltb, ◌==◌, if◌then◌else◌,
}
use pmux_agent.Base.Map.{lookup, insert, delete}
use pmux_agent.Webrtc.Manager.State.{
  Network, ConnectionState, SignalingMessage, no_message, Link, Manager, store, is_current,
}
use pmux_agent.Webrtc.Manager.Cleanup.{stop_timers, schedule_cleanup}
use pmux_agent.Webrtc.Manager.Connect.{sdp_offer, send_signal, make_offer}

-- A candidate as the peer connection gives it.
pub record Candidate : Type 0 where
  pub candidate : Bytes
  pub sdp_mid : Option Bytes
  pub mline_index : Option ℕ

unfoldable pub ice_message : Link → Candidate → SignalingMessage
ice_message p c = record no_message {
  type_ = codes "ice_candidate";
  target_device_id = p.device_id;
  attempt_id = p.attempt_id;
  candidate = c.candidate;
  sdp_mid = elim c.sdp_mid [ none ↦ [] | some mid ↦ mid ];
  sdp_mline_index = elim c.mline_index [ none ↦ none | some n ↦ some (pos n) ];
}

-- Ten seconds, in nanoseconds.
abbrev pub pc_disconnected_timeout : ℕ
pc_disconnected_timeout = 10 * 10 ^ 9

unfoldable pub has_timer : Option ℕ → Bool
has_timer none = false
has_timer (some t) = true

unfoldable pub is_connected : ConnectionState → Bool
is_connected s = elim s [ ConnectionState.connected ↦ true | _ ↦ false ]

unfoldable pub is_disconnected : ConnectionState → Bool
is_disconnected s = elim s [ ConnectionState.disconnected ↦ true | _ ↦ false ]

module _ {W : Type 0} where
  -- The connection has recovered.
  unfoldable pub cancel_timers : Bytes → Manager W → Manager W
  unfolding has_timer
  cancel_timers device m =
      if has_timer (lookup device m.disconnect_timers)
      then record m {
        disconnect_timers = delete device m.disconnect_timers;
        disconnect_times = delete device m.disconnect_times;
        restart_timers = delete device m.restart_timers;
      }
      else record m { restart_timers = delete device m.restart_timers }

  unfoldable pub end_failed : Link → Manager W → Manager W
  unfolding stop_timers schedule_cleanup
  end_failed p m = schedule_cleanup p (stop_timers p.device_id m)

module _ (network : Network) where
  open network use {World, now, connection_state, is_answered}

  unfoldable pub start_grace : Bytes → ℕ → Manager World → Manager World
  start_grace device time m = record m {
    disconnect_times = insert device time m.disconnect_times;
    disconnect_timers = insert device m.next_timer m.disconnect_timers;
    next_timer = m.next_timer + 1;
  }

  unfoldable pub lost : Link → Manager World → Manager World
  unfolding has_timer start_grace
  lost p m =
      if has_timer (lookup p.device_id m.restart_timers)
        || has_timer (lookup p.device_id m.disconnect_timers)
      then m
      else start_grace p.device_id (now m.world) m

  -- Each case of the switch asks first whether the peer is still the one in the table.
  unfoldable pub change_state : Link → ConnectionState → Manager World → Manager World
  unfolding cancel_timers lost end_failed
  change_state p ConnectionState.fresh m = m
  change_state p ConnectionState.connecting m = m
  change_state p ConnectionState.connected m = cancel_timers p.device_id m
  change_state p ConnectionState.disconnected m = lost p m
  change_state p ConnectionState.failed m = end_failed p m
  change_state p ConnectionState.closed m = end_failed p m

  unfoldable pub handle_peer_state_change : Link → ConnectionState → Manager World → Manager World
  unfolding is_current change_state
  handle_peer_state_change p s m = if is_current p m then change_state p s m else m

  -- The end of `attemptICERestart`, which has let go of the lock before.
  unfoldable pub arm_watchdog : Link → Manager World → Manager World
  unfolding is_current
  arm_watchdog p m = if m.closed || not (is_current p m) then m else record m {
    restart_timers = insert p.device_id m.next_timer m.restart_timers;
    next_timer = m.next_timer + 1;
  }

  unfoldable pub after_restart_offer : Link → Bool × Manager World → Manager World
  unfolding arm_watchdog schedule_cleanup
  after_restart_offer p (true, m) = arm_watchdog p m
  after_restart_offer p (false, m) = schedule_cleanup p m

  unfoldable pub send_restart : Link → Option Bytes × Manager World → Manager World
  unfolding schedule_cleanup send_signal after_restart_offer
  send_restart p (none, m) = schedule_cleanup p m
  send_restart p (some sdp, m) =
      let reset =
        store p.id (record (m.memory p.id) { remote_desc_set = false; ice_candidates = [] })
          m.memory in
      after_restart_offer p (send_signal network (sdp_offer p sdp) (record m { memory = reset }))

  unfoldable pub attempt_ice_restart : Bytes → Manager World → Manager World
  unfolding send_restart make_offer
  attempt_ice_restart device m = elim (lookup device m.peers) [
    | none ↦ m
    | some p ↦ send_restart p (make_offer network p true m)
  ]

  -- Whether the timer fired long before its time, as it does after a sleep.
  unfoldable pub is_early : Option ℕ → ℕ → Bool
  is_early none t = false
  is_early (some since) t = ltb (t - since) (pc_disconnected_timeout / 2)

  unfoldable pub grace_over : Bytes → Option ℕ → Link → Manager World → Manager World
  unfolding is_early attempt_ice_restart start_grace is_disconnected
  grace_over device since p m =
      if not (is_disconnected (connection_state p.id m.world))
      then m
      else if is_early since (now m.world)
      then elim since [ none ↦ m | some time ↦ start_grace device time m ]
      else attempt_ice_restart device m

  unfoldable pub on_disconnect_timer_fired : Bytes → Manager World → Manager World
  unfolding grace_over
  on_disconnect_timer_fired device m =
      let since = lookup device m.disconnect_times in
      let n = record m {
        disconnect_timers = delete device m.disconnect_timers;
        disconnect_times = delete device m.disconnect_times;
      } in
      elim (lookup device m.peers) [ none ↦ n | some p ↦ grace_over device since p n ]

  -- The watchdog of an ICE restart: `timer` is its own number.
  unfoldable pub drop_own_timer : ℕ → Bytes → Manager World → Manager World
  drop_own_timer timer device m = elim (lookup device m.restart_timers) [
    | none ↦ m
    | some t ↦
        if t == timer then record m { restart_timers = delete device m.restart_timers } else m
  ]

  unfoldable pub watchdog_fired : ℕ → Link → Manager World → Manager World
  unfolding drop_own_timer is_current is_connected schedule_cleanup
  watchdog_fired timer p m =
      let n = drop_own_timer timer p.device_id m in
      if not (is_current p n)
      then n
      else if not (is_connected (connection_state p.id n.world))
      then schedule_cleanup p n
      else n

  -- The watchdog of the first offer.
  unfoldable pub answer_timeout : Link → Manager World → Manager World
  unfolding is_current schedule_cleanup
  answer_timeout p m =
      if m.closed || not (is_current p m)
      then m
      else if is_answered p.id m.world
      then m
      else schedule_cleanup p m

  -- `sendICECandidate`: the end of the gathering is `none`.
  unfoldable pub send_ice_candidate : Link → Option Candidate → Manager World → Manager World
  unfolding send_signal ice_message
  send_ice_candidate p none m = m
  send_ice_candidate p (some c) m =
      if (m.memory p.id).silenced then m else (send_signal network (ice_message p c) m).1
