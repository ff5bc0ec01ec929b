-- ===== src/Webrtc/Manager/Steps.antt =====
-- What happens to the manager of internal/webrtc/peer.go, in any order: signaling messages, callbacks
-- and timers of whatever peers, goroutines, reloads and the shutdown.
use pmux_agent.Base.{ℕ, List, [], ◌∷◌, Option, Bytes}
use pmux_agent.Webrtc.Manager.State.{Network, ConnectionState, SignalingMessage, Link, Manager}
use pmux_agent.Webrtc.Manager.Cleanup.{
  set_allowed_device_id, close_peer_if_current, disconnect_peer, begin_close_all, begin_shut_down,
  reopen, teardown_if_current, notify, close_next,
}
use pmux_agent.Webrtc.Manager.Connect.{Turn, advance}
use pmux_agent.Webrtc.Manager.Signals.{handle_signaling_message}
use pmux_agent.Webrtc.Manager.Restart.{
  Candidate, handle_peer_state_change, on_disconnect_timer_fired, watchdog_fired, answer_timeout,
  send_ice_candidate,
}

-- `teardown`, `notified` and `close` are the parts of `scheduleCleanup`'s goroutine, which lets go of the
-- lock between them. The peers are arbitrary:
-- a callback may be that of a peer that was replaced long ago.
pub data Event : Type 0 where
  signaled : SignalingMessage → Event
  state_changed : Link → ConnectionState → Event
  gathered : Link → Option Candidate → Event
  grace_over : Bytes → Event
  watchdog_over : ℕ → Link → Event
  answer_overdue teardown notified close : Link → Event
  allowed disconnect : Bytes → Event
  proceed close_all shut_down torn_down reopened : Event

module _ (network : Network) where
  open network use {World}

  unfoldable pub happen : Event → Turn × Manager World → Turn × Manager World
  unfolding handle_signaling_message advance
  happen (Event.signaled s) (Turn.idle, m) = handle_signaling_message network s m
  happen (Event.signaled s) (t, m) = (t, m)
  happen (Event.state_changed p s) (t, m) = (t, handle_peer_state_change network p s m)
  happen (Event.gathered p c) (t, m) = (t, send_ice_candidate network p c m)
  happen (Event.grace_over device) (t, m) = (t, on_disconnect_timer_fired network device m)
  happen (Event.watchdog_over timer p) (t, m) = (t, watchdog_fired network timer p m)
  happen (Event.answer_overdue p) (t, m) = (t, answer_timeout network p m)
  happen (Event.teardown p) (t, m) = (t, teardown_if_current p m)
  happen (Event.notified p) (t, m) = (t, notify network p m)
  happen (Event.close p) (t, m) = (t, close_peer_if_current p m)
  happen (Event.allowed id) (t, m) = (t, set_allowed_device_id id m)
  happen (Event.disconnect device) (t, m) = (t, (disconnect_peer device m).1)
  happen Event.proceed (t, m) = advance network (t, m)
  happen Event.close_all (t, m) = (t, begin_close_all m)
  happen Event.shut_down (t, m) = (t, begin_shut_down m)
  happen Event.torn_down (t, m) = (t, close_next network m)
  happen Event.reopened (t, m) = (t, reopen m)

  unfoldable pub happen_all : List Event → Turn × Manager World → Turn × Manager World
  unfolding happen
  happen_all [] s = s
  happen_all (e ∷ es) s = happen_all es (happen e s)
