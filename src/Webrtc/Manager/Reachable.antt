-- ===== src/Webrtc/Manager/Reachable.antt =====
-- What every order of events leaves of the table in internal/webrtc/peer.go.
pub mod Connect
use pmux_agent.Base.{
  ◌+◌, ◌≤◌, ◌≡◌, refl, sym, subst, inl, inr, Bool, true, false, not, List, [], ◌∷◌, Option, none,
  some, Bytes, length, ◌==◌, ==_iff, str_eq, str_eq_iff, if_holds, Bool-cases, Option-cases, arith,
  codes,
}
use pmux_agent.Base.Map.{Map, lookup, delete, insert, lookup-delete}
use pmux_agent.Webrtc.Manager.State.{
  Network, SignalingMessage, IceServer, Link, Memory, Manager, store, new_peer_manager,
}
use pmux_agent.Webrtc.Manager.Cleanup.{silence, stop_timers, remove_peer, replaced_with}
use pmux_agent.Webrtc.Manager.Connect.{
  Turn, begin_connect, is_full, replace, ice_servers, with_connection, with_servers, insert_peer,
  advance,
}
use pmux_agent.Webrtc.Manager.Signals.{
  handle_signaling_message, handle_ice_candidate, trusted_attempt,
}
use pmux_agent.Webrtc.Manager.Shrinks.{Core, core, Shrinks, delete-sub, length-delete-le}
use pmux_agent.Webrtc.Manager.Quiet.{
  IsQuiet, close_peer_if_current-IsQuiet, disconnect_peer-IsQuiet, begin_close_all-IsQuiet,
  begin_shut_down-IsQuiet, reopen-IsQuiet, teardown_if_current-IsQuiet, notify-IsQuiet,
  tear_down-IsQuiet, close_next-IsQuiet, set_allowed-IsQuiet,
}
use pmux_agent.Webrtc.Manager.Quiet.Signals.{
  handle_peer_unavailable-IsQuiet, handle_sdp_answer-IsQuiet, handle_ice_candidate-IsQuiet,
}
use pmux_agent.Webrtc.Manager.Quiet.Restart.{
  handle_peer_state_change-IsQuiet, on_disconnect_timer_fired-IsQuiet, watchdog_fired-IsQuiet,
  answer_timeout-IsQuiet, send_ice_candidate-IsQuiet,
}
use pmux_agent.Webrtc.Manager.Quiet.Connect.{
  IsEarly, begin_connect-IsQuietTurn, ice_servers-IsQuiet, offer-IsQuiet,
}
use pmux_agent.Webrtc.Manager.Table.{
  IsTidy, Shrinks-IsTidy, IsNew, Shrinks-IsNew, insert-IsTidy, length-insert, length-insert_present,
  replaced_with-le,
}
use pmux_agent.Webrtc.Manager.Steps.{Event, happen, happen_all}
use pmux_agent.Webrtc.Manager.Reachable.Connect.{
  delete_apart, silenced-IsTidy, numbered-IsTidy, numbered-IsNew, IsTidyTurn, early,
  Shrinks-IsTidyTurn, IsTidyRun, quiet-IsTidyRun, early-IsTidyRun, replace-IsTidyRun,
  with_connection-IsTidyRun, with_servers-IsTidyRun, insert-room, insert_peer-IsTidyRun,
  advance-IsTidyRun,
}

module _ (network : Network) where
  open network use {World}

  handle_signaling_message-IsTidyRun :
      (s : SignalingMessage) (m : Manager World)
      → IsTidy (core m)
      → IsTidyRun network (handle_signaling_message network s m)
  unfolding handle_signaling_message
  handle_signaling_message-IsTidyRun s m h =
      let attempt = trusted_attempt s.attempt_id in
      if_holds (IsTidyRun network) (str_eq s.type_ (codes "connect_request")) _ _
        (λ e.
          let (first, q) = begin_connect-IsQuietTurn network s.target_device_id attempt m in
          early-IsTidyRun network (begin_connect network s.target_device_id attempt m).0 m
            (begin_connect network s.target_device_id attempt m).1 first q h)
        (λ e.
          if_holds (IsTidyRun network) (str_eq s.type_ (codes "sdp_answer")) _ _
            (λ e.
              early-IsTidyRun network Turn.idle m _ tt
                (handle_sdp_answer-IsQuiet network s.target_device_id attempt s.sdp m) h)
            (λ e.
              if_holds (IsTidyRun network) (str_eq s.type_ (codes "ice_candidate")) _ _
                (λ e.
                  early-IsTidyRun network Turn.idle m
                    (handle_ice_candidate network s.target_device_id attempt s.candidate s.sdp_mid
                      s.sdp_mline_index m)
                    tt
                    (handle_ice_candidate-IsQuiet network s.target_device_id attempt s.candidate
                      s.sdp_mid s.sdp_mline_index m)
                    h)
                (λ e.
                  if_holds (IsTidyRun network) (str_eq s.type_ (codes "peer_unavailable")) _ _
                    (λ e.
                      early-IsTidyRun network Turn.idle m _ tt
                        (handle_peer_unavailable-IsQuiet network s.device_id attempt m) h)
                    (λ e. (h, tt)))))

  happen-IsTidyRun :
      (e : Event) (t : Turn) (m : Manager World)
      → IsTidyRun network (t, m)
      → IsTidyRun network (happen network e (t, m))
  unfolding happen
  happen-IsTidyRun (Event.signaled s) Turn.idle m (h, _) = handle_signaling_message-IsTidyRun s m h
  happen-IsTidyRun (Event.signaled s) (Turn.replacing d a k) m s' = s'
  happen-IsTidyRun (Event.signaled s) (Turn.tearing p t) m s' = s'
  happen-IsTidyRun (Event.signaled s) (Turn.fetching d a k) m s' = s'
  happen-IsTidyRun (Event.signaled s) (Turn.inserting p) m s' = s'
  happen-IsTidyRun (Event.signaled s) (Turn.offering p) m s' = s'
  happen-IsTidyRun (Event.state_changed p c) t m s =
      quiet-IsTidyRun network t m _ (handle_peer_state_change-IsQuiet network p c m) s
  happen-IsTidyRun (Event.gathered p c) t m s =
      quiet-IsTidyRun network t m _ (send_ice_candidate-IsQuiet network p c m) s
  happen-IsTidyRun (Event.grace_over device) t m s =
      quiet-IsTidyRun network t m _ (on_disconnect_timer_fired-IsQuiet network device m) s
  happen-IsTidyRun (Event.watchdog_over timer p) t m s =
      quiet-IsTidyRun network t m _ (watchdog_fired-IsQuiet network timer p m) s
  happen-IsTidyRun (Event.answer_overdue p) t m s =
      quiet-IsTidyRun network t m _ (answer_timeout-IsQuiet network p m) s
  happen-IsTidyRun (Event.teardown p) t m s =
      quiet-IsTidyRun network t m _ (teardown_if_current-IsQuiet p m) s
  happen-IsTidyRun (Event.notified p) t m s =
      quiet-IsTidyRun network t m _ (notify-IsQuiet network p m) s
  happen-IsTidyRun (Event.close p) t m s =
      quiet-IsTidyRun network t m _ (close_peer_if_current-IsQuiet p m) s
  happen-IsTidyRun (Event.allowed id) t m s =
      quiet-IsTidyRun network t m _ (set_allowed-IsQuiet network id m) s
  happen-IsTidyRun (Event.disconnect device) t m s =
      quiet-IsTidyRun network t m _ (disconnect_peer-IsQuiet device m) s
  happen-IsTidyRun Event.proceed t m s = advance-IsTidyRun network t m s
  happen-IsTidyRun Event.close_all t m s =
      quiet-IsTidyRun network t m _ (begin_close_all-IsQuiet m) s
  happen-IsTidyRun Event.shut_down t m s =
      quiet-IsTidyRun network t m _ (begin_shut_down-IsQuiet m) s
  happen-IsTidyRun Event.torn_down t m s =
      quiet-IsTidyRun network t m _ (close_next-IsQuiet network m) s
  happen-IsTidyRun Event.reopened t m s = quiet-IsTidyRun network t m _ (reopen-IsQuiet m) s

  happen_all-IsTidyRun :
      (es : List Event) (r : Turn × Manager World)
      → IsTidyRun network r
      → IsTidyRun network (happen_all network es r)
  unfolding happen_all
  happen_all-IsTidyRun [] r s = s
  happen_all-IsTidyRun (e ∷ es) (t, m) s = happen_all-IsTidyRun es _ (happen-IsTidyRun e t m s)

  new_peer_manager-IsTidy : (w : World) → IsTidy (core (new_peer_manager w))
  unfolding new_peer_manager lookup
  new_peer_manager-IsTidy w = record {
    room = omega arith;
    closed = λ h. refl;
    replaced = omega arith;
    buffered = λ i. omega arith;
    keyed = λ k p h. absurd cc;
    known = λ k p h. absurd cc;
    heard = λ k p h. absurd cc;
    apart = λ j k p q hp hq e. absurd cc;
    secret = λ k p h. absurd cc;
    fresh = λ i h. refl;
  }

  -- After any events on a new manager, in any order: no more peers than allowed are tracked, and none
  -- while it is closed; each is tracked under its own device and has a number of its own; the
  -- replaced attempts are at most 8 and the candidates buffered for a peer at most 64; and no tracked
  -- peer is silenced, or was made without a pairing secret.
  pub reachable-IsTidy :
      (es : List Event) (w : World)
      → IsTidy (core (happen_all network es (Turn.idle, new_peer_manager w)).1)
  reachable-IsTidy es w = (happen_all-IsTidyRun es _ (new_peer_manager-IsTidy w, tt)).0
