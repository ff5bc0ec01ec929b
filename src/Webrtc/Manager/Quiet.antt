-- ===== src/Webrtc/Manager/Quiet.antt =====
-- The operations of internal/webrtc/peer.go's manager that add no peer to the table.
pub mod Signals
pub mod Restart
pub mod Connect
use pmux_agent.Base.{
  ℕ, ◌+◌, ◌≤◌, ◌≡◌, refl, sym, ap, subst, ◌∙◌, inl, inr, Bool, true, false, not, ◌&&◌, ◌||◌, List,
  [], ◌∷◌, ◌++◌, Option, none, some, Bytes, length, length-append, leb, ◌==◌, str_eq, if◌then◌else◌,
  if_holds, Bool-cases, Option-cases, arith, ℤ, codes, ltb,
}
use pmux_agent.Base.Map.{Map, lookup, delete, insert}
use pmux_agent.Webrtc.Manager.State.{
  Network, ConnectionState, SignalingMessage, Ice, Link, Memory, Manager, store, is_current,
}
use pmux_agent.Webrtc.Manager.Cleanup.{
  close_link, stop_link, stop_timers, remove_peer, close_peer, close_peer_if_current,
  schedule_cleanup, disconnect_peer, on_peer_disconnect, teardown_if_current, has_notice,
  without_notice, notify, close_next, begin_close_all, begin_shut_down, set_allowed_device_id,
  reopen, reopen_after, close_first,
}
use pmux_agent.Webrtc.Manager.Connect.{
  Turn, send_signal, reject, check_room, with_secret, begin_connect, tear_down, after_turn,
  fetch_turn_credentials, ice_servers, after_offer, make_offer, close_unless, send_offer,
  with_channel, offer, sdp_offer,
}
use pmux_agent.Webrtc.Manager.Signals.{
  close_half_built, handle_peer_unavailable, answer_applied, clean_up_if_current, after_remote,
  apply_answer, handle_sdp_answer, buffer_candidate, take_candidate, handle_ice_candidate,
}
use pmux_agent.Webrtc.Manager.Restart.{
  Candidate, cancel_timers, end_failed, start_grace, lost, change_state, handle_peer_state_change,
  arm_watchdog, after_restart_offer, send_restart, attempt_ice_restart, grace_over,
  on_disconnect_timer_fired, drop_own_timer, watchdog_fired, answer_timeout, send_ice_candidate,
}
use pmux_agent.Webrtc.Manager.Shrinks.{
  Core, core, Shrinks, Shrinks-refl, Shrinks-trans, delete-Shrinks, clear-Shrinks, reopen-Shrinks,
  store-Shrinks,
}

module _ {W : Type 0} where
  pub record IsQuiet (m n : Manager W) : Type 0 where
    pub shrinks : Shrinks (core m) (core n)

  pub IsQuiet-Shrinks : (m n : Manager W) → Shrinks (core m) (core n) → IsQuiet m n
  IsQuiet-Shrinks m n s = record { shrinks = s }

  -- A step that changes other fields only.
  pub quiet : (m n : Manager W) → core m ≡ core n → IsQuiet m n
  quiet m n e = record { shrinks = subst (Shrinks (core m)) e (Shrinks-refl (core m)) }

  pub IsQuiet-trans : {m n o : Manager W} → IsQuiet m n → IsQuiet n o → IsQuiet m o
  IsQuiet-trans {m} {n} {o} f g = record {
    shrinks = Shrinks-trans (core m) (core n) (core o) f.shrinks g.shrinks;
  }

  pub if_IsQuiet :
      (m : Manager W) (b : Bool) {x y : Manager W}
      → IsQuiet m x
      → IsQuiet m y
      → IsQuiet m (if b then x else y)
  if_IsQuiet m b {x} {y} hx hy = if_holds (IsQuiet m) b x y (λ e. hx) (λ e. hy)

  close_link-IsQuiet : (p : Link) (m : Manager W) → IsQuiet m (close_link p m)
  unfolding close_link
  close_link-IsQuiet p m = IsQuiet-Shrinks m _ (store-Shrinks p.id _ (core m) refl (λ h. h))

  stop_link-IsQuiet : (p : Link) (m : Manager W) → IsQuiet m (stop_link p m)
  unfolding stop_link
  stop_link-IsQuiet p m = IsQuiet-Shrinks m _ (store-Shrinks p.id _ (core m) refl (λ h. h))

  pub teardown_if_current-IsQuiet : (p : Link) (m : Manager W) → IsQuiet m (teardown_if_current p m)
  unfolding teardown_if_current
  teardown_if_current-IsQuiet p m =
      if_IsQuiet m (is_current p m)
        (IsQuiet-trans (stop_link-IsQuiet p m) (quiet (stop_link p m) _ refl))
        (stop_link-IsQuiet p m)

  stop_timers-IsQuiet : (device : Bytes) (m : Manager W) → IsQuiet m (stop_timers device m)
  unfolding stop_timers
  stop_timers-IsQuiet device m = quiet m _ refl

  remove_peer-IsQuiet : (device : Bytes) (m : Manager W) → IsQuiet m (remove_peer device m)
  unfolding remove_peer stop_timers
  remove_peer-IsQuiet device m = IsQuiet-Shrinks m _ (delete-Shrinks device (core m))

  pub schedule_cleanup-IsQuiet : (p : Link) (m : Manager W) → IsQuiet m (schedule_cleanup p m)
  unfolding schedule_cleanup
  schedule_cleanup-IsQuiet p m = if_IsQuiet m m.closed (quiet m m refl) (quiet m _ refl)

  remove_and_close-IsQuiet :
      (device : Bytes) (p : Link) (m : Manager W) → IsQuiet m (close_link p (remove_peer device m))
  remove_and_close-IsQuiet device p m =
      IsQuiet-trans (remove_peer-IsQuiet device m) (close_link-IsQuiet p _)

  pub close_peer_if_current-IsQuiet :
      (p : Link) (m : Manager W) → IsQuiet m (close_peer_if_current p m)
  unfolding close_peer_if_current
  close_peer_if_current-IsQuiet p m =
      if_IsQuiet m (is_current p m) (remove_and_close-IsQuiet p.device_id p m)
        (close_link-IsQuiet p m)

  pub close_peer-IsQuiet : (device : Bytes) (m : Manager W) → IsQuiet m (close_peer device m)
  unfolding close_peer
  close_peer-IsQuiet device m = elim (Option-cases (lookup device m.peers)) [
    | inl e ↦ rw (e, close_peer) (stop_timers-IsQuiet device m)
    | inr (p, e) ↦ rw (e, close_peer) (remove_and_close-IsQuiet device p m)
  ]

  pub disconnect_peer-IsQuiet :
      (device : Bytes) (m : Manager W) → IsQuiet m (disconnect_peer device m).1
  unfolding disconnect_peer
  disconnect_peer-IsQuiet device m = elim (Option-cases (lookup device m.peers)) [
    | inl e ↦ rw (e, disconnect_peer) (quiet m m refl)
    | inr (p, e) ↦ rw (e, disconnect_peer) (schedule_cleanup-IsQuiet p m)
  ]

  pub begin_close_all-IsQuiet : (m : Manager W) → IsQuiet m (begin_close_all m)
  unfolding begin_close_all
  begin_close_all-IsQuiet m = IsQuiet-Shrinks m _ (clear-Shrinks (core m))

  pub begin_shut_down-IsQuiet : (m : Manager W) → IsQuiet m (begin_shut_down m)
  unfolding begin_shut_down begin_close_all
  begin_shut_down-IsQuiet m = IsQuiet-Shrinks m _ (clear-Shrinks (core m))

  reopen_after-IsQuiet : (ps : Map Link) (m : Manager W) → IsQuiet m (reopen_after ps m)
  unfolding reopen_after
  reopen_after-IsQuiet [] m =
      if_IsQuiet m m.shut_down (quiet m m refl) (IsQuiet-Shrinks m _ (reopen-Shrinks (core m)))
  reopen_after-IsQuiet (p ∷ ps) m = quiet m m refl

  pub reopen-IsQuiet : (m : Manager W) → IsQuiet m (reopen m)
  unfolding reopen
  reopen-IsQuiet m = reopen_after-IsQuiet m.closing m

module _ (network : Network) where
  open network use {World}

  on_peer_disconnect-IsQuiet :
      (device : Bytes) (p : Link) (m : Manager World)
      → IsQuiet m (on_peer_disconnect network device p m)
  unfolding on_peer_disconnect
  on_peer_disconnect-IsQuiet device p m = quiet m _ refl

  pub notify-IsQuiet : (p : Link) (m : Manager World) → IsQuiet m (notify network p m)
  unfolding notify
  notify-IsQuiet p m =
      if_IsQuiet m (has_notice p.id m.notices)
        (IsQuiet-trans (quiet m (record m { notices = without_notice p.id m.notices }) refl)
          (on_peer_disconnect-IsQuiet p.device_id p _))
        (quiet m m refl)

  pub tear_down-IsQuiet : (p : Link) (m : Manager World) → IsQuiet m (tear_down network p m)
  unfolding tear_down
  tear_down-IsQuiet p m =
      IsQuiet-trans (stop_link-IsQuiet p m)
        (IsQuiet-trans (on_peer_disconnect-IsQuiet p.device_id p _) (close_link-IsQuiet p _))

  close_first-IsQuiet : (ps : Map Link) (m : Manager World) → IsQuiet m (close_first network ps m)
  unfolding close_first
  close_first-IsQuiet [] m = quiet m m refl
  close_first-IsQuiet ((device, p) ∷ ps) m =
      IsQuiet-trans (quiet m (record m { closing = ps }) refl) (
        IsQuiet-trans (stop_link-IsQuiet p _)
          (IsQuiet-trans (on_peer_disconnect-IsQuiet device p _) (close_link-IsQuiet p _)))

  pub close_next-IsQuiet : (m : Manager World) → IsQuiet m (close_next network m)
  unfolding close_next
  close_next-IsQuiet m = close_first-IsQuiet m.closing m

  pub set_allowed-IsQuiet :
      (id : Bytes) (m : Manager World) → IsQuiet m (set_allowed_device_id id m)
  unfolding set_allowed_device_id
  set_allowed-IsQuiet id m = quiet m _ refl

  pub send_signal-IsQuiet :
      (s : SignalingMessage) (m : Manager World) → IsQuiet m (send_signal network s m).1
  unfolding send_signal
  send_signal-IsQuiet s m = quiet m _ refl
