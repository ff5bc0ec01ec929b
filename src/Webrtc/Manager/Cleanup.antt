-- ===== src/Webrtc/Manager/Cleanup.antt =====
-- How the manager of internal/webrtc/peer.go stops, tears down and closes peers.
use pmux_agent.Base.{
  ℕ, Bool, true, false, ◌||◌, List, [], ◌∷◌, ◌++◌, none, some, Bytes, length, ltb, ◌==◌, drop,
  if◌then◌else◌,
}
use pmux_agent.Base.Map.{Map, lookup, delete}
use pmux_agent.Webrtc.Manager.State.{Network, Link, Job, Manager, store, is_current}

abbrev pub max_replaced_attempts : ℕ
max_replaced_attempts = 8

-- `pm.replacedAttempts` after `recordReplacedAttemptLocked`.
unfoldable pub replaced_with : Bytes → List Bytes → List Bytes
replaced_with attempt attempts =
    if length attempt == 0
    then attempts
    else if ltb max_replaced_attempts (length (attempts ++ attempt ∷ []))
    then drop 1 (attempts ++ attempt ∷ [])
    else attempts ++ attempt ∷ []

unfoldable pub has_notice : ℕ → List Link → Bool
has_notice i [] = false
has_notice i (p ∷ ps) = p.id == i || has_notice i ps

-- One notice less.
unfoldable pub without_notice : ℕ → List Link → List Link
without_notice i [] = []
without_notice i (p ∷ ps) = if p.id == i then ps else p ∷ without_notice i ps

module _ {W : Type 0} where
  unfoldable pub set_allowed_device_id : Bytes → Manager W → Manager W
  set_allowed_device_id id m = record m { allowed_device_id = id }

  -- `silence`, `stopDispatch` and `Close` on a peer.
  unfoldable pub silence : Link → Manager W → Manager W
  silence p m = record m {
    memory = store p.id (record (m.memory p.id) { silenced = true }) m.memory;
  }

  unfoldable pub stop_link : Link → Manager W → Manager W
  stop_link p m = record m {
    memory = store p.id (record (m.memory p.id) { stopped = true }) m.memory;
  }

  unfoldable pub close_link : Link → Manager W → Manager W
  close_link p m = record m {
    memory = store p.id (record (m.memory p.id) { closed = true }) m.memory;
  }

  -- `stopTimersLocked`.
  unfoldable pub stop_timers : Bytes → Manager W → Manager W
  stop_timers device m = record m {
    disconnect_timers = delete device m.disconnect_timers;
    restart_timers = delete device m.restart_timers;
    disconnect_times = delete device m.disconnect_times;
  }

  unfoldable pub schedule_cleanup : Link → Manager W → Manager W
  schedule_cleanup p m = if m.closed then m else record m { jobs = m.jobs ++ Job.cleanup p ∷ [] }

  -- Take the entry out of the map, and its timers.
  unfoldable pub remove_peer : Bytes → Manager W → Manager W
  unfolding stop_timers
  remove_peer device m = stop_timers device (record m { peers = delete device m.peers })

  unfoldable pub close_peer_if_current : Link → Manager W → Manager W
  unfolding is_current remove_peer close_link
  close_peer_if_current p m =
      if is_current p m then close_link p (remove_peer p.device_id m) else close_link p m

  unfoldable pub close_peer : Bytes → Manager W → Manager W
  unfolding remove_peer close_link stop_timers
  close_peer device m = elim (lookup device m.peers) [
    | none ↦ stop_timers device m
    | some p ↦ close_link p (remove_peer device m)
  ]

  -- Whether a peer was there.
  unfoldable pub disconnect_peer : Bytes → Manager W → Bool × Manager W
  unfolding schedule_cleanup
  disconnect_peer device m = elim (lookup device m.peers) [
    | none ↦ (false, m)
    | some p ↦ (true, schedule_cleanup p m)
  ]

  -- `teardownIfCurrent` up to where it lets go of the lock: the disconnect handler is still to run.
  unfoldable pub teardown_if_current : Link → Manager W → Manager W
  unfolding stop_link is_current
  teardown_if_current p m =
      if is_current p m then record (stop_link p m) { notices = p ∷ m.notices } else stop_link p m

  -- `closeAll` up to the goroutines of the peers, and `CloseAll`'s mark.
  unfoldable pub begin_close_all : Manager W → Manager W
  begin_close_all m = record m {
    closed = true;
    peers = [];
    closing = m.closing ++ m.peers;
    disconnect_timers = [];
    restart_timers = [];
    disconnect_times = [];
  }

  unfoldable pub begin_shut_down : Manager W → Manager W
  unfolding begin_close_all
  begin_shut_down m = begin_close_all (record m { shut_down = true })

  -- The end of `CloseAllAndReopen`, which waits for the teardown of the peers.
  unfoldable pub reopen_after : Map Link → Manager W → Manager W
  reopen_after [] m = if m.shut_down then m else record m { closed = false }
  reopen_after (p ∷ ps) m = m

  unfoldable pub reopen : Manager W → Manager W
  unfolding reopen_after
  reopen m = reopen_after m.closing m

module _ (network : Network) where
  open network use {World, disconnect_handler}

  -- `pm.OnPeerDisconnect(deviceID)`.
  unfoldable pub on_peer_disconnect : Bytes → Link → Manager World → Manager World
  on_peer_disconnect device p m = record m {
    gone = m.gone ++ p ∷ [];
    world = disconnect_handler device m.world;
  }

  -- The end of `teardownIfCurrent`, in a goroutine that is past its check.
  unfoldable pub notify : Link → Manager World → Manager World
  unfolding on_peer_disconnect has_notice without_notice
  notify p m =
      if has_notice p.id m.notices
      then on_peer_disconnect p.device_id p (record m { notices = without_notice p.id m.notices })
      else m

  -- The goroutine of one peer in `closeAll`.
  unfoldable pub close_first : Map Link → Manager World → Manager World
  unfolding stop_link on_peer_disconnect close_link
  close_first [] m = m
  close_first ((device, p) ∷ ps) m =
      close_link p (on_peer_disconnect device p (stop_link p (record m { closing = ps })))

  unfoldable pub close_next : Manager World → Manager World
  unfolding close_first
  close_next m = close_first m.closing m
