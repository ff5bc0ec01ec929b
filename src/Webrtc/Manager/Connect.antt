-- ===== src/Webrtc/Manager/Connect.antt =====
-- `handleConnectRequest` of internal/webrtc/peer.go, cut where it lets go of the manager's lock, and
-- `fetchTurnCredentials`.
use pmux_agent.Base.{
  ℕ, ◌+◌, ◌-◌, ◌*◌, ◌^◌, Bool, true, false, not, ◌&&◌, ◌||◌, List, [], ◌∷◌, Option, none, some,
  Bytes, codes, length, ltb, leb, ◌==◌, str_eq, if◌then◌else◌,
}
use pmux_agent.Base.Map.{lookup, insert}
use pmux_agent.Webrtc.Manager.State.{
  Network, SignalingMessage, no_message, IceServer, Link, Manager,
}
use pmux_agent.Webrtc.Manager.Cleanup.{
  silence, stop_link, close_link, stop_timers, remove_peer, close_peer, replaced_with,
  on_peer_disconnect,
}

-- Ten minutes, in nanoseconds.
abbrev pub turn_cache_ttl : ℕ
turn_cache_ttl = 10 * 60 * 10 ^ 9

-- Where the signaling loop stands in the handling of a connect request.
pub data Turn : Type 0 where
  idle : Turn
  replacing : Bytes → Bytes → Bytes → Turn
  tearing : Link → Turn → Turn
  fetching : Bytes → Bytes → Bytes → Turn
  inserting : Link → Turn
  offering : Link → Turn

abbrev pub stun_only : List IceServer
stun_only =
    record { urls = codes "stun:stun.cloudflare.com:3478" ∷ []; username = []; credential = [] }
    ∷ []

abbrev pub rejection : Bytes → Bytes → SignalingMessage
rejection device reason = record no_message {
  type_ = codes "connection_rejected";
  reason = reason;
  target_device_id = device;
}

abbrev pub sdp_offer : Link → Bytes → SignalingMessage
sdp_offer p sdp = record no_message {
  type_ = codes "sdp_offer";
  target_device_id = p.device_id;
  attempt_id = p.attempt_id;
  sdp = sdp;
}

-- Without credentials: nothing if a relay is wanted, else STUN only.
unfoldable pub or_stun :
    {W : Type 0} → Option (List IceServer) × Manager W → Option (List IceServer) × Manager W
or_stun (some found, m) = (some found, m)
or_stun (none, m) = if m.force_relay then (none, m) else (some stun_only, m)

-- Whether the table has no room for another device.
unfoldable pub is_full : {W : Type 0} → Bytes → Manager W → Bool
is_full device m = elim (lookup device m.peers) [
  | none ↦ leb m.max_peers (length m.peers)
  | some p ↦ false
]

module _ (network : Network) where
  open network use {
    World, shared_secret, signal, request_turn, now, new_connection, create_channel, create_offer,
    set_local,
  }

  -- `pm.signaling.Send`: whether the message was taken.
  unfoldable pub send_signal : SignalingMessage → Manager World → Bool × Manager World
  send_signal s m = let (taken, w) = signal s m.world in (taken, record m { world = w })

  unfoldable pub reject : Bytes → Bytes → Manager World → Turn × Manager World
  unfolding send_signal
  reject device reason m = (Turn.idle, (send_signal (rejection device reason) m).1)

  unfoldable pub check_room : Bytes → Bytes → Bytes → Manager World → Turn × Manager World
  unfolding reject is_full
  check_room device attempt secret m =
      if is_full device m
      then reject device (codes "already_connected") m
      else (Turn.replacing device attempt secret, m)

  -- `getSharedSecret`, and what follows it.
  unfoldable pub with_secret :
      Bytes → Bytes → Option Bytes × World → Manager World → Turn × Manager World
  unfolding check_room
  with_secret device attempt (none, w) m =
      reject device (codes "secret_unavailable") (record m { world = w })
  with_secret device attempt (some secret, w) m =
      if length secret == 0
      then reject device (codes "secret_unavailable") (record m { world = w })
      else check_room device attempt secret (record m { world = w })

  unfoldable pub begin_connect : Bytes → Bytes → Manager World → Turn × Manager World
  unfolding with_secret
  begin_connect device attempt m =
      if m.closed
      then (Turn.idle, m)
      else if length m.allowed_device_id == 0 || not (str_eq device m.allowed_device_id)
      then reject device (codes "not_paired") m
      else with_secret device attempt (shared_secret device m.world) m

  -- The second critical section: an old peer falls silent and leaves the table.
  unfoldable pub replace : Bytes → Bytes → Bytes → Manager World → Turn × Manager World
  unfolding silence remove_peer replaced_with stop_timers
  replace device attempt secret m =
      let next = Turn.fetching device attempt secret in
      elim (lookup device m.peers) [
        | none ↦ (next, stop_timers device m)
        | some old ↦ (
          Turn.tearing old next,
          record (remove_peer device (silence old m)) {
            replaced_attempts = replaced_with old.attempt_id m.replaced_attempts;
          },
        )
      ]

  -- The old peer's teardown, which the loop waits for, and its close.
  unfoldable pub tear_down : Link → Manager World → Manager World
  unfolding stop_link on_peer_disconnect close_link
  tear_down old m = close_link old (on_peer_disconnect network old.device_id old (stop_link old m))

  unfoldable pub after_turn :
      Option (List IceServer) × World → Manager World → Option (List IceServer) × Manager World
  after_turn (none, w) m = (none, record m { world = w })
  after_turn (some servers, w) m =
      (some servers, record m { turn_cache = servers; turn_cache_time = now w; world = w })

  unfoldable pub fetch_turn_credentials : Manager World → Option (List IceServer) × Manager World
  unfolding after_turn
  fetch_turn_credentials m =
      if ltb 0 (length m.turn_cache) && ltb (now m.world - m.turn_cache_time) turn_cache_ttl
      then (some m.turn_cache, m)
      else after_turn (request_turn m.world) m

  -- The servers to use, or `none` if a relay is wanted and no credentials are there.
  unfoldable pub ice_servers : Manager World → Option (List IceServer) × Manager World
  unfolding fetch_turn_credentials or_stun
  ice_servers m = if m.has_api then (some [], m) else or_stun (fetch_turn_credentials m)

  unfoldable pub with_connection : Link → Bool × World → Manager World → Turn × Manager World
  with_connection p (true, w) m =
      (Turn.inserting p, record m { next_id = m.next_id + 1; world = w })
  with_connection p (false, w) m = (Turn.idle, record m { world = w })

  unfoldable pub with_servers :
      Bytes → Bytes → Bytes → Option (List IceServer) × Manager World → Turn × Manager World
  unfolding with_connection
  with_servers device attempt secret (none, m) = (Turn.idle, m)
  with_servers device attempt secret (some servers, m) =
      let p : Link = record {
        id = m.next_id;
        device_id = device;
        attempt_id = attempt;
        shared_secret = secret;
      } in
      with_connection p (new_connection m.next_id servers m.world) m

  -- The third critical section checks again what may have changed.
  unfoldable pub insert_peer : Link → Manager World → Turn × Manager World
  unfolding is_full
  insert_peer p m =
      if m.closed
      then (Turn.idle, m)
      else if not (str_eq m.allowed_device_id p.device_id)
      then (Turn.idle, m)
      else if is_full p.device_id m
      then (Turn.idle, m)
      else (Turn.offering p, record m { peers = insert p.device_id p m.peers })

  -- `peer.conn.CreateOffer` and `SetLocalDescription`: the offer, if both succeed.
  unfoldable pub after_offer : ℕ → Option Bytes × World → Option Bytes × World
  after_offer id (none, w) = (none, w)
  after_offer id (some sdp, w) =
      let (taken, v) = set_local id sdp w in (if taken then some sdp else none, v)

  unfoldable pub make_offer : Link → Bool → Manager World → Option Bytes × Manager World
  unfolding after_offer
  make_offer p restart m =
      let (offer, w) = after_offer p.id (create_offer p.id restart m.world) in
      (offer, record m { world = w })

  unfoldable pub close_unless : Bytes → Bool × Manager World → Manager World
  unfolding close_peer
  close_unless device (true, m) = m
  close_unless device (false, m) = close_peer device m

  unfoldable pub send_offer : Link → Option Bytes × Manager World → Manager World
  unfolding close_peer close_unless send_signal
  send_offer p (none, m) = close_peer p.device_id m
  send_offer p (some sdp, m) = close_unless p.device_id (send_signal (sdp_offer p sdp) m)

  unfoldable pub with_channel : Link → Bool × World → Manager World → Manager World
  unfolding send_offer make_offer
  with_channel p (false, w) m = close_peer p.device_id (record m { world = w })
  with_channel p (true, w) m = send_offer p (make_offer p false (record m { world = w }))

  unfoldable pub offer : Link → Manager World → Manager World
  unfolding with_channel
  offer p m = with_channel p (create_channel p.id m.world) m

  -- The next part of the handling.
  unfoldable pub advance : Turn × Manager World → Turn × Manager World
  unfolding replace tear_down ice_servers with_servers insert_peer offer
  advance (Turn.idle, m) = (Turn.idle, m)
  advance (Turn.replacing device attempt secret, m) = replace device attempt secret m
  advance (Turn.tearing old next, m) = (next, tear_down old m)
  advance (Turn.fetching device attempt secret, m) =
      with_servers device attempt secret (ice_servers m)
  advance (Turn.inserting p, m) = insert_peer p m
  advance (Turn.offering p, m) = (Turn.idle, offer p m)

  unfoldable pub handle_connect_request : Bytes → Bytes → Manager World → Manager World
  unfolding begin_connect advance
  handle_connect_request device attempt m =
      (advance (advance (advance (advance (advance (begin_connect device attempt m)))))).1
