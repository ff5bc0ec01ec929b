-- ===== src/Webrtc/Manager/Quiet/Connect.antt =====
-- The parts of a connect request in internal/webrtc/peer.go that add no peer to the table.
use pmux_agent.Base.{
  ◌-◌, ◌≡◌, refl, Bool, true, false, not, ◌&&◌, ◌||◌, List, Option, none, some, Bytes, length, ◌==◌,
  str_eq, if_holds, codes, ltb,
}
use pmux_agent.Webrtc.Manager.State.{Network, IceServer, Link, Manager}
use pmux_agent.Webrtc.Manager.Connect.{
  Turn, is_full, turn_cache_ttl, or_stun, reject, check_room, with_secret, begin_connect,
  after_turn, fetch_turn_credentials, ice_servers, make_offer, close_unless, send_offer,
  with_channel, offer, sdp_offer,
}
use pmux_agent.Webrtc.Manager.Quiet.{
  IsQuiet, quiet, IsQuiet-trans, close_peer-IsQuiet, send_signal-IsQuiet,
}

-- A turn that holds no new peer.
abbrev pub IsEarly : Turn → Type 0
IsEarly Turn.idle = Unit
IsEarly (Turn.replacing d a s) = (length s == 0) ≡ false
IsEarly (Turn.tearing p t) = ⊥
IsEarly (Turn.fetching d a s) = (length s == 0) ≡ false
IsEarly (Turn.inserting p) = ⊥
IsEarly (Turn.offering p) = ⊥

module _ (network : Network) where
  open network use {World}

  abbrev pub IsQuietTurn : Manager World → Turn × Manager World → Type 0
  IsQuietTurn m (t, n) = IsEarly t × IsQuiet m n

  reject-IsQuietTurn :
      (device reason : Bytes) (m n : Manager World)
      → IsQuiet m n
      → IsQuietTurn m (reject network device reason n)
  unfolding reject
  reject-IsQuietTurn device reason m n q = (tt, IsQuiet-trans q (send_signal-IsQuiet network _ n))

  check_room-IsQuietTurn :
      (device attempt secret : Bytes) (m n : Manager World)
      → (length secret == 0) ≡ false
      → IsQuiet m n
      → IsQuietTurn m (check_room network device attempt secret n)
  unfolding check_room
  check_room-IsQuietTurn device attempt secret m n full q =
      if_holds (IsQuietTurn m) (is_full device n) _ _
        (λ e. reject-IsQuietTurn device (codes "already_connected") m n q) (λ e. (full, q))

  with_secret-IsQuietTurn :
      (device attempt : Bytes) (r : Option Bytes × World) (m : Manager World)
      → IsQuietTurn m (with_secret network device attempt r m)
  unfolding with_secret
  with_secret-IsQuietTurn device attempt (none, w) m =
      reject-IsQuietTurn device (codes "secret_unavailable") m _ (quiet m _ refl)
  with_secret-IsQuietTurn device attempt (some secret, w) m =
      if_holds (IsQuietTurn m) (length secret == 0) _ _
        (λ e. reject-IsQuietTurn device (codes "secret_unavailable") m _ (quiet m _ refl))
        (λ e. check_room-IsQuietTurn device attempt secret m _ e (quiet m _ refl))

  pub begin_connect-IsQuietTurn :
      (device attempt : Bytes) (m : Manager World)
      → IsQuietTurn m (begin_connect network device attempt m)
  unfolding begin_connect
  begin_connect-IsQuietTurn device attempt m =
      if_holds (IsQuietTurn m) m.closed _ _ (λ e. (tt, quiet m m refl))
        (λ e.
          if_holds (IsQuietTurn m)
            (length m.allowed_device_id == 0 || not (str_eq device m.allowed_device_id)) _ _
            (λ e. reject-IsQuietTurn device (codes "not_paired") m m (quiet m m refl))
            (λ e. with_secret-IsQuietTurn device attempt (network.shared_secret device m.world) m))

  pub after_turn-IsQuiet :
      (r : Option (List IceServer) × World) (m : Manager World)
      → IsQuiet m (after_turn network r m).1
  unfolding after_turn
  after_turn-IsQuiet (none, w) m = quiet m _ refl
  after_turn-IsQuiet (some servers, w) m = quiet m _ refl

  fetch_turn_credentials-IsQuiet :
      (m : Manager World) → IsQuiet m (fetch_turn_credentials network m).1
  unfolding fetch_turn_credentials
  fetch_turn_credentials-IsQuiet m =
      if_holds (λ (r : Option (List IceServer) × Manager World). IsQuiet m r.1)
        (ltb 0 (length m.turn_cache)
          && ltb (network.now m.world - m.turn_cache_time) turn_cache_ttl)
        _ _ (λ e. quiet m m refl) (λ e. after_turn-IsQuiet _ m)

  or_stun-IsQuiet :
      (m : Manager World) (r : Option (List IceServer) × Manager World)
      → IsQuiet m r.1
      → IsQuiet m (or_stun r).1
  unfolding or_stun
  or_stun-IsQuiet m (some found, n) q = q
  or_stun-IsQuiet m (none, n) q =
      if_holds (λ (r : Option (List IceServer) × Manager World). IsQuiet m r.1) n.force_relay _ _
        (λ e. q) (λ e. q)

  pub ice_servers-IsQuiet : (m : Manager World) → IsQuiet m (ice_servers network m).1
  unfolding ice_servers
  ice_servers-IsQuiet m =
      if_holds (λ (r : Option (List IceServer) × Manager World). IsQuiet m r.1) m.has_api _ _
        (λ e. quiet m m refl) (λ e. or_stun-IsQuiet m _ (fetch_turn_credentials-IsQuiet m))

  close_unless-IsQuiet :
      (device : Bytes) (r : Bool × Manager World) → IsQuiet r.1 (close_unless network device r)
  unfolding close_unless
  close_unless-IsQuiet device (true, m) = quiet m m refl
  close_unless-IsQuiet device (false, m) = close_peer-IsQuiet device m

  send_offer-IsQuiet :
      (p : Link) (r : Option Bytes × Manager World) → IsQuiet r.1 (send_offer network p r)
  unfolding send_offer
  send_offer-IsQuiet p (none, m) = close_peer-IsQuiet p.device_id m
  send_offer-IsQuiet p (some sdp, m) =
      IsQuiet-trans (send_signal-IsQuiet network (sdp_offer p sdp) m)
        (close_unless-IsQuiet p.device_id _)

  with_channel-IsQuiet :
      (p : Link) (r : Bool × World) (m : Manager World) → IsQuiet m (with_channel network p r m)
  unfolding with_channel make_offer
  with_channel-IsQuiet p (false, w) m =
      IsQuiet-trans (quiet m (record m { world = w }) refl) (close_peer-IsQuiet p.device_id _)
  with_channel-IsQuiet p (true, w) m =
      IsQuiet-trans (quiet m (make_offer network p false (record m { world = w })).1 refl)
        (send_offer-IsQuiet p _)

  pub offer-IsQuiet : (p : Link) (m : Manager World) → IsQuiet m (offer network p m)
  unfolding offer
  offer-IsQuiet p m = with_channel-IsQuiet p _ m
