-- ===== src/Webrtc/Manager/Signals.antt =====
-- The signaling messages other than a connect request, in internal/webrtc/peer.go.
use pmux_agent.Base.{
  ℕ, ◌-◌, ◌*◌, ◌%◌, ◌^◌, ℤ, pos, negsuc, Bool, true, false, not, ◌&&◌, ◌||◌, List, [], ◌∷◌, ◌++◌,
  Option, none, some, Bytes, codes, length, ltb, leb, ◌==◌, str_eq, if◌then◌else◌,
}
use pmux_agent.Base.Map.{lookup}
use pmux_agent.Webrtc.Manager.State.{
  Network, ConnectionState, SignalingMessage, Ice, Link, Job, Manager, store, is_current,
}
use pmux_agent.Webrtc.Manager.Cleanup.{schedule_cleanup}
use pmux_agent.Webrtc.Manager.Connect.{Turn, begin_connect}

abbrev pub max_buffered_ice_candidates : ℕ
max_buffered_ice_candidates = 64

-- `^[0-9a-f]{32}$`.
unfoldable pub all_hex : Bytes → Bool
all_hex [] = true
all_hex (a ∷ s) = (leb 48 a && leb a 57 || leb 97 a && leb a 102) && all_hex s

unfoldable pub is_attempt_id : Bytes → Bool
unfolding all_hex
is_attempt_id s = length s == 32 && all_hex s

-- What `HandleSignalingMessage` makes of an attempt ID.
unfoldable pub trusted_attempt : Bytes → Bytes
unfolding is_attempt_id
trusted_attempt s = if not (length s == 0) && not (is_attempt_id s) then [] else s

unfoldable pub is_other_attempt : Link → Bytes → Bool
is_other_attempt p attempt =
    not (length attempt == 0) && not (length p.attempt_id == 0) && not (str_eq attempt p.attempt_id)

unfoldable pub contains : Bytes → List Bytes → Bool
contains s [] = false
contains s (t ∷ ts) = str_eq t s || contains s ts

-- The conversion `uint16(v)` of an int.
unfoldable pub to_uint16 : ℤ → ℕ
to_uint16 (pos n) = n % 2 ^ 16
to_uint16 (negsuc n) = 2 ^ 16 - 1 - n % 2 ^ 16

unfoldable pub is_live : Bool → ConnectionState → Bool
is_live channel_open state = elim state [
  | ConnectionState.connecting ↦ true
  | ConnectionState.connected ↦ true
  | _ ↦ channel_open
]

module _ (network : Network) where
  open network use {World, set_remote, add_candidate, connection_state, channel_open, is_stable}

  -- `goCleanup` of `ClosePeerIfCurrent`, unless the peer has been replaced or lives.
  unfoldable pub close_half_built : Bytes → Link → Manager World → Manager World
  unfolding contains is_live
  close_half_built attempt p m =
      if not (str_eq attempt p.attempt_id) && contains attempt m.replaced_attempts
      then m
      else if is_live (channel_open p.id m.world) (connection_state p.id m.world)
      then m
      else record m { jobs = m.jobs ++ Job.close p ∷ [] }

  unfoldable pub handle_peer_unavailable : Bytes → Bytes → Manager World → Manager World
  unfolding close_half_built
  handle_peer_unavailable device attempt m = elim (lookup device m.peers) [
    | none ↦ m
    | some p ↦ close_half_built attempt p m
  ]

  unfoldable pub add_all : ℕ → List Ice → World → World
  add_all id [] w = w
  add_all id (c ∷ cs) w = add_all id cs (add_candidate id c w)

  -- The remote description is set, and the buffered candidates go to the connection.
  unfoldable pub answer_applied : Link → Manager World → Manager World
  unfolding add_all
  answer_applied p m = record m {
    memory =
        store p.id (record (m.memory p.id) { remote_desc_set = true; ice_candidates = [] })
          m.memory;
    world = add_all p.id (m.memory p.id).ice_candidates m.world;
  }

  unfoldable pub clean_up_if_current : Link → Manager World → Manager World
  unfolding schedule_cleanup is_current
  clean_up_if_current p m = if is_current p m then schedule_cleanup p m else m

  unfoldable pub after_remote : Link → Bool × World → Manager World → Manager World
  unfolding answer_applied clean_up_if_current
  after_remote p (true, w) m = answer_applied p (record m { world = w })
  after_remote p (false, w) m = clean_up_if_current p (record m { world = w })

  unfoldable pub apply_answer : Bytes → Bytes → Link → Manager World → Manager World
  unfolding is_other_attempt after_remote
  apply_answer attempt sdp p m =
      if is_other_attempt p attempt
      then m
      else if is_stable p.id m.world
      then m
      else after_remote p (set_remote p.id sdp m.world) m

  unfoldable pub handle_sdp_answer : Bytes → Bytes → Bytes → Manager World → Manager World
  unfolding apply_answer
  handle_sdp_answer device attempt sdp m =
      if length sdp == 0
      then m
      else if ltb (64 * 1024) (length sdp)
      then m
      else elim (lookup device m.peers) [ none ↦ m | some p ↦ apply_answer attempt sdp p m ]

  unfoldable pub buffer_candidate : Link → Ice → Manager World → Manager World
  buffer_candidate p c m =
      if leb max_buffered_ice_candidates (length (m.memory p.id).ice_candidates)
      then m
      else record m {
        memory =
            store p.id
              (record (m.memory p.id) { ice_candidates = (m.memory p.id).ice_candidates ++ c ∷ [] })
              m.memory;
      }

  unfoldable pub take_candidate : Bytes → Ice → Link → Manager World → Manager World
  unfolding is_other_attempt buffer_candidate
  take_candidate attempt c p m =
      if is_other_attempt p attempt
      then m
      else if not (m.memory p.id).remote_desc_set
      then buffer_candidate p c m
      else record m { world = add_candidate p.id c m.world }

  unfoldable pub handle_ice_candidate :
      Bytes → Bytes → Bytes → Bytes → Option ℤ → Manager World → Manager World
  unfolding take_candidate to_uint16
  handle_ice_candidate device attempt candidate mid index m =
      let line : Option ℕ = elim index [ none ↦ none | some i ↦ some (to_uint16 i) ] in
      let ice : Ice = record { candidate = candidate; sdp_mid = mid; mline_index = line } in
      elim (lookup device m.peers) [ none ↦ m | some p ↦ take_candidate attempt ice p m ]

  -- The switch of `HandleSignalingMessage`: a connect request is begun, all else is handled at once.
  unfoldable pub handle_signaling_message : SignalingMessage → Manager World → Turn × Manager World
  unfolding begin_connect handle_sdp_answer handle_ice_candidate handle_peer_unavailable
      trusted_attempt
  handle_signaling_message s m =
      let attempt = trusted_attempt s.attempt_id in
      if str_eq s.type_ (codes "connect_request")
      then begin_connect network s.target_device_id attempt m
      else if str_eq s.type_ (codes "sdp_answer")
      then (Turn.idle, handle_sdp_answer s.target_device_id attempt s.sdp m)
      else if str_eq s.type_ (codes "ice_candidate")
      then (
        Turn.idle,
        handle_ice_candidate s.target_device_id attempt s.candidate s.sdp_mid s.sdp_mline_index m,
      )
      else if str_eq s.type_ (codes "peer_unavailable")
      then (Turn.idle, handle_peer_unavailable s.device_id attempt m)
      else (Turn.idle, m)
