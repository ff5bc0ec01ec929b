-- ===== src/Webrtc/Manager/State.antt =====
-- The state of `PeerManager` in internal/webrtc/peer.go, with the negotiation of its peers, and what
-- it calls: the signaling client, the peer connections, the secrets, the clock and the handler.
use pmux_agent.Base.{ℕ, ℤ, Bool, false, List, [], Option, none, some, Bytes, ◌==◌, if◌then◌else◌}
use pmux_agent.Base.Map.{Map, lookup}

-- `SignalingMessage` of internal/webrtc/signaling.go, with `none` for a nil pointer.
pub record SignalingMessage : Type 0 where
  pub type_ : Bytes
  pub token : Bytes
  pub name : Bytes
  pub status : Bytes
  pub error : Bytes
  pub reason : Bytes
  pub target_device_id : Bytes
  pub device_id : Bytes
  pub attempt_id : Bytes
  pub sdp : Bytes
  pub candidate : Bytes
  pub sdp_mid : Bytes
  pub sdp_mline_index : Option ℤ

-- The message of which every field is empty.
abbrev pub no_message : SignalingMessage
no_message = record {
  type_ = [];
  token = [];
  name = [];
  status = [];
  error = [];
  reason = [];
  target_device_id = [];
  device_id = [];
  attempt_id = [];
  sdp = [];
  candidate = [];
  sdp_mid = [];
  sdp_mline_index = none;
}

-- A candidate as the peer connection takes it.
pub record Ice : Type 0 where
  pub candidate : Bytes
  pub sdp_mid : Bytes
  pub mline_index : Option ℕ

pub record IceServer : Type 0 where
  pub urls : List Bytes
  pub username : Bytes
  pub credential : Bytes

pub data ConnectionState : Type 0 where
  fresh connecting connected disconnected failed closed : ConnectionState

-- `false` and `none` stand for an error, or for a secret that is not there in time. A connection is
-- named by the number of its peer.
pub record Network : Type 1 where
  pub World : Type 0
  pub shared_secret : Bytes → World → Option Bytes × World
  pub signal : SignalingMessage → World → Bool × World
  pub request_turn : World → Option (List IceServer) × World
  pub now : World → ℕ
  pub new_connection : ℕ → List IceServer → World → Bool × World
  pub create_channel : ℕ → World → Bool × World
  pub create_offer : ℕ → Bool → World → Option Bytes × World
  pub set_local : ℕ → Bytes → World → Bool × World
  pub set_remote : ℕ → Bytes → World → Bool × World
  pub add_candidate : ℕ → Ice → World → World
  pub connection_state : ℕ → World → ConnectionState
  pub channel_open : ℕ → World → Bool
  pub is_stable : ℕ → World → Bool
  pub is_answered : ℕ → World → Bool
  pub disconnect_handler : Bytes → World → World

-- The fields of a `Peer` that never change. The number stands for the pointer.
pub record Link : Type 0 where
  pub id : ℕ
  pub device_id : Bytes
  pub attempt_id : Bytes
  pub shared_secret : Bytes

-- The fields of a `Peer` that the manager changes.
pub record Memory : Type 0 where
  pub silenced : Bool
  pub stopped : Bool
  pub closed : Bool
  pub remote_desc_set : Bool
  pub ice_candidates : List Ice

abbrev pub new_memory : Memory
new_memory = record {
  silenced = false;
  stopped = false;
  closed = false;
  remote_desc_set = false;
  ice_candidates = [];
}

-- What the manager has a goroutine do: the teardown and the close of a peer, or the close alone.
pub data Job : Type 0 where
  cleanup close : Link → Job

-- The fields of `PeerManager`; a timer is its number. `memory` holds the peers ever made, `closing`
-- the peers that `closeAll` has still to tear down, `notices` those past the check of `teardownIfCurrent`
-- for which the disconnect handler has not run yet, `jobs` the goroutines started, and `gone` the
-- peers for which the disconnect handler ran.
pub record Manager (W : Type 0) : Type 0 where
  pub allowed_device_id : Bytes
  pub max_peers : ℕ
  pub force_relay : Bool
  pub has_api : Bool
  pub closed : Bool
  pub shut_down : Bool
  pub peers : Map Link
  pub disconnect_timers : Map ℕ
  pub restart_timers : Map ℕ
  pub disconnect_times : Map ℕ
  pub replaced_attempts : List Bytes
  pub turn_cache : List IceServer
  pub turn_cache_time : ℕ
  pub memory : ℕ → Memory
  pub next_id : ℕ
  pub next_timer : ℕ
  pub closing : Map Link
  pub notices : List Link
  pub jobs : List Job
  pub gone : List Link
  pub world : W

-- `NewPeerManager`.
unfoldable pub new_peer_manager : {W : Type 0} → W → Manager W
new_peer_manager w = record {
  allowed_device_id = [];
  max_peers = 1;
  force_relay = false;
  has_api = false;
  closed = false;
  shut_down = false;
  peers = [];
  disconnect_timers = [];
  restart_timers = [];
  disconnect_times = [];
  replaced_attempts = [];
  turn_cache = [];
  turn_cache_time = 0;
  memory = λ i. new_memory;
  next_id = 0;
  next_timer = 0;
  closing = [];
  notices = [];
  jobs = [];
  gone = [];
  world = w;
}

-- A write through a pointer.
abbrev pub store {ℓ} : {A : Type ℓ} → ℕ → A → (ℕ → A) → ℕ → A
store i a f j = if i == j then a else f j

-- `pm.peers[peer.DeviceID] == peer`.
unfoldable pub is_current : {W : Type 0} → Link → Manager W → Bool
is_current p m = elim (lookup p.device_id m.peers) [ none ↦ false | some q ↦ q.id == p.id ]
