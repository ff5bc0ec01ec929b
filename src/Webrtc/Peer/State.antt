-- ===== src/Webrtc/Peer/State.antt =====
-- The state of a `Peer` in internal/webrtc/peer.go, and what it calls: its data channel, the random
-- source, the digests, base64 and the DTLS transport under its connection.
use pmux_agent.Base.{
  ℕ, ◌+◌, ◌≡◌, Bool, true, false, List, [], Option, some, Bytes, length, if◌then◌else◌,
}
use pmux_agent.Protocol.Messages.{Message}
use pmux_agent.Protocol.Codec.{Msgpack}

-- A fingerprint of the local DTLS parameters: its algorithm and its value in hex.
pub record Fingerprint : Type 0 where
  pub algorithm : Bytes
  pub value : Bytes

-- What the peer connection tells of its DTLS transport. `no_conn`, `no_sctp` and `no_transport`
-- stand for nil pointers, and `none` for an error.
pub data Dtls : Type 0 where
  no_conn no_sctp no_transport : Dtls
  transport : Bytes → Option (List Fingerprint) → Dtls

-- The channel that a wait for the send buffer receives from.
pub data Wakeup : Type 0 where
  drained closed stopped canceled timed_out : Wakeup

-- `false` and `none` stand for an error. `read_random` fills a buffer of the given length.
pub record Platform : Type 1 where
  pub World : Type 0
  pub msgpack : Msgpack
  pub read_random : ℕ → World → Option Bytes × World
  pub read_random-length :
      (n : ℕ) (w : World) (b : Bytes) → (read_random n w).0 ≡ some b → length b ≡ n
  pub buffered_amount : World → ℕ
  pub await_ready : World → Wakeup × World
  pub send : Bytes → World → Bool × World
  pub dtls : World → Dtls
  pub sha256 : Bytes → Bytes
  pub hmac_sha256 : Bytes → Bytes → Bytes
  pub encode_base64 : Bytes → Bytes
  pub decode_base64 : Bytes → Option Bytes

-- What went out on the data channel.
pub data Frame : Type 0 where
  message : Message → Frame
  raw : Bytes → Frame

-- The fields of `Peer` for its data channel, with `[]` for a nil nonce. `timer` says whether the
-- authentication timer is set, `stop_sends` and `stopped` what `stopDispatch` has done, and
-- `teardowns` how often the peer asked its manager to tear it down. The lists are what has happened:
-- the data received, the nonces challenged with, the frames sent without an error, and the messages
-- handed to the handler.
pub record Peer (W : Type 0) : Type 0 where
  pub device_id : Bytes
  pub shared_secret : Bytes
  pub has_channel : Bool
  pub closed : Bool
  pub stop_sends : Bool
  pub stopped : Bool
  pub authenticated : Bool
  pub auth_confirmed : Bool
  pub auth_resolved : Bool
  pub auth_nonce : Bytes
  pub timer : Bool
  pub teardowns : ℕ
  pub received : List Bytes
  pub challenges : List Bytes
  pub sent : List Frame
  pub handled : List Message
  pub world : W

module _ {W : Type 0} where
  -- The peer that `handleConnectRequest` makes, once it has its data channel.
  unfoldable pub new_peer : Bytes → Bytes → W → Peer W
  new_peer device secret w = record {
    device_id = device;
    shared_secret = secret;
    has_channel = true;
    closed = false;
    stop_sends = false;
    stopped = false;
    authenticated = false;
    auth_confirmed = false;
    auth_resolved = false;
    auth_nonce = [];
    timer = false;
    teardowns = 0;
    received = [];
    challenges = [];
    sent = [];
    handled = [];
    world = w;
  }

  -- The manager then runs `stop_dispatch` and `close`, or `close` alone, on goroutines of its own.
  unfoldable pub close_via_manager : Peer W → Peer W
  close_via_manager p = record p { teardowns = p.teardowns + 1 }

  unfoldable pub fail_auth : Peer W → Peer W
  unfolding close_via_manager
  fail_auth p =
      if p.auth_resolved
      then p
      else close_via_manager (record p { auth_resolved = true; auth_nonce = []; timer = false })

  -- The two parts of `stopDispatch`: the second waits for a message that is being handled.
  unfoldable pub release_sends : Peer W → Peer W
  release_sends p = record p { stop_sends = true }

  unfoldable pub stop_dispatch : Peer W → Peer W
  unfolding release_sends
  stop_dispatch p = record (release_sends p) { stopped = true }

  unfoldable pub close : Peer W → Peer W
  close p = if p.closed then p else record p { closed = true; timer = false }
