-- ===== src/Webrtc/Signaling/State.antt =====
-- The state of `SignalingClient` in internal/webrtc/signaling.go with that of `Run`, and what it calls:
-- the token endpoint, the WebSocket, the decoders and the clock. Times are in nanoseconds.
use pmux_agent.Base.{
  ℕ, ℤ, suc, ◌*◌, ◌+◌, ◌^◌, ◌≤◌, Result, Bool, true, false, [], Option, none, Bytes, if◌then◌else◌,
  leb,
}

abbrev pub second : ℕ
second = 10 ^ 9

abbrev pub initial_backoff : ℕ
initial_backoff = 1 * second

abbrev pub max_backoff : ℕ
max_backoff = 30 * second

abbrev pub dormancy_timeout : ℕ
dormancy_timeout = 5 * 60 * second

abbrev pub default_presence_interval : ℕ
default_presence_interval = 30 * second

abbrev pub default_read_deadline_grace : ℕ
default_read_deadline_grace = 10 * second

abbrev pub token_refresh_margin : ℕ
token_refresh_margin = 5 * 60 * second

abbrev pub jwt_lifetime : ℕ
jwt_lifetime = 60 * 60 * second

abbrev pub stable_connection_threshold : ℕ
stable_connection_threshold = 30 * second

-- A failed request: `rejected` is `HMACRejectedError`.
pub data RequestError : Type 0 where
  rejected failed : RequestError

-- What `authenticate` reads: an error of the connection, a close with code 4001, a text that is no
-- message, a message of type "error", or any other message.
pub data AuthReply : Type 0 where
  not_sent unread closed_4001 malformed refused accepted : AuthReply

-- `none` stands for success in `dial`, and for an error in the decoders. `random` is `rand.Int64N`,
-- which is below its argument.
pub record Server : Type 1 where
  pub World : Type 0
  pub exchange_token : World → Result RequestError Bytes × World
  pub dial : World → Option RequestError × World
  pub auth_reply : Bytes → World → AuthReply × World
  pub random : ℕ → World → ℕ
  pub random-le : (n : ℕ) (w : World) → random (suc n) w ≤ n
  pub now : World → ℕ
  pub decode_base64_url : Bytes → Option Bytes
  pub exp_claim : Bytes → Option ℤ

pub data StopReason : Type 0 where
  canceled credentials_rejected : StopReason

-- Where `Run` stands. `authenticated` is the point after `authenticate` at which the connection is not
-- yet visible to the other goroutines; `backing_off` has the time at which the wait began and its length.
pub data Phase : Type 0 where
  top dormant_wait suspend_wait connecting authenticated : Phase
  serving : ℕ → Phase
  backing_off : ℕ → ℕ → Phase
  stopped : StopReason → Phase

-- `connected` says that `conn` is set, `is_open` that the client has not closed it, `activity` that a signal is in the
-- channel; no expiry and no start of failures are the zero time.
pub record Client (W : Type 0) : Type 0 where
  pub start_backoff : ℕ
  pub presence_interval : ℕ
  pub read_deadline_grace : ℕ
  pub connected : Bool
  pub is_open : Bool
  pub jwt : Bytes
  pub jwt_expiry : Option ℕ
  pub closed : Bool
  pub failure_start : Option ℕ
  pub dormant : Bool
  pub suspended : Bool
  pub activity : Bool
  pub backoff : ℕ
  pub phase : Phase
  pub world : W

-- `InitialBackoff` or its default.
unfoldable pub start_of : ℕ → ℕ
start_of configured = if leb configured 0 then initial_backoff else configured

-- `NewSignalingClient` with the backoff that is set after it, and the beginning of `Run`.
unfoldable pub new_signaling_client : {W : Type 0} → ℕ → W → Client W
unfolding start_of
new_signaling_client configured w = record {
  start_backoff = start_of configured;
  presence_interval = default_presence_interval;
  read_deadline_grace = default_read_deadline_grace;
  connected = false;
  is_open = false;
  jwt = [];
  jwt_expiry = none;
  closed = false;
  failure_start = none;
  dormant = false;
  suspended = false;
  activity = false;
  backoff = start_of configured;
  phase = Phase.top;
  world = w;
}

module _ {W : Type 0} where
  unfoldable pub read_timeout : Client W → ℕ
  read_timeout c = 2 * c.presence_interval + c.read_deadline_grace

  unfoldable pub signal_activity : Client W → Client W
  signal_activity c = record c { activity = true }

  unfoldable pub suspend : Client W → Client W
  suspend c = if c.closed then c else record c { suspended = true; is_open = false }

  unfoldable pub resume : Client W → Client W
  unfolding signal_activity
  resume c = signal_activity (record c { suspended = false })

  unfoldable pub close : Client W → Client W
  close c = if c.closed then c else record c { closed = true; is_open = false }
