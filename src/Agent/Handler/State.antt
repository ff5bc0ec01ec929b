-- ===== src/Agent/Handler/State.antt =====
-- The state of `Handler` in internal/agent/handler.go, and what it calls: tmux, the connection to the
-- peers, the compressor and the clock.
use pmux_agent.Base.{
  ℕ, ℤ, Bool, false, ◌||◌, List, [], ◌∷◌, ◌++◌, Option, none, some, Bytes, ◌==◌, if◌then◌else◌,
}
use pmux_agent.Base.Map.{Map, lookup}
use pmux_agent.Protocol.Messages.{Message}
use pmux_agent.Tmux.Client.{PaneCursorState}
use pmux_agent.Tmux.Listing.{Session}
use pmux_agent.Update.State.{UpdateState}

-- A bridge to a pane, with the content that the pane had when it was attached.
pub record Bridge : Type 0 where
  pub id : ℕ
  pub initial_content : Bytes

-- `none` and `false` stand for an error.
pub record Backend : Type 1 where
  pub World : Type 0
  pub send : Bytes → Message → World → Bool × World
  pub list_all : World → Option (List Session) × World
  pub kill_session : Bytes → World → Bool × World
  pub create_session : World → Option Bytes × World
  pub pane_exists : Bytes → World → Bool × World
  pub cursor_state : Bytes → World → Option PaneCursorState × World
  pub track_and_resize : Bytes → ℤ → ℤ → World → Bool × World
  pub release_if_forced : Bytes → World → World
  pub attach_pane : Bytes → World → Option Bridge × World
  pub close_bridge : Bridge → World → World
  pub write_bridge : Bridge → Bytes → World → Bool × World
  pub resize_bridge : Bridge → ℤ → ℤ → World → Bool × World
  pub compress : ℕ → Bytes → World → Option Bytes × World
  pub close_compressor : ℕ → World → World
  pub now : World → ℕ
  pub load_state : World → Option UpdateState
  pub quote : Bytes → Bytes

-- One stream of output. Its number stands for its context and for its done channel, which are
-- made together.
pub record Stream : Type 0 where
  pub peer : Bytes
  pub pane_id : Bytes
  pub bridge : Bridge
  pub id : ℕ
  pub deflate : Bool

-- The maps of `Handler`, then what has become of the contexts and channels that it made, the
-- streams that it started, and the messages that it handed to `send`.
pub record State (W : Type 0) : Type 0 where
  pub agent_version : Bytes
  pub update_state_file : Bytes
  pub bridges : Map Bridge
  pub cancels : Map ℕ
  pub stream_done : Map ℕ
  pub superseded : List ℕ
  pub pane_for_peer : Map Bytes
  pub last_ping_time : Map ℕ
  pub last_dims : Map (ℤ × ℤ)
  pub exit_notified : Map Bool
  pub next_id : ℕ
  pub canceled : List ℕ
  pub closed : List ℕ
  pub shut : List ℕ
  pub blocked : List ℕ
  pub started : List Stream
  pub sent : List (Bytes × Message)
  pub world : W

-- `NewHandler`.
unfoldable pub new_handler : {W : Type 0} → Bytes → Bytes → W → State W
new_handler version file w = record {
  agent_version = version;
  update_state_file = file;
  bridges = [];
  cancels = [];
  stream_done = [];
  superseded = [];
  pane_for_peer = [];
  last_ping_time = [];
  last_dims = [];
  exit_notified = [];
  next_id = 0;
  canceled = [];
  closed = [];
  shut = [];
  blocked = [];
  started = [];
  sent = [];
  world = w;
}

-- A set of stream numbers.
unfoldable pub elem : ℕ → List ℕ → Bool
elem n [] = false
elem n (m ∷ ms) = m == n || elem n ms

unfoldable pub remove : ℕ → List ℕ → List ℕ
remove n [] = []
remove n (m ∷ ms) = if m == n then remove n ms else m ∷ remove n ms

-- The value of a missing string entry is the empty string.
unfoldable pub pane_of_peer : {W : Type 0} → Bytes → State W → Bytes
pane_of_peer peer s = elim (lookup peer s.pane_for_peer) [ none ↦ [] | some p ↦ p ]

module _ (backend : Backend) where
  open backend use {World, send}

  -- `sendMsg` and `sendOutput`: whether the message was taken, and the state.
  unfoldable pub send_msg : Bytes → Message → State World → Bool × State World
  send_msg peer m s =
      let (taken, w) = send peer m s.world in
      (taken, record s { sent = s.sent ++ (peer, m) ∷ []; world = w })

  unfoldable pub send_error : Bytes → Bytes → Bytes → State World → State World
  unfolding send_msg
  send_error peer code message s =
      (send_msg peer (Message.error (record { code = code; message = message })) s).1
