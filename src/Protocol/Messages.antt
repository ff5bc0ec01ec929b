-- ===== src/Protocol/Messages.antt =====
-- internal/protocol/messages.go. A message is a constructor for its Go struct with the struct's
-- fields. The field `Type` always repeats `MessageType()` and is left out.
use pmux_agent.Base.{ℤ, Bool, List, Bytes, codes}

pub record PaneSize : Type 0 where
  pub cols : ℤ
  pub rows : ℤ

pub record TmuxPane : Type 0 where
  pub id : Bytes
  pub index : ℤ
  pub active : Bool
  pub size : PaneSize
  pub title : Bytes
  pub current_command : Bytes

pub record TmuxWindow : Type 0 where
  pub id : Bytes
  pub name : Bytes
  pub index : ℤ
  pub active : Bool
  pub panes : List TmuxPane

pub record TmuxSession : Type 0 where
  pub id : Bytes
  pub name : Bytes
  pub created_at : ℤ
  pub windows : List TmuxWindow
  pub last_activity_at : ℤ
  pub attached : Bool

pub record AttachRequest : Type 0 where
  pub pane_id : Bytes
  pub cols : ℤ
  pub rows : ℤ
  pub reattach : Bool
  pub compression : Bytes

pub record ResizeRequest : Type 0 where
  pub cols : ℤ
  pub rows : ℤ

pub record AuthResponseRequest : Type 0 where
  pub mac : Bytes
  pub nonce : Bytes

pub record SessionsEvent : Type 0 where
  pub sessions : List TmuxSession
  pub agent_version : Bytes
  pub update_available : Bytes

pub record AttachedEvent : Type 0 where
  pub pane_id : Bytes
  pub compression : Bytes

pub record ErrorEvent : Type 0 where
  pub code : Bytes
  pub message : Bytes

pub record AuthChallengeEvent : Type 0 where
  pub nonce : Bytes
  pub version : ℤ

-- The Go struct types that implement `Message`.
pub data Kind : Type 0 where
  list_sessions attach detach input resize kill_session ping create_session auth_response : Kind
  sessions output attached detached session_ended pane_closed session_created : Kind
  auth_challenge auth_confirm error pong : Kind

-- Structs with one field are that field.
pub data Message : Type 0 where
  list_sessions detach ping create_session detached : Message
  attach : AttachRequest → Message
  input : Bytes → Message
  resize : ResizeRequest → Message
  kill_session : Bytes → Message
  auth_response : AuthResponseRequest → Message
  sessions : SessionsEvent → Message
  output : Bytes → Message
  attached : AttachedEvent → Message
  session_ended : Bytes → Message
  pane_closed : Bytes → Message
  session_created : TmuxSession → Message
  auth_challenge : AuthChallengeEvent → Message
  auth_confirm : Bytes → Message
  error : ErrorEvent → Message
  pong : ℤ → Message

-- The struct type of a message.
unfoldable pub kind_of : Message → Kind
kind_of Message.list_sessions = Kind.list_sessions
kind_of Message.detach = Kind.detach
kind_of Message.ping = Kind.ping
kind_of Message.create_session = Kind.create_session
kind_of Message.detached = Kind.detached
kind_of (Message.attach r) = Kind.attach
kind_of (Message.input d) = Kind.input
kind_of (Message.resize r) = Kind.resize
kind_of (Message.kill_session s) = Kind.kill_session
kind_of (Message.auth_response r) = Kind.auth_response
kind_of (Message.sessions e) = Kind.sessions
kind_of (Message.output d) = Kind.output
kind_of (Message.attached e) = Kind.attached
kind_of (Message.session_ended s) = Kind.session_ended
kind_of (Message.pane_closed p) = Kind.pane_closed
kind_of (Message.session_created s) = Kind.session_created
kind_of (Message.auth_challenge e) = Kind.auth_challenge
kind_of (Message.auth_confirm m) = Kind.auth_confirm
kind_of (Message.error e) = Kind.error
kind_of (Message.pong l) = Kind.pong

-- The `MessageType` methods.
unfoldable pub type_name : Kind → Bytes
type_name Kind.list_sessions = codes "list_sessions"
type_name Kind.attach = codes "attach"
type_name Kind.detach = codes "detach"
type_name Kind.input = codes "input"
type_name Kind.resize = codes "resize"
type_name Kind.kill_session = codes "kill_session"
type_name Kind.ping = codes "ping"
type_name Kind.create_session = codes "create_session"
type_name Kind.auth_response = codes "auth_response"
type_name Kind.sessions = codes "sessions"
type_name Kind.output = codes "output"
type_name Kind.attached = codes "attached"
type_name Kind.detached = codes "detached"
type_name Kind.session_ended = codes "session_ended"
type_name Kind.pane_closed = codes "pane_closed"
type_name Kind.error = codes "error"
type_name Kind.pong = codes "pong"
type_name Kind.session_created = codes "session_created"
type_name Kind.auth_challenge = codes "auth_challenge"
type_name Kind.auth_confirm = codes "auth_confirm"

unfoldable pub message_type : Message → Bytes
unfolding type_name kind_of
message_type m = type_name (kind_of m)
