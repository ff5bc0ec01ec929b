-- ===== src/Protocol/Codec.antt =====
-- internal/protocol/codec.go. MessagePack is a library of its own: `Msgpack` says what the code
-- calls of it.
pub mod Gate
pub mod RoundTrip
use pmux_agent.Base.{
  ℕ, ◌^◌, ◌≡◌, Bool, true, false, not, ◌&&◌, Bytes, codes, length, [], Option, none, some, ltb,
  str_eq, if◌then◌else◌, Result, ok, err, ◌>>=◌, ◌>>◌, fail_if,
}
use pmux_agent.Protocol.Messages.{Kind, Message, kind_of, type_name, message_type}
use pmux_agent.Protocol.Validation.{FieldError, validate}

abbrev pub max_message_size : ℕ
max_message_size = 2 ^ 20

pub data DecodeError : Type 0 where
  too_large : ℕ → DecodeError
  bad_envelope : DecodeError
  missing_type : DecodeError
  unknown_type : Bytes → DecodeError
  not_accepted : Bytes → DecodeError
  bad_body : Bytes → DecodeError
  invalid_field : Bytes → FieldError → DecodeError

-- `msgpack.Marshal` and the two calls of `msgpack.Unmarshal`: into the envelope, whose `type` field
-- stays empty if the data has none, and into a struct, which fills a value of the struct's type.
pub record Msgpack : Type 0 where
  pub marshal : Message → Option Bytes
  pub unmarshal_type : Bytes → Option Bytes
  pub unmarshal : Kind → Bytes → Option Message
  pub unmarshal-kind : (k : Kind) (d : Bytes) (m : Message) → unmarshal k d ≡ some m → kind_of m ≡ k

-- The struct that the `switch` on the type field allocates.
unfoldable pub kind_named : Bytes → Option Kind
kind_named t =
    if str_eq t (codes "list_sessions")
    then some Kind.list_sessions
    else if str_eq t (codes "attach")
    then some Kind.attach
    else if str_eq t (codes "detach")
    then some Kind.detach
    else if str_eq t (codes "input")
    then some Kind.input
    else if str_eq t (codes "resize")
    then some Kind.resize
    else if str_eq t (codes "kill_session")
    then some Kind.kill_session
    else if str_eq t (codes "ping")
    then some Kind.ping
    else if str_eq t (codes "create_session")
    then some Kind.create_session
    else if str_eq t (codes "auth_response")
    then some Kind.auth_response
    else if str_eq t (codes "sessions")
    then some Kind.sessions
    else if str_eq t (codes "output")
    then some Kind.output
    else if str_eq t (codes "attached")
    then some Kind.attached
    else if str_eq t (codes "detached")
    then some Kind.detached
    else if str_eq t (codes "session_ended")
    then some Kind.session_ended
    else if str_eq t (codes "pane_closed")
    then some Kind.pane_closed
    else if str_eq t (codes "session_created")
    then some Kind.session_created
    else if str_eq t (codes "auth_challenge")
    then some Kind.auth_challenge
    else if str_eq t (codes "auth_confirm")
    then some Kind.auth_confirm
    else if str_eq t (codes "error")
    then some Kind.error
    else if str_eq t (codes "pong")
    then some Kind.pong
    else none

-- `IsRequest` and `IsEvent` look at the struct type only.
unfoldable pub is_request : Kind → Bool
is_request Kind.list_sessions = true
is_request Kind.attach = true
is_request Kind.detach = true
is_request Kind.input = true
is_request Kind.resize = true
is_request Kind.kill_session = true
is_request Kind.create_session = true
is_request Kind.ping = true
is_request _ = false

unfoldable pub is_event : Kind → Bool
is_event Kind.sessions = true
is_event Kind.output = true
is_event Kind.attached = true
is_event Kind.detached = true
is_event Kind.session_ended = true
is_event Kind.pane_closed = true
is_event Kind.session_created = true
is_event Kind.error = true
is_event Kind.pong = true
is_event Kind.auth_challenge = true
is_event Kind.auth_confirm = true
is_event _ = false

-- `msg.(*AuthResponseRequest)`.
unfoldable pub is_auth : Kind → Bool
is_auth Kind.auth_response = true
is_auth _ = false

abbrev pub or_fail {ℓ} : {A : Type ℓ} → Option A → DecodeError → Result DecodeError A
or_fail none e = err e
or_fail (some a) e = ok a

-- `fmt.Errorf("decode %s: %w", env.Type, err)` around a failed validation.
unfoldable pub wrap_invalid : Bytes → Result FieldError (Unit {0}) → Result DecodeError (Unit {0})
wrap_invalid t (ok _) = ok tt
wrap_invalid t (err e) = err (DecodeError.invalid_field t e)

module _ (mp : Msgpack) where
  open mp use {marshal, unmarshal_type, unmarshal}

  unfoldable pub encode : Message → Option Bytes
  encode m = marshal m

  unfoldable pub decode_with : Bytes → Bool → Result DecodeError Message
  unfolding wrap_invalid
  decode_with d requests_only = do
    fail_if (ltb max_message_size (length d)) (DecodeError.too_large (length d))
    t ← or_fail (unmarshal_type d) DecodeError.bad_envelope
    fail_if (str_eq t []) DecodeError.missing_type
    k ← or_fail (kind_named t) (DecodeError.unknown_type t)
    fail_if (requests_only && not (is_request k) && not (is_auth k)) (DecodeError.not_accepted t)
    m ← or_fail (unmarshal k d) (DecodeError.bad_body t)
    wrap_invalid t (validate m)
    ok m

  unfoldable pub decode : Bytes → Result DecodeError Message
  unfolding decode_with
  decode d = decode_with d false

  unfoldable pub decode_request : Bytes → Result DecodeError Message
  unfolding decode_with
  decode_request d = decode_with d true
