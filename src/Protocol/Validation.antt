-- ===== src/Protocol/Validation.antt =====
-- internal/protocol/validation.go: the bounds on the fields of a message.
pub mod Bounds
use pmux_agent.Base.{
  ℕ, ◌*◌, ◌^◌, ℤ, pos, Bool, ◌||◌, Bytes, codes, length, ltb, ltbℤ, ◌==◌, Result, ok, err, ◌>>◌,
  fail_if,
}
use pmux_agent.Protocol.Messages.{
  Message, AttachRequest, ResizeRequest, AuthResponseRequest, AttachedEvent, ErrorEvent,
}

abbrev pub max_string_id_length : ℕ
max_string_id_length = 255

abbrev pub max_error_code_length : ℕ
max_error_code_length = 255

abbrev pub max_error_message_length : ℕ
max_error_message_length = 4096

abbrev pub max_input_size : ℕ
max_input_size = 16 * 1024

abbrev pub max_output_size : ℕ
max_output_size = 2 ^ 20

abbrev pub min_dimension : ℤ
min_dimension = pos 1

abbrev pub max_dimension : ℤ
max_dimension = pos 500

abbrev pub max_auth_blob_length : ℕ
max_auth_blob_length = 128

-- The texts of the errors, with what they mention: message type, field and bound.
pub data FieldError : Type 0 where
  exceeds_length : Bytes → Bytes → ℕ → FieldError
  out_of_range : Bytes → Bytes → FieldError
  exceeds_size : Bytes → Bytes → ℕ → FieldError
  is_empty : Bytes → Bytes → FieldError
  is_negative : Bytes → Bytes → FieldError

abbrev pub Check : Type 0
Check = Result FieldError (Unit {0})

unfoldable pub validate_string_len : Bytes → Bytes → Bytes → ℕ → Check
validate_string_len typ field v max =
    fail_if (ltb max (length v)) (FieldError.exceeds_length typ field max)

unfoldable pub validate_dimension : Bytes → Bytes → ℤ → Check
validate_dimension typ field v =
    fail_if (ltbℤ v min_dimension || ltbℤ max_dimension v) (FieldError.out_of_range typ field)

unfoldable pub validate_byte_size : Bytes → Bytes → ℕ → ℕ → Check
validate_byte_size typ field n max = fail_if (ltb max n) (FieldError.exceeds_size typ field max)

unfoldable pub validate_attach : AttachRequest → Check
unfolding validate_string_len validate_dimension
validate_attach m = do
  validate_string_len (codes "attach") (codes "paneId") m.pane_id max_string_id_length
  validate_dimension (codes "attach") (codes "cols") m.cols
  validate_dimension (codes "attach") (codes "rows") m.rows

unfoldable pub validate_input : Bytes → Check
unfolding validate_byte_size
validate_input d = validate_byte_size (codes "input") (codes "data") (length d) max_input_size

unfoldable pub validate_auth_response : AuthResponseRequest → Check
unfolding validate_string_len
validate_auth_response m = do
  fail_if (length m.mac == 0) (FieldError.is_empty (codes "auth_response") (codes "mac"))
  validate_string_len (codes "auth_response") (codes "mac") m.mac max_auth_blob_length
  fail_if (length m.nonce == 0) (FieldError.is_empty (codes "auth_response") (codes "nonce"))
  validate_string_len (codes "auth_response") (codes "nonce") m.nonce max_auth_blob_length

unfoldable pub validate_resize : ResizeRequest → Check
unfolding validate_dimension
validate_resize m = do
  validate_dimension (codes "resize") (codes "cols") m.cols
  validate_dimension (codes "resize") (codes "rows") m.rows

unfoldable pub validate_kill_session : Bytes → Check
unfolding validate_string_len
validate_kill_session s =
    validate_string_len (codes "kill_session") (codes "session") s max_string_id_length

unfoldable pub validate_output : Bytes → Check
unfolding validate_byte_size
validate_output d = validate_byte_size (codes "output") (codes "data") (length d) max_output_size

unfoldable pub validate_attached : AttachedEvent → Check
unfolding validate_string_len
validate_attached m =
    validate_string_len (codes "attached") (codes "paneId") m.pane_id max_string_id_length

unfoldable pub validate_session_ended : Bytes → Check
unfolding validate_string_len
validate_session_ended s =
    validate_string_len (codes "session_ended") (codes "session") s max_string_id_length

unfoldable pub validate_pane_closed : Bytes → Check
unfolding validate_string_len
validate_pane_closed p =
    validate_string_len (codes "pane_closed") (codes "paneId") p max_string_id_length

unfoldable pub validate_error : ErrorEvent → Check
unfolding validate_string_len
validate_error m = do
  validate_string_len (codes "error") (codes "code") m.code max_error_code_length
  validate_string_len (codes "error") (codes "message") m.message max_error_message_length

unfoldable pub validate_pong : ℤ → Check
validate_pong latency =
    fail_if (ltbℤ latency (pos 0)) (FieldError.is_negative (codes "pong") (codes "latency"))

-- `msg.(Validatable)`: the types without a `Validate` method pass.
unfoldable pub validate : Message → Check
unfolding validate_attach validate_input validate_auth_response validate_resize
    validate_kill_session validate_output validate_attached validate_session_ended
    validate_pane_closed validate_error validate_pong
validate (Message.attach m) = validate_attach m
validate (Message.input d) = validate_input d
validate (Message.auth_response m) = validate_auth_response m
validate (Message.resize m) = validate_resize m
validate (Message.kill_session s) = validate_kill_session s
validate (Message.output d) = validate_output d
validate (Message.attached m) = validate_attached m
validate (Message.session_ended s) = validate_session_ended s
validate (Message.pane_closed p) = validate_pane_closed p
validate (Message.error m) = validate_error m
validate (Message.pong l) = validate_pong l
validate _ = ok tt
