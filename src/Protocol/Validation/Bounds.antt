-- ===== src/Protocol/Validation/Bounds.antt =====
-- internal/protocol/validation.go, said without the code: each field within its bound.
use pmux_agent.Base.{◌≤◌, ◌<◌, ℤ, pos, negsuc, ◌≡◌, ◌↔◌, Bytes, length, ok, arith}
use pmux_agent.Protocol.Messages.{Message}
use pmux_agent.Protocol.Validation.{validate, validate_dimension}

-- A terminal dimension, 1 to 500.
abbrev pub IsDimension : ℤ → Type 0
IsDimension (pos n) = (1 ≤ n) × (n ≤ 500)
IsDimension (negsuc n) = ⊥

abbrev pub IsAuthBlob : Bytes → Type 0
IsAuthBlob b = (0 < length b) × (length b ≤ 128)

abbrev pub IsInBounds : Message → Type 0
IsInBounds (Message.attach m) = (length m.pane_id ≤ 255) × IsDimension m.cols × IsDimension m.rows
IsInBounds (Message.input d) = length d ≤ 16384
IsInBounds (Message.auth_response m) = IsAuthBlob m.mac × IsAuthBlob m.nonce
IsInBounds (Message.resize m) = IsDimension m.cols × IsDimension m.rows
IsInBounds (Message.kill_session s) = length s ≤ 255
IsInBounds (Message.output d) = length d ≤ 1048576
IsInBounds (Message.attached m) = length m.pane_id ≤ 255
IsInBounds (Message.session_ended s) = length s ≤ 255
IsInBounds (Message.pane_closed p) = length p ≤ 255
IsInBounds (Message.error m) = (length m.code ≤ 255) × (length m.message ≤ 4096)
IsInBounds (Message.pong (pos n)) = Unit {0}
IsInBounds (Message.pong (negsuc n)) = ⊥
IsInBounds _ = Unit {0}

IsDimension-iff :
    (typ field : Bytes) (v : ℤ) → (validate_dimension typ field v ≡ ok tt) ↔ IsDimension v
unfolding validate_dimension
IsDimension-iff typ field (pos n) = (λ h. ground arith, λ h. ground arith)
IsDimension-iff typ field (negsuc n) = (λ h. ground arith, λ h. ground arith)

-- `Validate` accepts a message exactly when each of its fields is within its bound.
pub validate_iff : (m : Message) → (validate m ≡ ok tt) ↔ IsInBounds m
unfolding validate
validate_iff (Message.attach m) = (λ h. ground arith, λ h. ground arith)
validate_iff (Message.pong (pos n)) = (λ h. tt, λ h. ground arith)
validate_iff (Message.pong (negsuc n)) = (λ h. ground arith, λ h. ground arith)
validate_iff m = (λ h. ground arith, λ h. ground arith)
