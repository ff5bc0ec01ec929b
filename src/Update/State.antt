-- ===== src/Update/State.antt =====
-- internal/update/state.go: the persisted result, and when it is outdated.
use pmux_agent.Base.{ℕ, Bool, not, Bytes, str_eq}

pub record UpdateState : Type 0 where
  pub last_check : ℕ
  pub current_version : Bytes
  pub latest_version : Bytes
  pub update_available : Bool
  pub release_url : Bytes
  pub install_method : Bytes

unfoldable pub is_stale : UpdateState → Bytes → Bool
is_stale s running_version = not (str_eq s.current_version running_version)
