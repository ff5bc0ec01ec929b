-- ===== src/Config/Check.antt =====
-- `Validate`, the intervals, the log level and the base URL of internal/config/config.go. The parser
-- of durations is a parameter; a duration is a number of nanoseconds.
use pmux_agent.Base.{
  ℕ, ◌+◌, ◌*◌, ℤ, pos, ltbℤ, int_eq, Bool, true, false, not, ◌&&◌, ◌||◌, [], ◌∷◌, ◌++◌, Option,
  none, some, Bytes, codes, str_eq, if◌then◌else◌, Result, ok, err, ◌==◌, leb, fail_if, ◌>>◌,
}
use pmux_agent.Strings.{has_prefix, trim_right}
use pmux_agent.Config.Settings.{Config}

pub data ConfigError : Type 0 where
  url_empty url_scheme api_version secret_backend : ConfigError
  bad_reconnect_interval bad_keepalive_interval keepalive_not_positive : ConfigError
  max_mobile_connections socket_name : ConfigError
  bad_check_interval check_not_positive log_level : ConfigError

abbrev pub Checked : Type 0
Checked = Result ConfigError Unit

unfoldable pub lower_byte : ℕ → ℕ
lower_byte c = if leb 65 c && leb c 90 then c + 32 else c

-- `strings.ToLower` where it matters here: on ASCII letters, and on the two letters beyond ASCII
-- whose lower case is ASCII, U+0130 and U+212A. Other bytes stay.
unfoldable pub to_lower : Bytes → Bytes
unfolding lower_byte
to_lower [] = []
to_lower (a ∷ []) = lower_byte a ∷ []
to_lower (a ∷ b ∷ []) =
    if a == 0xc4 && b == 0xb0 then b'i' ∷ [] else lower_byte a ∷ lower_byte b ∷ []
to_lower (a ∷ b ∷ c ∷ s) =
    let one = to_lower s in
    let two = to_lower (c ∷ s) in
    let three = to_lower (b ∷ c ∷ s) in
    if a == 0xc4 && b == 0xb0
    then b'i' ∷ two
    else if a == 0xe2 && b == 0x84 && c == 0xaa
    then b'k' ∷ one
    else lower_byte a ∷ three

unfoldable pub valid_scheme : Bytes → Bool
valid_scheme url =
    has_prefix url (codes "ws://")
    || has_prefix url (codes "wss://")
    || has_prefix url (codes "http://")
    || has_prefix url (codes "https://")

unfoldable pub known_backend : Bytes → Bool
known_backend b = str_eq b (codes "auto") || str_eq b (codes "keyring") || str_eq b (codes "file")

-- The level of a word, as the numbers of `slog`.
pub data Level : Type 0 where
  debug info warn error : Level

unfoldable pub level_named : Bytes → Option Level
level_named l =
    if str_eq l (codes "debug")
    then some Level.debug
    else if str_eq l (codes "info")
    then some Level.info
    else if str_eq l (codes "warn")
    then some Level.warn
    else if str_eq l (codes "error")
    then some Level.error
    else none

unfoldable pub is_some {ℓ} : {A : Type ℓ} → Option A → Bool
is_some none = false
is_some (some x) = true

-- `ParseLogLevel`.
unfoldable pub parse_log_level : Config → Level
parse_log_level c = elim (level_named (to_lower c.log_level)) [ none ↦ Level.info | some l ↦ l ]

-- `APIBaseURL`.
unfoldable pub api_base_url : Config → Bytes
api_base_url c =
    let base = trim_right (λ b. b == b'/') c.server.url in
    if str_eq c.server.api_version [] then base else base ++ b'/' ∷ c.server.api_version

abbrev pub second : ℕ
second = 1000000000

abbrev pub max_keepalive_interval : ℤ
max_keepalive_interval = pos (45 * second)

-- `d > 0`.
abbrev pub is_positive : ℤ → Bool
is_positive d = ltbℤ (pos 0) d

unfoldable pub positive : Option ℤ → Option ℤ
positive none = none
positive (some d) = if is_positive d then some d else none

unfoldable pub clamp : Option ℤ → ℤ
clamp none = pos (30 * second)
clamp (some d) = if ltbℤ max_keepalive_interval d then max_keepalive_interval else d

module _ (parse_duration : Bytes → Option ℤ) where
  -- A duration that must parse and be positive.
  unfoldable pub check_positive : Bytes → ConfigError → ConfigError → Checked
  check_positive v bad low = elim (parse_duration v) [
    | none ↦ err bad
    | some d ↦ if is_positive d then ok tt else err low
  ]

  unfoldable pub check_update_interval : Bytes → Checked
  unfolding check_positive
  check_update_interval v =
      if str_eq v []
      then ok tt
      else check_positive v ConfigError.bad_check_interval ConfigError.check_not_positive

  unfoldable pub validate : Config → Checked
  unfolding valid_scheme known_backend is_some check_positive check_update_interval level_named
  validate c = do
    fail_if (str_eq c.server.url []) ConfigError.url_empty
    fail_if (not (valid_scheme c.server.url)) ConfigError.url_scheme
    fail_if (not (str_eq c.server.api_version []) && not (str_eq c.server.api_version (codes "v1")))
        ConfigError.api_version
    fail_if (not (known_backend c.identity.secret_backend)) ConfigError.secret_backend
    fail_if (not (is_some (parse_duration c.connection.reconnect_interval)))
        ConfigError.bad_reconnect_interval
    check_positive c.connection.keepalive_interval ConfigError.bad_keepalive_interval
        ConfigError.keepalive_not_positive
    fail_if (not (int_eq c.connection.max_mobile_connections (pos 1)))
        ConfigError.max_mobile_connections
    fail_if (str_eq c.tmux.socket_name []) ConfigError.socket_name
    check_update_interval c.update.check_interval
    fail_if (not (is_some (level_named (to_lower c.log_level)))) ConfigError.log_level
    ok tt

  -- `parsedKeepalive`, with `none` for a value that is not positive.
  unfoldable pub parsed_keepalive : Config → Option ℤ
  unfolding positive
  parsed_keepalive c = positive (parse_duration c.connection.keepalive_interval)

  unfoldable pub keepalive_interval : Config → ℤ
  unfolding clamp parsed_keepalive
  keepalive_interval c = clamp (parsed_keepalive c)

  unfoldable pub keepalive_clamped : Config → Bool
  unfolding parsed_keepalive
  keepalive_clamped c = elim (parsed_keepalive c) [
    | none ↦ false
    | some d ↦ ltbℤ max_keepalive_interval d
  ]

  unfoldable pub reconnect_interval : Config → ℤ
  reconnect_interval c = elim (parse_duration c.connection.reconnect_interval) [
    | none ↦ pos (5 * second)
    | some d ↦ d
  ]

  -- `UpdateCheckInterval`.
  unfoldable pub update_check_interval : Config → ℤ
  unfolding positive
  update_check_interval c = elim (positive (parse_duration c.update.check_interval)) [
    | none ↦ pos (24 * 3600 * second)
    | some d ↦ d
  ]
