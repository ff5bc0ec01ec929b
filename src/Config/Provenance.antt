-- ===== src/Config/Provenance.antt =====
-- `LoadConfigWithSources` of internal/config/config.go: each value against the source named for it.
use pmux_agent.Base.{
  ℤ, pos, int_eq, ◌≡◌, refl, subst, Option, none, some, [], Bytes, codes, str_eq, if◌then◌else◌,
  Bool-cases, inl, inr,
}
use pmux_agent.Config.Settings.{
  Config, FileConfig, ConfigSource, ConfigSources, defaults, all_default,
}
use pmux_agent.Config.Load.{
  over_text, text_from, over_option, option_from, over_int, int_from, overlay_file, file_sources,
  getenv, env_url, env_number, env_flag, apply_env_overrides, env_sources, Env,
}

-- The value `v` of a field whose default is `d`, of what the file and the environment say: the
-- environment has precedence over the file, and the file over the default.
unfoldable pub IsFrom {ℓ} : {A : Type ℓ} → ConfigSource → A → Option A → Option A → A → Type ℓ
IsFrom ConfigSource.default d f e v = (v ≡ d) × (f ≡ none) × (e ≡ none)
IsFrom ConfigSource.file d f e v = (f ≡ some v) × (e ≡ none)
IsFrom ConfigSource.env d f e v = e ≡ some v

-- The empty text says nothing, and in the file the number 0.
unfoldable pub said : Bytes → Option Bytes
said v = if str_eq v [] then none else some v

unfoldable pub said_number : ℤ → Option ℤ
said_number n = if int_eq n (pos 0) then none else some n

text-IsFrom :
    (d f e : Bytes)
    → IsFrom
        (text_from ConfigSource.env e (text_from ConfigSource.file f ConfigSource.default))
        d
        (said f)
        (said e)
        (over_text e (over_text f d))
unfolding IsFrom text_from said over_text
text-IsFrom d f e = elim (Bool-cases (str_eq e [])) [
  | inr set ↦ rw set refl
  | inl unset ↦ elim (Bool-cases (str_eq f [])) [
    | inr set ↦ rw (unset, set) (refl, refl)
    | inl empty ↦ rw (unset, empty) (refl, refl, refl)
  ]
]

option-IsFrom {ℓ} :
    {A : Type ℓ} (d : A) (f e : Option A)
    → IsFrom
        (option_from ConfigSource.env e (option_from ConfigSource.file f ConfigSource.default))
        d
        f
        e
        (over_option e (over_option f d))
unfolding IsFrom option_from over_option
option-IsFrom d none none = (refl, refl, refl)
option-IsFrom d (some v) none = (refl, refl)
option-IsFrom d f (some v) = refl

number-IsFrom :
    (d f : ℤ) (e : Option ℤ)
    → IsFrom
        (option_from ConfigSource.env e (int_from ConfigSource.file f ConfigSource.default))
        d
        (said_number f)
        e
        (over_option e (over_int f d))
unfolding IsFrom option_from int_from said_number over_option over_int
number-IsFrom d f (some v) = refl
number-IsFrom d f none = elim (Bool-cases (int_eq f (pos 0))) [
  | inl empty ↦ rw empty (refl, refl, refl)
  | inr set ↦ rw set (refl, refl)
]

-- The first that says something.
unfoldable pub either_said : Option Bytes → Option Bytes → Option Bytes
either_said none second = second
either_said (some v) second = some v

said-env_url :
    (env : Env)
    → said (env_url env)
      ≡ either_said
          (said (getenv env (codes "PMUX_SERVER_URL")))
          (said (getenv env (codes "PMUX_AGENT_SIGNAL_URL")))
unfolding env_url said either_said
said-env_url env = elim (Bool-cases (str_eq (getenv env (codes "PMUX_SERVER_URL")) [])) [
  | inl unset ↦ rw unset refl
  | inr set ↦ rw (set, set) refl
]

url-IsFrom :
    (d f : Bytes) (env : Env)
    → IsFrom
        (text_from ConfigSource.env
          (env_url env)
          (text_from ConfigSource.file f ConfigSource.default))
        d
        (said f)
        (either_said
          (said (getenv env (codes "PMUX_SERVER_URL")))
          (said (getenv env (codes "PMUX_AGENT_SIGNAL_URL"))))
        (over_text (env_url env) (over_text f d))
url-IsFrom d f env =
    subst
      (λ e.
        IsFrom
          (text_from ConfigSource.env (env_url env)
            (text_from ConfigSource.file f ConfigSource.default))
          d (said f) e (over_text (env_url env) (over_text f d)))
      (said-env_url env) (text-IsFrom d f (env_url env))

-- Every field has the value that its source says.
pub record IsTraced (f : FileConfig) (env : Env) (c : Config) (s : ConfigSources) : Type 0 where
  pub server_url :
      IsFrom s.server_url defaults.server.url
        (said f.url)
        (either_said
          (said (getenv env (codes "PMUX_SERVER_URL")))
          (said (getenv env (codes "PMUX_AGENT_SIGNAL_URL"))))
        c.server.url
  pub api_version :
      IsFrom s.api_version defaults.server.api_version f.api_version
        (env (codes "PMUX_API_VERSION"))
        c.server.api_version
  pub key_path :
      IsFrom s.key_path defaults.identity.key_path
        (said f.identity.key_path)
        (said (getenv env (codes "PMUX_KEY_PATH")))
        c.identity.key_path
  pub secret_backend :
      IsFrom s.secret_backend defaults.identity.secret_backend
        (said f.identity.secret_backend)
        (said (getenv env (codes "PMUX_SECRET_BACKEND")))
        c.identity.secret_backend
  pub reconnect_interval :
      IsFrom s.reconnect_interval defaults.connection.reconnect_interval
        (said f.reconnect_interval)
        none
        c.connection.reconnect_interval
  pub keepalive_interval :
      IsFrom s.keepalive_interval defaults.connection.keepalive_interval
        (said f.keepalive_interval)
        none
        c.connection.keepalive_interval
  pub max_mobile_connections :
      IsFrom s.max_mobile_connections defaults.connection.max_mobile_connections
        (said_number f.max_mobile_connections)
        (env_number env (codes "PMUX_MAX_CONNECTIONS"))
        c.connection.max_mobile_connections
  pub force_relay :
      IsFrom s.force_relay defaults.connection.force_relay f.force_relay
        (env_flag env (codes "PMUX_FORCE_RELAY"))
        c.connection.force_relay
  pub socket_name :
      IsFrom s.socket_name defaults.tmux.socket_name
        (said f.tmux.socket_name)
        (said (getenv env (codes "PMUX_SOCKET_NAME")))
        c.tmux.socket_name
  pub tmux_path :
      IsFrom s.tmux_path defaults.tmux.tmux_path
        (said f.tmux.tmux_path)
        (said (getenv env (codes "PMUX_TMUX_PATH")))
        c.tmux.tmux_path
  pub name : IsFrom s.name defaults.name (said f.name) none c.name
  pub log_level :
      IsFrom s.log_level defaults.log_level
        (said f.log_level)
        (said (getenv env (codes "PMUX_LOG_LEVEL")))
        c.log_level
  pub update_enabled :
      IsFrom s.update_enabled defaults.update.enabled f.enabled
        (env_flag env (codes "PMUX_UPDATE_ENABLED"))
        c.update.enabled
  pub update_check_interval :
      IsFrom s.update_check_interval defaults.update.check_interval
        (said f.check_interval)
        (said (getenv env (codes "PMUX_UPDATE_INTERVAL")))
        c.update.check_interval
  pub keep_awake :
      IsFrom s.keep_awake defaults.keep_awake f.keep_awake
        (env_flag env (codes "PMUX_KEEP_AWAKE"))
        c.keep_awake

pub loaded-IsTraced :
    (f : FileConfig) (env : Env)
    → IsTraced f env
        (apply_env_overrides env (overlay_file f defaults))
        (env_sources env (file_sources f all_default))
unfolding apply_env_overrides overlay_file env_sources file_sources text_from said over_text
loaded-IsTraced f env = record {
  server_url = url-IsFrom _ f.url env;
  api_version = option-IsFrom _ f.api_version (env (codes "PMUX_API_VERSION"));
  key_path = text-IsFrom _ f.identity.key_path (getenv env (codes "PMUX_KEY_PATH"));
  secret_backend =
      text-IsFrom _ f.identity.secret_backend (getenv env (codes "PMUX_SECRET_BACKEND"));
  reconnect_interval = text-IsFrom _ f.reconnect_interval [];
  keepalive_interval = text-IsFrom _ f.keepalive_interval [];
  max_mobile_connections =
      number-IsFrom _ f.max_mobile_connections (env_number env (codes "PMUX_MAX_CONNECTIONS"));
  force_relay = option-IsFrom _ f.force_relay (env_flag env (codes "PMUX_FORCE_RELAY"));
  socket_name = text-IsFrom _ f.tmux.socket_name (getenv env (codes "PMUX_SOCKET_NAME"));
  tmux_path = text-IsFrom _ f.tmux.tmux_path (getenv env (codes "PMUX_TMUX_PATH"));
  name = text-IsFrom _ f.name [];
  log_level = text-IsFrom _ f.log_level (getenv env (codes "PMUX_LOG_LEVEL"));
  update_enabled = option-IsFrom _ f.enabled (env_flag env (codes "PMUX_UPDATE_ENABLED"));
  update_check_interval =
      text-IsFrom _ f.check_interval (getenv env (codes "PMUX_UPDATE_INTERVAL"));
  keep_awake = option-IsFrom _ f.keep_awake (env_flag env (codes "PMUX_KEEP_AWAKE"));
}
