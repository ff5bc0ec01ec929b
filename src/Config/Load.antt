-- ===== src/Config/Load.antt =====
-- `LoadConfig` and `LoadConfigWithSources` of internal/config/config.go. Each `if` of the overlays
-- sets one field, so that an overlay is the record of its fields' values. The TOML parser, the file
-- and the environment are parameters.
use pmux_agent.Base.{
  ℤ, pos, int_eq, Bool, ◌||◌, Option, none, some, [], Bytes, codes, str_eq, if◌then◌else◌, Result,
  ok, err,
}
use pmux_agent.Strings.Numbers.{Parsed, atoi}
use pmux_agent.Config.Settings.{
  Config, FileConfig, ConfigSource, ConfigSources, defaults, all_default,
}

-- `if v != "" { cfg.X = v }`, and the record of its source.
unfoldable pub over_text : Bytes → Bytes → Bytes
over_text v old = if str_eq v [] then old else v

unfoldable pub text_from : ConfigSource → Bytes → ConfigSource → ConfigSource
text_from source v old = if str_eq v [] then old else source

-- `if v != nil { cfg.X = *v }`.
unfoldable pub over_option {ℓ} : {A : Type ℓ} → Option A → A → A
over_option none old = old
over_option (some v) old = v

unfoldable pub option_from {ℓ} :
    {A : Type ℓ} → ConfigSource → Option A → ConfigSource → ConfigSource
option_from source none old = old
option_from source (some v) old = source

-- `if n != 0 { cfg.X = n }`.
unfoldable pub over_int : ℤ → ℤ → ℤ
over_int n old = if int_eq n (pos 0) then old else n

unfoldable pub int_from : ConfigSource → ℤ → ConfigSource → ConfigSource
int_from source n old = if int_eq n (pos 0) then old else source

unfoldable pub overlay_file : FileConfig → Config → Config
overlay_file f c = record {
  name = over_text f.name c.name;
  log_level = over_text f.log_level c.log_level;
  server = record {
    url = over_text f.url c.server.url;
    api_version = over_option f.api_version c.server.api_version;
  };
  identity = record {
    key_path = over_text f.identity.key_path c.identity.key_path;
    secret_backend = over_text f.identity.secret_backend c.identity.secret_backend;
  };
  connection = record {
    reconnect_interval = over_text f.reconnect_interval c.connection.reconnect_interval;
    keepalive_interval = over_text f.keepalive_interval c.connection.keepalive_interval;
    max_mobile_connections = over_int f.max_mobile_connections c.connection.max_mobile_connections;
    force_relay = over_option f.force_relay c.connection.force_relay;
  };
  tmux = record {
    socket_name = over_text f.tmux.socket_name c.tmux.socket_name;
    tmux_path = over_text f.tmux.tmux_path c.tmux.tmux_path;
  };
  update = record {
    enabled = over_option f.enabled c.update.enabled;
    check_interval = over_text f.check_interval c.update.check_interval;
  };
  keep_awake = over_option f.keep_awake c.keep_awake;
}

unfoldable pub file_sources : FileConfig → ConfigSources → ConfigSources
file_sources f s = record {
  server_url = text_from ConfigSource.file f.url s.server_url;
  api_version = option_from ConfigSource.file f.api_version s.api_version;
  key_path = text_from ConfigSource.file f.identity.key_path s.key_path;
  secret_backend = text_from ConfigSource.file f.identity.secret_backend s.secret_backend;
  reconnect_interval = text_from ConfigSource.file f.reconnect_interval s.reconnect_interval;
  keepalive_interval = text_from ConfigSource.file f.keepalive_interval s.keepalive_interval;
  max_mobile_connections =
      int_from ConfigSource.file f.max_mobile_connections s.max_mobile_connections;
  force_relay = option_from ConfigSource.file f.force_relay s.force_relay;
  socket_name = text_from ConfigSource.file f.tmux.socket_name s.socket_name;
  tmux_path = text_from ConfigSource.file f.tmux.tmux_path s.tmux_path;
  name = text_from ConfigSource.file f.name s.name;
  log_level = text_from ConfigSource.file f.log_level s.log_level;
  update_enabled = option_from ConfigSource.file f.enabled s.update_enabled;
  update_check_interval = text_from ConfigSource.file f.check_interval s.update_check_interval;
  keep_awake = option_from ConfigSource.file f.keep_awake s.keep_awake;
}

-- `os.LookupEnv`, and `os.Getenv`.
abbrev pub Env : Type 0
Env = Bytes → Option Bytes

unfoldable pub getenv : Env → Bytes → Bytes
getenv env k = elim (env k) [ none ↦ [] | some v ↦ v ]

-- `PMUX_SERVER_URL`, and `PMUX_AGENT_SIGNAL_URL` if that is not set.
unfoldable pub env_url : Env → Bytes
unfolding getenv
env_url env =
    let v = getenv env (codes "PMUX_SERVER_URL") in
    if str_eq v [] then getenv env (codes "PMUX_AGENT_SIGNAL_URL") else v

-- A number that does not parse is ignored.
unfoldable pub parsed_number : Parsed → Option ℤ
parsed_number (Parsed.value n) = some n
parsed_number _ = none

unfoldable pub env_number : Env → Bytes → Option ℤ
unfolding getenv parsed_number
env_number env k = let v = getenv env k in if str_eq v [] then none else parsed_number (atoi v)

unfoldable pub env_flag : Env → Bytes → Option Bool
unfolding getenv
env_flag env k =
    let v = getenv env k in
    if str_eq v []
    then none
    else some (str_eq v (codes "true") || str_eq v (codes "1") || str_eq v (codes "yes"))

unfoldable pub apply_env_overrides : Env → Config → Config
apply_env_overrides env c = record {
  name = c.name;
  log_level = over_text (getenv env (codes "PMUX_LOG_LEVEL")) c.log_level;
  server = record {
    url = over_text (env_url env) c.server.url;
    api_version = over_option (env (codes "PMUX_API_VERSION")) c.server.api_version;
  };
  identity = record {
    key_path = over_text (getenv env (codes "PMUX_KEY_PATH")) c.identity.key_path;
    secret_backend = over_text (getenv env (codes "PMUX_SECRET_BACKEND")) c.identity.secret_backend;
  };
  connection = record c.connection {
    max_mobile_connections =
        over_option (env_number env (codes "PMUX_MAX_CONNECTIONS"))
          c.connection.max_mobile_connections;
    force_relay = over_option (env_flag env (codes "PMUX_FORCE_RELAY")) c.connection.force_relay;
  };
  tmux = record {
    socket_name = over_text (getenv env (codes "PMUX_SOCKET_NAME")) c.tmux.socket_name;
    tmux_path = over_text (getenv env (codes "PMUX_TMUX_PATH")) c.tmux.tmux_path;
  };
  update = record {
    enabled = over_option (env_flag env (codes "PMUX_UPDATE_ENABLED")) c.update.enabled;
    check_interval = over_text (getenv env (codes "PMUX_UPDATE_INTERVAL")) c.update.check_interval;
  };
  keep_awake = over_option (env_flag env (codes "PMUX_KEEP_AWAKE")) c.keep_awake;
}

unfoldable pub env_sources : Env → ConfigSources → ConfigSources
env_sources env s = record s {
  server_url = text_from ConfigSource.env (env_url env) s.server_url;
  api_version = option_from ConfigSource.env (env (codes "PMUX_API_VERSION")) s.api_version;
  key_path = text_from ConfigSource.env (getenv env (codes "PMUX_KEY_PATH")) s.key_path;
  secret_backend =
      text_from ConfigSource.env (getenv env (codes "PMUX_SECRET_BACKEND")) s.secret_backend;
  max_mobile_connections =
      option_from ConfigSource.env (env_number env (codes "PMUX_MAX_CONNECTIONS"))
        s.max_mobile_connections;
  force_relay =
      option_from ConfigSource.env (env_flag env (codes "PMUX_FORCE_RELAY")) s.force_relay;
  socket_name = text_from ConfigSource.env (getenv env (codes "PMUX_SOCKET_NAME")) s.socket_name;
  tmux_path = text_from ConfigSource.env (getenv env (codes "PMUX_TMUX_PATH")) s.tmux_path;
  log_level = text_from ConfigSource.env (getenv env (codes "PMUX_LOG_LEVEL")) s.log_level;
  update_enabled =
      option_from ConfigSource.env (env_flag env (codes "PMUX_UPDATE_ENABLED")) s.update_enabled;
  update_check_interval =
      text_from ConfigSource.env (getenv env (codes "PMUX_UPDATE_INTERVAL"))
        s.update_check_interval;
  keep_awake = option_from ConfigSource.env (env_flag env (codes "PMUX_KEEP_AWAKE")) s.keep_awake;
}

-- What `os.ReadFile` gives.
pub data FileRead : Type 0 where
  missing unreadable : FileRead
  contents : Bytes → FileRead

pub data LoadError : Type 0 where
  read_config parse_config : LoadError

module _ (unmarshal : Bytes → Option FileConfig) (env : Env) where
  unfoldable pub parsed_config : Option FileConfig → Result LoadError Config
  parsed_config none = err LoadError.parse_config
  parsed_config (some f) = ok (apply_env_overrides env (overlay_file f defaults))

  unfoldable pub load_config : FileRead → Result LoadError Config
  unfolding parsed_config
  load_config FileRead.missing = ok (apply_env_overrides env defaults)
  load_config FileRead.unreadable = err LoadError.read_config
  load_config (FileRead.contents text) = parsed_config (unmarshal text)

  unfoldable pub parsed_with_sources : Option FileConfig → Result LoadError (Config × ConfigSources)
  parsed_with_sources none = err LoadError.parse_config
  parsed_with_sources (some f) = ok (
    apply_env_overrides env (overlay_file f defaults),
    env_sources env (file_sources f all_default),
  )

  unfoldable pub load_config_with_sources : FileRead → Result LoadError (Config × ConfigSources)
  unfolding parsed_with_sources
  load_config_with_sources FileRead.missing =
      ok (apply_env_overrides env defaults, env_sources env all_default)
  load_config_with_sources FileRead.unreadable = err LoadError.read_config
  load_config_with_sources (FileRead.contents text) = parsed_with_sources (unmarshal text)
