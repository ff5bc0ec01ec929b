-- ===== src/Config/Settings.antt =====
-- The settings of internal/config/config.go, with the file's and the sources' records.
use pmux_agent.Base.{ℤ, pos, Bool, true, false, Option, Bytes, codes}

pub record ServerConfig : Type 0 where
  pub url : Bytes
  pub api_version : Bytes

pub record IdentityConfig : Type 0 where
  pub key_path : Bytes
  pub secret_backend : Bytes

pub record ConnectionConfig : Type 0 where
  pub reconnect_interval : Bytes
  pub keepalive_interval : Bytes
  pub max_mobile_connections : ℤ
  pub force_relay : Bool

pub record TmuxConfig : Type 0 where
  pub socket_name : Bytes
  pub tmux_path : Bytes

pub record UpdateConfig : Type 0 where
  pub enabled : Bool
  pub check_interval : Bytes

-- The section `power` is its one field `keep_awake`.
pub record Config : Type 0 where
  pub name : Bytes
  pub log_level : Bytes
  pub server : ServerConfig
  pub identity : IdentityConfig
  pub connection : ConnectionConfig
  pub tmux : TmuxConfig
  pub update : UpdateConfig
  pub keep_awake : Bool

-- What the file says. A nil pointer is `none`.
pub record FileConfig : Type 0 where
  pub name : Bytes
  pub log_level : Bytes
  pub url : Bytes
  pub api_version : Option Bytes
  pub identity : IdentityConfig
  pub reconnect_interval : Bytes
  pub keepalive_interval : Bytes
  pub max_mobile_connections : ℤ
  pub force_relay : Option Bool
  pub tmux : TmuxConfig
  pub enabled : Option Bool
  pub check_interval : Bytes
  pub keep_awake : Option Bool

pub data ConfigSource : Type 0 where
  default file env : ConfigSource

pub record ConfigSources : Type 0 where
  pub server_url : ConfigSource
  pub api_version : ConfigSource
  pub key_path : ConfigSource
  pub secret_backend : ConfigSource
  pub reconnect_interval : ConfigSource
  pub keepalive_interval : ConfigSource
  pub max_mobile_connections : ConfigSource
  pub force_relay : ConfigSource
  pub socket_name : ConfigSource
  pub tmux_path : ConfigSource
  pub name : ConfigSource
  pub log_level : ConfigSource
  pub update_enabled : ConfigSource
  pub update_check_interval : ConfigSource
  pub keep_awake : ConfigSource

-- `Defaults`.
abbrev pub defaults : Config
defaults = record {
  name = codes "";
  log_level = codes "info";
  server = record { url = codes "https://signal.pmux.io"; api_version = codes "v1" };
  identity = record { key_path = codes "~/.config/pmux/keys/"; secret_backend = codes "auto" };
  connection = record {
    reconnect_interval = codes "5s";
    keepalive_interval = codes "30s";
    max_mobile_connections = pos 1;
    force_relay = false;
  };
  tmux = record { socket_name = codes "pmux"; tmux_path = codes "" };
  update = record { enabled = true; check_interval = codes "24h" };
  keep_awake = false;
}

-- `ConfigSources{}`.
abbrev pub all_default : ConfigSources
all_default = record {
  server_url = ConfigSource.default;
  api_version = ConfigSource.default;
  key_path = ConfigSource.default;
  secret_backend = ConfigSource.default;
  reconnect_interval = ConfigSource.default;
  keepalive_interval = ConfigSource.default;
  max_mobile_connections = ConfigSource.default;
  force_relay = ConfigSource.default;
  socket_name = ConfigSource.default;
  tmux_path = ConfigSource.default;
  name = ConfigSource.default;
  log_level = ConfigSource.default;
  update_enabled = ConfigSource.default;
  update_check_interval = ConfigSource.default;
  keep_awake = ConfigSource.default;
}
