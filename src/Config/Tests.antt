-- ===== src/Config/Tests.antt =====
-- Tests of internal/config, and the theorems at inputs that meet their hypotheses.
use pmux_agent.Base.{
  ◌*◌, ℤ, pos, ◌≡◌, ◌↔◌, refl, false, [], Option, none, some, Bytes, codes, str_eq, if◌then◌else◌,
  ok,
}
use pmux_agent.Strings.{has_prefix, trim_right}
use pmux_agent.Config.Settings.{Config, ConfigSources, FileConfig, defaults, all_default}
use pmux_agent.Config.Load.{
  Env, FileRead, overlay_file, file_sources, apply_env_overrides, env_sources,
  load_config_with_sources,
}
use pmux_agent.Config.Provenance.{IsTraced}
use pmux_agent.Config.Traced.{IsFileOf, silent_file, load_config_with_sources-IsTraced}
use pmux_agent.Config.Check.{second, to_lower, validate, keepalive_interval, api_base_url}
use pmux_agent.Config.Usable.{
  IsPositive, IsWithin, IsAccepted, keepalive_interval_bounds, validate-IsAccepted,
}

-- An environment with two variables.
abbrev some_env : Env
some_env k =
    if str_eq k (codes "PMUX_MAX_CONNECTIONS")
    then some (codes "4x")
    else if str_eq k (codes "PMUX_LOG_LEVEL")
    then some (codes "DEBUG")
    else none

-- A file that sets the socket name and turns the updates off.
abbrev some_file : FileConfig
some_file = record silent_file {
  tmux = record { socket_name = codes "work"; tmux_path = [] };
  enabled = some false;
}

abbrev parser : Bytes → Option FileConfig
parser text = some some_file

-- Durations of whole minutes, for the tests.
abbrev minutes : Bytes → Option ℤ
minutes v = some (pos (60 * second))

abbrev loaded : Config
unfolding overlay_file apply_env_overrides
loaded = apply_env_overrides some_env (overlay_file some_file defaults)

abbrev sources : ConfigSources
unfolding file_sources env_sources
sources = env_sources some_env (file_sources some_file all_default)

loaded_there :
    load_config_with_sources parser some_env (FileRead.contents []) ≡ ok (loaded, sources)
unfolding load_config_with_sources loaded sources
loaded_there = refl

load_config_with_sources-IsTraced_example :
    (f : FileConfig) × IsFileOf parser (FileRead.contents []) f × IsTraced f some_env loaded sources
load_config_with_sources-IsTraced_example =
    load_config_with_sources-IsTraced parser some_env (FileRead.contents []) loaded sources
      loaded_there

shouted : to_lower (codes "DEBUG") ≡ codes "debug"
unfolding to_lower
shouted = refl

versioned : api_base_url defaults ≡ codes "https://signal.pmux.io/v1"
unfolding api_base_url trim_right
versioned = refl

keepalive_interval_bounds_example :
    IsPositive (keepalive_interval minutes defaults)
    × IsWithin (keepalive_interval minutes defaults) (45 * second)
keepalive_interval_bounds_example = keepalive_interval_bounds minutes defaults

defaults-valid : validate minutes defaults ≡ ok tt
unfolding validate has_prefix to_lower
defaults-valid = refl

validate-IsAccepted_example : (validate minutes defaults ≡ ok tt) ↔ IsAccepted minutes defaults
validate-IsAccepted_example = validate-IsAccepted minutes defaults
