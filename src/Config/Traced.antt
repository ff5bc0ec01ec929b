-- ===== src/Config/Traced.antt =====
-- `LoadConfigWithSources` of internal/config/config.go: what a load gives.
use pmux_agent.Base.{pos, ◌≡◌, refl, ap, subst, Option, none, some, [], Bytes, Result, ok, err}
use pmux_agent.Config.Settings.{Config, FileConfig, ConfigSources, defaults, all_default}
use pmux_agent.Config.Load.{
  over_text, text_from, over_option, option_from, over_int, int_from, overlay_file, file_sources,
  apply_env_overrides, env_sources, Env, FileRead, LoadError, parsed_with_sources,
  load_config_with_sources,
}
use pmux_agent.Config.Provenance.{IsTraced, loaded-IsTraced}

-- A file that says nothing, which is what a missing file counts as.
abbrev pub silent_file : FileConfig
silent_file = record {
  name = [];
  log_level = [];
  url = [];
  api_version = none;
  identity = record { key_path = []; secret_backend = [] };
  reconnect_interval = [];
  keepalive_interval = [];
  max_mobile_connections = pos 0;
  force_relay = none;
  tmux = record { socket_name = []; tmux_path = [] };
  enabled = none;
  check_interval = [];
  keep_awake = none;
}

unfoldable pub IsFileOf : (Bytes → Option FileConfig) → FileRead → FileConfig → Type 0
IsFileOf unmarshal FileRead.missing f = f ≡ silent_file
IsFileOf unmarshal FileRead.unreadable f = ⊥
IsFileOf unmarshal (FileRead.contents text) f = unmarshal text ≡ some f

from_ok :
    Config × ConfigSources → Result LoadError (Config × ConfigSources) → Config × ConfigSources
from_ok d (ok r) = r
from_ok d (err e) = d

ok-injective :
    (x y : Config × ConfigSources)
    → Path (Result LoadError (Config × ConfigSources)) (ok x) (ok y)
    → x ≡ y
unfolding from_ok
ok-injective x y h = ap (from_ok x) h

missing-IsTraced :
    (env : Env)
    → IsTraced silent_file env (apply_env_overrides env defaults) (env_sources env all_default)
unfolding overlay_file file_sources over_text over_option over_int text_from option_from int_from
missing-IsTraced env = loaded-IsTraced silent_file env

Loaded : (Bytes → Option FileConfig) → Env → FileRead → Config × ConfigSources → Type 0
Loaded unmarshal env read (c, s) = (f : FileConfig) × IsFileOf unmarshal read f × IsTraced f env c s

module _ (unmarshal : Bytes → Option FileConfig) (env : Env) where
  parsed-Loaded :
      (o : Option FileConfig) (text : Bytes) (r : Config × ConfigSources)
      → unmarshal text ≡ o
      → parsed_with_sources unmarshal env o ≡ ok r
      → Loaded unmarshal env (FileRead.contents text) r
  unfolding parsed_with_sources Loaded IsFileOf
  parsed-Loaded none text r h e = absurd (cc)
  parsed-Loaded (some f) text r h e =
      subst (Loaded unmarshal env (FileRead.contents text)) (ok-injective _ r e)
        (f, h, loaded-IsTraced f env)

  -- If a configuration is loaded with its sources, then each of its values is the one that its source
  -- says: the environment's if the environment sets it, else the file's if the file sets it, else the
  -- default, and the source names which. A missing file sets nothing.
  pub load_config_with_sources-IsTraced :
      (read : FileRead) (c : Config) (s : ConfigSources)
      → load_config_with_sources unmarshal env read ≡ ok (c, s)
      → (f : FileConfig) × IsFileOf unmarshal read f × IsTraced f env c s
  unfolding load_config_with_sources Loaded IsFileOf
  load_config_with_sources-IsTraced FileRead.missing c s e =
      subst (Loaded unmarshal env FileRead.missing) (ok-injective _ (c, s) e)
        (silent_file, refl, missing-IsTraced env)
  load_config_with_sources-IsTraced FileRead.unreadable c s e = absurd (cc)
  load_config_with_sources-IsTraced (FileRead.contents text) c s e =
      parsed-Loaded (unmarshal text) text (c, s) refl e
