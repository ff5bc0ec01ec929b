-- ===== src/Update/Checker.antt =====
-- internal/update/checker.go: `Check`. The releases come from a server and the state goes to a file.
pub mod Announced
use pmux_agent.Base.{
  ℕ, ℤ, pos, negsuc, ltbℤ, ◌≡◌, ◌≢◌, refl, Bool, true, false, not, ◌&&◌, List, [], ◌∷◌, Option,
  none, some, Bytes, codes, str_eq, str_eq_refl, if◌then◌else◌, Bool-cases, inl, inr, arith,
}
use pmux_agent.Update.State.{UpdateState, is_stale}
use pmux_agent.Update.Version.{compare_versions}
use pmux_agent.Agent.Handler.Sessions.{announced}

pub record ReleaseInfo : Type 0 where
  pub tag_name : Bytes
  pub html_url : Bytes

-- What `Check` calls: the server, the clock and the file. `none` is an error.
pub record Source (W : Type 0) : Type 0 where
  pub fetch_release : W → Option ReleaseInfo × W
  pub now : W → ℕ
  pub save_state : UpdateState → W → W

-- `State{CurrentVersion: "dev"}`.
abbrev pub dev_state : UpdateState
dev_state = record {
  last_check = 0;
  current_version = codes "dev";
  latest_version = [];
  update_available = false;
  release_url = [];
  install_method = [];
}

unfoldable pub checked_state : Bytes → Bytes → ℕ → ReleaseInfo → UpdateState
checked_state current method time release = record {
  last_check = time;
  current_version = current;
  latest_version = release.tag_name;
  update_available = ltbℤ (compare_versions current release.tag_name) (pos 0);
  release_url = release.html_url;
  install_method = method;
}

module _ {W : Type 0} (source : Source W) where
  open source use {fetch_release, now, save_state}

  unfoldable pub record_release : Bytes → Bytes → Option ReleaseInfo → W → Option UpdateState × W
  unfolding checked_state
  record_release current method none w = (none, w)
  record_release current method (some release) w =
      let state = checked_state current method (now w) release in (some state, save_state state w)

  -- The state, or `none` for an error.
  unfoldable pub check : Bytes → Bytes → W → Option UpdateState × W
  unfolding record_release
  check current method w =
      if str_eq current (codes "dev")
      then (some dev_state, w)
      else (let (r, w') = fetch_release w in record_release current method r w')
