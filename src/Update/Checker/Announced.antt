-- ===== src/Update/Checker/Announced.antt =====
-- What is announced to a client after a check, in internal/agent/handler.go.
use pmux_agent.Base.{
  ℕ, pos, ltbℤ, ◌≡◌, refl, false, ◌&&◌, [], some, Bytes, codes, str_eq, if◌then◌else◌, arith,
}
use pmux_agent.Update.State.{UpdateState, is_stale}
use pmux_agent.Update.Version.{compare_versions}
use pmux_agent.Update.Checker.{ReleaseInfo, Source, checked_state, record_release, check}
use pmux_agent.Agent.Handler.Sessions.{announced}

-- The latest version if it is newer than the one that checked and that one still runs.
unfoldable pub newer_version : Bytes → Bytes → Bytes → Bytes
newer_version current running latest =
    if str_eq current running && ltbℤ (compare_versions current latest) (pos 0) then latest else []

checked_state-announced :
    (current method running : Bytes) (time : ℕ) (release : ReleaseInfo)
    → announced running (some (checked_state current method time release))
      ≡ newer_version current running release.tag_name
unfolding announced checked_state is_stale newer_version
checked_state-announced current method running time release = ground arith

module _ {W : Type 0} (source : Source W) where
  open source use {fetch_release, save_state}

  -- If a build that is no `dev` build checks and the server answers with a release, then the check gives
  -- a state that it saves, with that release's tag and page; and a client is told of that tag exactly
  -- if it compares as newer than the version that checked and that version is the one that runs.
  pub check-announced :
      (current method running : Bytes) (release : ReleaseInfo) (w w' : W)
      → str_eq current (codes "dev") ≡ false
      → fetch_release w ≡ (some release, w')
      → (u : UpdateState) × (check source current method w ≡ (some u, save_state u w'))
        × (u.latest_version ≡ release.tag_name)
        × (u.release_url ≡ release.html_url)
        × (announced running (some u) ≡ newer_version current running release.tag_name)
  unfolding check record_release checked_state
  check-announced current method running release w w' released fetched = (
    checked_state current method (source.now w') release,
    rw (released, fetched) refl,
    refl,
    refl,
    checked_state-announced current method running _ release,
  )
