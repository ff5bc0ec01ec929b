-- ===== src/Update/Tests.antt =====
-- Tests of internal/update, and the theorems at inputs that meet their hypotheses.
use pmux_agent.Base.{ℕ, pos, negsuc, ◌≡◌, ◌↔◌, refl, true, false, some, none, codes, arith}
use pmux_agent.Strings.{split_n, trim_v}
use pmux_agent.Strings.Numbers.{atoi}
use pmux_agent.Update.State.{UpdateState}
use pmux_agent.Update.Version.{parse_version, compare_versions}
use pmux_agent.Update.Version.Compare.{IsOlder, compare_versions-IsOlder}
use pmux_agent.Update.Version.Print.{print_version, parse_version-print}
use pmux_agent.Update.Checker.{ReleaseInfo, Source, checked_state, check}
use pmux_agent.Update.Checker.Announced.{newer_version, check-announced}
use pmux_agent.Agent.Handler.Sessions.{announced}

-- One part that is no number does not make the others 0.
malformed_part : parse_version (codes "1.x.3") ≡ (1, 0, 3)
unfolding parse_version split_n trim_v atoi
malformed_part = refl

older : compare_versions (codes "v1.2.3") (codes "1.10.0-rc1") ≡ negsuc 0
unfolding compare_versions split_n trim_v atoi
older = refl

newer : compare_versions (codes "1.10.0-rc1") (codes "v2.0") ≡ negsuc 0
unfolding compare_versions split_n trim_v atoi
newer = refl

-- v1.10.0 and 1.9.7-rc1.
compare_versions-IsOlder_example :
    let x = print_version true 1 10 0 none in
    let y = print_version false 1 9 7 (some (codes "rc1")) in
    ((compare_versions x y ≡ negsuc 0) ↔ IsOlder (1, 10, 0) (1, 9, 7))
    × ((compare_versions x y ≡ pos 0) ↔ (◌≡◌ {A = ℕ} 1 1 × ◌≡◌ {A = ℕ} 10 9 × ◌≡◌ {A = ℕ} 0 7))
    × ((compare_versions x y ≡ pos 1) ↔ IsOlder (1, 9, 7) (1, 10, 0))
compare_versions-IsOlder_example =
    compare_versions-IsOlder true false 1 10 0 1 9 7 none (some (codes "rc1")) (omega arith)
      (omega arith) (omega arith) (omega arith) (omega arith) (omega arith)

parse_version-print_example :
    parse_version (print_version true 1 20 3 (some (codes "rc.1"))) ≡ (1, 20, 3)
parse_version-print_example =
    parse_version-print true 1 20 3 (some (codes "rc.1")) (omega arith) (omega arith) (omega arith)

abbrev release : ReleaseInfo
release = record { tag_name = codes "v1.1.0"; html_url = codes "https://example.org" }

abbrev server : Source ℕ
server = record { fetch_release = λ w. (some release, w); now = λ w. w; save_state = λ u w. w }

abbrev found : UpdateState
unfolding checked_state
found = checked_state (codes "1.0.0") (codes "deb") 7 release

found_there : (check server (codes "1.0.0") (codes "deb") 7).0 ≡ some found
unfolding check
found_there = refl

check-announced_example :
    (u : UpdateState) × (check server (codes "1.0.0") (codes "deb") 7 ≡ (some u, 7))
    × (u.latest_version ≡ codes "v1.1.0")
    × (u.release_url ≡ codes "https://example.org")
    × (announced (codes "1.0.0") (some u)
        ≡ newer_version (codes "1.0.0") (codes "1.0.0") (codes "v1.1.0"))
check-announced_example =
    check-announced server (codes "1.0.0") (codes "deb") (codes "1.0.0") release 7 7 refl refl
