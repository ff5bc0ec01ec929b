-- ===== src/Tmux/Client/Guard.antt =====
-- internal/tmux/tmux.go: targets, and the operations that check theirs.
use mathlib.Core.List.{cons-ne-nil}
use pmux_agent.Base.{
  ℕ, ℤ, ◌≡◌, ◌⊎◌, ◌≢◌, ◌≤◌, ◌↔◌, refl, Bool, true, false, ◌&&◌, [], ◌∷◌, Bytes, codes, All, err,
  arith,
}
use pmux_agent.Tmux.Server.{Server, TmuxError}
use pmux_agent.Tmux.Listing.{list_windows, list_panes}
use pmux_agent.Tmux.Client.{
  valid_target, all_target_bytes, is_target_byte, kill_session, clear_window_size_override,
  window_for_pane, resize_pane, pane_dimensions, cursor_state,
}

-- The operations that check their target: with an invalid one each fails with that error, and the
-- server is not run at all.
pub invalid_target_refused :
    (server : Server) (socket target : Bytes) (cols rows : ℤ) (w : server.World)
    → valid_target target ≡ false
    → (kill_session server socket target w ≡ (err (TmuxError.invalid_target target), w))
      × (clear_window_size_override server socket target w
          ≡ (err (TmuxError.invalid_target target), w))
      × (window_for_pane server socket target w ≡ (
        err (TmuxError.wrapped (codes "find window for pane") (TmuxError.invalid_target target)),
        w,
      ))
      × (resize_pane server socket target cols rows w
          ≡ (err (TmuxError.wrapped (codes "resize-pane") (TmuxError.invalid_target target)), w))
      × (pane_dimensions server socket target w ≡ (
        err (TmuxError.wrapped (codes "pane-dimensions") (TmuxError.invalid_target target)),
        w,
      ))
      × (cursor_state server socket target w
          ≡ (err (TmuxError.wrapped (codes "cursor-state") (TmuxError.invalid_target target)), w))
      × (list_windows server socket target w
          ≡ (err (TmuxError.wrapped (codes "list-windows") (TmuxError.invalid_target target)), w))
      × (list_panes server socket target w
          ≡ (err (TmuxError.wrapped (codes "list-panes") (TmuxError.invalid_target target)), w))
unfolding kill_session clear_window_size_override window_for_pane resize_pane pane_dimensions
    cursor_state list_windows list_panes
invalid_target_refused server socket target cols rows w h = (
  ground arith,
  ground arith,
  ground arith,
  ground arith,
  ground arith,
  ground arith,
  ground arith,
  ground arith,
)

-- A letter, a digit or one of `_ . $ @ : % -`.
abbrev pub IsTargetByte : ℕ → Type 0
IsTargetByte c =
    ((b'a' ≤ c) × (c ≤ b'z'))
    ⊎ (((b'A' ≤ c) × (c ≤ b'Z'))
        ⊎ (((b'0' ≤ c) × (c ≤ b'9'))
            ⊎ ((c ≡ b'_')
                ⊎ ((c ≡ b'.')
                    ⊎ ((c ≡ b'$') ⊎ ((c ≡ b'@') ⊎ ((c ≡ b':') ⊎ ((c ≡ b'%') ⊎ (c ≡ b'-')))))))))

IsTargetByte-iff : (c : ℕ) → (is_target_byte c ≡ true) ↔ IsTargetByte c
unfolding is_target_byte
IsTargetByte-iff c = (λ h. ground arith, λ h. ground arith)

left_of : (a b : Bool) → (a && b) ≡ true → a ≡ true
left_of a b h = ground arith

right_of : (a b : Bool) → (a && b) ≡ true → b ≡ true
right_of a b h = ground arith

both_of : {a b : Bool} → a ≡ true → b ≡ true → (a && b) ≡ true
both_of h k = ground arith

all_target_bytes_iff : (s : Bytes) → (all_target_bytes s ≡ true) ↔ All IsTargetByte s
unfolding all_target_bytes
all_target_bytes_iff [] = (λ _. tt, λ _. refl)
all_target_bytes_iff (c ∷ s) = (
  λ h. ((IsTargetByte-iff c).0 (left_of _ _ h), (all_target_bytes_iff s).0 (right_of _ _ h)),
  λ h. both_of ((IsTargetByte-iff c).1 h.0) ((all_target_bytes_iff s).1 h.1),
)

-- A target is valid exactly when it is not empty and all its bytes are letters, digits or one of
-- `_ . $ @ : % -`.
pub valid_target_iff : (s : Bytes) → (valid_target s ≡ true) ↔ ((s ≢ []) × All IsTargetByte s)
unfolding valid_target
valid_target_iff [] = (λ h. absurd (ground arith), λ h. absurd (h.0 refl))
valid_target_iff (c ∷ s) = (
  λ h. (cons-ne-nil c s, (all_target_bytes_iff (c ∷ s)).0 h),
  λ h. (all_target_bytes_iff (c ∷ s)).1 h.1,
)
