-- ===== src/Tmux/Resize/Forced.antt =====
-- internal/tmux/resize.go: the forced panes.
use pmux_agent.Base.{
  ℤ, ◌≡◌, ◌⊎◌, refl, ap, ◌∙◌, inl, inr, Bool, true, false, Bytes, ok, err, arith, str_eq,
  if◌then◌else◌, Bool-cases, Result-cases,
}
use pmux_agent.Base.Map.{Map, insert, delete, lookup-insert, lookup-delete, lookup-delete_self}
use pmux_agent.Tmux.Server.{Server, TmuxError}
use pmux_agent.Tmux.Client.{resize_pane}
use pmux_agent.Tmux.Resize.{is_forced, track_and_resize, release_if_forced}

pub is_forced-insert :
    (pane other : Bytes) (forced : Map Bool)
    → is_forced other (insert pane true forced)
      ≡ (if str_eq pane other then true else is_forced other forced)
unfolding is_forced
is_forced-insert pane other forced = rw (lookup-insert, is_forced) (ground arith)

pub is_forced-delete :
    (pane other : Bytes) (forced : Map Bool)
    → is_forced other (delete pane forced)
      ≡ (if str_eq pane other then false else is_forced other forced)
unfolding is_forced
is_forced-delete pane other forced = rw (lookup-delete, is_forced) (ground arith)

is_forced-gone : (pane : Bytes) (forced : Map Bool) → is_forced pane (delete pane forced) ≡ false
unfolding is_forced
is_forced-gone pane forced = rw (lookup-delete_self, is_forced)

module _ (server : Server) (socket : Bytes) where
  open server use {World}

  -- A pane counts as forced after `TrackAndResize` if its resize succeeded, or if it did before; all
  -- other panes are as they were.
  pub is_forced-track_and_resize :
      (pane other : Bytes) (cols rows : ℤ) (forced : Map Bool) (w : World)
      → let r = resize_pane server socket pane cols rows w in
        let (_, forced', w') = track_and_resize server socket pane cols rows forced w in
        (w' ≡ r.1)
        × (((r.0 ≡ ok tt)
              × (is_forced other forced'
                  ≡ (if str_eq pane other then true else is_forced other forced)))
            ⊎ ((e : TmuxError) × (r.0 ≡ err e) × (forced' ≡ forced)))
  unfolding track_and_resize
  is_forced-track_and_resize pane other cols rows forced w =
      elim (Result-cases (resize_pane server socket pane cols rows w).0) [
        | inl (a, e) ↦
            rw (e, track_and_resize) (refl, inl (refl, is_forced-insert pane other forced))
        | inr (x, e) ↦ rw (e, track_and_resize) (refl, inr (x, refl, refl))
      ]

  -- A pane that is not forced is left alone: the server is not run.
  pub release_if_forced-idle :
      (pane : Bytes) (forced : Map Bool) (w : World)
      → is_forced pane forced ≡ false
      → release_if_forced server socket pane forced w ≡ (ok tt, delete pane forced, w)
  unfolding release_if_forced
  release_if_forced-idle pane forced w h = rw (h, release_if_forced)

  release_if_forced-map :
      (pane : Bytes) (forced : Map Bool) (w : World)
      → (release_if_forced server socket pane forced w).1 ≡ delete pane forced
  unfolding release_if_forced
  release_if_forced-map pane forced w = elim (Bool-cases (is_forced pane forced)) [
    | inl e ↦ rw (e, release_if_forced)
    | inr e ↦ rw (e, release_if_forced)
  ]

  -- After `ReleaseIfForced` the pane is not forced, whatever the server answers, and other panes are
  -- as they were; a second call does not run the server.
  pub is_forced-release_if_forced :
      (pane other : Bytes) (forced : Map Bool) (w : World)
      → let (_, forced', w') = release_if_forced server socket pane forced w in
        (is_forced other forced' ≡ (if str_eq pane other then false else is_forced other forced))
        × (release_if_forced server socket pane forced' w' ≡ (ok tt, delete pane forced', w'))
  is_forced-release_if_forced pane other forced w =
      let same = release_if_forced-map pane forced w in
      (
        ap (is_forced other) same ∙ is_forced-delete pane other forced,
        release_if_forced-idle pane _ _ (ap (is_forced pane) same ∙ is_forced-gone pane forced),
      )
