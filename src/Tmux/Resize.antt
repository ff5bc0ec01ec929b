-- ===== src/Tmux/Resize.antt =====
-- internal/tmux/resize.go: the panes whose window a mobile has forced to its own size. Each method
-- takes the tracker's map and gives it back.
pub mod Forced
use pmux_agent.Base.{ℕ, ℤ, Bool, true, false, Option, none, some, Bytes, codes, Result, ok, err}
use pmux_agent.Base.Map.{Map, lookup, insert, delete}
use pmux_agent.Tmux.Server.{Server, TmuxError}
use pmux_agent.Tmux.Client.{resize_pane, window_for_pane, clear_window_size_override}

-- `forced[paneID]`, with Go's `false` for a missing key.
unfoldable pub is_forced : Bytes → Map Bool → Bool
is_forced pane forced = elim (lookup pane forced) [ none ↦ false | some b ↦ b ]

module _ (server : Server) (socket : Bytes) where
  open server use {World}

  unfoldable pub track_and_resize :
      Bytes → ℤ → ℤ → Map Bool → World → Result TmuxError (Unit {0}) × Map Bool × World
  track_and_resize pane cols rows forced w =
      let (r, w') = resize_pane server socket pane cols rows w in
      elim r [
        | err e ↦ (err (TmuxError.wrapped (codes "resize pane to mobile dimensions") e), forced, w')
        | ok _ ↦ (ok tt, insert pane true forced, w')
      ]

  -- The part after the entry is gone, for a pane that was forced.
  unfoldable pub release_window : Bytes → World → Result TmuxError (Unit {0}) × World
  release_window pane w =
      let (r, w') = window_for_pane server socket pane w in
      elim r [
        | err e ↦ (ok tt, w')
        | ok target ↦ clear_window_size_override server socket target w'
      ]

  unfoldable pub release_if_forced :
      Bytes → Map Bool → World → Result TmuxError (Unit {0}) × Map Bool × World
  release_if_forced pane forced w = elim (is_forced pane forced) [
    | false ↦ (ok tt, delete pane forced, w)
    | true ↦ let (r, w') = release_window pane w in (r, delete pane forced, w')
  ]
