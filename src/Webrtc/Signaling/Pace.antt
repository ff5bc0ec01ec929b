-- ===== src/Webrtc/Signaling/Pace.antt =====
-- The pace of `Run` in internal/webrtc/signaling.go and what of its connection is visible.
use pmux_agent.Base.{
  ℕ, ◌*◌, ◌+◌, ◌/◌, ◌≤◌, ◌≡◌, ◌⊎◌, inl, inr, refl, Bool, true, false, leb, if_holds, arith,
}
use pmux_agent.Webrtc.Signaling.State.{Phase, Client}
use pmux_agent.Webrtc.Signaling.Loop.{
  doubled, fresh_window, check_suspended, at_top, wake_dormant, wake_suspended, wake_backoff,
}

unfoldable pub is_serving : Phase → Bool
is_serving p = elim p [ Phase.serving since ↦ true | _ ↦ false ]

-- The phases in which a client may be marked as dormant.
unfoldable pub is_resting : Phase → Bool
is_resting p = elim p [
  | Phase.top ↦ true
  | Phase.dormant_wait ↦ true
  | Phase.stopped reason ↦ true
  | _ ↦ false
]

-- A wait is at least the backoff, and at most half as long again.
unfoldable pub IsWait : ℕ → Phase → Type 0
IsWait b (Phase.backing_off since wait) = (b ≤ wait) × (wait ≤ b + b / 2)
IsWait b _ = Unit

pub record IsPaced (start b : ℕ) : Type 0 where
  pub start_positive : 1 ≤ start
  pub positive : 1 ≤ b
  pub bounded : (b ≤ start) ⊎ (b ≤ 30000000000)

pub record IsSteady {W : Type 0} (c : Client W) : Type 0 where
  pub pace : IsPaced c.start_backoff c.backoff
  pub waits : IsWait c.backoff c.phase
  pub visible : (c.connected ≡ false) ⊎ (is_serving c.phase ≡ true)
  pub listens : (c.is_open ≡ false) ⊎ ((is_serving c.phase ≡ true) × (c.suspended ≡ false))
  pub awake : (c.dormant ≡ false) ⊎ (is_resting c.phase ≡ true)

-- A client that has no visible connection, and one that is not dormant either.
pub record IsHidden {W : Type 0} (c : Client W) : Type 0 where
  pub pace : IsPaced c.start_backoff c.backoff
  pub hidden : c.connected ≡ false
  pub shut : c.is_open ≡ false

pub record IsOffline {W : Type 0} (c : Client W) : Type 0 where
  pub pace : IsPaced c.start_backoff c.backoff
  pub hidden : c.connected ≡ false
  pub shut : c.is_open ≡ false
  pub awake : c.dormant ≡ false

pub fresh-IsPaced : (start b : ℕ) → IsPaced start b → IsPaced start start
fresh-IsPaced start b p = record {
  start_positive = p.start_positive;
  positive = p.start_positive;
  bounded = inl (omega arith);
}

pub doubled-IsPaced : (start b : ℕ) → IsPaced start b → IsPaced start (doubled b)
unfolding doubled
doubled-IsPaced start b p =
    if_holds (IsPaced start) (leb (2 * b) 30000000000) _ _
      (λ e. record {
        start_positive = p.start_positive;
        positive = let l = p.positive in omega (arith, l);
        bounded = inr (ground (arith, e));
      })
      (λ e. record {
        start_positive = p.start_positive;
        positive = omega arith;
        bounded = inr (omega arith);
      })

module _ {W : Type 0} where
  -- Out of a phase that serves nothing.
  pub IsSteady-IsHidden : (c : Client W) → is_serving c.phase ≡ false → IsSteady c → IsHidden c
  IsSteady-IsHidden c idle s = record {
    pace = s.pace;
    hidden = elim s.visible [ inl e ↦ e | inr e ↦ absurd (ground (arith, e)) ];
    shut = elim s.listens [ inl e ↦ e | inr (e, f) ↦ absurd (ground (arith, e)) ];
  }

  pub IsSteady-awake : (c : Client W) → is_resting c.phase ≡ false → IsSteady c → c.dormant ≡ false
  IsSteady-awake c busy s = elim s.awake [ inl e ↦ e | inr e ↦ absurd (ground (arith, e)) ]

  -- And in which the client is not dormant.
  pub IsSteady-IsOffline :
      (c : Client W)
      → is_serving c.phase ≡ false
      → is_resting c.phase ≡ false
      → IsSteady c
      → IsOffline c
  IsSteady-IsOffline c idle busy s = record {
    pace = s.pace;
    hidden = (IsSteady-IsHidden c idle s).hidden;
    shut = (IsSteady-IsHidden c idle s).shut;
    awake = IsSteady-awake c busy s;
  }

  pub IsOffline-IsHidden : (c : Client W) → IsOffline c → IsHidden c
  IsOffline-IsHidden c o = record { pace = o.pace; hidden = o.hidden; shut = o.shut }

  pub settle :
      (c : Client W) (p : Phase)
      → IsWait c.backoff p
      → IsOffline c
      → IsSteady (record c { phase = p })
  settle c p w o = record {
    pace = o.pace;
    waits = w;
    visible = inl o.hidden;
    listens = inl o.shut;
    awake = inl o.awake;
  }

  pub fresh_window-IsOffline : (c : Client W) → IsHidden c → IsOffline (fresh_window c)
  unfolding fresh_window
  fresh_window-IsOffline c o = record {
    pace = fresh-IsPaced _ _ o.pace;
    hidden = o.hidden;
    shut = o.shut;
    awake = refl;
  }

  pub check_suspended-IsSteady : (c : Client W) → IsOffline c → IsSteady (check_suspended c)
  unfolding check_suspended IsWait
  check_suspended-IsSteady c o =
      if_holds (λ p. IsSteady (record c { phase = p })) c.suspended _ _
        (λ e. settle c Phase.suspend_wait tt o) (λ e. settle c Phase.connecting tt o)

  pub at_top-IsSteady : (c : Client W) → IsHidden c → IsSteady (at_top c)
  unfolding at_top IsWait is_resting
  at_top-IsSteady c o =
      if_holds IsSteady c.dormant _ _
        (λ e. record {
          pace = o.pace;
          waits = tt;
          visible = inl o.hidden;
          listens = inl o.shut;
          awake = inr refl;
        })
        (λ e.
          check_suspended-IsSteady c
            (record { pace = o.pace; hidden = o.hidden; shut = o.shut; awake = e }))

  pub wake_dormant-IsSteady : (c : Client W) → IsHidden c → IsSteady c → IsSteady (wake_dormant c)
  unfolding wake_dormant
  wake_dormant-IsSteady c o s =
      if_holds IsSteady c.activity _ _
        (λ e. check_suspended-IsSteady (fresh_window c) (fresh_window-IsOffline c o)) (λ e. s)

  pub wake_suspended-IsSteady :
      (c : Client W) → IsOffline c → IsSteady c → IsSteady (wake_suspended c)
  unfolding wake_suspended IsWait
  wake_suspended-IsSteady c o s =
      if_holds IsSteady c.activity _ _
        (λ e. record {
          pace = fresh-IsPaced _ _ o.pace;
          waits = tt;
          visible = inl o.hidden;
          listens = inl o.shut;
          awake = inl o.awake;
        })
        (λ e. s)

  pub wake_backoff-IsSteady : (c : Client W) → IsOffline c → IsSteady c → IsSteady (wake_backoff c)
  unfolding wake_backoff IsWait
  wake_backoff-IsSteady c o s =
      if_holds IsSteady c.activity _ _
        (λ e.
          settle (fresh_window c) Phase.top tt (fresh_window-IsOffline c (IsOffline-IsHidden c o)))
        (λ e. s)
