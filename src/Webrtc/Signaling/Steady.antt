-- ===== src/Webrtc/Signaling/Steady.antt =====
-- What every order of events leaves of the signaling client in internal/webrtc/signaling.go.
use pmux_agent.Base.{
  ℕ, ◌-◌, ◌≤◌, ◌≡◌, inl, inr, refl, ap, not, List, [], ◌∷◌, Option, none, some, Bytes, ◌&&◌, leb,
  ltb, if◌then◌else◌, if_holds, Result, ok, err, arith,
}
use pmux_agent.Webrtc.Signaling.State.{
  Server, RequestError, Phase, Client, start_of, new_signaling_client, signal_activity, suspend,
  resume, close,
}
use pmux_agent.Webrtc.Signaling.Token.{
  ensure_token, is_fresh, keep_token, Refresh, after_refresh, needs_refresh, refresh_tick,
}
use pmux_agent.Webrtc.Signaling.Loop.{connect, proceed, proceed_at, wait_over, wait_over_at, cancel}
use pmux_agent.Webrtc.Signaling.Steps.{Event, happen, happen_all}
use pmux_agent.Webrtc.Signaling.Pace.{
  IsSteady-awake, is_serving, is_resting, IsWait, IsSteady, IsSteady-IsHidden, IsSteady-IsOffline,
  at_top-IsSteady, wake_dormant-IsSteady, wake_suspended-IsSteady, wake_backoff-IsSteady,
}
use pmux_agent.Webrtc.Signaling.Serving.{
  after_token-IsSteady, ensure_token-IsOffline, expose-IsSteady, connection_lost-IsSteady,
  backoff_over-IsSteady,
}

module _ (server : Server) where
  open server use {World}

  proceed_at-IsSteady :
      (p : Phase) (c : Client World) → c.phase ≡ p → IsSteady c → IsSteady (proceed_at server p c)
  unfolding proceed_at is_serving is_resting connect
  proceed_at-IsSteady Phase.top c e s = at_top-IsSteady c (IsSteady-IsHidden c (ap is_serving e) s)
  proceed_at-IsSteady Phase.dormant_wait c e s =
      wake_dormant-IsSteady c (IsSteady-IsHidden c (ap is_serving e) s) s
  proceed_at-IsSteady Phase.suspend_wait c e s =
      wake_suspended-IsSteady c (IsSteady-IsOffline c (ap is_serving e) (ap is_resting e) s) s
  proceed_at-IsSteady Phase.connecting c e s =
      after_token-IsSteady server _ (
        ensure_token-IsOffline server c
          (IsSteady-IsOffline c (ap is_serving e) (ap is_resting e) s))
  proceed_at-IsSteady Phase.authenticated c e s =
      expose-IsSteady server c (IsSteady-IsOffline c (ap is_serving e) (ap is_resting e) s)
  proceed_at-IsSteady (Phase.serving since) c e s = s
  proceed_at-IsSteady (Phase.backing_off since wait) c e s =
      wake_backoff-IsSteady c (IsSteady-IsOffline c (ap is_serving e) (ap is_resting e) s) s
  proceed_at-IsSteady (Phase.stopped reason) c e s = s

  wait_over_at-IsSteady :
      (p : Phase) (c : Client World) → c.phase ≡ p → IsSteady c → IsSteady (wait_over_at server p c)
  unfolding wait_over_at is_serving is_resting
  wait_over_at-IsSteady Phase.top c e s = s
  wait_over_at-IsSteady Phase.dormant_wait c e s = s
  wait_over_at-IsSteady Phase.suspend_wait c e s = s
  wait_over_at-IsSteady Phase.connecting c e s = s
  wait_over_at-IsSteady Phase.authenticated c e s = s
  wait_over_at-IsSteady (Phase.serving since) c e s =
      connection_lost-IsSteady server since c s.pace (IsSteady-awake c (ap is_resting e) s)
  wait_over_at-IsSteady (Phase.backing_off since wait) c e s =
      backoff_over-IsSteady server since c
        (IsSteady-IsOffline c (ap is_serving e) (ap is_resting e) s)
  wait_over_at-IsSteady (Phase.stopped reason) c e s = s

  keep_token-IsSteady :
      (r : Result RequestError Bytes × World) (c : Client World)
      → IsSteady c
      → IsSteady (keep_token server r c).1
  unfolding keep_token
  keep_token-IsSteady (err e, w) c s = record {
    pace = s.pace;
    waits = s.waits;
    visible = s.visible;
    listens = s.listens;
    awake = s.awake;
  }
  keep_token-IsSteady (ok token, w) c s = record {
    pace = s.pace;
    waits = s.waits;
    visible = s.visible;
    listens = s.listens;
    awake = s.awake;
  }

  ensure_token-IsSteady : (c : Client World) → IsSteady c → IsSteady (ensure_token server c).1
  unfolding ensure_token
  ensure_token-IsSteady c s =
      if_holds (λ (r : Option RequestError × Client World). IsSteady r.1) (is_fresh server c) _ _
        (λ e. s) (λ e. keep_token-IsSteady (server.exchange_token c.world) c s)

  after_refresh-IsSteady :
      (a : Option RequestError × Client World) (r : Refresh)
      → IsSteady a.1
      → IsSteady (after_refresh server a r).1
  unfolding after_refresh
  after_refresh-IsSteady (none, c) r s = s
  after_refresh-IsSteady (some e, c) r s = s

  refresh_tick-IsSteady :
      (r : Refresh) (c : Client World) → IsSteady c → IsSteady (refresh_tick server r c).1
  unfolding refresh_tick
  refresh_tick-IsSteady r c s =
      let P = λ (a : Refresh × Client World). IsSteady a.1 in
      let due = after_refresh server (ensure_token server c) r in
      if_holds P (ltb 0 r.fail_backoff && ltb (server.now c.world - r.last_failure) r.fail_backoff)
        (r, c) (if not (needs_refresh server c.jwt_expiry c.world) then (r, c) else due) (λ e. s)
        (λ e.
          if_holds P (not (needs_refresh server c.jwt_expiry c.world)) (r, c) due (λ f. s)
            (λ f. after_refresh-IsSteady (ensure_token server c) r (ensure_token-IsSteady c s)))

  world-IsSteady : (c : Client World) (w : World) → IsSteady c → IsSteady (record c { world = w })
  world-IsSteady c w s = record {
    pace = s.pace;
    waits = s.waits;
    visible = s.visible;
    listens = s.listens;
    awake = s.awake;
  }

  happen-IsSteady :
      (e : Event) (w : World) (c : Client World) → IsSteady c → IsSteady (happen server (e, w) c)
  unfolding happen proceed wait_over cancel signal_activity suspend resume close IsWait is_resting
  happen-IsSteady Event.proceeded w c s =
      proceed_at-IsSteady c.phase (record c { world = w }) refl (world-IsSteady c w s)
  happen-IsSteady Event.waited w c s =
      wait_over_at-IsSteady c.phase (record c { world = w }) refl (world-IsSteady c w s)
  happen-IsSteady Event.canceled w c s = record {
    pace = s.pace;
    waits = tt;
    visible = inl refl;
    listens = inl refl;
    awake = inr refl;
  }
  happen-IsSteady (Event.refreshed r) w c s = refresh_tick-IsSteady r _ (world-IsSteady c w s)
  happen-IsSteady Event.signaled w c s = record {
    pace = s.pace;
    waits = s.waits;
    visible = s.visible;
    listens = s.listens;
    awake = s.awake;
  }
  happen-IsSteady Event.slept w c s =
      if_holds IsSteady c.closed _ _ (λ e. s)
        (λ e. record {
          pace = s.pace;
          waits = s.waits;
          visible = s.visible;
          listens = inl refl;
          awake = s.awake;
        })
  happen-IsSteady Event.woke w c s = record {
    pace = s.pace;
    waits = s.waits;
    visible = s.visible;
    listens = elim s.listens [ inl e ↦ inl e | inr (e, f) ↦ inr (e, refl) ];
    awake = s.awake;
  }
  happen-IsSteady Event.closed w c s =
      if_holds IsSteady c.closed _ _ (λ e. s)
        (λ e. record {
          pace = s.pace;
          waits = s.waits;
          visible = s.visible;
          listens = inl refl;
          awake = s.awake;
        })

  happen_all-IsSteady :
      (es : List (Event × World)) (c : Client World)
      → IsSteady c
      → IsSteady (happen_all server es c)
  unfolding happen_all
  happen_all-IsSteady [] c s = s
  happen_all-IsSteady ((e, w) ∷ es) c s = happen_all-IsSteady es _ (happen-IsSteady e w c s)

  start_of-positive : (n : ℕ) → 1 ≤ start_of n
  unfolding start_of
  start_of-positive n =
      if_holds (λ m. 1 ≤ m) (leb n 0) _ _ (λ e. omega arith) (λ e. ground (arith, e))

  pub reachable-IsSteady :
      (es : List (Event × World)) (configured : ℕ) (w : World)
      → IsSteady (happen_all server es (new_signaling_client configured w))
  unfolding new_signaling_client IsWait
  reachable-IsSteady es configured w =
      let p = start_of-positive configured in
      happen_all-IsSteady es _ (record {
        pace = record { start_positive = p; positive = p; bounded = inl (omega arith) };
        waits = tt;
        visible = inl refl;
        listens = inl refl;
        awake = inl refl;
      })
