-- ===== src/Webrtc/Signaling/Serving.antt =====
-- What one attempt of `connectAndServe` in internal/webrtc/signaling.go leaves, and a refresh.
use pmux_agent.Base.{
  ℕ, ◌-◌, ◌/◌, ◌≡◌, inl, inr, refl, Bool, true, false, Option, none, some, Bytes, leb, if_holds,
  Result, ok, err, arith,
}
use pmux_agent.Webrtc.Signaling.State.{
  Server, RequestError, AuthReply, StopReason, Phase, Client, dormancy_timeout,
  stable_connection_threshold,
}
use pmux_agent.Webrtc.Signaling.Token.{ensure_token, is_fresh, keep_token}
use pmux_agent.Webrtc.Signaling.Loop.{
  Served, doubled, jitter, begin_backoff, failing_since, dormant_or_wait, count_failure,
  after_served, request_failed, after_reply, after_dial, after_token, expose, connection_lost,
  backoff_over,
}
use pmux_agent.Webrtc.Signaling.Pace.{
  settle, is_serving, is_resting, IsWait, IsPaced, IsSteady, IsOffline, fresh-IsPaced,
  doubled-IsPaced,
}

module _ (server : Server) where
  open server use {World, random}

  pub world-IsOffline :
      (c : Client World) (w : World) → IsOffline c → IsOffline (record c { world = w })
  world-IsOffline c w o = record {
    pace = o.pace;
    hidden = o.hidden;
    shut = o.shut;
    awake = o.awake;
  }

  pub begin_backoff-IsSteady : (c : Client World) → IsOffline c → IsSteady (begin_backoff server c)
  unfolding begin_backoff jitter IsWait
  begin_backoff-IsSteady c o =
      let l = server.random-le (c.backoff / 2) c.world in
      settle c _ (omega (arith, l), omega (arith, l)) o

  pub dormant_or_wait-IsSteady :
      (b : Bool) (c : Client World) → IsOffline c → IsSteady (dormant_or_wait server b c)
  unfolding dormant_or_wait IsWait is_resting
  dormant_or_wait-IsSteady true c o = record {
    pace = o.pace;
    waits = tt;
    visible = inl o.hidden;
    listens = inl o.shut;
    awake = inr refl;
  }
  dormant_or_wait-IsSteady false c o = begin_backoff-IsSteady c o

  pub count_failure-IsSteady : (c : Client World) → IsOffline c → IsSteady (count_failure server c)
  unfolding count_failure
  count_failure-IsSteady c o =
      let t = server.now c.world in
      let since = failing_since server c.failure_start t in
      dormant_or_wait-IsSteady (leb dormancy_timeout (t - since))
        (record c { failure_start = some since })
        (record { pace = o.pace; hidden = o.hidden; shut = o.shut; awake = o.awake })

  pub after_served-IsSteady :
      (r : Served) (c : Client World) → IsOffline c → IsSteady (after_served server r c)
  unfolding after_served IsWait
  after_served-IsSteady Served.suspended_meanwhile c o = settle c Phase.top tt o
  after_served-IsSteady Served.credentials_refused c o =
      settle c (Phase.stopped StopReason.credentials_rejected) tt o
  after_served-IsSteady (Served.lost true) c o =
      begin_backoff-IsSteady (record c { backoff = c.start_backoff; failure_start = none })
        (record {
          pace = fresh-IsPaced _ _ o.pace;
          hidden = o.hidden;
          shut = o.shut;
          awake = o.awake;
        })
  after_served-IsSteady (Served.lost false) c o = count_failure-IsSteady c o

  pub after_reply-IsSteady :
      (r : AuthReply × World) (c : Client World) → IsOffline c → IsSteady (after_reply server r c)
  unfolding after_reply IsWait
  after_reply-IsSteady (AuthReply.accepted, w) c o = record {
    pace = o.pace;
    waits = tt;
    visible = inl o.hidden;
    listens = inl o.shut;
    awake = inl o.awake;
  }
  after_reply-IsSteady (AuthReply.refused, w) c o =
      after_served-IsSteady (Served.lost false) (record c { jwt_expiry = none; world = w })
        (record { pace = o.pace; hidden = o.hidden; shut = o.shut; awake = o.awake })
  after_reply-IsSteady (AuthReply.closed_4001, w) c o =
      after_served-IsSteady (Served.lost false) (record c { jwt_expiry = none; world = w })
        (record { pace = o.pace; hidden = o.hidden; shut = o.shut; awake = o.awake })
  after_reply-IsSteady (AuthReply.not_sent, w) c o =
      after_served-IsSteady (Served.lost false) (record c { world = w }) (world-IsOffline c w o)
  after_reply-IsSteady (AuthReply.unread, w) c o =
      after_served-IsSteady (Served.lost false) (record c { world = w }) (world-IsOffline c w o)
  after_reply-IsSteady (AuthReply.malformed, w) c o =
      after_served-IsSteady (Served.lost false) (record c { world = w }) (world-IsOffline c w o)

  pub after_dial-IsSteady :
      (r : Option RequestError × World) (c : Client World)
      → IsOffline c
      → IsSteady (after_dial server r c)
  unfolding after_dial
  after_dial-IsSteady (some e, w) c o =
      after_served-IsSteady (request_failed server e) (record c { world = w })
        (world-IsOffline c w o)
  after_dial-IsSteady (none, w) c o =
      after_reply-IsSteady (server.auth_reply c.jwt w) (record c { world = w })
        (world-IsOffline c w o)

  pub after_token-IsSteady :
      (r : Option RequestError × Client World) → IsOffline r.1 → IsSteady (after_token server r)
  unfolding after_token
  after_token-IsSteady (some e, c) o = after_served-IsSteady (request_failed server e) c o
  after_token-IsSteady (none, c) o = after_dial-IsSteady (server.dial c.world) c o

  pub keep_token-IsOffline :
      (r : Result RequestError Bytes × World) (c : Client World)
      → IsOffline c
      → IsOffline (keep_token server r c).1
  unfolding keep_token
  keep_token-IsOffline (err e, w) c o = record {
    pace = o.pace;
    hidden = o.hidden;
    shut = o.shut;
    awake = o.awake;
  }
  keep_token-IsOffline (ok token, w) c o = record {
    pace = o.pace;
    hidden = o.hidden;
    shut = o.shut;
    awake = o.awake;
  }

  pub ensure_token-IsOffline :
      (c : Client World) → IsOffline c → IsOffline (ensure_token server c).1
  unfolding ensure_token
  ensure_token-IsOffline c o =
      if_holds (λ (r : Option RequestError × Client World). IsOffline r.1) (is_fresh server c) _ _
        (λ e. o) (λ e. keep_token-IsOffline _ c o)

  pub expose-IsSteady : (c : Client World) → IsOffline c → IsSteady (expose server c)
  unfolding expose IsWait is_serving
  expose-IsSteady c o =
      if_holds IsSteady c.suspended _ _ (λ e. after_served-IsSteady Served.suspended_meanwhile c o)
        (λ e. record {
          pace = o.pace;
          waits = tt;
          visible = inr refl;
          listens = inr (refl, e);
          awake = inl o.awake;
        })

  pub connection_lost-IsSteady :
      (since : ℕ) (c : Client World)
      → IsPaced c.start_backoff c.backoff
      → c.dormant ≡ false
      → IsSteady (connection_lost server since c)
  unfolding connection_lost
  connection_lost-IsSteady since c p d =
      after_served-IsSteady
        (Served.lost (leb stable_connection_threshold (server.now c.world - since)))
        (record c { connected = false; is_open = false })
        (record { pace = p; hidden = refl; shut = refl; awake = d })

  pub backoff_over-IsSteady :
      (since : ℕ) (c : Client World) → IsOffline c → IsSteady (backoff_over server since c)
  unfolding backoff_over IsWait
  backoff_over-IsSteady since c o =
      let paced =
        if_holds (IsPaced c.start_backoff) (leb (c.backoff / 2) (server.now c.world - since))
          (doubled c.backoff) c.backoff (λ e. doubled-IsPaced _ _ o.pace) (λ e. o.pace) in
      record {
        pace = paced;
        waits = tt;
        visible = inl o.hidden;
        listens = inl o.shut;
        awake = inl o.awake;
      }
