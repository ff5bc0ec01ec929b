-- ===== src/Webrtc/Signaling/Loop.antt =====
-- `Run` and `connectAndServe` of internal/webrtc/signaling.go, cut where they wait.
use pmux_agent.Base.{
  ℕ, suc, ◌*◌, ◌+◌, ◌-◌, ◌/◌, Bool, true, false, Option, none, some, leb, if◌then◌else◌,
}
use pmux_agent.Webrtc.Signaling.State.{
  Server, RequestError, AuthReply, StopReason, Phase, Client, max_backoff, dormancy_timeout,
  stable_connection_threshold,
}
use pmux_agent.Webrtc.Signaling.Token.{ensure_token}

-- How `connectAndServe` ends: `lost` after a connection that was up long enough or not.
pub data Served : Type 0 where
  suspended_meanwhile credentials_refused : Served
  lost : Bool → Served

-- The growth of the backoff.
unfoldable pub doubled : ℕ → ℕ
doubled b = if leb (2 * b) max_backoff then 2 * b else max_backoff

module _ {W : Type 0} where
  -- A wake grants a fresh window of retries.
  unfoldable pub fresh_window : Client W → Client W
  fresh_window c = record c {
    activity = false;
    dormant = false;
    failure_start = none;
    backoff = c.start_backoff;
  }

  unfoldable pub check_suspended : Client W → Client W
  check_suspended c = record c {
    phase = if c.suspended then Phase.suspend_wait else Phase.connecting;
  }

  unfoldable pub at_top : Client W → Client W
  unfolding check_suspended
  at_top c = if c.dormant then record c { phase = Phase.dormant_wait } else check_suspended c

  -- The three waits, when there is a signal in the channel.
  unfoldable pub wake_dormant : Client W → Client W
  unfolding fresh_window check_suspended
  wake_dormant c = if c.activity then check_suspended (fresh_window c) else c

  -- The wake from a suspension leaves the mark of dormancy alone.
  unfoldable pub wake_suspended : Client W → Client W
  wake_suspended c =
      if c.activity
      then record c {
        activity = false;
        failure_start = none;
        backoff = c.start_backoff;
        phase = Phase.top;
      }
      else c

  unfoldable pub wake_backoff : Client W → Client W
  unfolding fresh_window
  wake_backoff c = if c.activity then record (fresh_window c) { phase = Phase.top } else c

module _ (server : Server) where
  open server use {World, dial, auth_reply, random, now}

  unfoldable pub jitter : ℕ → World → ℕ
  jitter d w = d + random (suc (d / 2)) w

  unfoldable pub begin_backoff : Client World → Client World
  unfolding jitter
  begin_backoff c = record c { phase = Phase.backing_off (now c.world) (jitter c.backoff c.world) }

  unfoldable pub failing_since : Option ℕ → ℕ → ℕ
  failing_since none t = t
  failing_since (some s) t = s

  unfoldable pub dormant_or_wait : Bool → Client World → Client World
  unfolding begin_backoff
  dormant_or_wait true c = record c { dormant = true; phase = Phase.top }
  dormant_or_wait false c = begin_backoff c

  -- A failed attempt: after long enough the client goes dormant.
  unfoldable pub count_failure : Client World → Client World
  unfolding failing_since dormant_or_wait
  count_failure c =
      let t = now c.world in
      let since = failing_since c.failure_start t in
      dormant_or_wait (leb dormancy_timeout (t - since)) (record c { failure_start = some since })

  unfoldable pub after_served : Served → Client World → Client World
  unfolding begin_backoff count_failure
  after_served Served.suspended_meanwhile c = record c { phase = Phase.top }
  after_served Served.credentials_refused c = record c {
    phase = Phase.stopped StopReason.credentials_rejected;
  }
  after_served (Served.lost true) c =
      begin_backoff (record c { backoff = c.start_backoff; failure_start = none })
  after_served (Served.lost false) c = count_failure c

  unfoldable pub request_failed : RequestError → Served
  request_failed RequestError.rejected = Served.credentials_refused
  request_failed RequestError.failed = Served.lost false

  -- The reply to the authentication; only a refusal makes the token expire.
  unfoldable pub after_reply : AuthReply × World → Client World → Client World
  unfolding after_served
  after_reply (AuthReply.accepted, w) c = record c { phase = Phase.authenticated; world = w }
  after_reply (AuthReply.refused, w) c =
      after_served (Served.lost false) (record c { jwt_expiry = none; world = w })
  after_reply (AuthReply.closed_4001, w) c =
      after_served (Served.lost false) (record c { jwt_expiry = none; world = w })
  after_reply (AuthReply.not_sent, w) c = after_served (Served.lost false) (record c { world = w })
  after_reply (AuthReply.unread, w) c = after_served (Served.lost false) (record c { world = w })
  after_reply (AuthReply.malformed, w) c = after_served (Served.lost false) (record c { world = w })

  unfoldable pub after_dial : Option RequestError × World → Client World → Client World
  unfolding after_reply request_failed
  after_dial (some e, w) c = after_served (request_failed e) (record c { world = w })
  after_dial (none, w) c = after_reply (auth_reply c.jwt w) (record c { world = w })

  unfoldable pub after_token : Option RequestError × Client World → Client World
  unfolding after_dial
  after_token (some e, c) = after_served (request_failed e) c
  after_token (none, c) = after_dial (dial c.world) c

  unfoldable pub connect : Client World → Client World
  unfolding after_token ensure_token
  connect c = after_token (ensure_token server c)

  -- The connection becomes visible, unless the host went to sleep meanwhile.
  unfoldable pub expose : Client World → Client World
  unfolding after_served
  expose c =
      if c.suspended
      then after_served Served.suspended_meanwhile c
      else record c { connected = true; is_open = true; phase = Phase.serving (now c.world) }

  -- The read loop has failed.
  unfoldable pub connection_lost : ℕ → Client World → Client World
  unfolding after_served
  connection_lost since c =
      after_served (Served.lost (leb stable_connection_threshold (now c.world - since)))
        (record c { connected = false; is_open = false })

  -- The wait is over, or so says its timer.
  unfoldable pub backoff_over : ℕ → Client World → Client World
  unfolding doubled
  backoff_over since c = record c {
    backoff = if leb (c.backoff / 2) (now c.world - since) then doubled c.backoff else c.backoff;
    phase = Phase.top;
  }

  -- What the goroutine of `Run` does next; a wait lasts until there is a signal.
  unfoldable pub proceed_at : Phase → Client World → Client World
  unfolding at_top wake_dormant wake_suspended wake_backoff connect expose
  proceed_at Phase.top c = at_top c
  proceed_at Phase.dormant_wait c = wake_dormant c
  proceed_at Phase.suspend_wait c = wake_suspended c
  proceed_at Phase.connecting c = connect c
  proceed_at Phase.authenticated c = expose c
  proceed_at (Phase.serving since) c = c
  proceed_at (Phase.backing_off since wait) c = wake_backoff c
  proceed_at (Phase.stopped reason) c = c

  unfoldable pub proceed : Client World → Client World
  unfolding proceed_at
  proceed c = proceed_at c.phase c

  -- The end of what it waits for: of the connection, or of the backoff.
  unfoldable pub wait_over_at : Phase → Client World → Client World
  unfolding connection_lost backoff_over
  wait_over_at Phase.top c = c
  wait_over_at Phase.dormant_wait c = c
  wait_over_at Phase.suspend_wait c = c
  wait_over_at Phase.connecting c = c
  wait_over_at Phase.authenticated c = c
  wait_over_at (Phase.serving since) c = connection_lost since c
  wait_over_at (Phase.backing_off since wait) c = backoff_over since c
  wait_over_at (Phase.stopped reason) c = c

  unfoldable pub wait_over : Client World → Client World
  unfolding wait_over_at
  wait_over c = wait_over_at c.phase c

  unfoldable pub cancel : Client World → Client World
  cancel c = record c {
    phase = Phase.stopped StopReason.canceled;
    connected = false;
    is_open = false;
  }
