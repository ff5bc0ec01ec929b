-- ===== src/Webrtc/Tests/Signals.antt =====
-- Tests of the signaling client of internal/webrtc/signaling.go: a connection, a sleep, and failures.
use pmux_agent.Base.{ℕ, pos, ◌≡◌, refl, true, List, [], ◌∷◌, none, some, codes, ok, arith, ◌⊎◌}
use pmux_agent.Strings.{split}
use pmux_agent.Webrtc.Signaling.State.{
  Server, RequestError, AuthReply, Phase, new_signaling_client, resume,
}
use pmux_agent.Webrtc.Signaling.Token.{parse_jwt_expiry}
use pmux_agent.Webrtc.Signaling.Loop.{proceed}
use pmux_agent.Webrtc.Signaling.Steps.{Event, happen_all}
use pmux_agent.Webrtc.Signaling.Wake.{is_waiting, IsReady, resumed-IsReady}

-- The world is the clock; a token expires after 1000 seconds.
abbrev small : Server
small = record {
  World = ℕ;
  exchange_token = λ w. (ok (codes "h.p.s"), w);
  dial = λ w. (none, w);
  auth_reply = λ jwt w. (AuthReply.accepted, w);
  random = λ n w. 0;
  random-le = λ n w. omega arith;
  now = λ w. w;
  decode_base64_url = λ b. some b;
  exp_claim = λ b. some (pos 1000);
}

-- The same, but no connection is made.
abbrev down : Server
down = record {
  World = ℕ;
  exchange_token = λ w. (ok (codes "h.p.s"), w);
  dial = λ w. (some RequestError.failed, w);
  auth_reply = λ jwt w. (AuthReply.accepted, w);
  random = λ n w. 0;
  random-le = λ n w. omega arith;
  now = λ w. w;
  decode_base64_url = λ b. some b;
  exp_claim = λ b. some (pos 1000);
}

abbrev connecting : List (Event × ℕ)
connecting = (Event.proceeded, 0) ∷ (Event.proceeded, 0) ∷ (Event.proceeded, 7) ∷ []

abbrev sleeping : List (Event × ℕ)
sleeping =
    (Event.proceeded, 0)
    ∷ (Event.proceeded, 0)
    ∷ (Event.slept, 0)
    ∷ (Event.proceeded, 7)
    ∷ (Event.proceeded, 8)
    ∷ []

is_connected : (happen_all small connecting (new_signaling_client 0 0)).connected ≡ true
unfolding happen_all new_signaling_client
is_connected = refl

is_serving_since : (happen_all small connecting (new_signaling_client 0 0)).phase ≡ Phase.serving 7
unfolding happen_all new_signaling_client
is_serving_since = refl

-- A host that goes to sleep while the client authenticates.
is_suspended : (happen_all small sleeping (new_signaling_client 0 0)).phase ≡ Phase.suspend_wait
unfolding happen_all new_signaling_client
is_suspended = refl

abbrev closed_early : List (Event × ℕ)
closed_early =
    (Event.closed, 0)
    ∷ (Event.proceeded, 0)
    ∷ (Event.proceeded, 0)
    ∷ (Event.proceeded, 7)
    ∷ (Event.slept, 8)
    ∷ []

-- A client that was closed before it connected, and a host that then goes to sleep.
awake_in_sleep :
    let c = happen_all small closed_early (new_signaling_client 0 0) in
    (c.connected ≡ true) × (c.is_open ≡ true) × (c.phase ≡ Phase.serving 7)
unfolding happen_all new_signaling_client
awake_in_sleep = (refl, refl, refl)

first_wait : (happen_all down connecting (new_signaling_client 4 0)).phase ≡ Phase.backing_off 0 4
unfolding happen_all new_signaling_client
first_wait = refl

next_backoff :
    (happen_all down
      ((Event.proceeded, 0) ∷ (Event.proceeded, 0) ∷ (Event.waited, 5) ∷ [])
      (new_signaling_client 4 0)).backoff
    ≡ 8
unfolding happen_all new_signaling_client
next_backoff = refl

expiry : parse_jwt_expiry small (codes "h.p.s") ≡ some 1000000000000
unfolding parse_jwt_expiry split
expiry = refl

resumed-IsReady_example :
    let c = resume (happen_all small sleeping (new_signaling_client 0 0)) in
    IsReady (proceed small c) ⊎ IsReady (proceed small (proceed small c))
unfolding happen_all new_signaling_client is_waiting
resumed-IsReady_example = resumed-IsReady small sleeping 0 0 refl
