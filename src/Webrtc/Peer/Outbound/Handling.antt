-- ===== src/Webrtc/Peer/Outbound/Handling.antt =====
-- The parts of the challenge and of the handling of a message in internal/webrtc/peer.go.
use pmux_agent.Base.{
  ◌≡◌, refl, ap, inl, inr, Bool, not, [], ◌∷◌, ◌++◌, Option, none, some, Bytes, if_holds,
  Result-cases, IsIn-append,
}
use pmux_agent.Protocol.Messages.{Message, kind_of, message_type, type_name}
use pmux_agent.Protocol.Codec.{decode_request, is_request}
use pmux_agent.Webrtc.Peer.State.{Platform, Peer, fail_auth, close_via_manager, Frame}
use pmux_agent.Webrtc.Peer.Send.{SendError, is_auth_handshake}
use pmux_agent.Webrtc.Peer.Auth.{
  Transcript, Turn, auth_mac, host_to_mobile, after_random, after_challenge, check_response,
  begin_verify, commit, send_confirm, conclude, dispatch, accept, begin_message, advance,
}
use pmux_agent.Webrtc.Peer.Sent.{SendOutcome, failed, went_out, send_message-SendOutcome}
use pmux_agent.Webrtc.Peer.Possession.{IsProven}
use pmux_agent.Webrtc.Peer.Inbound.{IsSoundRun}
use pmux_agent.Webrtc.Peer.Steps.{Opening}
use pmux_agent.Webrtc.Peer.Outbound.Guarded.{
  IsHandshake, IsOpen, IsOpen-append, IsGuardedAfter, IsGuarded-grow, IsGuarded-turn,
}

module _ (platform : Platform) (secret : Bytes) where
  open platform use {World, msgpack, encode_base64}

  pub fail_auth-IsGuarded :
      (t : Turn) (p : Peer World)
      → IsGuardedAfter platform secret (t, p)
      → IsGuardedAfter platform secret (t, fail_auth p)
  unfolding fail_auth close_via_manager
  fail_auth-IsGuarded t p s =
      if_holds (λ q. IsGuardedAfter platform secret (t, q)) p.auth_resolved _ _ (λ e. s) (λ e. s)

  pub after_random-IsGuarded :
      (t : Turn) (r : Option Bytes × World) (p : Peer World)
      → IsGuardedAfter platform secret (t, p)
      → IsGuardedAfter platform secret (t, (after_random platform r p).1)
  unfolding after_random
  after_random-IsGuarded t (none, w) p s = fail_auth-IsGuarded t (record p { world = w }) s
  after_random-IsGuarded t (some n, w) p s =
      IsGuarded-grow platform secret p.received p.challenges p.received (p.challenges ++ n ∷ []) t
        (λ d i. i) (λ d i. IsIn-append (n ∷ []) i) s

  pub after_challenge-IsGuarded :
      (t : Turn) (r : Option SendError × Peer World)
      → IsGuardedAfter platform secret (t, r.1)
      → IsGuardedAfter platform secret (t, after_challenge platform r)
  unfolding after_challenge
  after_challenge-IsGuarded t (none, p) s = s
  after_challenge-IsGuarded t (some e, p) s = fail_auth-IsGuarded t p s

  pub begin_verify-IsGuarded :
      (m : Message) (p : Peer World)
      → IsGuardedAfter platform secret (Turn.idle, p)
      → IsGuardedAfter platform secret (begin_verify platform m p)
  unfolding begin_verify
  begin_verify-IsGuarded m p s =
      if_holds (IsGuardedAfter platform secret) p.auth_resolved _ _ (λ e. s)
        (λ e. elim (Result-cases (check_response platform m p)) [
          | inl (t, z) ↦ rw z (IsGuarded-turn platform secret (Turn.checked t) tt s)
          | inr (x, z) ↦ rw z (fail_auth-IsGuarded Turn.idle p s)
        ])

  pub accept-IsGuarded :
      (d : Bytes) (p : Peer World)
      → IsGuardedAfter platform secret (Turn.idle, p)
      → IsGuardedAfter platform secret (accept platform d p)
  unfolding accept dispatch
  accept-IsGuarded d p s = elim (Result-cases (decode_request msgpack d)) [
    | inr (x, e) ↦
        rw (e, accept)
          (if_holds (λ q. IsGuardedAfter platform secret (Turn.idle, q)) p.authenticated _ _
            (λ a. s) (λ a. fail_auth-IsGuarded Turn.idle p s))
    | inl (m, e) ↦
        rw (e, accept)
          (if_holds (IsGuardedAfter platform secret) (not p.authenticated) _ _
            (λ a. begin_verify-IsGuarded m p s)
            (λ a.
              if_holds (IsGuardedAfter platform secret) (not (is_request (kind_of m))) _ _ (λ r. s)
                (λ r. IsGuarded-turn platform secret (Turn.dispatching m) tt s)))
  ]

  pub begin_message-IsGuarded :
      (d : Bytes) (p : Peer World)
      → IsGuardedAfter platform secret (Turn.idle, p)
      → IsGuardedAfter platform secret (begin_message platform d p)
  unfolding begin_message
  begin_message-IsGuarded d p s =
      if_holds (IsGuardedAfter platform secret) p.stopped _ _ (λ e. s)
        (λ e.
          accept-IsGuarded d (record p { received = p.received ++ d ∷ [] })
            (IsGuarded-grow platform secret p.received p.challenges (p.received ++ d ∷ [])
              p.challenges Turn.idle (λ c i. IsIn-append (d ∷ []) i) (λ c i. i) s))

  pub auth_confirm-IsHandshake : (m : Bytes) → IsHandshake (Frame.message (Message.auth_confirm m))
  unfolding is_auth_handshake message_type kind_of type_name
  auth_confirm-IsHandshake m = refl

  -- The answer opens the channel.
  pub answer-IsGuarded :
      {h : Bool} {p : Peer World} (t : Transcript) (mac : Bytes) {r : Option SendError × Peer World}
      → mac ≡ encode_base64 (auth_mac platform secret host_to_mobile t)
      → SendOutcome h (Frame.message (Message.auth_confirm mac)) p r
      → IsProven platform secret p.received p.challenges t
      → IsGuardedAfter platform secret (Turn.committed t, p)
      → IsGuardedAfter platform secret (Turn.answered r.0, r.1)
  answer-IsGuarded t mac same (failed e w) proven s =
      IsGuarded-turn platform secret (Turn.answered (some e)) tt s
  answer-IsGuarded {p = p} t mac same (went_out w e) proven s =
      let confirm = Frame.message (Message.auth_confirm mac) in
      let opened : IsOpen platform secret p.received p.challenges (p.sent ++ confirm ∷ []) =
        elim s.frames [
          | inl h ↦ record {
            before = p.sent;
            after = [];
            transcript = t;
            split = rw same refl;
            handshake = h;
            proven = proven;
          }
          | inr o ↦ IsOpen-append platform secret confirm o
        ] in
      record { frames = inr opened; confirmed = λ h. opened; answered = opened }

  pub advance-IsGuarded :
      (t : Turn) (p : Peer World)
      → IsSoundRun platform secret (record { opening = Opening.opened; turn = t; peer = p })
      → IsGuardedAfter platform secret (t, p)
      → IsGuardedAfter platform secret (advance platform (t, p))
  unfolding advance commit send_confirm conclude close_via_manager
  advance-IsGuarded Turn.idle p k s = s
  advance-IsGuarded (Turn.checked t) p k s =
      if_holds (IsGuardedAfter platform secret) p.auth_resolved _ _
        (λ e. IsGuarded-turn platform secret Turn.idle tt s)
        (λ e. IsGuarded-turn platform secret (Turn.committed t) tt s)
  advance-IsGuarded (Turn.committed t) p ((k, _), proven) s =
      answer-IsGuarded t _ (ap (λ x. encode_base64 (auth_mac platform x host_to_mobile t)) k)
        (send_message-SendOutcome platform _ p) proven s
  advance-IsGuarded (Turn.answered none) p k s = record {
    frames = s.frames;
    confirmed = λ h. s.answered;
    answered = tt;
  }
  advance-IsGuarded (Turn.answered (some e)) p k s = IsGuarded-turn platform secret Turn.idle tt s
  advance-IsGuarded (Turn.dispatching m) p k s = IsGuarded-turn platform secret Turn.idle tt s
