-- ===== src/Webrtc/Peer/Inbound.antt =====
-- What the handler is given by a peer of internal/webrtc/peer.go, in every order of events.
pub mod Sound
pub mod Handling
use pmux_agent.Base.{
  ◌≡◌, refl, ap, subst, ◌∙◌, inl, inr, ◌⊎◌, Bool, true, not, List, [], ◌∷◌, ◌++◌, Option, none,
  some, Bytes, Bool-cases, if_holds, Result-cases, ok, All, All-append, IsIn, IsIn-append,
  IsIn-last, arith,
}
use pmux_agent.Protocol.Messages.{Message, kind_of}
use pmux_agent.Protocol.Codec.{decode_request, is_request}
use pmux_agent.Webrtc.Peer.State.{
  Platform, Peer, fail_auth, close_via_manager, release_sends, stop_dispatch, close, new_peer,
  Frame,
}
use pmux_agent.Webrtc.Peer.Send.{SendError}
use pmux_agent.Webrtc.Peer.Auth.{
  Transcript, Turn, auth_mac, mobile_to_host, after_random, begin_challenge, after_challenge,
  send_challenge, check_response, begin_verify, commit, send_confirm, conclude, dispatch, accept,
  begin_message, advance,
}
use pmux_agent.Webrtc.Peer.Sent.{
  SendOutcome, failed, went_out, send_message-SendOutcome, send_raw-SendOutcome,
}
use pmux_agent.Webrtc.Peer.Possession.{IsProven, IsProven-grow, Checked, check_response_sound}
use pmux_agent.Webrtc.Peer.Steps.{
  Run, Step, open_channel, challenge, deliver, proceed, timeout, send, send_bytes, release, stop,
  shut, elsewhere, start, Reach, here, next,
}
use pmux_agent.Webrtc.Peer.Inbound.Sound.{
  IsRequest, Evidence, IsSoundTurn, IsSound, IsSoundPeer, IsSoundAfter, fail_auth-IsSoundPeer,
  Evidence-grow, IsSound-grow, IsSoundTurn-grow, SendOutcome-IsSoundPeer, SendOutcome-IsSoundAfter,
  fail_auth-IsSoundAfter,
}
use pmux_agent.Webrtc.Peer.Inbound.Handling.{
  after_random-IsSoundAfter, begin_challenge-IsSoundAfter, after_challenge-IsSoundAfter,
  Checked-IsProven, begin_verify-IsSoundAfter, dispatch-IsSoundAfter, accept-IsSoundAfter,
  begin_message-IsSoundAfter, advance-IsSoundAfter,
}

module _ (platform : Platform) (secret : Bytes) where
  open platform use {World, msgpack}

  abbrev pub IsSoundRun : Run World → Type 0
  IsSoundRun r = IsSoundAfter platform secret (r.turn, r.peer)

  close-IsSoundAfter :
      (t : Turn) (p : Peer World)
      → IsSoundAfter platform secret (t, p)
      → IsSoundAfter platform secret (t, close p)
  unfolding close
  close-IsSoundAfter t p s =
      if_holds (λ q. IsSoundAfter platform secret (t, q)) p.closed _ _ (λ e. s) (λ e. s)

  Step-IsSoundRun : {r q : Run World} → Step platform r q → IsSoundRun r → IsSoundRun q
  unfolding stop_dispatch release_sends send_challenge
  Step-IsSoundRun (open_channel t p) s = begin_challenge-IsSoundAfter platform secret t p s
  Step-IsSoundRun (challenge nonce t p) s =
      after_challenge-IsSoundAfter platform secret t p _ _ _ (send_message-SendOutcome platform _ p)
        s
  Step-IsSoundRun (deliver o d p) (s, h) = begin_message-IsSoundAfter platform secret d p s
  Step-IsSoundRun (proceed o t p) s = advance-IsSoundAfter platform secret t p s
  Step-IsSoundRun (timeout r) s = fail_auth-IsSoundAfter platform secret r.turn r.peer s
  Step-IsSoundRun (send r m e) s =
      SendOutcome-IsSoundAfter platform secret r.turn (send_message-SendOutcome platform m r.peer) s
  Step-IsSoundRun (send_bytes r d) s =
      SendOutcome-IsSoundAfter platform secret r.turn (send_raw-SendOutcome platform d r.peer) s
  Step-IsSoundRun (release r) s = s
  Step-IsSoundRun (stop o p) s = s
  Step-IsSoundRun (shut r) s = close-IsSoundAfter r.turn r.peer s
  Step-IsSoundRun (elsewhere r w) s = s

  pub Reach-IsSoundRun :
      {device : Bytes} {r : Run World} → Reach platform device secret r → IsSoundRun r
  unfolding start new_peer
  Reach-IsSoundRun (here w) = (
    (
      refl,
      record {
        nonce = inl refl;
        authenticated = λ h. absurd cc;
        requests = tt;
        handled = inl refl;
      },
    ),
    tt,
  )
  Reach-IsSoundRun (next r st) = Step-IsSoundRun st (Reach-IsSoundRun r)

-- In whatever order the data channel opens and delivers, timers fire, messages are sent and the peer
-- is stopped and closed: the handler of a peer is given requests only, and none before the channel
-- delivered an auth response whose MAC is that of the pairing secret over the mobile's label, a nonce
-- that this peer was challenged with, a mobile nonce of 32 bytes and two fingerprints.
pub handled-IsProven :
    (platform : Platform) (device secret : Bytes) (r : Run platform.World)
    → Reach platform device secret r
    → All IsRequest r.peer.handled
      × ((r.peer.handled ≡ [])
          ⊎ ((t : Transcript) × IsProven platform secret r.peer.received r.peer.challenges t))
handled-IsProven platform device secret r reached =
    let ((k, s), h) = Reach-IsSoundRun platform secret reached in (s.requests, s.handled)
