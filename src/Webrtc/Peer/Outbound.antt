-- ===== src/Webrtc/Peer/Outbound.antt =====
-- What a peer of internal/webrtc/peer.go has sent, in every order of events.
pub mod Guarded
pub mod Handling
use pmux_agent.Base.{
  ℤ, ◌≡◌, refl, ap, subst, inl, inr, ◌⊎◌, Bool, true, false, not, List, [], ◌∷◌, ◌++◌, Option, none,
  some, append_assoc, Bytes, if_holds, Result-cases, All, All-append, IsIn, IsIn-append, arith,
}
use pmux_agent.Protocol.Messages.{Message, kind_of, message_type, type_name}
use pmux_agent.Protocol.Codec.{decode_request, is_request}
use pmux_agent.Webrtc.Peer.State.{
  Platform, Peer, fail_auth, close_via_manager, release_sends, stop_dispatch, close, new_peer,
  Frame,
}
use pmux_agent.Webrtc.Peer.Send.{SendError, is_auth_handshake, refusal}
use pmux_agent.Webrtc.Peer.Auth.{
  Transcript, Turn, auth_mac, host_to_mobile, after_random, begin_challenge, after_challenge,
  send_challenge, check_response, begin_verify, commit, send_confirm, conclude, dispatch, accept,
  begin_message, advance,
}
use pmux_agent.Webrtc.Peer.Sent.{
  SendOutcome, failed, went_out, send_message-SendOutcome, send_raw-SendOutcome,
}
use pmux_agent.Webrtc.Peer.Possession.{IsProven, IsProven-grow}
use pmux_agent.Webrtc.Peer.Inbound.{IsSoundRun, Reach-IsSoundRun}
use pmux_agent.Webrtc.Peer.Steps.{
  Opening, Run, Step, open_channel, challenge, deliver, proceed, timeout, send, send_bytes, release,
  stop, shut, elsewhere, start, Reach, here, next,
}
use pmux_agent.Webrtc.Peer.Outbound.Guarded.{
  IsHandshake, IsOpen, IsOpen-append, IsAnswered, IsGuarded, IsGuardedAfter, IsAnswered-map,
  IsGuarded-grow, IsGuarded-append, refusal-confirmed, SendOutcome-IsGuarded, IsGuarded-turn,
}
use pmux_agent.Webrtc.Peer.Outbound.Handling.{
  fail_auth-IsGuarded, after_random-IsGuarded, after_challenge-IsGuarded, begin_verify-IsGuarded,
  accept-IsGuarded, begin_message-IsGuarded, auth_confirm-IsHandshake, answer-IsGuarded,
  advance-IsGuarded,
}

module _ (platform : Platform) (secret : Bytes) where
  open platform use {World, msgpack, encode_base64}

  auth_challenge-IsHandshake :
      (n : Bytes) (v : ℤ)
      → IsHandshake (Frame.message (Message.auth_challenge (record { nonce = n; version = v })))
  unfolding is_auth_handshake message_type kind_of type_name
  auth_challenge-IsHandshake n v = refl

  abbrev IsGuardedRun : Run World → Type 0
  IsGuardedRun r = IsGuardedAfter platform secret (r.turn, r.peer)

  Step-IsGuardedRun :
      {r q : Run World}
      → Step platform r q
      → IsSoundRun platform secret r
      → IsGuardedRun r
      → IsGuardedRun q
  unfolding stop_dispatch release_sends send_challenge begin_challenge close
  Step-IsGuardedRun (open_channel t p) k s = after_random-IsGuarded platform secret t _ p s
  Step-IsGuardedRun (challenge nonce t p) k s = after_challenge-IsGuarded platform secret t _ (
      SendOutcome-IsGuarded platform secret t (inl (auth_challenge-IsHandshake _ _))
        (send_message-SendOutcome platform _ p) s)
  Step-IsGuardedRun (deliver x d p) k s = begin_message-IsGuarded platform secret d p s
  Step-IsGuardedRun (proceed x t p) k s = advance-IsGuarded platform secret t p k s
  Step-IsGuardedRun (timeout r) k s = fail_auth-IsGuarded platform secret r.turn r.peer s
  Step-IsGuardedRun (send r m e) k s =
      SendOutcome-IsGuarded platform secret r.turn (inr e)
        (send_message-SendOutcome platform m r.peer) s
  Step-IsGuardedRun (send_bytes r d) k s =
      SendOutcome-IsGuarded platform secret r.turn (inr refl)
        (send_raw-SendOutcome platform d r.peer) s
  Step-IsGuardedRun (release r) k s = s
  Step-IsGuardedRun (stop x p) k s = s
  Step-IsGuardedRun (shut r) k s =
      if_holds (λ q. IsGuardedAfter platform secret (r.turn, q)) r.peer.closed _ _ (λ e. s) (λ e. s)
  Step-IsGuardedRun (elsewhere r w) k s = s

  Reach-IsGuardedRun :
      {device : Bytes} {r : Run World} → Reach platform device secret r → IsGuardedRun r
  unfolding start new_peer
  Reach-IsGuardedRun (here w) = record {
    frames = inl tt;
    confirmed = λ h. absurd cc;
    answered = tt;
  }
  Reach-IsGuardedRun (next r st) =
      Step-IsGuardedRun st (Reach-IsSoundRun platform secret r) (Reach-IsGuardedRun r)

-- In every order of events, what a peer has sent is nothing but messages of the handshake, or begins
-- with such messages and an auth_confirm whose MAC is that of the pairing secret over the host's
-- label and a transcript that the mobile has proven: no output, no reply and no raw bytes go out
-- before the answer to an accepted proof.
pub sent-IsOpen :
    (platform : Platform) (device secret : Bytes) (r : Run platform.World)
    → Reach platform device secret r
    → All IsHandshake r.peer.sent
      ⊎ IsOpen platform secret r.peer.received r.peer.challenges r.peer.sent
sent-IsOpen platform device secret r reached = (Reach-IsGuardedRun platform secret reached).frames
