-- ===== src/Webrtc/Peer/Phases.antt =====
-- What a peer of internal/webrtc/peer.go promises about its authentication, as a protocol of its own,
-- and that every step of the peer is a step of that protocol or none.
pub mod Parts
use pmux_agent.Base.{
  ◌≡◌, refl, sym, inl, inr, Bool, true, false, not, [], ◌∷◌, ◌++◌, Option, none, some, Bytes,
  if_holds, Result-cases, arith,
}
use pmux_agent.Protocol.Messages.{Message, kind_of}
use pmux_agent.Protocol.Codec.{decode_request, is_request}
use pmux_agent.Webrtc.Peer.State.{
  Platform, Peer, fail_auth, close_via_manager, release_sends, stop_dispatch, close, new_peer,
  Frame,
}
use pmux_agent.Webrtc.Peer.Send.{SendError}
use pmux_agent.Webrtc.Peer.Auth.{
  Transcript, Turn, after_random, begin_challenge, after_challenge, send_challenge, check_response,
  begin_verify, commit, send_confirm, conclude, dispatch, accept, begin_message, advance,
}
use pmux_agent.Webrtc.Peer.Sent.{
  SendOutcome, failed, went_out, send_message-SendOutcome, send_raw-SendOutcome,
}
use pmux_agent.Webrtc.Peer.Steps.{
  Run, Step, open_channel, challenge, deliver, proceed, timeout, send, send_bytes, release, stop,
  shut, elsewhere, start, Reach, here, next,
}
use pmux_agent.Webrtc.Peer.Phases.Parts.{
  Phase, Change, phase_of, phase, IsTurnOf, IsOrderly, IsMove, unresolved, refuse-IsMove,
  commit-IsMove, conclude-IsMove, IsOrderlyAfter, Moves, stays, fail_auth-Moves, SendOutcome-Moves,
  after_random-Moves, after_challenge-Moves, begin_verify-Moves, accept-Moves, begin_message-Moves,
  advance-Moves,
}

module _ (platform : Platform) where
  open platform use {World, msgpack}

  abbrev IsOrderlyRun : Run World → Type 0
  IsOrderlyRun r = IsOrderlyAfter platform (r.turn, r.peer)

  Step-Moves :
      {r q : Run World}
      → Step platform r q
      → IsOrderlyRun r
      → Moves platform r.peer (q.turn, q.peer)
  unfolding stop_dispatch release_sends send_challenge begin_challenge close
  Step-Moves (open_channel t p) o = after_random-Moves platform t _ p o
  Step-Moves (challenge nonce t p) o =
      after_challenge-Moves platform t (send_message-SendOutcome platform _ p) o
  Step-Moves (deliver x d p) o = begin_message-Moves platform d p o
  Step-Moves (proceed x t p) o = advance-Moves platform t p o
  Step-Moves (timeout r) o = fail_auth-Moves platform r.turn r.peer o
  Step-Moves (send r m e) o =
      SendOutcome-Moves platform r.turn (send_message-SendOutcome platform m r.peer) o
  Step-Moves (send_bytes r d) o =
      SendOutcome-Moves platform r.turn (send_raw-SendOutcome platform d r.peer) o
  Step-Moves (release r) o = stays platform r.turn r.peer o
  Step-Moves (stop x p) o = stays platform Turn.idle p o
  Step-Moves (shut r) o =
      if_holds (λ q. Moves platform r.peer (r.turn, q)) r.peer.closed _ _
        (λ e. stays platform r.turn r.peer o) (λ e. stays platform r.turn r.peer o)
  Step-Moves (elsewhere r w) o = stays platform r.turn r.peer o

  Reach-IsOrderlyRun :
      {device secret : Bytes} {r : Run World} → Reach platform device secret r → IsOrderlyRun r
  unfolding start new_peer
  Reach-IsOrderlyRun (here w) = record { resolved = λ h. absurd cc; turn = refl }
  Reach-IsOrderlyRun (next r st) = (Step-Moves st (Reach-IsOrderlyRun r)).0

-- Every step from a state that a new peer can reach, whoever takes it, is a step of the protocol of
-- `Change` or leaves the phase as it is: of a proof, a time-out and every other failure, the first
-- one decides; a refused peer stays refused, a confirmed one stays confirmed, and a peer is confirmed
-- only after a proof that was accepted and then answered.
pub phase-Change :
    (platform : Platform) (device secret : Bytes) (r q : Run platform.World)
    → Reach platform device secret r
    → Step platform r q
    → Change (phase r.peer) (phase q.peer)
unfolding phase
phase-Change platform device secret r q reached st =
    (Step-Moves platform st (Reach-IsOrderlyRun platform reached)).1
