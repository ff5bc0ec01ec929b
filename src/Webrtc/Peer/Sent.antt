-- ===== src/Webrtc/Peer/Sent.antt =====
-- What a send of internal/webrtc/peer.go can do to its peer.
use pmux_agent.Base.{
  ◌≡◌, inl, inr, Bool, true, false, [], ◌∷◌, ◌++◌, Option, none, some, Bytes, Option-cases,
}
use pmux_agent.Protocol.Messages.{Message}
use pmux_agent.Webrtc.Peer.State.{Platform, Frame, Peer}
use pmux_agent.Webrtc.Peer.Send.{
  SendError, is_auth_handshake, refusal, after_send, send_if_open, send_encoded, send_message,
  send_raw,
}

module _ {W : Type 0} where
  -- Either there is an error and nothing went out, or nothing stood against the send and its frame
  -- went out. Nothing else of the peer changes.
  pub data SendOutcome (handshake : Bool) (f : Frame) (p : Peer W)
      : Option SendError × Peer W → Type 0 where
    failed : (e : SendError) (w : W) → SendOutcome handshake f p (some e, record p { world = w })
    went_out :
        (w : W)
        → refusal handshake p ≡ none
        → SendOutcome handshake f p (none, record p { sent = p.sent ++ f ∷ []; world = w })

module _ (platform : Platform) where
  open platform use {World, msgpack}

  after_send-SendOutcome :
      (h : Bool) (f : Frame) (p : Peer World)
      → refusal h p ≡ none
      → (r : Bool × World) → SendOutcome h f p (after_send platform f r p)
  unfolding after_send
  after_send-SendOutcome h f p e (true, w) = went_out w e
  after_send-SendOutcome h f p e (false, w) = failed SendError.not_sent w

  send_if_open-SendOutcome :
      (h : Bool) (f : Frame) (d : Bytes) (p : Peer World)
      → refusal h p ≡ none
      → (r : Option SendError × World) → SendOutcome h f p (send_if_open platform f d r p)
  unfolding send_if_open
  send_if_open-SendOutcome h f d p e (some x, w) = failed x w
  send_if_open-SendOutcome h f d p e (none, w) = after_send-SendOutcome h f p e _

  send_encoded-SendOutcome :
      (h : Bool) (m : Message) (p : Peer World)
      → refusal h p ≡ none
      → (o : Option Bytes) → SendOutcome h (Frame.message m) p (send_encoded platform m o p)
  unfolding send_encoded
  send_encoded-SendOutcome h m p e none = failed SendError.bad_message p.world
  send_encoded-SendOutcome h m p e (some d) = send_if_open-SendOutcome h (Frame.message m) d p e _

  pub send_message-SendOutcome :
      (m : Message) (p : Peer World)
      → SendOutcome (is_auth_handshake m) (Frame.message m) p (send_message platform m p)
  unfolding send_message
  send_message-SendOutcome m p = elim (Option-cases (refusal (is_auth_handshake m) p)) [
    | inl e ↦ rw (e, send_message) (send_encoded-SendOutcome (is_auth_handshake m) m p e _)
    | inr (x, e) ↦ rw (e, send_message) (failed x p.world)
  ]

  pub send_raw-SendOutcome :
      (d : Bytes) (p : Peer World) → SendOutcome false (Frame.raw d) p (send_raw platform d p)
  unfolding send_raw
  send_raw-SendOutcome d p = elim (Option-cases (refusal false p)) [
    | inl e ↦ rw (e, send_raw) (send_if_open-SendOutcome false (Frame.raw d) d p e _)
    | inr (x, e) ↦ rw (e, send_raw) (failed x p.world)
  ]
