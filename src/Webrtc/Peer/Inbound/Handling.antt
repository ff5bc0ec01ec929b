-- ===== src/Webrtc/Peer/Inbound/Handling.antt =====
-- The parts of the challenge and of the handling of a message in internal/webrtc/peer.go.
use pmux_agent.Base.{
  ◌≡◌, refl, ap, subst, ◌∙◌, inl, inr, Bool, not, List, [], ◌∷◌, ◌++◌, Option, none, some, Bytes,
  Bool-cases, if_holds, Result-cases, ok, All-append, IsIn, IsIn-append, IsIn-last, arith,
}
use pmux_agent.Protocol.Messages.{Message, kind_of}
use pmux_agent.Protocol.Codec.{decode_request, is_request}
use pmux_agent.Webrtc.Peer.State.{Platform, Peer, close_via_manager, Frame}
use pmux_agent.Webrtc.Peer.Send.{SendError}
use pmux_agent.Webrtc.Peer.Auth.{
  Transcript, Turn, auth_mac, mobile_to_host, after_random, begin_challenge, after_challenge,
  check_response, begin_verify, commit, send_confirm, conclude, dispatch, accept, begin_message,
  advance,
}
use pmux_agent.Webrtc.Peer.Sent.{SendOutcome, failed, went_out, send_message-SendOutcome}
use pmux_agent.Webrtc.Peer.Possession.{IsProven, Checked, check_response_sound}
use pmux_agent.Webrtc.Peer.Inbound.Sound.{
  IsRequest, Evidence, IsSound, IsSoundPeer, IsSoundAfter, fail_auth-IsSoundPeer, IsSound-grow,
  IsSoundTurn-grow, SendOutcome-IsSoundPeer, fail_auth-IsSoundAfter,
}

module _ (platform : Platform) (secret : Bytes) where
  open platform use {World, msgpack}

  pub after_random-IsSoundAfter :
      (t : Turn) (r : Option Bytes × World) (p : Peer World)
      → IsSoundAfter platform secret (t, p)
      → IsSoundAfter platform secret (t, (after_random platform r p).1)
  unfolding after_random
  after_random-IsSoundAfter t (none, w) p s =
      fail_auth-IsSoundAfter platform secret t (record p { world = w }) s
  after_random-IsSoundAfter t (some n, w) p ((k, s), h) =
      let xs : List Bytes = p.received in
      let cs : List Bytes = p.challenges in
      let ds : List Bytes = cs ++ n ∷ [] in
      let same : (d : Bytes) → IsIn d xs → IsIn d xs = λ d i. i in
      let more : (d : Bytes) → IsIn d cs → IsIn d ds = λ d i. IsIn-append (n ∷ []) i in
      let grown : IsSound platform secret xs ds p.auth_nonce p.authenticated p.handled =
        IsSound-grow platform secret xs cs xs ds same more s in
      (
        (
          k,
          record {
            nonce = inr (IsIn-last n cs);
            authenticated = grown.authenticated;
            requests = s.requests;
            handled = grown.handled;
          },
        ),
        (IsSoundTurn-grow platform secret) xs cs xs ds same more t h,
      )

  pub begin_challenge-IsSoundAfter :
      (t : Turn) (p : Peer World)
      → IsSoundAfter platform secret (t, p)
      → IsSoundAfter platform secret (t, (begin_challenge platform p).1)
  unfolding begin_challenge
  begin_challenge-IsSoundAfter t p s = after_random-IsSoundAfter t _ p s

  pub after_challenge-IsSoundAfter :
      (t : Turn) (p : Peer World) (h : Bool) (f : Frame) (r : Option SendError × Peer World)
      → SendOutcome h f p r
      → IsSoundAfter platform secret (t, p)
      → IsSoundAfter platform secret (t, after_challenge platform r)
  unfolding after_challenge
  after_challenge-IsSoundAfter t p h f r (failed e w) s =
      fail_auth-IsSoundAfter platform secret t (record p { world = w }) s
  after_challenge-IsSoundAfter t p h f r (went_out w e) s = s

  pub Checked-IsProven :
      (m : Message) (d : Bytes) (p : Peer World) (t : Transcript)
      → decode_request msgpack d ≡ ok m
      → IsIn d p.received
      → IsSoundPeer platform secret p
      → Checked platform m p t
      → IsProven platform secret p.received p.challenges t
  Checked-IsProven m d p t e i (k, s) c = record {
    packet = d;
    response = c.response;
    delivered = i;
    decoded = e ∙ ap ok c.kind;
    fresh = elim s.nonce [
      | inl q ↦ absurd (let g = c.challenged in ground (arith, g))
      | inr q ↦ rw c.host q
    ];
    nonce = c.nonce;
    full = c.full;
    mac =
        subst
          (λ k. platform.decode_base64 c.response.mac ≡ some (auth_mac platform k mobile_to_host t))
          k c.mac;
  }

  pub begin_verify-IsSoundAfter :
      (m : Message) (d : Bytes) (p : Peer World)
      → decode_request msgpack d ≡ ok m
      → IsIn d p.received
      → IsSoundPeer platform secret p
      → IsSoundAfter platform secret (begin_verify platform m p)
  unfolding begin_verify
  begin_verify-IsSoundAfter m d p e i (k, s) = elim (Bool-cases p.auth_resolved) [
    | inl y ↦ rw y ((k, s), tt)
    | inr y ↦ elim (Result-cases (check_response platform m p)) [
      | inr (x, z) ↦ rw (y, z) (fail_auth-IsSoundPeer platform secret p (k, s), tt)
      | inl (t, z) ↦
          let proven =
            Checked-IsProven m d p t e i (k, s) (check_response_sound platform m p t z) in
          rw (y, z) ((k, s), proven)
    ]
  ]

  pub dispatch-IsSoundAfter :
      (m : Message) (p : Peer World)
      → IsSoundPeer platform secret p
      → Evidence platform secret p.received p.challenges
      → IsSoundAfter platform secret (dispatch platform m p)
  unfolding dispatch
  dispatch-IsSoundAfter m p s e =
      if_holds (IsSoundAfter platform secret) (not (is_request (kind_of m))) _ _ (λ r. (s, tt))
        (λ r. (s, (ground arith, e)))

  pub accept-IsSoundAfter :
      (d : Bytes) (p : Peer World)
      → IsIn d p.received
      → IsSoundPeer platform secret p
      → IsSoundAfter platform secret (accept platform d p)
  unfolding accept dispatch
  accept-IsSoundAfter d p i (k, s) = elim (Result-cases (decode_request msgpack d)) [
    | inr (x, e) ↦
        rw (e, accept)
          (if_holds (λ q. IsSoundAfter platform secret (Turn.idle, q)) p.authenticated _ _
            (λ a. ((k, s), tt)) (λ a. (fail_auth-IsSoundPeer platform secret p (k, s), tt)))
    | inl (m, e) ↦
        rw (e, accept)
          (if_holds (IsSoundAfter platform secret) (not p.authenticated) _ _
            (λ a. begin_verify-IsSoundAfter m d p e i (k, s))
            (λ a. dispatch-IsSoundAfter m p (k, s) (s.authenticated (ground arith))))
  ]

  pub begin_message-IsSoundAfter :
      (d : Bytes) (p : Peer World)
      → IsSoundPeer platform secret p
      → IsSoundAfter platform secret (begin_message platform d p)
  unfolding begin_message
  begin_message-IsSoundAfter d p (k, s) =
      let xs : List Bytes = p.received in
      let ys : List Bytes = xs ++ d ∷ [] in
      let cs : List Bytes = p.challenges in
      let more : (c : Bytes) → IsIn c xs → IsIn c ys = λ c i. IsIn-append (d ∷ []) i in
      if_holds (IsSoundAfter platform secret) p.stopped _ _ (λ e. ((k, s), tt))
        (λ e.
          accept-IsSoundAfter d (record p { received = ys }) (IsIn-last d xs)
            (k, (IsSound-grow platform secret) xs cs ys cs more (λ c i. i) s))

  pub advance-IsSoundAfter :
      (t : Turn) (p : Peer World)
      → IsSoundAfter platform secret (t, p)
      → IsSoundAfter platform secret (advance platform (t, p))
  unfolding advance commit send_confirm conclude close_via_manager
  advance-IsSoundAfter Turn.idle p s = s
  advance-IsSoundAfter (Turn.checked t) p ((k, s), e) = elim (Bool-cases p.auth_resolved) [
    | inl y ↦ rw y ((k, s), tt)
    | inr y ↦ rw y (
      (
        k,
        record {
          nonce = inl refl;
          authenticated = λ h. (t, e);
          requests = s.requests;
          handled = s.handled;
        },
      ),
      e,
    )
  ]
  advance-IsSoundAfter (Turn.committed t) p (s, h) =
      (SendOutcome-IsSoundPeer platform secret (send_message-SendOutcome platform _ p) s, tt)
  advance-IsSoundAfter (Turn.answered none) p (s, h) = (s, tt)
  advance-IsSoundAfter (Turn.answered (some e)) p ((k, s), h) = (
    (
      k,
      record {
        nonce = s.nonce;
        authenticated = λ h. absurd cc;
        requests = s.requests;
        handled = s.handled;
      },
    ),
    tt,
  )
  advance-IsSoundAfter (Turn.dispatching m) p ((k, s), (r, e)) = (
    (
      k,
      record {
        nonce = s.nonce;
        authenticated = s.authenticated;
        requests = All-append IsRequest p.handled (m ∷ []) s.requests (r, tt);
        handled = inr e;
      },
    ),
    tt,
  )
