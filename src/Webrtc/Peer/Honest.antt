-- ===== src/Webrtc/Peer/Honest.antt =====
-- An honest mobile at a peer of internal/webrtc/peer.go: its proof is accepted and answered, and its
-- next request reaches the handler.
use pmux_agent.Base.{
  ◌≡◌, ◌↔◌, refl, sym, ap, subst, ◌∙◌, Bool, true, false, not, [], ◌∷◌, ◌++◌, Option, none, some,
  Bytes, ltb, if◌then◌else◌, Result, ok, err, length, ◌==◌, str_eq_refl, arith,
}
use pmux_agent.Protocol.Messages.{AuthResponseRequest, Message, kind_of, message_type, type_name}
use pmux_agent.Protocol.Codec.{decode_request, is_request, encode}
use pmux_agent.Webrtc.Peer.State.{Platform, Peer, Frame}
use pmux_agent.Webrtc.Peer.Fingerprints.{fingerprints}
use pmux_agent.Webrtc.Peer.Send.{
  SendError, is_auth_handshake, refusal, send_message, send_encoded, send_if_open, after_send,
  message_gate, max_control_buffered_amount,
}
use pmux_agent.Webrtc.Peer.Auth.{
  AuthError, Transcript, Turn, auth_mac, mobile_to_host, host_to_mobile, auth_response_of,
  wrap_fingerprints, check_response, begin_verify, commit, send_confirm, conclude, dispatch, accept,
  begin_message, advance, handle_data_channel_message,
}
use pmux_agent.Webrtc.Peer.Possession.{Checked, check_response_sound}

if_true {ℓ} : {A : Type ℓ} (b : Bool) (x y : A) → b ≡ true → (if b then x else y) ≡ x
if_true true x y h = refl
if_true false x y h = absurd cc

if_false {ℓ} : {A : Type ℓ} (b : Bool) (x y : A) → b ≡ false → (if b then x else y) ≡ y
if_false false x y h = refl
if_false true x y h = absurd cc

-- What a response with this nonce would be about.
abbrev pub transcript : {W : Type 0} → Peer W → Bytes → Bytes → Bytes → Transcript
transcript p mobile_nonce host_fp mobile_fp = record {
  host_nonce = p.auth_nonce;
  mobile_nonce = mobile_nonce;
  host_fp = host_fp;
  mobile_fp = mobile_fp;
}

from_ok : Transcript → Result AuthError Transcript → Transcript
from_ok u r = elim r [ ok t ↦ t | err e ↦ u ]

module _ (platform : Platform) where
  open platform use {World, msgpack, dtls, sha256, decode_base64, encode_base64, buffered_amount}

  response-checked :
      (r : AuthResponseRequest) (p : Peer World) (mobile_nonce host_fp mobile_fp : Bytes)
      → decode_base64 r.nonce ≡ some mobile_nonce
      → length mobile_nonce ≡ 32
      → (length p.auth_nonce == 0) ≡ false
      → fingerprints sha256 (dtls p.world) ≡ ok (host_fp, mobile_fp)
      → decode_base64 r.mac
        ≡ some (
            auth_mac platform p.shared_secret mobile_to_host
              (transcript p mobile_nonce host_fp mobile_fp))
      → check_response platform (Message.auth_response r) p
        ≡ ok (transcript p mobile_nonce host_fp mobile_fp)
  unfolding check_response auth_response_of wrap_fingerprints
  response-checked r p mn hf mf e full challenged prints mac =
      let full : (length mn == 32) ≡ true = rw full refl in
      let same =
        str_eq_refl (auth_mac platform p.shared_secret mobile_to_host (transcript p mn hf mf)) in
      rw (e, full, mac, challenged, prints, same) refl

  -- The check passes exactly for an auth response whose nonce and MAC decode, whose nonce has
  -- 32 bytes, and whose MAC is that of the secret over the mobile's label and the transcript, while a
  -- challenge is out and the fingerprints of the connection can be read; the transcript is that of
  -- the challenge, the response's nonce and the two fingerprints.
  check_response_iff :
      (m : Message) (p : Peer World) (t : Transcript)
      → (check_response platform m p ≡ ok t) ↔ Checked platform m p t
  check_response_iff m p t = (
    check_response_sound platform m p t,
    λ c.
        let same : transcript p t.mobile_nonce t.host_fp t.mobile_fp ≡ t =
          ap
            (λ n. record {
              host_nonce = n;
              mobile_nonce = t.mobile_nonce;
              host_fp = t.host_fp;
              mobile_fp = t.mobile_fp;
            })
            (sym c.host) in
        let mac =
          subst
            (λ u.
              decode_base64 c.response.mac
              ≡ some (auth_mac platform p.shared_secret mobile_to_host u))
            (sym same) c.mac in
        let found =
          response-checked c.response p t.mobile_nonce t.host_fp t.mobile_fp c.nonce c.full
            c.challenged c.prints mac in
        ap (λ x. check_response platform x p) c.kind ∙ found ∙ ap ok same,
  )

  transcript_of : Transcript → Turn → Transcript
  transcript_of u turn = elim turn [ Turn.committed v ↦ v | _ ↦ u ]

  abbrev pub confirm : Transcript → Peer World → Message
  confirm t p =
      Message.auth_confirm (encode_base64 (auth_mac platform p.shared_secret host_to_mobile t))

  begin_message-checked :
      (d : Bytes) (m : Message) (p : Peer World) (t : Transcript)
      → p.stopped ≡ false
      → p.authenticated ≡ false
      → p.auth_resolved ≡ false
      → decode_request msgpack d ≡ ok m
      → check_response platform m p ≡ ok t
      → begin_message platform d p ≡ (Turn.checked t, record p { received = p.received ++ d ∷ [] })
  unfolding begin_message accept begin_verify check_response
  begin_message-checked d m p t stopped authed resolved e checked =
      if_false p.stopped _ _ stopped
      ∙ rw (e, accept)
          (if_true (not p.authenticated) _ _ (ground arith)
            ∙ if_false p.auth_resolved _ _ resolved
            ∙ rw checked refl)

  send_message-confirm :
      (mac b : Bytes) (p : Peer World)
      → p.closed ≡ false
      → p.has_channel ≡ true
      → encode msgpack (Message.auth_confirm mac) ≡ some b
      → ltb 1048576 (buffered_amount p.world) ≡ false
      → (platform.send b p.world).0 ≡ true
      → send_message platform (Message.auth_confirm mac) p ≡ (
        none,
        record p {
          sent = p.sent ++ Frame.message (Message.auth_confirm mac) ∷ [];
          world = (platform.send b p.world).1;
        },
      )
  unfolding send_message refusal is_auth_handshake message_type kind_of type_name send_encoded
      send_if_open message_gate after_send
  send_message-confirm mac b p closed channel e room went =
      let free : refusal (is_auth_handshake (Message.auth_confirm mac)) p ≡ none = ground arith in
      rw (free, send_message, e, room, went) refl

  -- The peer after a proof that was accepted and answered.
  abbrev proven_peer : Bytes → Transcript → Bytes → Peer World → Peer World
  proven_peer d t b p = record p {
    received = p.received ++ d ∷ [];
    authenticated = true;
    auth_confirmed = true;
    auth_resolved = true;
    auth_nonce = [];
    timer = false;
    sent = p.sent ++ Frame.message (confirm t p) ∷ [];
    world = (platform.send b p.world).1;
  }

  abbrev committed_peer : Bytes → Peer World → Peer World
  committed_peer d p = record p {
    received = p.received ++ d ∷ [];
    authenticated = true;
    auth_resolved = true;
    auth_nonce = [];
    timer = false;
  }

  handle-proof :
      (d : Bytes) (m : Message) (p : Peer World) (t : Transcript) (b : Bytes)
      → p.stopped ≡ false
      → p.authenticated ≡ false
      → p.auth_resolved ≡ false
      → p.closed ≡ false
      → p.has_channel ≡ true
      → decode_request msgpack d ≡ ok m
      → Checked platform m p t
      → encode msgpack (confirm t p) ≡ some b
      → ltb max_control_buffered_amount (buffered_amount p.world) ≡ false
      → (platform.send b p.world).0 ≡ true
      → handle_data_channel_message platform d p ≡ proven_peer d t b p
  unfolding handle_data_channel_message advance commit send_confirm conclude
  handle-proof d m p t b stopped authed resolved closed channel e c e' room went =
      let begun =
        begin_message-checked d m p t stopped authed resolved e ((check_response_iff m p t).1 c) in
      let q = committed_peer d p in
      let sent =
        send_message-confirm (encode_base64 (auth_mac platform p.shared_secret host_to_mobile t)) b
          q closed channel e' room went in
      ap (λ x. (advance platform (advance platform (advance platform x))).1) begun
      ∙ ap (λ x. (advance platform (advance platform x)).1)
          (if_false p.auth_resolved _ (Turn.committed t, q) resolved)
      ∙ ap (λ (x : Option SendError × Peer World). (advance platform (Turn.answered x.0, x.1)).1)
          sent

  handle-request :
      (d : Bytes) (m : Message) (p : Peer World)
      → p.stopped ≡ false
      → p.authenticated ≡ true
      → decode_request msgpack d ≡ ok m
      → is_request (kind_of m) ≡ true
      → (handle_data_channel_message platform d p).handled ≡ p.handled ++ m ∷ []
  unfolding handle_data_channel_message begin_message accept dispatch advance
  handle-request d m p stopped authed e request =
      let q = record p { received = p.received ++ d ∷ [] } in
      let begun : begin_message platform d p ≡ (Turn.dispatching m, q) =
        if_false p.stopped _ _ stopped
        ∙ rw (e, accept)
            (if_false (not p.authenticated) _ _ (ground arith)
              ∙ if_false (not (is_request (kind_of m))) _ _ (ground arith)) in
      ap (λ x. (advance platform (advance platform (advance platform x))).1.handled) begun

-- A peer whose challenge is out and whose authentication is undecided takes an auth response over
-- that challenge with the right MAC, answers it with the host's own proof, and hands the next
-- request to the handler, if the channel is open, the answer can be encoded, its buffer is not over
-- the limit and sending it does not fail.
pub proof_then_request :
    (platform : Platform) (p : Peer platform.World) (d : Bytes) (m : Message) (t : Transcript)
    (b : Bytes) (d' : Bytes) (m' : Message)
    → p.stopped ≡ false
    → p.authenticated ≡ false
    → p.auth_resolved ≡ false
    → p.closed ≡ false
    → p.has_channel ≡ true
    → decode_request platform.msgpack d ≡ ok m
    → Checked platform m p t
    → encode platform.msgpack (confirm platform t p) ≡ some b
    → ltb max_control_buffered_amount (platform.buffered_amount p.world) ≡ false
    → (platform.send b p.world).0 ≡ true
    → decode_request platform.msgpack d' ≡ ok m'
    → is_request (kind_of m') ≡ true
    → ((handle_data_channel_message platform d p).sent
        ≡ p.sent ++ Frame.message (confirm platform t p) ∷ [])
      × ((handle_data_channel_message platform d'
            (handle_data_channel_message platform d p)).handled
          ≡ p.handled ++ m' ∷ [])
proof_then_request platform p d m t b d' m' stopped authed resolved closed channel e c e' room went
      e2 request =
    let proven =
      handle-proof platform d m p t b stopped authed resolved closed channel e c e' room went in
    (
      ap (λ q. q.sent) proven,
      ap (λ q. (handle_data_channel_message platform d' q).handled) proven
          ∙ handle-request platform d' m' (proven_peer platform d t b p) stopped refl e2 request,
    )
