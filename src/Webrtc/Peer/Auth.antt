-- ===== src/Webrtc/Peer/Auth.antt =====
-- The key-possession proof of internal/webrtc/peer.go: `sendAuthChallenge`, `verifyAuthResponse` and
-- `handleDataChannelMessage`, cut where the code lets go of the peer's lock.
use pmux_agent.Base.{
  ℕ, pos, true, false, not, [], ◌∷◌, ◌++◌, Option, none, some, Bytes, codes, length, ◌==◌, str_eq,
  if◌then◌else◌, Result, ok, err, ◌>>=◌, ◌>>◌, fail_if,
}
use pmux_agent.Protocol.Messages.{AuthResponseRequest, Message, kind_of, message_type}
use pmux_agent.Protocol.Codec.{decode_request, is_request}
use pmux_agent.Webrtc.Peer.State.{Platform, Peer, fail_auth, close_via_manager}
use pmux_agent.Webrtc.Peer.Fingerprints.{FingerprintError, fingerprints}
use pmux_agent.Webrtc.Peer.Send.{SendError, send_message}

abbrev pub auth_nonce_size : ℕ
auth_nonce_size = 32

abbrev pub mobile_to_host : Bytes
mobile_to_host = codes "pocketmux-auth-v2 mobile->host"

abbrev pub host_to_mobile : Bytes
host_to_mobile = codes "pocketmux-auth-v2 host->mobile"

-- The reasons that `failAuth` logs for a message.
pub data AuthError : Type 0 where
  not_auth_response : Bytes → AuthError
  nonce_not_base64 mac_not_base64 no_challenge mac_mismatch : AuthError
  nonce_size : ℕ → AuthError
  no_fingerprints : FingerprintError → AuthError

-- What both sides' proofs are over.
pub record Transcript : Type 0 where
  pub host_nonce : Bytes
  pub mobile_nonce : Bytes
  pub host_fp : Bytes
  pub mobile_fp : Bytes

-- Where the goroutine that delivers messages stands in the handling of one.
pub data Turn : Type 0 where
  idle : Turn
  checked : Transcript → Turn
  committed : Transcript → Turn
  answered : Option SendError → Turn
  dispatching : Message → Turn

abbrev pub or_err {ℓ} : {A : Type ℓ} → Option A → AuthError → Result AuthError A
or_err none e = err e
or_err (some a) e = ok a

unfoldable pub auth_response_of : Message → Option AuthResponseRequest
auth_response_of m = elim m [ Message.auth_response r ↦ some r | _ ↦ none ]

-- `fmt.Sprintf("DTLS fingerprints unavailable: %v", err)`.
unfoldable pub wrap_fingerprints {ℓ} : {A : Type ℓ} → Result FingerprintError A → Result AuthError A
wrap_fingerprints (ok a) = ok a
wrap_fingerprints (err e) = err (AuthError.no_fingerprints e)

module _ (platform : Platform) where
  open platform use {
    World, msgpack, read_random, dtls, sha256, hmac_sha256, encode_base64, decode_base64,
  }

  unfoldable pub auth_mac : Bytes → Bytes → Transcript → Bytes
  auth_mac secret label t =
      hmac_sha256 secret (label ++ t.host_nonce ++ t.mobile_nonce ++ t.host_fp ++ t.mobile_fp)

  -- `sendAuthChallenge` up to the message, with the nonce that it challenges with.
  unfoldable pub after_random : Option Bytes × World → Peer World → Option Bytes × Peer World
  after_random (none, w) p = (none, fail_auth (record p { world = w }))
  after_random (some nonce, w) p = (
    some nonce,
    record p {
      auth_nonce = nonce;
      timer = true;
      challenges = p.challenges ++ nonce ∷ [];
      world = w;
    },
  )

  unfoldable pub begin_challenge : Peer World → Option Bytes × Peer World
  unfolding after_random
  begin_challenge p = after_random (read_random auth_nonce_size p.world) p

  unfoldable pub after_challenge : Option SendError × Peer World → Peer World
  after_challenge (none, p) = p
  after_challenge (some e, p) = fail_auth p

  unfoldable pub send_challenge : Bytes → Peer World → Peer World
  unfolding after_challenge
  send_challenge nonce p =
      let challenge =
        Message.auth_challenge (record { nonce = encode_base64 nonce; version = pos 2 }) in
      after_challenge (send_message platform challenge p)

  unfoldable pub send_auth_challenge : Peer World → Peer World
  unfolding begin_challenge send_challenge
  send_auth_challenge p =
      let (challenge, q) = begin_challenge p in
      elim challenge [ none ↦ q | some nonce ↦ send_challenge nonce q ]

  -- `verifyAuthResponse` up to the comparison of the MACs.
  unfoldable pub check_response : Message → Peer World → Result AuthError Transcript
  unfolding auth_response_of wrap_fingerprints auth_mac
  check_response m p = do
    r ← or_err (auth_response_of m) (AuthError.not_auth_response (message_type m))
    mobile_nonce ← or_err (decode_base64 r.nonce) AuthError.nonce_not_base64
    fail_if (not (length mobile_nonce == auth_nonce_size))
        (AuthError.nonce_size (length mobile_nonce))
    mac ← or_err (decode_base64 r.mac) AuthError.mac_not_base64
    fail_if (length p.auth_nonce == 0) AuthError.no_challenge
    fps ← wrap_fingerprints (fingerprints sha256 (dtls p.world))
    let t : Transcript = record {
      host_nonce = p.auth_nonce;
      mobile_nonce = mobile_nonce;
      host_fp = fps.0;
      mobile_fp = fps.1;
    }
    fail_if (not (str_eq (auth_mac p.shared_secret mobile_to_host t) mac)) AuthError.mac_mismatch
    ok t

  unfoldable pub begin_verify : Message → Peer World → Turn × Peer World
  unfolding check_response
  begin_verify m p = if p.auth_resolved then (Turn.idle, p) else elim (check_response m p) [
    | ok t ↦ (Turn.checked t, p)
    | err e ↦ (Turn.idle, fail_auth p)
  ]

  -- The rest of `verifyAuthResponse`: its second critical section, the answer, and what follows it.
  unfoldable pub commit : Transcript → Peer World → Turn × Peer World
  commit t p = if p.auth_resolved then (Turn.idle, p) else (
    Turn.committed t,
    record p { auth_resolved = true; authenticated = true; auth_nonce = []; timer = false },
  )

  unfoldable pub send_confirm : Transcript → Peer World → Option SendError × Peer World
  unfolding auth_mac
  send_confirm t p =
      send_message platform
        (Message.auth_confirm (encode_base64 (auth_mac p.shared_secret host_to_mobile t))) p

  unfoldable pub conclude : Option SendError → Peer World → Peer World
  conclude none p = record p { auth_confirmed = true }
  conclude (some e) p = close_via_manager (record p { authenticated = false })

  unfoldable pub dispatch : Message → Peer World → Turn × Peer World
  dispatch m p = if not (is_request (kind_of m)) then (Turn.idle, p) else (Turn.dispatching m, p)

  -- `handleDataChannelMessage` up to the first place where it lets go of the lock.
  unfoldable pub accept : Bytes → Peer World → Turn × Peer World
  unfolding begin_verify dispatch
  accept d p = elim (decode_request msgpack d) [
    | err e ↦ (Turn.idle, if p.authenticated then p else fail_auth p)
    | ok m ↦ if not p.authenticated then begin_verify m p else dispatch m p
  ]

  unfoldable pub begin_message : Bytes → Peer World → Turn × Peer World
  unfolding accept
  begin_message d p =
      if p.stopped then (Turn.idle, p) else accept d (record p { received = p.received ++ d ∷ [] })

  -- The next part of the handling.
  unfoldable pub advance : Turn × Peer World → Turn × Peer World
  unfolding commit send_confirm conclude
  advance (Turn.idle, p) = (Turn.idle, p)
  advance (Turn.checked t, p) = commit t p
  advance (Turn.committed t, p) = let (e, q) = send_confirm t p in (Turn.answered e, q)
  advance (Turn.answered e, p) = (Turn.idle, conclude e p)
  advance (Turn.dispatching m, p) = (Turn.idle, record p { handled = p.handled ++ m ∷ [] })

  unfoldable pub handle_data_channel_message : Bytes → Peer World → Peer World
  unfolding begin_message advance
  handle_data_channel_message d p = (advance (advance (advance (begin_message d p)))).1
