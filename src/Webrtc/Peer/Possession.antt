-- ===== src/Webrtc/Peer/Possession.antt =====
-- What the data channel of a peer in internal/webrtc/peer.go must have delivered for
-- `verifyAuthResponse` to take the peer for the holder of a secret.
use pmux_agent.Base.{
  ◌≡◌, refl, ◌∙◌, sym, ap, subst, inl, inr, true, false, List, some, Bytes, length, ◌==◌, ==_iff,
  Bool-cases, str_eq, str_eq→eq, ok, Result-cases, Option-cases, IsIn, arith,
}
use pmux_agent.Protocol.Messages.{AuthResponseRequest, Message}
use pmux_agent.Protocol.Codec.{decode_request}
use pmux_agent.Webrtc.Peer.State.{Platform, Peer}
use pmux_agent.Webrtc.Peer.Fingerprints.{fingerprints}
use pmux_agent.Webrtc.Peer.Auth.{
  Transcript, auth_response_of, wrap_fingerprints, auth_mac, check_response, mobile_to_host,
}

auth_response_of_sound :
    (m : Message) (r : AuthResponseRequest)
    → auth_response_of m ≡ some r
    → m ≡ Message.auth_response r
unfolding auth_response_of
auth_response_of_sound (Message.auth_response r) q h = ground arith
auth_response_of_sound Message.list_sessions q h = cc
auth_response_of_sound _ q h = cc

module _ (platform : Platform) where
  open platform use {World, msgpack, dtls, sha256, decode_base64}

  -- An auth response was delivered whose MAC is that of the secret over the mobile's label and the
  -- transcript, whose host nonce is one that the peer was challenged with.
  pub record IsProven (secret : Bytes) (received challenges : List Bytes) (t : Transcript)
      : Type 0 where
    pub packet : Bytes
    pub response : AuthResponseRequest
    pub delivered : IsIn packet received
    pub decoded : decode_request msgpack packet ≡ ok (Message.auth_response response)
    pub fresh : IsIn t.host_nonce challenges
    pub nonce : decode_base64 response.nonce ≡ some t.mobile_nonce
    pub full : length t.mobile_nonce ≡ 32
    pub mac : decode_base64 response.mac ≡ some (auth_mac platform secret mobile_to_host t)

  -- More data and more challenges take nothing away.
  pub IsProven-grow :
      {secret : Bytes} {xs cs : List Bytes} {t : Transcript} (ys ds : List Bytes)
      → ((d : Bytes) → IsIn d xs → IsIn d ys)
      → ((d : Bytes) → IsIn d cs → IsIn d ds)
      → IsProven secret xs cs t
      → IsProven secret ys ds t
  IsProven-grow ys ds f g e = record {
    packet = e.packet;
    response = e.response;
    delivered = f _ e.delivered;
    decoded = e.decoded;
    fresh = g _ e.fresh;
    nonce = e.nonce;
    full = e.full;
    mac = e.mac;
  }

  -- What `check_response` has found when it gives a transcript.
  pub record Checked (m : Message) (p : Peer World) (t : Transcript) : Type 0 where
    pub response : AuthResponseRequest
    pub kind : m ≡ Message.auth_response response
    pub nonce : decode_base64 response.nonce ≡ some t.mobile_nonce
    pub full : length t.mobile_nonce ≡ 32
    pub mac : decode_base64 response.mac ≡ some (auth_mac platform p.shared_secret mobile_to_host t)
    pub host : t.host_nonce ≡ p.auth_nonce
    pub challenged : (length p.auth_nonce == 0) ≡ false
    pub prints : fingerprints sha256 (dtls p.world) ≡ ok (t.host_fp, t.mobile_fp)

  Checked-facts :
      (m : Message) (p : Peer World) (t : Transcript) (r : AuthResponseRequest) (c : Bytes)
      → auth_response_of m ≡ some r
      → decode_base64 r.nonce ≡ some t.mobile_nonce
      → (length t.mobile_nonce == 32) ≡ true
      → decode_base64 r.mac ≡ some c
      → (length p.auth_nonce == 0) ≡ false
      → fingerprints sha256 (dtls p.world) ≡ ok (t.host_fp, t.mobile_fp)
      → t.host_nonce ≡ p.auth_nonce
      → str_eq (auth_mac platform p.shared_secret mobile_to_host t) c ≡ true
      → Checked m p t
  Checked-facts m p t r c e e1 full e2 challenged e3 host same = record {
    response = r;
    kind = auth_response_of_sound m r e;
    nonce = e1;
    full = (==_iff _ _).0 full;
    mac = e2 ∙ ap some (sym (str_eq→eq _ _ same));
    host = host;
    challenged = challenged;
    prints = e3;
  }

  pub check_response_sound :
      (m : Message) (p : Peer World) (t : Transcript)
      → check_response platform m p ≡ ok t
      → Checked m p t
  unfolding check_response wrap_fingerprints
  check_response_sound m p t h = elim (Option-cases (auth_response_of m)) [
    | inl e ↦ absurd (ground arith)
    | inr (r, e) ↦ elim (Option-cases (decode_base64 r.nonce)) [
      | inl e1 ↦ absurd (ground arith)
      | inr (n, e1) ↦ elim (Option-cases (decode_base64 r.mac)) [
        | inl e2 ↦ absurd (ground arith)
        | inr (c, e2) ↦ elim (Result-cases (fingerprints sha256 (dtls p.world))) [
          | inr (x, e3) ↦ absurd (ground arith)
          | inl ((hf, mf), e3) ↦
              let u : Transcript = record {
                host_nonce = p.auth_nonce;
                mobile_nonce = n;
                host_fp = hf;
                mobile_fp = mf;
              } in
              elim (Bool-cases (length n == 32)) [
                | inr f ↦ absurd (ground arith)
                | inl f ↦ elim (Bool-cases (length p.auth_nonce == 0)) [
                  | inl g ↦ absurd (ground arith)
                  | inr g ↦
                      elim (Bool-cases
                        (str_eq (auth_mac platform p.shared_secret mobile_to_host u) c)) [
                          | inr k ↦ absurd (ground arith)
                          | inl k ↦
                              let same : u ≡ t = ground arith in
                              subst (Checked m p) same
                                (Checked-facts m p u r c e e1 f e2 g e3 refl k)
                        ]
                ]
              ]
        ]
      ]
    ]
  ]
