-- ===== src/Webrtc/Peer/Outbound/Guarded.antt =====
-- What is kept about the frames that a peer of internal/webrtc/peer.go has sent, and by which changes.
use pmux_agent.Base.{
  ◌≡◌, subst, inl, inr, ◌⊎◌, Bool, true, false, List, [], ◌∷◌, ◌++◌, Option, none, some,
  append_assoc, Bytes, All, All-append, IsIn, arith,
}
use pmux_agent.Protocol.Messages.{Message}
use pmux_agent.Webrtc.Peer.State.{Platform, Peer, Frame}
use pmux_agent.Webrtc.Peer.Send.{SendError, is_auth_handshake, refusal}
use pmux_agent.Webrtc.Peer.Auth.{Transcript, Turn, auth_mac, host_to_mobile}
use pmux_agent.Webrtc.Peer.Sent.{SendOutcome, failed, went_out}
use pmux_agent.Webrtc.Peer.Possession.{IsProven, IsProven-grow}

abbrev pub IsHandshake : Frame → Type 0
IsHandshake (Frame.message m) = is_auth_handshake m ≡ true
IsHandshake (Frame.raw d) = ⊥

module _ (platform : Platform) (secret : Bytes) where
  open platform use {World, msgpack, encode_base64}

  -- The answer to a proof has gone out, and nothing but messages of the handshake before it.
  pub record IsOpen (xs cs : List Bytes) (sent : List Frame) : Type 0 where
    pub before : List Frame
    pub after : List Frame
    pub transcript : Transcript
    pub split :
        sent
        ≡ before
          ++ Frame.message (
              Message.auth_confirm
                (encode_base64 (auth_mac platform secret host_to_mobile transcript)))
            ∷ after
    pub handshake : All IsHandshake before
    pub proven : IsProven platform secret xs cs transcript

  pub IsOpen-append :
      {xs cs : List Bytes} {sent : List Frame} (f : Frame)
      → IsOpen xs cs sent
      → IsOpen xs cs (sent ++ f ∷ [])
  IsOpen-append f o = record {
    before = o.before;
    after = o.after ++ f ∷ [];
    transcript = o.transcript;
    split = rw o.split (append_assoc o.before _ (f ∷ []));
    handshake = o.handshake;
    proven = o.proven;
  }

  abbrev pub IsAnswered : List Bytes → List Bytes → List Frame → Turn → Type 0
  IsAnswered xs cs sent (Turn.answered none) = IsOpen xs cs sent
  IsAnswered xs cs sent _ = Unit

  pub record IsGuarded (xs cs : List Bytes) (sent : List Frame) (c : Bool) (t : Turn) : Type 0 where
    pub frames : All IsHandshake sent ⊎ IsOpen xs cs sent
    pub confirmed : c ≡ true → IsOpen xs cs sent
    pub answered : IsAnswered xs cs sent t

  abbrev pub IsGuardedAfter : Turn × Peer World → Type 0
  IsGuardedAfter (t, p) = IsGuarded p.received p.challenges p.sent p.auth_confirmed t

  pub IsAnswered-map :
      (xs cs ys ds : List Bytes) (sent more : List Frame)
      → (IsOpen xs cs sent → IsOpen ys ds more)
      → (t : Turn) → IsAnswered xs cs sent t
      → IsAnswered ys ds more t
  IsAnswered-map xs cs ys ds sent more f Turn.idle h = tt
  IsAnswered-map xs cs ys ds sent more f (Turn.checked t) h = tt
  IsAnswered-map xs cs ys ds sent more f (Turn.committed t) h = tt
  IsAnswered-map xs cs ys ds sent more f (Turn.answered none) h = f h
  IsAnswered-map xs cs ys ds sent more f (Turn.answered (some e)) h = tt
  IsAnswered-map xs cs ys ds sent more f (Turn.dispatching m) h = tt

  pub IsGuarded-grow :
      (xs cs ys ds : List Bytes) {sent : List Frame} {c : Bool} (t : Turn)
      → ((d : Bytes) → IsIn d xs → IsIn d ys)
      → ((d : Bytes) → IsIn d cs → IsIn d ds)
      → IsGuarded xs cs sent c t
      → IsGuarded ys ds sent c t
  IsGuarded-grow xs cs ys ds {sent} t f g s =
      let more : IsOpen xs cs sent → IsOpen ys ds sent = λ o. record {
        before = o.before;
        after = o.after;
        transcript = o.transcript;
        split = o.split;
        handshake = o.handshake;
        proven = IsProven-grow platform ys ds f g o.proven;
      } in
      record {
        frames = elim s.frames [ inl h ↦ inl h | inr o ↦ inr (more o) ];
        confirmed = λ h. more (s.confirmed h);
        answered = IsAnswered-map xs cs ys ds sent sent more t s.answered;
      }

  -- A frame may follow if it belongs to the handshake or the authentication is confirmed.
  pub IsGuarded-append :
      {xs cs : List Bytes} {sent : List Frame} {c : Bool} (f : Frame) (t : Turn)
      → IsHandshake f ⊎ (c ≡ true)
      → IsGuarded xs cs sent c t
      → IsGuarded xs cs (sent ++ f ∷ []) c t
  IsGuarded-append {xs} {cs} {sent} f t allowed s = record {
    frames = elim s.frames [
      | inr o ↦ inr (IsOpen-append f o)
      | inl h ↦ elim allowed [
        | inl a ↦ inl (All-append IsHandshake sent (f ∷ []) h (a, tt))
        | inr e ↦ inr (IsOpen-append f (s.confirmed e))
      ]
    ];
    confirmed = λ h. IsOpen-append f (s.confirmed h);
    answered =
        IsAnswered-map xs cs xs cs sent (sent ++ f ∷ []) (λ o. IsOpen-append f o) t s.answered;
  }

  pub refusal-confirmed : (p : Peer World) → refusal false p ≡ none → p.auth_confirmed ≡ true
  unfolding refusal
  refusal-confirmed p h = ground arith

  -- A message of the handshake, or one that is not.
  pub SendOutcome-IsGuarded :
      {h : Bool} {f : Frame} {p : Peer World} {r : Option SendError × Peer World} (t : Turn)
      → IsHandshake f ⊎ (h ≡ false)
      → SendOutcome h f p r
      → IsGuardedAfter (t, p)
      → IsGuardedAfter (t, r.1)
  SendOutcome-IsGuarded t a (failed e w) s = s
  SendOutcome-IsGuarded {h} {f} {p} t (inl a) (went_out w e) s = IsGuarded-append f t (inl a) s
  SendOutcome-IsGuarded {h} {f} {p} t (inr a) (went_out w e) s =
      IsGuarded-append f t (inr (refusal-confirmed p (subst (λ b. refusal b p ≡ none) a e))) s

  -- A turn of which the guard asks nothing.
  pub IsGuarded-turn :
      {xs cs : List Bytes} {sent : List Frame} {c : Bool} {u : Turn} (t : Turn)
      → IsAnswered xs cs sent t
      → IsGuarded xs cs sent c u
      → IsGuarded xs cs sent c t
  IsGuarded-turn t h s = record { frames = s.frames; confirmed = s.confirmed; answered = h }
