-- ===== src/Webrtc/Peer/Inbound/Sound.antt =====
-- What is kept about the authentication of a peer in internal/webrtc/peer.go, and by which changes.
use pmux_agent.Base.{
  ◌≡◌, refl, inl, inr, ◌⊎◌, Bool, true, List, [], Option, Bytes, Bool-cases, All, IsIn,
}
use pmux_agent.Protocol.Messages.{Message, kind_of}
use pmux_agent.Protocol.Codec.{is_request}
use pmux_agent.Webrtc.Peer.State.{Platform, Peer, fail_auth, close_via_manager, Frame}
use pmux_agent.Webrtc.Peer.Send.{SendError}
use pmux_agent.Webrtc.Peer.Auth.{Transcript, Turn}
use pmux_agent.Webrtc.Peer.Sent.{SendOutcome, failed, went_out}
use pmux_agent.Webrtc.Peer.Possession.{IsProven, IsProven-grow}

abbrev pub IsRequest : Message → Type 0
IsRequest m = is_request (kind_of m) ≡ true

module _ (platform : Platform) (secret : Bytes) where
  open platform use {World, msgpack}

  abbrev pub Evidence : List Bytes → List Bytes → Type 0
  Evidence xs cs = (t : Transcript) × IsProven platform secret xs cs t

  abbrev pub IsSoundTurn : List Bytes → List Bytes → Turn → Type 0
  IsSoundTurn xs cs Turn.idle = Unit
  IsSoundTurn xs cs (Turn.checked t) = IsProven platform secret xs cs t
  IsSoundTurn xs cs (Turn.committed t) = IsProven platform secret xs cs t
  IsSoundTurn xs cs (Turn.answered e) = Unit
  IsSoundTurn xs cs (Turn.dispatching m) = IsRequest m × Evidence xs cs

  pub record IsSound (xs cs : List Bytes) (n : Bytes) (authed : Bool) (ms : List Message)
      : Type 0 where
    pub nonce : (n ≡ []) ⊎ IsIn n cs
    pub authenticated : authed ≡ true → Evidence xs cs
    pub requests : All IsRequest ms
    pub handled : (ms ≡ []) ⊎ Evidence xs cs

  abbrev pub IsSoundPeer : Peer World → Type 0
  IsSoundPeer p =
      (p.shared_secret ≡ secret)
      × IsSound p.received p.challenges p.auth_nonce p.authenticated p.handled

  abbrev pub IsSoundAfter : Turn × Peer World → Type 0
  IsSoundAfter (t, p) = IsSoundPeer p × IsSoundTurn p.received p.challenges t

  pub fail_auth-IsSoundPeer : (p : Peer World) → IsSoundPeer p → IsSoundPeer (fail_auth p)
  unfolding fail_auth close_via_manager
  fail_auth-IsSoundPeer p (k, s) = elim (Bool-cases p.auth_resolved) [
    | inl e ↦ rw e (k, s)
    | inr e ↦ rw e (
      k,
      record {
        nonce = inl refl;
        authenticated = s.authenticated;
        requests = s.requests;
        handled = s.handled;
      },
    )
  ]

  module _ (xs cs ys ds : List Bytes) (f : (d : Bytes) → IsIn d xs → IsIn d ys)
      (g : (d : Bytes) → IsIn d cs → IsIn d ds) where
    pub Evidence-grow : Evidence xs cs → Evidence ys ds
    Evidence-grow (t, e) = (t, IsProven-grow platform ys ds f g e)

    pub IsSound-grow :
        {n : Bytes} {b : Bool} {ms : List Message} → IsSound xs cs n b ms → IsSound ys ds n b ms
    IsSound-grow s = record {
      nonce = elim s.nonce [ inl e ↦ inl e | inr i ↦ inr (g _ i) ];
      authenticated = λ h. Evidence-grow (s.authenticated h);
      requests = s.requests;
      handled = elim s.handled [ inl e ↦ inl e | inr i ↦ inr (Evidence-grow i) ];
    }

    pub IsSoundTurn-grow : (t : Turn) → IsSoundTurn xs cs t → IsSoundTurn ys ds t
    IsSoundTurn-grow Turn.idle s = s
    IsSoundTurn-grow (Turn.checked t) s = IsProven-grow platform ys ds f g s
    IsSoundTurn-grow (Turn.committed t) s = IsProven-grow platform ys ds f g s
    IsSoundTurn-grow (Turn.answered e) s = s
    IsSoundTurn-grow (Turn.dispatching m) (r, e) = (r, Evidence-grow e)

  -- A send changes nothing of it.
  pub SendOutcome-IsSoundPeer :
      {h : Bool} {f : Frame} {p : Peer World} {r : Option SendError × Peer World}
      → SendOutcome h f p r
      → IsSoundPeer p
      → IsSoundPeer r.1
  SendOutcome-IsSoundPeer (failed e w) s = s
  SendOutcome-IsSoundPeer (went_out w e) s = s

  pub SendOutcome-IsSoundAfter :
      {h : Bool} {f : Frame} {p : Peer World} {r : Option SendError × Peer World} (t : Turn)
      → SendOutcome h f p r
      → IsSoundAfter (t, p)
      → IsSoundAfter (t, r.1)
  SendOutcome-IsSoundAfter t (failed e w) s = s
  SendOutcome-IsSoundAfter t (went_out w e) s = s

  pub fail_auth-IsSoundAfter :
      (t : Turn) (p : Peer World) → IsSoundAfter (t, p) → IsSoundAfter (t, fail_auth p)
  unfolding fail_auth close_via_manager
  fail_auth-IsSoundAfter t p (s, h) = (
    fail_auth-IsSoundPeer p s,
    elim (Bool-cases p.auth_resolved) [ inl e ↦ rw e h | inr e ↦ rw e h ],
  )
