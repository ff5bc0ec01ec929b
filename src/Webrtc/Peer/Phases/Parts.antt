-- ===== src/Webrtc/Peer/Phases/Parts.antt =====
-- The phases of the authentication of a peer in internal/webrtc/peer.go, and what its parts do to them.
use pmux_agent.Base.{
  ◌≡◌, refl, sym, inl, inr, Bool, true, false, not, [], ◌∷◌, ◌++◌, Option, none, some, Bytes,
  if_holds, Result-cases, arith,
}
use pmux_agent.Protocol.Messages.{Message, kind_of}
use pmux_agent.Protocol.Codec.{decode_request, is_request}
use pmux_agent.Webrtc.Peer.State.{Platform, Peer, fail_auth, close_via_manager, Frame}
use pmux_agent.Webrtc.Peer.Send.{SendError}
use pmux_agent.Webrtc.Peer.Auth.{
  Transcript, Turn, after_random, after_challenge, check_response, begin_verify, commit,
  send_confirm, conclude, dispatch, accept, begin_message, advance,
}
use pmux_agent.Webrtc.Peer.Sent.{SendOutcome, failed, went_out, send_message-SendOutcome}

-- `answering` is the time between a proof that was accepted and the end of its answer.
pub data Phase : Type 0 where
  waiting answering confirmed refused : Phase

-- The steps of the protocol: nothing leads out of `refused` and of `confirmed`, and nothing leads to
-- `confirmed` but an accepted proof and its answer.
pub data Change : Phase → Phase → Type 0 where
  stay : (a : Phase) → Change a a
  refuse : Change Phase.waiting Phase.refused
  prove : Change Phase.waiting Phase.answering
  answer : Change Phase.answering Phase.confirmed
  revoke : Change Phase.answering Phase.refused

-- The phase that the three flags stand for.
unfoldable pub phase_of : Bool → Bool → Bool → Phase
phase_of resolved authenticated true = Phase.confirmed
phase_of resolved true false = Phase.answering
phase_of true false false = Phase.refused
phase_of false false false = Phase.waiting

unfoldable pub phase : {W : Type 0} → Peer W → Phase
unfolding phase_of
phase p = phase_of p.auth_resolved p.authenticated p.auth_confirmed

-- Where the handling of a message is past the commit, the peer is answering.
abbrev pub IsTurnOf : Bool → Bool → Bool → Turn → Type 0
IsTurnOf r a c Turn.idle = (a ≡ c)
IsTurnOf r a c (Turn.checked t) = (a ≡ c)
IsTurnOf r a c (Turn.committed t) = (a ≡ true) × (c ≡ false)
IsTurnOf r a c (Turn.answered e) = (a ≡ true) × (c ≡ false)
IsTurnOf r a c (Turn.dispatching m) = (a ≡ c)

pub record IsOrderly (r a c : Bool) (t : Turn) : Type 0 where
  pub resolved : a ≡ true → r ≡ true
  pub turn : IsTurnOf r a c t

-- A step between two values of the flags: what held before holds after, and the phases follow the
-- protocol.
abbrev pub IsMove : Bool → Bool → Bool → Bool → Bool → Bool → Turn → Type 0
IsMove r a c r' a' c' t = IsOrderly r' a' c' t × Change (phase_of r a c) (phase_of r' a' c')

pub unresolved : (a c : Bool) (t : Turn) → IsOrderly false a c t → (a ≡ false) × (c ≡ false)
unresolved true c t o = absurd (let e = o.resolved refl in ground (arith, e))
unresolved false c Turn.idle o = (refl, sym o.turn)
unresolved false c (Turn.checked t) o = (refl, sym o.turn)
unresolved false c (Turn.committed t) o = absurd (let e = o.turn.0 in ground (arith, e))
unresolved false c (Turn.answered e) o = absurd (let e = o.turn.0 in ground (arith, e))
unresolved false c (Turn.dispatching m) o = (refl, sym o.turn)

pub refuse-IsMove :
    (r a c : Bool) (t : Turn) → r ≡ false → IsOrderly r a c t → IsMove r a c true a c t
unfolding phase_of
refuse-IsMove true a c t e o = absurd cc
refuse-IsMove false true c t e o = absurd (let e = (unresolved true c t o).0 in ground (arith, e))
refuse-IsMove false false true t e o =
    absurd (let e = (unresolved false true t o).1 in ground (arith, e))
refuse-IsMove false false false t e o = (record { resolved = λ h. refl; turn = o.turn }, refuse)

pub commit-IsMove :
    (r a c : Bool) (t : Transcript)
    → r ≡ false
    → IsOrderly r a c (Turn.checked t)
    → IsMove r a c true true c (Turn.committed t)
unfolding phase_of
commit-IsMove true a c t e o = absurd cc
commit-IsMove false true c t e o = absurd (let e = o.resolved refl in ground (arith, e))
commit-IsMove false false true t e o = absurd (let e = o.turn in ground (arith, e))
commit-IsMove false false false t e o =
    (record { resolved = λ h. refl; turn = (refl, refl) }, prove)

pub conclude-IsMove :
    (r a c : Bool) (e : Option SendError)
    → IsOrderly r a c (Turn.answered e)
    → IsMove r a c r a true Turn.idle × IsMove r a c r false c Turn.idle
unfolding phase_of
conclude-IsMove r true true e o = absurd (let e = o.turn.1 in ground (arith, e))
conclude-IsMove true true false e o = (
  (record { resolved = λ h. refl; turn = refl }, answer),
  (record { resolved = λ h. refl; turn = refl }, revoke),
)
conclude-IsMove false true false e o = absurd (let e = o.resolved refl in ground (arith, e))
conclude-IsMove r false c e o = absurd (let e = o.turn.0 in ground (arith, e))

module _ (platform : Platform) where
  open platform use {World, msgpack}

  abbrev pub IsOrderlyAfter : Turn × Peer World → Type 0
  IsOrderlyAfter (t, p) = IsOrderly p.auth_resolved p.authenticated p.auth_confirmed t

  abbrev pub Moves : Peer World → Turn × Peer World → Type 0
  Moves p (t, q) =
      IsMove p.auth_resolved p.authenticated p.auth_confirmed q.auth_resolved q.authenticated
        q.auth_confirmed t

  pub stays : (t : Turn) (p : Peer World) → IsOrderlyAfter (t, p) → Moves p (t, p)
  stays t p o = (o, stay _)

  pub fail_auth-Moves :
      (t : Turn) (p : Peer World) → IsOrderlyAfter (t, p) → Moves p (t, fail_auth p)
  unfolding fail_auth close_via_manager
  fail_auth-Moves t p o =
      if_holds (λ q. Moves p (t, q)) p.auth_resolved _ _ (λ e. stays t p o)
        (λ e. refuse-IsMove _ _ _ t e o)

  pub SendOutcome-Moves :
      {h : Bool} {f : Frame} {p : Peer World} {r : Option SendError × Peer World} (t : Turn)
      → SendOutcome h f p r
      → IsOrderlyAfter (t, p)
      → Moves p (t, r.1)
  SendOutcome-Moves {p = p} t (failed e w) o = stays t p o
  SendOutcome-Moves {p = p} t (went_out w e) o = stays t p o

  pub after_random-Moves :
      (t : Turn) (r : Option Bytes × World) (p : Peer World)
      → IsOrderlyAfter (t, p)
      → Moves p (t, (after_random platform r p).1)
  unfolding after_random
  after_random-Moves t (none, w) p o = fail_auth-Moves t (record p { world = w }) o
  after_random-Moves t (some n, w) p o = stays t p o

  pub after_challenge-Moves :
      (t : Turn) {p : Peer World} {h : Bool} {f : Frame} {r : Option SendError × Peer World}
      → SendOutcome h f p r
      → IsOrderlyAfter (t, p)
      → Moves p (t, after_challenge platform r)
  unfolding after_challenge
  after_challenge-Moves t {p} (failed e w) o = fail_auth-Moves t (record p { world = w }) o
  after_challenge-Moves t {p} (went_out w e) o = stays t p o

  -- What stands idle may as well have checked a proof, or be about to hand over a request.
  pub begin_verify-Moves :
      (m : Message) (p : Peer World)
      → IsOrderlyAfter (Turn.idle, p)
      → Moves p (begin_verify platform m p)
  unfolding begin_verify
  begin_verify-Moves m p o =
      if_holds (Moves p) p.auth_resolved _ _ (λ e. stays Turn.idle p o)
        (λ e. elim (Result-cases (check_response platform m p)) [
          | inl (t, z) ↦
              rw z (stays (Turn.checked t) p (record { resolved = o.resolved; turn = o.turn }))
          | inr (x, z) ↦ rw z (fail_auth-Moves Turn.idle p o)
        ])

  pub accept-Moves :
      (d : Bytes) (p : Peer World) → IsOrderlyAfter (Turn.idle, p) → Moves p (accept platform d p)
  unfolding accept dispatch
  accept-Moves d p o = elim (Result-cases (decode_request msgpack d)) [
    | inr (x, e) ↦
        rw (e, accept)
          (if_holds (λ q. Moves p (Turn.idle, q)) p.authenticated _ _ (λ a. stays Turn.idle p o)
            (λ a. fail_auth-Moves Turn.idle p o))
    | inl (m, e) ↦
        rw (e, accept)
          (if_holds (Moves p) (not p.authenticated) _ _ (λ a. begin_verify-Moves m p o)
            (λ a.
              if_holds (Moves p) (not (is_request (kind_of m))) _ _ (λ r. stays Turn.idle p o)
                (λ r.
                  stays (Turn.dispatching m) p (record { resolved = o.resolved; turn = o.turn }))))
  ]

  pub begin_message-Moves :
      (d : Bytes) (p : Peer World)
      → IsOrderlyAfter (Turn.idle, p)
      → Moves p (begin_message platform d p)
  unfolding begin_message
  begin_message-Moves d p o =
      if_holds (Moves p) p.stopped _ _ (λ e. stays Turn.idle p o)
        (λ e. accept-Moves d (record p { received = p.received ++ d ∷ [] }) o)

  pub advance-Moves :
      (t : Turn) (p : Peer World) → IsOrderlyAfter (t, p) → Moves p (advance platform (t, p))
  unfolding advance commit send_confirm conclude close_via_manager
  advance-Moves Turn.idle p o = stays Turn.idle p o
  advance-Moves (Turn.checked t) p o =
      if_holds (Moves p) p.auth_resolved _ _
        (λ e. stays Turn.idle p (record { resolved = o.resolved; turn = o.turn }))
        (λ e. commit-IsMove _ _ _ t e o)
  advance-Moves (Turn.committed t) p o =
      SendOutcome-Moves (Turn.answered _) (send_message-SendOutcome platform _ p)
        (record { resolved = o.resolved; turn = o.turn })
  advance-Moves (Turn.answered none) p o = (conclude-IsMove _ _ _ none o).0
  advance-Moves (Turn.answered (some e)) p o = (conclude-IsMove _ _ _ (some e) o).1
  advance-Moves (Turn.dispatching m) p o =
      stays Turn.idle p (record { resolved = o.resolved; turn = o.turn })
