-- ===== src/Auth/Session/Commits.antt =====
-- When `Accept` of internal/auth/pair_session.go says that a mobile is paired.
use pmux_agent.Base.{
  ◌≡◌, ◌↔◌, inl, inr, refl, sym, subst, Bool, true, false, not, List, [], ◌∷◌, Option, none, some,
  Bytes, str_eq, str_eq→eq, str_eq_refl, if◌then◌else◌, Bool-cases, arith,
}
use pmux_agent.Auth.Session.{
  PairComplete, Frame, Decision, SessionError, Session, to_answer, check_decidable, send_decision,
  decide, read_result, device_of, after_decision, accept,
}
use pmux_agent.Auth.Session.Sound.{confirmed-check}

-- The frames that `Accept` reads over.
unfoldable pub skips : Bytes → Frame → Bool
skips id f = elim f [
  | Frame.error ↦ false
  | Frame.pair_result i committed ↦ not (str_eq i id)
  | _ ↦ true
]

-- The server's next answer is a positive result for this device.
pub data Commits (id : Bytes) : List Frame → Type 0 where
  now : (fs : List Frame) → Commits id (Frame.pair_result id true ∷ fs)
  later : (f : Frame) (fs : List Frame) → skips id f ≡ true → Commits id fs → Commits id (f ∷ fs)

result-Commits :
    (id i : Bytes) (committed : Bool) (fs : List Frame)
    → str_eq i id ≡ true
    → (if committed then none else some SessionError.not_committed) ≡ none
    → Commits id (Frame.pair_result i committed ∷ fs)
result-Commits id i true fs e h =
    subst (λ j. Commits id (Frame.pair_result j true ∷ fs)) (sym (str_eq→eq i id e))
      (Commits.now fs)
result-Commits id i false fs e h = absurd cc

read_result-Commits :
    (id : Bytes) (fs : List Frame) (s : Session) → (read_result id fs s).0 ≡ none → Commits id fs
unfolding read_result skips
read_result-Commits id [] s h = absurd cc
read_result-Commits id (Frame.pair_result i committed ∷ fs) s h = elim (Bool-cases (str_eq i id)) [
  | inl e ↦ result-Commits id i committed fs e (ground (arith, h, e))
  | inr e ↦
      Commits.later (Frame.pair_result i committed) fs (ground (arith, e))
        (read_result-Commits id fs s (ground (arith, h, e)))
]
read_result-Commits id (Frame.error ∷ fs) s h = absurd cc
read_result-Commits id (Frame.malformed ∷ fs) s h =
    Commits.later Frame.malformed fs refl (read_result-Commits id fs s h)
read_result-Commits id (Frame.auth ∷ fs) s h =
    Commits.later Frame.auth fs refl (read_result-Commits id fs s h)
read_result-Commits id (Frame.other ∷ fs) s h =
    Commits.later Frame.other fs refl (read_result-Commits id fs s h)
read_result-Commits id (Frame.pair_complete m ∷ fs) s h =
    Commits.later (Frame.pair_complete m) fs refl (read_result-Commits id fs s h)

skipped-result :
    (id : Bytes) (f : Frame) (fs : List Frame) (s : Session)
    → skips id f ≡ true
    → read_result id (f ∷ fs) s ≡ read_result id fs s
unfolding read_result skips
skipped-result id (Frame.pair_result i committed) fs s e =
    let other : str_eq i id ≡ false = ground (arith, e) in rw other refl
skipped-result id Frame.error fs s e = absurd cc
skipped-result id Frame.malformed fs s e = refl
skipped-result id Frame.auth fs s e = refl
skipped-result id Frame.other fs s e = refl
skipped-result id (Frame.pair_complete m) fs s e = refl

Commits-read_result :
    (id : Bytes) (fs : List Frame) (s : Session) → Commits id fs → (read_result id fs s).0 ≡ none
unfolding read_result
Commits-read_result id _ s (Commits.now fs) = rw (str_eq_refl id) refl
Commits-read_result id _ s (Commits.later f fs e c) =
    rw (skipped-result id f fs s e) (Commits-read_result id fs s c)

-- What a session needs to be told of a pairing.
unfoldable pub IsPaired : Bool → Session → Type 0
IsPaired written s =
    (written ≡ true)
    × (s.confirm ≡ true)
    × ((m : PairComplete) × (s.received ≡ some m) × Commits m.mobile_device_id s.inbox)

confirmed-IsPaired :
    (written : Bool) (r : Option PairComplete) (s : Session)
    → s.received ≡ r
    → s.confirm ≡ true
    → (after_decision (decide written Decision.pair_accept (to_answer r) s)).0 ≡ none
    → IsPaired written s
unfolding after_decision decide to_answer send_decision IsPaired device_of
confirmed-IsPaired written none s e c h = absurd cc
confirmed-IsPaired false (some m) s e c h = absurd cc
confirmed-IsPaired true (some m) s e c h =
    let t = (send_decision true Decision.pair_accept m.mobile_device_id s).1 in
    let r = subst (λ o. (read_result (device_of o) s.inbox t).0 ≡ none) e h in
    (refl, c, (m, e, read_result-Commits m.mobile_device_id s.inbox t r))

Commits-accepted :
    (m : PairComplete) (s : Session)
    → s.received ≡ some m
    → Commits m.mobile_device_id s.inbox
    → (after_decision (decide true Decision.pair_accept (to_answer s.received) s)).0 ≡ none
unfolding after_decision decide to_answer send_decision device_of
Commits-accepted m s e c =
    let t = (send_decision true Decision.pair_accept m.mobile_device_id s).1 in
    subst (λ r. (after_decision (decide true Decision.pair_accept (to_answer r) s)).0 ≡ none)
      (sym e)
      (subst (λ o. (read_result (device_of o) s.inbox t).0 ≡ none) (sym e)
        (Commits-read_result m.mobile_device_id s.inbox t c))

-- `Accept` succeeds exactly if the session is in confirmed mode and has received a `pair_complete`, the
-- decision is written, and the server's next error or result for that device is a positive result.
pub accept_iff : (written : Bool) (s : Session) → ((accept written s).0 ≡ none) ↔ IsPaired written s
unfolding accept check_decidable IsPaired after_decision decide to_answer send_decision device_of
accept_iff written s = (
  λ h. elim (Bool-cases s.confirm) [
    | inr c ↦ absurd (ground (arith, h, c))
    | inl c ↦ confirmed-IsPaired written s.received s refl c (ground (arith, h, c))
  ],
  λ p.
      let (w, c, (m, e, commits)) = p in
      subst (λ b. (after_decision (decide b Decision.pair_accept (check_decidable s) s)).0 ≡ none)
        (sym w)
        (subst (λ r. (after_decision (decide true Decision.pair_accept r s)).0 ≡ none)
          (sym (confirmed-check s c)) (Commits-accepted m s e commits)),
)
