-- ===== src/Auth/Session/Reads.antt =====
-- What the reads of a session of internal/auth/pair_session.go leave.
use pmux_agent.Base.{
  ◌≡◌, ◌⊎◌, inr, refl, Bool, true, false, List, [], ◌∷◌, Option, none, some, Bytes, if_holds, All,
  IsIn,
}
use pmux_agent.Auth.Session.{
  PairComplete, Frame, Decision, SessionError, Session, keep, read_auth, await_complete,
  read_pair_complete, after_read, wait_once, wait_for_pair_complete,
}

-- An undecided session has attempted nothing, a decided one has answered what it received.
unfoldable pub Settled : Bool → Option PairComplete → List (Decision × Bytes) → Type 0
Settled false r ds = ds ≡ []
Settled true none ds = true ≡ false
Settled true (some m) ds = (d : Decision) × IsIn (d, m.mobile_device_id) ds

-- Nothing is answered but what was received.
unfoldable pub Answers : Option PairComplete → List (Decision × Bytes) → Type 0
Answers none ds = ds ≡ []
Answers (some m) ds = All (λ (a : Decision × Bytes). a.1 ≡ m.mobile_device_id) ds

pub record IsSound (s : Session) : Type 0 where
  pub settled : Settled s.decided s.received s.attempts
  pub named : Answers s.received s.attempts
  pub held : (s.confirm ≡ true) ⊎ (s.attempts ≡ [])

no-Answers : (r : Option PairComplete) (ds : List (Decision × Bytes)) → ds ≡ [] → Answers r ds
unfolding Answers
no-Answers none ds e = e
no-Answers (some m) [] e = tt
no-Answers (some m) (a ∷ ds) e = absurd cc

no-Settled :
    (d : Bool) (r : Option PairComplete) (ds : List (Decision × Bytes))
    → d ≡ false
    → ds ≡ []
    → Settled d r ds
unfolding Settled
no-Settled false r ds e f = f
no-Settled true r ds e f = absurd cc

none-undecided :
    (d : Bool) (r : Option PairComplete) (ds : List (Decision × Bytes))
    → r ≡ none
    → Settled d r ds
    → (d ≡ false) × (ds ≡ [])
unfolding Settled
none-undecided false r ds e s = (refl, s)
none-undecided true none ds e s = absurd cc
none-undecided true (some m) ds e s = absurd cc

pub fresh-IsSound : (s : Session) → s.decided ≡ false → s.attempts ≡ [] → IsSound s
fresh-IsSound s e f = record {
  settled = no-Settled s.decided s.received s.attempts e f;
  named = no-Answers s.received s.attempts f;
  held = inr f;
}

pub inbox-IsSound : (fs : List Frame) (s : Session) → IsSound s → IsSound (record s { inbox = fs })
inbox-IsSound fs s i = record { settled = i.settled; named = i.named; held = i.held }

pub read_auth-IsSound :
    (fs : List Frame) (s : Session)
    → s.decided ≡ false
    → s.attempts ≡ []
    → IsSound (read_auth fs s).1
unfolding read_auth
read_auth-IsSound [] s e f = fresh-IsSound (record s { inbox = [] }) e f
read_auth-IsSound (Frame.auth ∷ fs) s e f = fresh-IsSound (record s { inbox = fs }) e f
read_auth-IsSound (Frame.error ∷ fs) s e f = fresh-IsSound (record s { inbox = fs }) e f
read_auth-IsSound (Frame.pair_complete m ∷ fs) s e f =
    read_auth-IsSound fs (record s { received = keep m s.received }) e f
read_auth-IsSound (Frame.malformed ∷ fs) s e f = read_auth-IsSound fs s e f
read_auth-IsSound (Frame.other ∷ fs) s e f = read_auth-IsSound fs s e f
read_auth-IsSound (Frame.pair_result id committed ∷ fs) s e f = read_auth-IsSound fs s e f

await_complete-IsSound :
    (fs : List Frame) (s : Session)
    → s.decided ≡ false
    → s.attempts ≡ []
    → IsSound (await_complete fs s).1
unfolding await_complete
await_complete-IsSound [] s e f = fresh-IsSound (record s { received = none; inbox = [] }) e f
await_complete-IsSound (Frame.pair_complete m ∷ fs) s e f =
    fresh-IsSound (record s { received = some m; inbox = fs }) e f
await_complete-IsSound (Frame.malformed ∷ fs) s e f = await_complete-IsSound fs s e f
await_complete-IsSound (Frame.auth ∷ fs) s e f = await_complete-IsSound fs s e f
await_complete-IsSound (Frame.error ∷ fs) s e f = await_complete-IsSound fs s e f
await_complete-IsSound (Frame.other ∷ fs) s e f = await_complete-IsSound fs s e f
await_complete-IsSound (Frame.pair_result id committed ∷ fs) s e f = await_complete-IsSound fs s e f

after_read-IsSound : (r : Option SessionError × Session) → IsSound r.1 → IsSound (after_read r).1
unfolding after_read
after_read-IsSound (some e, s) i = i
after_read-IsSound (none, s) i = i

wait_once-IsSound :
    (r : Option PairComplete) (expired : Bool) (s : Session)
    → s.received ≡ r
    → IsSound s
    → IsSound (wait_once r expired s).1
unfolding wait_once read_pair_complete
wait_once-IsSound none expired s e i =
    let (d, a) = none-undecided s.decided s.received s.attempts e i.settled in
    after_read-IsSound (read_pair_complete expired s) (await_complete-IsSound s.inbox s d a)
wait_once-IsSound (some m) expired s e i = i

pub wait-IsSound :
    (expired : Bool) (s : Session) → IsSound s → IsSound (wait_for_pair_complete expired s).1
unfolding wait_for_pair_complete
wait-IsSound expired s i =
    if_holds (λ (r : Option SessionError × Session). IsSound r.1) s.waited
      (some SessionError.already_waited, s)
      (wait_once s.received expired (record s { waited = true })) (λ e. i)
      (λ e.
        wait_once-IsSound s.received expired (record s { waited = true }) refl
          (record { settled = i.settled; named = i.named; held = i.held }))
