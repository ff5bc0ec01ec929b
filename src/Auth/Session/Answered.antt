-- ===== src/Auth/Session/Answered.antt =====
-- What a session of internal/auth/pair_session.go leaves to the server when it is closed.
use pmux_agent.Base.{
  ◌≡◌, ◌⊎◌, inl, inr, refl, sym, subst, Bool, true, false, not, ◌&&◌, List, [], Option, none, some,
  Bytes, if◌then◌else◌, if_holds, Bool-cases, Option-cases, ok, IsIn, arith,
}
use pmux_agent.Auth.Session.{
  PairComplete, Frame, Decision, SessionError, Session, dial_pair_session, to_answer, send_decision,
  decide, reject, is_received, hang_up, close, Call, call_all,
}
use pmux_agent.Auth.Session.Reads.{Settled, Answers, IsSound}
use pmux_agent.Auth.Session.Sound.{
  close-IsSound, reject-IsSound, confirmed-check, call_all-IsSound, dial-IsSound,
}

-- Some decision was sent or attempted for the device of the message received.
unfoldable pub IsAnswered : Option PairComplete → List (Decision × Bytes) → Type 0
IsAnswered r ds =
    (m : PairComplete) × (r ≡ some m) × ((d : Decision) × IsIn (d, m.mobile_device_id) ds)

unfoldable pub IsDone : Session → Type 0
IsDone s = (s.confirm ≡ false) ⊎ (s.received ≡ none) ⊎ IsAnswered s.received s.attempts

decided-IsAnswered :
    (d : Bool) (r : Option PairComplete) (ds : List (Decision × Bytes))
    → d ≡ true
    → Settled d r ds
    → (r ≡ none) ⊎ IsAnswered r ds
unfolding Settled IsAnswered
decided-IsAnswered false r ds e s = absurd cc
decided-IsAnswered true none ds e s = inl refl
decided-IsAnswered true (some m) ds e s = inr (m, refl, s)

decided-IsDone : (s : Session) → IsSound s → s.decided ≡ true → IsDone s
unfolding IsDone
decided-IsDone s i e = inr (decided-IsAnswered s.decided s.received s.attempts e i.settled)

decide-decided :
    (written : Bool) (d : Decision) (r : Option PairComplete) (s : Session)
    → is_received r ≡ true
    → (decide written d (to_answer r) s).1.decided ≡ true
unfolding is_received decide to_answer send_decision
decide-decided written d none s e = absurd cc
decide-decided written d (some m) s e = refl

reject-decided :
    (written : Bool) (s : Session)
    → s.confirm ≡ true
    → is_received s.received ≡ true
    → (reject written s).1.decided ≡ true
unfolding reject
reject-decided written s c e =
    subst (λ r. (decide written Decision.pair_reject r s).1.decided ≡ true)
      (sym (confirmed-check s c)) (decide-decided written Decision.pair_reject s.received s e)

hang_up-IsDone : (r : Option SessionError × Session) → IsDone r.1 → IsDone (hang_up r).1
unfolding hang_up IsDone
hang_up-IsDone (e, s) i = i

unrejected-IsDone :
    (s : Session)
    → IsSound s
    → (s.confirm && is_received s.received && not s.decided) ≡ false
    → IsDone s
unfolding IsDone is_received
unrejected-IsDone s i e = elim (Bool-cases s.confirm) [
  | inr c ↦ inl c
  | inl c ↦ elim (Option-cases s.received) [
    | inl r ↦ inr (inl r)
    | inr (m, r) ↦ decided-IsDone s i (ground (arith, e, c, r))
  ]
]

close-IsDone : (written : Bool) (s : Session) → IsSound s → IsDone (close written s).1
unfolding close
close-IsDone written s i =
    let rejects = s.confirm && is_received s.received && not s.decided in
    hang_up-IsDone (if rejects then reject written s else (none, s)) (
      if_holds (λ (r : Option SessionError × Session). IsDone r.1) rejects (reject written s)
        (none, s)
        (λ e.
          decided-IsDone (reject written s).1 (reject-IsSound written s i)
            (reject-decided written s (ground (arith, e)) (ground (arith, e))))
        (λ e. unrejected-IsDone s i e))

-- A session that was dialed, after any calls and a last `Close`, whatever the server sends and
-- whichever writes fail: in confirmed mode a `pair_complete` that it received has been answered, or an
-- answer was attempted; every decision named the device of the message received; and without
-- confirmed mode or such a message there was no decision.
pub closed-IsDone :
    (written confirm : Bool) (frames : List Frame) (s : Session) (calls : List Call) (last : Bool)
    → dial_pair_session written confirm frames ≡ ok s
    → let t = (close last (call_all calls s)).1 in
      IsDone t × Answers t.received t.attempts × ((t.confirm ≡ true) ⊎ (t.attempts ≡ []))
closed-IsDone written confirm frames s calls last h =
    let i = call_all-IsSound calls s (dial-IsSound written confirm frames s h) in
    let j = close-IsSound last (call_all calls s) i in
    (close-IsDone last (call_all calls s) i, j.named, j.held)
