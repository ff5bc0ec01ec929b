-- ===== src/Auth/Session/Sound.antt =====
-- What every call of a session of internal/auth/pair_session.go preserves.
use pmux_agent.Base.{
  ◌≡◌, inl, refl, sym, ap, subst, Bool, true, false, not, ◌&&◌, List, [], ◌∷◌, ◌++◌, Option, none,
  some, Bytes, str_eq, if◌then◌else◌, if_holds, Result, ok, err, All-append, IsIn-last,
}
use pmux_agent.Auth.Session.{
  PairComplete, Frame, Decision, SessionError, Session, new_session, authenticate, dialed,
  dial_pair_session, to_answer, check_decidable, send_decision, decide, reject, read_result,
  device_of, after_decision, accept, is_received, hang_up, close, Call, call, call_all,
}
use pmux_agent.Auth.Session.Reads.{
  Settled, Answers, IsSound, fresh-IsSound, inbox-IsSound, read_auth-IsSound, wait-IsSound,
}

send_decision-IsSound :
    (written : Bool) (d : Decision) (m : PairComplete) (s : Session)
    → s.confirm ≡ true
    → s.received ≡ some m
    → IsSound s
    → IsSound (send_decision written d m.mobile_device_id s).1
unfolding send_decision Settled Answers
send_decision-IsSound written d m s c e i =
    let id = m.mobile_device_id in
    let named : Answers (some m) s.attempts = subst (λ r. Answers r s.attempts) e i.named in
    record {
      settled =
          subst (λ r. Settled true r (s.attempts ++ (d, id) ∷ [])) (sym e)
            (d, IsIn-last (d, id) s.attempts);
      named =
          subst (λ r. Answers r (s.attempts ++ (d, id) ∷ [])) (sym e)
            (All-append (λ (a : Decision × Bytes). a.1 ≡ id) s.attempts ((d, id) ∷ []) named
              (refl, tt));
      held = inl c;
    }

pub confirmed-check : (s : Session) → s.confirm ≡ true → check_decidable s ≡ to_answer s.received
unfolding check_decidable
confirmed-check s c = ap (λ b. if b then to_answer s.received else err SessionError.not_held) c

-- What `checkDecidable` lets through.
unfoldable pub Decidable : Session → Result SessionError PairComplete → Type 0
Decidable s (err e) = Unit
Decidable s (ok m) = (s.confirm ≡ true) × (s.received ≡ some m)

to_answer-Decidable :
    (s : Session) (r : Option PairComplete)
    → s.confirm ≡ true
    → s.received ≡ r
    → Decidable s (to_answer r)
unfolding to_answer Decidable
to_answer-Decidable s none c e = tt
to_answer-Decidable s (some m) c e = (c, e)

check_decidable-Decidable : (s : Session) → Decidable s (check_decidable s)
unfolding check_decidable Decidable
check_decidable-Decidable s =
    if_holds (Decidable s) s.confirm (to_answer s.received) (err SessionError.not_held)
      (λ c. to_answer-Decidable s s.received c refl) (λ c. tt)

decide-IsSound :
    (written : Bool) (d : Decision) (r : Result SessionError PairComplete) (s : Session)
    → Decidable s r
    → IsSound s
    → IsSound (decide written d r s).1
unfolding decide Decidable
decide-IsSound written d (err e) s h i = i
decide-IsSound written d (ok m) s h i = send_decision-IsSound written d m s h.0 h.1 i

pub reject-IsSound : (written : Bool) (s : Session) → IsSound s → IsSound (reject written s).1
unfolding reject
reject-IsSound written s =
    decide-IsSound written Decision.pair_reject (check_decidable s) s (check_decidable-Decidable s)

read_result-IsSound :
    (id : Bytes) (fs : List Frame) (s : Session) → IsSound s → IsSound (read_result id fs s).1
unfolding read_result
read_result-IsSound id [] s i = inbox-IsSound [] s i
read_result-IsSound id (Frame.pair_result j committed ∷ fs) s i =
    if_holds (λ (r : Option SessionError × Session). IsSound r.1) (str_eq j id)
      (if committed then none else some SessionError.not_committed, record s { inbox = fs })
      (read_result id fs s) (λ e. inbox-IsSound fs s i) (λ e. read_result-IsSound id fs s i)
read_result-IsSound id (Frame.error ∷ fs) s i = inbox-IsSound fs s i
read_result-IsSound id (Frame.malformed ∷ fs) s i = read_result-IsSound id fs s i
read_result-IsSound id (Frame.auth ∷ fs) s i = read_result-IsSound id fs s i
read_result-IsSound id (Frame.other ∷ fs) s i = read_result-IsSound id fs s i
read_result-IsSound id (Frame.pair_complete m ∷ fs) s i = read_result-IsSound id fs s i

after_decision-IsSound :
    (r : Option SessionError × Session) → IsSound r.1 → IsSound (after_decision r).1
unfolding after_decision
after_decision-IsSound (some e, s) i = i
after_decision-IsSound (none, s) i = read_result-IsSound (device_of s.received) s.inbox s i

accept-IsSound : (written : Bool) (s : Session) → IsSound s → IsSound (accept written s).1
unfolding accept
accept-IsSound written s i =
    after_decision-IsSound (decide written Decision.pair_accept (check_decidable s) s) (
      decide-IsSound written Decision.pair_accept (check_decidable s) s
        (check_decidable-Decidable s) i)

hang_up-IsSound : (r : Option SessionError × Session) → IsSound r.1 → IsSound (hang_up r).1
unfolding hang_up
hang_up-IsSound (e, s) i = record { settled = i.settled; named = i.named; held = i.held }

pub close-IsSound : (written : Bool) (s : Session) → IsSound s → IsSound (close written s).1
unfolding close
close-IsSound written s i =
    let rejects = s.confirm && is_received s.received && not s.decided in
    hang_up-IsSound (if rejects then reject written s else (none, s)) (
      if_holds (λ (r : Option SessionError × Session). IsSound r.1) rejects (reject written s)
        (none, s) (λ e. reject-IsSound written s i) (λ e. i))

call-IsSound : (c : Call) (s : Session) → IsSound s → IsSound (call c s)
unfolding call
call-IsSound (Call.waits expired) s i = wait-IsSound expired s i
call-IsSound (Call.accepts written) s i = accept-IsSound written s i
call-IsSound (Call.rejects written) s i = reject-IsSound written s i
call-IsSound (Call.closes written) s i = close-IsSound written s i

pub call_all-IsSound : (cs : List Call) (s : Session) → IsSound s → IsSound (call_all cs s)
unfolding call_all
call_all-IsSound [] s i = i
call_all-IsSound (c ∷ cs) s i = call_all-IsSound cs (call c s) (call-IsSound c s i)

unfoldable of_ok : Session → Result SessionError Session → Session
of_ok s (err e) = s
of_ok s (ok t) = t

dialed-IsSound :
    (r : Option SessionError × Session) (s : Session) → IsSound r.1 → dialed r ≡ ok s → IsSound s
unfolding dialed of_ok
dialed-IsSound (some e, t) s i h = absurd cc
dialed-IsSound (none, t) s i h = subst IsSound (ap (of_ok s) h) i

authenticate-IsSound :
    (written : Bool) (s : Session)
    → s.decided ≡ false
    → s.attempts ≡ []
    → IsSound (authenticate written s).1
unfolding authenticate
authenticate-IsSound false s e f = fresh-IsSound s e f
authenticate-IsSound true s e f = read_auth-IsSound s.inbox s e f

pub dial-IsSound :
    (written confirm : Bool) (frames : List Frame) (s : Session)
    → dial_pair_session written confirm frames ≡ ok s
    → IsSound s
unfolding dial_pair_session new_session
dial-IsSound written confirm frames s h =
    dialed-IsSound _ s (authenticate-IsSound written (new_session confirm frames) refl refl) h
