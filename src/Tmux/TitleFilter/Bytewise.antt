-- ===== src/Tmux/TitleFilter/Bytewise.antt =====
-- internal/tmux/titlefilter.go, byte by byte: what each byte does to the state.
use native.Mathlib.Numerals.{add-one}
use native.Mathlib.Nat.{le_refl}
use pmux_agent.Base.{
  ℕ, zero, suc, ◌≤◌, ◌≡◌, ◌≢◌, refl, sym, subst, ap, ◌∙◌, inl, inr, true, false, [], ◌∷◌, ◌++◌,
  append-nil, append_assoc, some, Bytes, length, ◌==◌, if◌then◌else◌, arith, Bool-cases,
  Option-cases, length-drop-le,
}
use pmux_agent.Tmux.TitleFilter.{
  TitleFilter, TitleState, esc, index_byte, after_esc, title_byte, after_esc_in_title, pass, round,
  loop, filter,
}

-- A byte in passthrough is copied, unless it is the escape byte.
unfoldable pub pass_byte : ℕ → TitleFilter → TitleFilter
pass_byte b f =
    if b == esc then record f { state = TitleState.saw_esc } else record f { out = f.out ++ b ∷ [] }

unfoldable pub step_in : TitleState → ℕ → TitleFilter → TitleFilter
unfolding pass_byte
step_in TitleState.passthrough b f = pass_byte b f
step_in TitleState.saw_esc b f = after_esc b f
step_in TitleState.in_title b f = title_byte b f
step_in TitleState.saw_esc_in_title b f = after_esc_in_title b f

unfoldable pub step : ℕ → TitleFilter → TitleFilter
unfolding step_in
step b f = step_in f.state b f

unfoldable pub run : Bytes → TitleFilter → TitleFilter
unfolding step
run [] f = f
run (b ∷ s) f = run s (step b f)

pub run-nil : (f : TitleFilter) → run [] f ≡ f
unfolding run
run-nil f = refl

pub run-append : (s t : Bytes) (f : TitleFilter) → run (s ++ t) f ≡ run t (run s f)
unfolding run
run-append [] t f = refl
run-append (b ∷ s) t f = run-append s t (step b f)

abbrev passing : Bytes → Bytes → TitleFilter
passing buf out = record { state = TitleState.passthrough; title_buf = buf; out = out }

pass_at_esc :
    (b : ℕ) (s buf out : Bytes)
    → (b == esc) ≡ true
    → pass (b ∷ s) (passing buf out)
      ≡ (s, record { state = TitleState.saw_esc; title_buf = buf; out = out })
unfolding pass index_byte
pass_at_esc b s buf out h = ground (arith, append-nil out)

pass_over :
    (b : ℕ) (s buf out : Bytes)
    → (b == esc) ≡ false
    → pass (b ∷ s) (passing buf out) ≡ pass s (passing buf (out ++ b ∷ []))
unfolding pass index_byte
pass_over b s buf out h = elim (Option-cases (index_byte s esc)) [
  | inl e ↦ rw (h, e, pass) (simp append_assoc)
  | inr (i, e) ↦ rw (h, e, pass) (simp (append_assoc, add-one))
]

-- The bulk copy of passthrough does what the bytes do one at a time.
run-pass :
    (s buf out : Bytes)
    → run s (passing buf out) ≡ run (pass s (passing buf out)).0 (pass s (passing buf out)).1
unfolding run
run-pass [] buf out = unfold pass index_byte in rw append-nil
run-pass (b ∷ s) buf out = elim (Bool-cases (b == esc)) [
  | inl h ↦ rw (pass_at_esc b s buf out h) (unfold step in rw h)
  | inr h ↦ rw (pass_over b s buf out h) (unfold step in rw h (run-pass s buf (out ++ b ∷ [])))
]

pass-le : (b : ℕ) (s : Bytes) (f : TitleFilter) → length (pass (b ∷ s) f).0 ≤ length s
unfolding pass
pass-le b s f = elim (Option-cases (index_byte (b ∷ s) esc)) [
  | inl e ↦ rw (e, pass) (omega arith)
  | inr (i, e) ↦ rw (e, pass) (rw add-one (length-drop-le i s))
]

round-le :
    (t : TitleState) (b : ℕ) (s : Bytes) (f : TitleFilter) → length (round t b s f).0 ≤ length s
unfolding round
round-le TitleState.passthrough b s f = pass-le b s f
round-le _ b s f = omega arith

run-round :
    (t : TitleState) (b : ℕ) (s : Bytes) (f : TitleFilter)
    → f.state ≡ t
    → run (b ∷ s) f ≡ run (round t b s f).0 (round t b s f).1
unfolding round
run-round TitleState.passthrough b s f h =
    subst (λ g. run (b ∷ s) g ≡ run (pass (b ∷ s) g).0 (pass (b ∷ s) g).1)
      (λ i. record { state = sym h i; title_buf = f.title_buf; out = f.out })
      (run-pass (b ∷ s) f.title_buf f.out)
run-round TitleState.saw_esc b s f h = unfold run step in rw h
run-round TitleState.in_title b s f h = unfold run step in rw h
run-round TitleState.saw_esc_in_title b s f h = unfold run step in rw h

-- With as much fuel as there are bytes the loop ends, as the bytewise run does.
loop-run : (n : ℕ) (s : Bytes) (f : TitleFilter) → length s ≤ n → loop n s f ≡ some (run s f)
unfolding loop
loop-run n [] f h = unfold run in refl
loop-run zero (b ∷ s) f h = absurd (omega arith)
loop-run (suc n) (b ∷ s) f h =
    loop-run n (round f.state b s f).0 (round f.state b s f).1
      (omega (arith, round-le f.state b s f))
    ∙ ap some (sym (run-round f.state b s f refl))

-- `Filter` on any chunk that is not empty ends and gives what the bytes give one at a time, from an
-- empty output.
pub filter-run :
    (s : Bytes) (f : TitleFilter)
    → s ≢ []
    → filter s f ≡ some ((run s (record f { out = [] })).out, run s (record f { out = [] }))
unfolding filter
filter-run [] f h = absurd (h refl)
filter-run (b ∷ s) f h = rw (loop-run _ (b ∷ s) _ (le_refl _))

-- Output that was there before is kept in front, and has no effect.
abbrev pub behind : Bytes → TitleFilter → TitleFilter
behind o f = record f { out = o ++ f.out }

step_in-behind :
    (t : TitleState) (b : ℕ) (o : Bytes) (f : TitleFilter)
    → step_in t b (behind o f) ≡ behind o (step_in t b f)
unfolding step_in after_esc title_byte after_esc_in_title
step_in-behind TitleState.passthrough b o f = ground (arith, append_assoc o f.out (b ∷ []))
step_in-behind TitleState.saw_esc b o f =
    ground (arith, append_assoc o f.out (esc ∷ []), append_assoc o f.out (esc ∷ b ∷ []))
step_in-behind TitleState.in_title b o f =
    ground (arith, append_assoc o f.out (f.title_buf ++ b ∷ []))
step_in-behind TitleState.saw_esc_in_title b o f =
    ground (arith, append_assoc o f.out (f.title_buf ++ b ∷ []))

pub run-behind : (s : Bytes) (o : Bytes) (f : TitleFilter) → run s (behind o f) ≡ behind o (run s f)
unfolding run step
run-behind [] o f = refl
run-behind (b ∷ s) o f =
    ap (run s) (step_in-behind f.state b o f) ∙ run-behind s o (step_in f.state b f)
