-- ===== src/Tmux/TitleFilter/Titles.antt =====
-- internal/tmux/titlefilter.go on plain text and on a title that is complete.
use pmux_agent.Base.{
  ℕ, ◌+◌, ◌≤◌, ◌≡◌, ◌≢◌, refl, sym, subst, ap, ◌∙◌, Bool, true, false, [], ◌∷◌, ◌++◌, append-nil,
  append_assoc, Bytes, All, length, length-append, ◌==◌, ==_iff, arith, Bool-cases, inl, inr,
}
use pmux_agent.Tmux.TitleFilter.{
  TitleFilter, TitleState, esc, backslash, after_esc, title_byte, after_esc_in_title, append_title,
  filter, new_title_filter,
}
use pmux_agent.Tmux.TitleFilter.Bytewise.{
  run, run-append, step, step_in, pass_byte, behind, run-behind,
}
use pmux_agent.Tmux.TitleFilter.Chunks.{observe, behind_seen, seen, filter-seen}
use pmux_agent.Tmux.TitleFilter.Strips.{LacksSt}

abbrev filter_at : TitleState → Bytes → Bytes → TitleFilter
filter_at t buf out = record { state = t; title_buf = buf; out = out }

append_fits :
    (b : ℕ) (t : TitleState) (buf out : Bytes)
    → length buf + 1 ≤ 512
    → append_title b (filter_at t buf out) ≡ filter_at t (buf ++ b ∷ []) out
unfolding append_title
append_fits b t buf out h = ground (arith, length-append buf (b ∷ []))

-- In a title, after its escape byte if the flag is set.
abbrev title_state : Bool → TitleState
title_state true = TitleState.saw_esc_in_title
title_state false = TitleState.in_title

abbrev flagged : Bool → Bytes → Bytes
flagged true s = esc ∷ s
flagged false s = s

next_in_title :
    (saw : Bool) (b : ℕ) (buf out rest : Bytes)
    → length buf + 1 ≤ 512
    → LacksSt (flagged saw (b ∷ rest))
    → step b (filter_at (title_state saw) buf out)
      ≡ filter_at (title_state (b == esc)) (buf ++ b ∷ []) out
unfolding step step_in title_byte after_esc_in_title
next_in_title true b buf out rest h l =
    let inner : b ≢ backslash = λ e. l.0 (refl, e) in
    ground (arith, length-append buf (b ∷ []), inner)
next_in_title false b buf out rest h l = ground (arith, length-append buf (b ∷ []))

last_in_title :
    (buf out : Bytes)
    → step backslash (filter_at TitleState.saw_esc_in_title buf out)
      ≡ filter_at TitleState.passthrough [] out
unfolding step step_in after_esc_in_title
last_in_title buf out = refl

LacksSt-tail : (b : ℕ) (s : Bytes) → LacksSt (b ∷ s) → LacksSt s
LacksSt-tail b [] l = tt
LacksSt-tail b (c ∷ s) l = l.1

LacksSt-seen : (b : ℕ) (s : Bytes) → LacksSt (b ∷ s) → LacksSt (flagged (b == esc) s)
LacksSt-seen b s l = elim (Bool-cases (b == esc)) [
  | inl hit ↦ rw hit (subst (λ x. LacksSt (x ∷ s)) ((==_iff b esc).0 hit) l)
  | inr miss ↦ rw miss (LacksSt-tail b s l)
]

LacksSt-flagged :
    (saw : Bool) (b : ℕ) (s : Bytes)
    → LacksSt (flagged saw (b ∷ s))
    → LacksSt (flagged (b == esc) s)
LacksSt-flagged true b s l = LacksSt-seen b s l.1
LacksSt-flagged false b s l = LacksSt-seen b s l

run_body :
    (body : Bytes) (saw : Bool) (rest buf out : Bytes)
    → LacksSt (flagged saw (body ++ esc ∷ []))
    → length buf + length body + 1 ≤ 512
    → run (body ++ esc ∷ backslash ∷ rest) (filter_at (title_state saw) buf out)
      ≡ run rest (filter_at TitleState.passthrough [] out)
unfolding run
run_body [] saw rest buf out l n =
    ap (λ f. run rest (step backslash f)) (next_in_title saw esc buf out [] (omega arith) l)
    ∙ ap (run rest) (last_in_title (buf ++ esc ∷ []) out)
run_body (b ∷ body) saw rest buf out l n =
    ap (run (body ++ esc ∷ backslash ∷ rest))
      (next_in_title saw b buf out (body ++ esc ∷ []) (omega arith) l)
    ∙ run_body body (b == esc) rest (buf ++ b ∷ []) out (LacksSt-flagged saw b (body ++ esc ∷ []) l)
        (omega (arith, length-append buf (b ∷ [])))

abbrev pub title_of : Bytes → Bytes
title_of body = esc ∷ b'k' ∷ (body ++ esc ∷ backslash ∷ [])

run_title :
    (body rest buf out : Bytes)
    → LacksSt (body ++ esc ∷ [])
    → length body ≤ 509
    → run (title_of body ++ rest) (filter_at TitleState.passthrough buf out)
      ≡ run rest (filter_at TitleState.passthrough [] out)
unfolding run step step_in pass_byte after_esc
run_title body rest buf out l n =
    rw append_assoc (run_body body false rest (esc ∷ b'k' ∷ []) out l (omega arith))

plain_byte :
    (b : ℕ) (buf out : Bytes)
    → b ≢ esc
    → step b (filter_at TitleState.passthrough buf out)
      ≡ filter_at TitleState.passthrough buf (out ++ b ∷ [])
unfolding step step_in pass_byte
plain_byte b buf out h = ground arith

run_plain :
    (s buf out : Bytes)
    → All (λ b. b ≢ esc) s
    → run s (filter_at TitleState.passthrough buf out)
      ≡ filter_at TitleState.passthrough buf (out ++ s)
unfolding run step step_in pass_byte
run_plain [] buf out h = rw append-nil
run_plain (b ∷ s) buf out (hb, hs) =
    ap (run s) (plain_byte b buf out hb)
    ∙ run_plain s buf (out ++ b ∷ []) hs
    ∙ ap (filter_at TitleState.passthrough buf) (append_assoc out (b ∷ []) s)

run_plain_title :
    (plain body rest buf : Bytes)
    → All (λ b. b ≢ esc) plain
    → LacksSt (body ++ esc ∷ [])
    → length body ≤ 509
    → run (plain ++ (title_of body ++ rest)) (filter_at TitleState.passthrough buf [])
      ≡ behind plain (run rest (filter_at TitleState.passthrough [] []))
run_plain_title plain body rest buf h l n =
    run-append plain (title_of body ++ rest) _
    ∙ ap (run (title_of body ++ rest)) (run_plain plain buf [] h)
    ∙ run_title body rest buf plain l n
    ∙ ap (λ o. run rest (filter_at TitleState.passthrough [] o)) (sym (append-nil plain))
    ∙ run-behind rest plain (filter_at TitleState.passthrough [] [])

-- From passthrough, text without an escape byte followed by a title of at most 509 bytes comes out
-- as the text alone, and what follows the title is filtered as from a new filter.
pub filter-plain_title :
    (f : TitleFilter) (plain body rest : Bytes)
    → f.state ≡ TitleState.passthrough
    → All (λ b. b ≢ esc) plain
    → LacksSt (body ++ esc ∷ [])
    → length body ≤ 509
    → observe (filter (plain ++ (title_of body ++ rest)) f)
      ≡ behind_seen plain (observe (filter rest new_title_filter))
unfolding new_title_filter
filter-plain_title f plain body rest st h l n =
    filter-seen (plain ++ (title_of body ++ rest)) f
    ∙ ap (λ t. seen (run (plain ++ (title_of body ++ rest)) (filter_at t f.title_buf []))) st
    ∙ ap seen (run_plain_title plain body rest f.title_buf h l n)
    ∙ ap (behind_seen plain) (sym (filter-seen rest (filter_at TitleState.passthrough [] [])))
