-- ===== src/Tmux/TitleFilter/Strips.antt =====
-- What internal/tmux/titlefilter.go does to a stream, said without its states.
pub mod Kept
use mathlib.Core.List.{flatten}
use mathlib.Core.Option.{some-injective}
use pmux_agent.Tmux.TitleFilter.Chunks.{feed, feed_total, feed-seen, observe}
use pmux_agent.Base.{
  some, ℕ, suc, ◌+◌, ◌≤◌, ◌≡◌, ◌≢◌, refl, sym, subst, ap, ◌∙◌, Bool, true, false, List, [], ◌∷◌,
  ◌++◌, append-nil, append_assoc, Bytes, length, length-append, ◌==◌, ==_iff, arith, ltb,
  Bool-cases, inl, inr,
}
use pmux_agent.Tmux.TitleFilter.{
  TitleFilter, TitleState, esc, backslash, after_esc, title_byte, after_esc_in_title, append_title,
  new_title_filter,
}
use pmux_agent.Tmux.TitleFilter.Bytewise.{run, run-nil, step, step_in, pass_byte}

-- No `ESC \` in the text.
abbrev pub LacksSt : Bytes → Type 0
LacksSt [] = Unit {0}
LacksSt (a ∷ []) = Unit {0}
LacksSt (a ∷ b ∷ s) = (¬ ((a ≡ esc) × (b ≡ backslash))) × LacksSt (b ∷ s)

-- The text does not begin with `k`.
abbrev pub LacksK : Bytes → Type 0
LacksK [] = Unit {0}
LacksK (b ∷ s) = b ≢ b'k'

-- `Strips s t`: `t` is `s` less its titles. Read from the left, a byte is kept if it is no `ESC`; an `ESC` is kept if
-- no `k` follows; `ESC k` is kept with the 511 bytes after it if these hold no `ESC \`; and a title `ESC k body ESC \`
-- is left out if its body has at most 509 bytes and the first `ESC \` is its end.
pub data Strips : Bytes → Bytes → Type 0 where
  done : Strips [] []
  plain : (b : ℕ) {s t : Bytes} → b ≢ esc → Strips s t → Strips (b ∷ s) (b ∷ t)
  lone : {s t : Bytes} → LacksK s → Strips s t → Strips (esc ∷ s) (esc ∷ t)
  long :
      (body : Bytes) {s t : Bytes}
      → LacksSt body
      → length body ≡ 511
      → Strips s t
      → Strips (esc ∷ b'k' ∷ (body ++ s)) (esc ∷ b'k' ∷ (body ++ t))
  title :
      (body : Bytes) {s t : Bytes}
      → LacksSt (body ++ esc ∷ [])
      → length body ≤ 509
      → Strips s t
      → Strips (esc ∷ b'k' ∷ (body ++ esc ∷ backslash ∷ s)) t

-- What may still follow: anything in passthrough, else something that begins with no `k`.
abbrev pub Ready : Bytes → Bytes → Type 0
Ready s o = (s' t' : Bytes) → Strips s' t' → Strips (s ++ s') (o ++ t')

abbrev pub ReadyEsc : Bytes → Bytes → Type 0
ReadyEsc s o = (s' t' : Bytes) → LacksK s' → Strips s' t' → Strips (s ++ s') (o ++ t')

abbrev pub Settled : TitleState → Bytes → Bytes → Type 0
Settled TitleState.passthrough s o = Ready s o
Settled TitleState.saw_esc s o = ReadyEsc s o
Settled TitleState.in_title s o = ReadyEsc s o
Settled TitleState.saw_esc_in_title s o = ReadyEsc s o

closed : (s o : Bytes) → Strips (s ++ []) (o ++ []) → Strips s o
closed s o h = subst (λ u. Strips u o) (append-nil s) (subst (Strips (s ++ [])) (append-nil o) h)

pub Settled-Strips : (t : TitleState) (s o : Bytes) → Settled t s o → Strips s o
Settled-Strips TitleState.passthrough s o h = closed s o (h [] [] done)
Settled-Strips TitleState.saw_esc s o h = closed s o (h [] [] tt done)
Settled-Strips TitleState.in_title s o h = closed s o (h [] [] tt done)
Settled-Strips TitleState.saw_esc_in_title s o h = closed s o (h [] [] tt done)

pub joined :
    (s o x s' t' : Bytes)
    → Strips (s ++ (x ++ s')) (o ++ (x ++ t'))
    → Strips ((s ++ x) ++ s') ((o ++ x) ++ t')
joined s o x s' t' h =
    subst (λ u. Strips u ((o ++ x) ++ t')) (sym (append_assoc s x s'))
      (subst (Strips (s ++ (x ++ s'))) (sym (append_assoc o x t')) h)

abbrev pub EndsNotEsc : Bytes → Type 0
EndsNotEsc [] = Unit {0}
EndsNotEsc (a ∷ []) = a ≢ esc
EndsNotEsc (a ∷ b ∷ s) = EndsNotEsc (b ∷ s)

pub LacksSt-other : (s : Bytes) (x : ℕ) → LacksSt s → x ≢ backslash → LacksSt (s ++ x ∷ [])
LacksSt-other [] x l h = tt
LacksSt-other (a ∷ []) x l h = (λ e. h e.1, tt)
LacksSt-other (a ∷ b ∷ s) x l h = (l.0, LacksSt-other (b ∷ s) x l.1 h)

pub LacksSt-any : (s : Bytes) (x : ℕ) → LacksSt s → EndsNotEsc s → LacksSt (s ++ x ∷ [])
LacksSt-any [] x l h = tt
LacksSt-any (a ∷ []) x l h = (λ e. h e.0, tt)
LacksSt-any (a ∷ b ∷ s) x l h = (l.0, LacksSt-any (b ∷ s) x l.1 h)

pub EndsNotEsc-snoc : (s : Bytes) (x : ℕ) → x ≢ esc → EndsNotEsc (s ++ x ∷ [])
EndsNotEsc-snoc [] x h = h
EndsNotEsc-snoc (a ∷ []) x h = h
EndsNotEsc-snoc (a ∷ b ∷ s) x h = EndsNotEsc-snoc (b ∷ s) x h

-- The bytes held back in a state: nothing, an escape byte, or the title buffer, which is an
-- unfinished title.
abbrev pub Pending : TitleState → Bytes → Bytes → Type 0
Pending TitleState.passthrough buf p = p ≡ []
Pending TitleState.saw_esc buf p = p ≡ esc ∷ []
Pending TitleState.in_title buf p =
    (p ≡ buf)
    × (length buf ≤ 512)
    × ((body : Bytes) × (buf ≡ esc ∷ b'k' ∷ body) × LacksSt body × EndsNotEsc body)
Pending TitleState.saw_esc_in_title buf p =
    (p ≡ buf)
    × (length buf ≤ 512)
    × ((body : Bytes) × (buf ≡ esc ∷ b'k' ∷ (body ++ esc ∷ [])) × LacksSt (body ++ esc ∷ []))

abbrev pub Inv : Bytes → TitleFilter → Type 0
Inv c f =
    (s : Bytes) × (p : Bytes) × (c ≡ s ++ p)
    × Settled f.state s f.out
    × Pending f.state f.title_buf p
