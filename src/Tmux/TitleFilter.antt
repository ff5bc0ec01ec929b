-- ===== src/Tmux/TitleFilter.antt =====
-- internal/tmux/titlefilter.go. `out` is the output buffer of the current call.
pub mod Bytewise
pub mod Chunks
pub mod Strips
pub mod Titles
use mathlib.Core.Option
use pmux_agent.Base.{
  ℕ, zero, suc, ◌+◌, Bool, true, false, List, [], ◌∷◌, ◌++◌, Option, none, some, Bytes, length,
  take, drop, ltb, ◌==◌, if◌then◌else◌,
}

abbrev pub max_title_len : ℕ
max_title_len = 512

abbrev pub esc : ℕ
esc = 0x1b

abbrev pub backslash : ℕ
backslash = b'\\'

pub data TitleState : Type 0 where
  passthrough saw_esc in_title saw_esc_in_title : TitleState

pub record TitleFilter : Type 0 where
  pub state : TitleState
  pub title_buf : Bytes
  pub out : Bytes

unfoldable pub new_title_filter : TitleFilter
new_title_filter = record { state = TitleState.passthrough; title_buf = []; out = [] }

unfoldable pub reset : TitleFilter → TitleFilter
reset f = record f { state = TitleState.passthrough; title_buf = [] }

unfoldable pub append_title : ℕ → TitleFilter → TitleFilter
append_title b f =
    let buf = f.title_buf ++ b ∷ [] in
    if ltb max_title_len (length buf)
    then record { state = TitleState.passthrough; title_buf = []; out = f.out ++ buf }
    else record f { title_buf = buf }

-- `bytes.IndexByte`.
unfoldable pub index_byte : Bytes → ℕ → Option ℕ
index_byte [] c = none
index_byte (b ∷ s) c =
    if b == c then some 0 else elim (index_byte s c) [ none ↦ none | some i ↦ some (suc i) ]

-- One round in `tfSawEsc`, with the byte already consumed.
unfoldable pub after_esc : ℕ → TitleFilter → TitleFilter
after_esc b f =
    if b == b'k'
    then record f { state = TitleState.in_title; title_buf = esc ∷ b'k' ∷ [] }
    else if b == esc
    then record f { out = f.out ++ esc ∷ [] }
    else record f { state = TitleState.passthrough; out = f.out ++ esc ∷ b ∷ [] }

-- One round in `tfInTitle`.
unfoldable pub title_byte : ℕ → TitleFilter → TitleFilter
unfolding append_title
title_byte b f =
    append_title b (if b == esc then record f { state = TitleState.saw_esc_in_title } else f)

-- One round in `tfSawEscInTitle`.
unfoldable pub after_esc_in_title : ℕ → TitleFilter → TitleFilter
unfolding append_title
after_esc_in_title b f =
    if b == backslash
    then record f { state = TitleState.passthrough; title_buf = [] }
    else if b == esc
    then append_title b f
    else append_title b (record f { state = TitleState.in_title })

-- What `tfPassthrough` does with the rest of the data: the bytes that are left, and the filter.
unfoldable pub pass : Bytes → TitleFilter → Bytes × TitleFilter
unfolding index_byte
pass s f = elim (index_byte s esc) [
  | none ↦ ([], record f { out = f.out ++ s })
  | some i ↦ (drop (i + 1) s, record f { state = TitleState.saw_esc; out = f.out ++ take i s })
]

-- One round of the loop on the unread data `b ∷ s`.
unfoldable pub round : TitleState → ℕ → Bytes → TitleFilter → Bytes × TitleFilter
unfolding pass after_esc title_byte after_esc_in_title
round TitleState.passthrough b s f = pass (b ∷ s) f
round TitleState.saw_esc b s f = (s, after_esc b f)
round TitleState.in_title b s f = (s, title_byte b f)
round TitleState.saw_esc_in_title b s f = (s, after_esc_in_title b f)

-- The loop, with fuel for its rounds. `none` means that the fuel ran out.
unfoldable pub loop : ℕ → Bytes → TitleFilter → Option TitleFilter
unfolding round
loop n [] f = some f
loop zero (b ∷ s) f = none
loop (suc n) (b ∷ s) f = let (s', f') = round f.state b s f in loop n s' f'

-- `Filter`: the returned slice, and the filter after the call. Every round consumes a byte, so the
-- length of the data is enough fuel. Go's `nil` is the empty slice here.
unfoldable pub filter : Bytes → TitleFilter → Option (Bytes × TitleFilter)
unfolding loop
filter [] f = some ([], f)
filter (b ∷ s) f =
    Option.map (λ g. (g.out, g)) (loop (length (b ∷ s)) (b ∷ s) (record f { out = [] }))
