-- ===== src/Tmux/Listing/Sessions.antt =====
-- The lines that tmux prints for windows and sessions, against the parsers of
-- internal/tmux/tmux.go.
use pmux_agent.Base.{
  ℕ, ◌<◌, ◌^◌, ℤ, sym, ap, Bool-cases, inl, inr, pos, ◌≡◌, refl, ◌∙◌, false, List, [], map, some,
  Bytes, codes, All, str_eq, str_eq→eq, ==_iff, ◌==◌, arith,
}
use pmux_agent.Strings.{split_n}
use pmux_agent.Strings.Parts.{split_n-cons, split_n-one}
use pmux_agent.Strings.Numbers.{Parsed, itoa, atoi, atoi-itoa, IsInt64}
use pmux_agent.Tmux.Listing.{Session, Window, session_of, window_of, parse_sessions, parse_windows}
use pmux_agent.Tmux.Listing.RoundTrip.{
  print_all, IsField, itoa-IsField, ◌bar◌, bar-Lacks, bar-ne-nil, flag, flag-IsField, flag-read,
  Readable, All-map, map_id, parse_output-print,
}

abbrev pub print_window : Window → Bytes
print_window v = v.id bar v.name bar itoa v.index bar flag v.active

-- The panes of a window are listed by a command of their own.
pub record IsPlainWindow (v : Window) : Type 0 where
  pub plain_id : IsField v.id
  pub plain_name : IsField v.name
  pub index_fits : IsInt64 v.index
  pub no_panes : v.panes ≡ []

window_back : (v : Window) → IsPlainWindow v → window_of (split_n b'|' 4 (print_window v)) ≡ some v
unfolding window_of
window_back v h =
    simp
      (
        split_n-cons b'|' 2 v.id _ h.plain_id.0,
        split_n-cons b'|' 1 v.name _ h.plain_name.0,
        split_n-cons b'|' 0 (itoa v.index) _ (itoa-IsField v.index h.index_fits).0,
        split_n-one,
        atoi-itoa v.index h.index_fits,
        flag-read v.active,
      )
      (λ i. some (record v { panes = sym h.no_panes i }))

-- A session as tmux prints it, with the number of clients attached to it. The format asks for the variable
-- `session_last_activity`, which tmux does not have and prints as nothing.
pub record SessionLine : Type 0 where
  pub id : Bytes
  pub name : Bytes
  pub created_at : ℤ
  pub clients : ℕ

abbrev pub print_session : SessionLine → Bytes
print_session s = s.id bar s.name bar itoa s.created_at bar [] bar itoa (pos s.clients)

-- The session that is read: without a time of activity, and attached if it has one client.
abbrev pub as_read : SessionLine → Session
as_read s = record {
  id = s.id;
  name = s.name;
  created_at = s.created_at;
  last_activity_at = pos 0;
  attached = s.clients == 1;
  windows = [];
}

pub record IsPlainSession (s : SessionLine) : Type 0 where
  pub plain_id : IsField s.id
  pub plain_name : IsField s.name
  pub created_fits : IsInt64 s.created_at
  pub clients_fit : s.clients < 2 ^ 63

other_client : (n : ℕ) → (n == 1) ≡ false → ¬ (Parsed.value (pos n) ≡ Parsed.value (pos 1))
other_client n h e = ground arith

one_client : (n : ℕ) → n < 2 ^ 63 → str_eq (itoa (pos n)) (codes "1") ≡ (n == 1)
unfolding atoi
one_client n h = elim (Bool-cases (n == 1)) [
  | inl one ↦ rw (one, (==_iff n 1).0 one) (unfold itoa in refl)
  | inr other ↦ elim (Bool-cases (str_eq (itoa (pos n)) (codes "1"))) [
    | inl e ↦ absurd (
        other_client n other
          (sym (atoi-itoa (pos n) h) ∙ ap atoi (str_eq→eq (itoa (pos n)) (codes "1") e)))
    | inr e ↦ e ∙ sym other
  ]
]

session_back :
    (s : SessionLine)
    → IsPlainSession s
    → session_of (split_n b'|' 5 (print_session s)) ≡ some (as_read s)
unfolding session_of atoi
session_back s h = simp (
  split_n-cons b'|' 3 s.id _ h.plain_id.0,
  split_n-cons b'|' 2 s.name _ h.plain_name.0,
  split_n-cons b'|' 1 (itoa s.created_at) _ (itoa-IsField s.created_at h.created_fits).0,
  split_n-cons b'|' 0 [] _ tt,
  split_n-one,
  atoi-itoa s.created_at h.created_fits,
  atoi,
  one_client s.clients h.clients_fit,
)

session_line : (s : SessionLine) → IsPlainSession s → Readable session_of 5 print_session as_read s
session_line s h = (
  bar-ne-nil s.id _,
  bar-Lacks s.id _ h.plain_id.1 (
      bar-Lacks s.name _ h.plain_name.1 (
        bar-Lacks (itoa s.created_at) _ (itoa-IsField s.created_at h.created_fits).1
          (bar-Lacks [] _ tt (itoa-IsField (pos s.clients) h.clients_fit).1))),
  session_back s h,
)

window_line : (v : Window) → IsPlainWindow v → Readable window_of 4 print_window (λ x. x) v
window_line v h = (
  bar-ne-nil v.id _,
  bar-Lacks v.id _ h.plain_id.1 (
      bar-Lacks v.name _ h.plain_name.1 (
        bar-Lacks (itoa v.index) _ (itoa-IsField v.index h.index_fits).1
          (flag-IsField v.active).1)),
  window_back v h,
)

-- A list of windows that tmux prints is read back: ids and names without `|` and newline, and
-- numbers of 64 bits.
pub parse_windows-print :
    (vs : List Window) → All IsPlainWindow vs → parse_windows (print_all print_window vs) ≡ vs
unfolding parse_windows
parse_windows-print vs h =
    parse_output-print window_of 4 print_window (λ x. x) vs (All-map window_line vs h) ∙ map_id vs

-- A list of sessions that tmux prints, with ids and names without `|` and newline and numbers of 64
-- bits, is read back but for two fields: the time of the last activity is read as 0, and a session
-- counts as attached exactly if one client is attached to it, so that one with two clients or more
-- does not.
pub parse_sessions-print :
    (ss : List SessionLine)
    → All IsPlainSession ss
    → parse_sessions (print_all print_session ss) ≡ map as_read ss
unfolding parse_sessions
parse_sessions-print ss h =
    parse_output-print session_of 5 print_session as_read ss (All-map session_line ss h)
