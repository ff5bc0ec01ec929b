-- ===== src/Tmux/Tests.antt =====
-- Tests of internal/tmux, and the theorems at inputs that meet their hypotheses.
use mathlib.Core.List.{flatten}
use pmux_agent.Base.{
  ℕ, suc, pos, ◌≤◌, ◌≡◌, ◌⊎◌, refl, true, List, [], ◌∷◌, ◌++◌, map, some, Bytes, codes, length, ok,
  err, arith, str_eq, if◌then◌else◌,
}
use pmux_agent.Base.Map.{insert, delete, lookup}
use pmux_agent.Tmux.TitleFilter.{TitleFilter, TitleState, new_title_filter, filter, esc, backslash}
use pmux_agent.Tmux.TitleFilter.Bytewise.{run, filter-run}
use pmux_agent.Tmux.TitleFilter.Chunks.{feed, observe, behind_seen, feed-flatten}
use pmux_agent.Tmux.TitleFilter.Strips.{Strips, Pending}
use pmux_agent.Tmux.TitleFilter.Strips.Kept.{feed-Strips}
use pmux_agent.Tmux.TitleFilter.Titles.{filter-plain_title, title_of}
use pmux_agent.Tmux.Server.{Server, Exit, TmuxError}
use pmux_agent.Tmux.Client.{
  valid_target, kill_session, clear_window_size_override, window_for_pane, resize_pane,
  pane_dimensions, cursor_state,
}
use pmux_agent.Tmux.Client.Guard.{invalid_target_refused}
use pmux_agent.Tmux.Listing.{
  list_windows, list_panes, Window, Pane, parse_panes, parse_windows, parse_sessions,
}
use pmux_agent.Tmux.Listing.RoundTrip.{print_all, print_pane, parse_panes-print}
use pmux_agent.Tmux.Listing.Sessions.{
  SessionLine, print_session, print_window, as_read, parse_windows-print, parse_sessions-print,
}
use pmux_agent.Tmux.Resize.{is_forced, track_and_resize, release_if_forced}
use pmux_agent.Tmux.Resize.Forced.{is_forced-track_and_resize}

abbrev esc_k : Bytes
esc_k = esc ∷ b'k' ∷ []

abbrev st : Bytes
st = esc ∷ backslash ∷ []

-- A title over three chunks.
abbrev chunks : List Bytes
chunks = (codes "ab" ++ esc ∷ []) ∷ (codes "kvi" ++ esc ∷ []) ∷ (codes "\\" ++ codes "cd") ∷ []

chunks_filtered :
    observe (feed chunks new_title_filter) ≡ some (codes "abcd", TitleState.passthrough, [])
unfolding feed filter new_title_filter
chunks_filtered = refl

unfinished_title :
    observe (filter (codes "a" ++ esc_k ++ codes "t") new_title_filter)
    ≡ some (codes "a", TitleState.in_title, esc_k ++ codes "t")
unfolding filter new_title_filter
unfinished_title = refl

other_sequence :
    observe (filter (esc ∷ codes "[0m") new_title_filter)
    ≡ some (esc ∷ codes "[0m", TitleState.passthrough, [])
unfolding filter new_title_filter
other_sequence = refl

feed-flatten_example :
    observe (feed chunks new_title_filter) ≡ observe (filter (flatten chunks) new_title_filter)
feed-flatten_example = feed-flatten chunks new_title_filter

feed-Strips_example :
    (o : Bytes) × (g : TitleFilter) × (s : Bytes) × (p : Bytes) × (feed chunks new_title_filter
      ≡ some (o, g))
    × (flatten chunks ≡ s ++ p)
    × Strips s o
    × Pending g.state g.title_buf p
    × (length p ≤ 512)
feed-Strips_example = feed-Strips chunks

filter-run_example :
    filter (codes "ab") new_title_filter
    ≡ some (
      (run (codes "ab") (record new_title_filter { out = [] })).out,
      run (codes "ab") (record new_title_filter { out = [] }),
    )
filter-run_example = filter-run (codes "ab") new_title_filter (cc)

filter-plain_title_example :
    observe (filter (codes "ab" ++ (title_of (codes "vi") ++ codes "c")) new_title_filter)
    ≡ behind_seen (codes "ab") (observe (filter (codes "c") new_title_filter))
unfolding new_title_filter
filter-plain_title_example =
    filter-plain_title new_title_filter (codes "ab") (codes "vi") (codes "c") refl (omega arith)
      (omega arith) (omega arith)

-- A server that counts its runs: one pane, `%0`, in the window `@1` of the session `$0`.
abbrev last_arg : List Bytes → Bytes
last_arg [] = []
last_arg (a ∷ []) = a
last_arg (a ∷ b ∷ args) = last_arg (b ∷ args)

abbrev answer : Bytes → Bytes
answer a =
    if str_eq a (codes "#{window_panes}")
    then codes "1"
    else if str_eq a (codes "#{session_id}:#{window_id}")
    then codes "$0:@1"
    else []

abbrev toy : Server
toy = record { World = ℕ; exec = λ stdin args w. (answer (last_arg args), Exit.success, suc w) }

abbrev pmux : Bytes
pmux = codes "pmux"

-- Two questions and one resize of the window.
tracked :
    track_and_resize toy pmux (codes "%0") (pos 80) (pos 24) [] 0
    ≡ (ok tt, (codes "%0", true) ∷ [], 3)
unfolding track_and_resize resize_pane pmux_agent.Tmux.Server.command valid_target insert
    pmux_agent.Strings.Numbers.atoi pmux_agent.Strings.Numbers.itoa pmux_agent.Strings.trim_space
    pmux_agent.Strings.trim_newlines
tracked = refl

released : release_if_forced toy pmux (codes "%0") ((codes "%0", true) ∷ []) 3 ≡ (ok tt, [], 5)
unfolding release_if_forced is_forced pmux_agent.Tmux.Resize.release_window window_for_pane
    clear_window_size_override pmux_agent.Tmux.Server.command valid_target delete lookup
    pmux_agent.Strings.trim_space pmux_agent.Strings.trim_newlines
released = refl

invalid_target_refused_example :
    let w : ℕ = 7 in
    let target = codes "%0; rm" in
    (kill_session toy pmux target w ≡ (err (TmuxError.invalid_target target), w))
    × (clear_window_size_override toy pmux target w ≡ (err (TmuxError.invalid_target target), w))
    × (window_for_pane toy pmux target w ≡ (
      err (TmuxError.wrapped (codes "find window for pane") (TmuxError.invalid_target target)),
      w,
    ))
    × (resize_pane toy pmux target (pos 80) (pos 24) w
        ≡ (err (TmuxError.wrapped (codes "resize-pane") (TmuxError.invalid_target target)), w))
    × (pane_dimensions toy pmux target w
        ≡ (err (TmuxError.wrapped (codes "pane-dimensions") (TmuxError.invalid_target target)), w))
    × (cursor_state toy pmux target w
        ≡ (err (TmuxError.wrapped (codes "cursor-state") (TmuxError.invalid_target target)), w))
    × (list_windows toy pmux target w
        ≡ (err (TmuxError.wrapped (codes "list-windows") (TmuxError.invalid_target target)), w))
    × (list_panes toy pmux target w
        ≡ (err (TmuxError.wrapped (codes "list-panes") (TmuxError.invalid_target target)), w))
unfolding valid_target
invalid_target_refused_example =
    invalid_target_refused toy pmux (codes "%0; rm") (pos 80) (pos 24) 7 refl

abbrev shell : Pane
shell = record {
  id = codes "%0";
  index = pos 0;
  active = true;
  size = record { cols = pos 80; rows = pos 24 };
  title = codes "host";
  current_command = codes "a|b";
}

pane_printed : print_pane shell ≡ codes "%0|0|1|80|24|host|a|b"
unfolding pmux_agent.Strings.Numbers.itoa
pane_printed = refl

parse_panes-print_example :
    parse_panes (print_all print_pane (shell ∷ shell ∷ [])) ≡ shell ∷ shell ∷ []
parse_panes-print_example = parse_panes-print (shell ∷ shell ∷ []) (omega arith)

abbrev main_window : Window
main_window = record {
  id = codes "@0";
  name = codes "vim";
  index = pos 1;
  active = true;
  panes = [];
}

parse_windows-print_example :
    parse_windows (print_all print_window (main_window ∷ [])) ≡ main_window ∷ []
parse_windows-print_example = parse_windows-print (main_window ∷ []) (
  record {
    plain_id = omega arith;
    plain_name = omega arith;
    index_fits = omega arith;
    no_panes = refl;
  },
  tt,
)

abbrev shared : SessionLine
shared = record { id = codes "$0"; name = codes "work"; created_at = pos 17; clients = 2 }

parse_sessions-print_example :
    parse_sessions (print_all print_session (shared ∷ [])) ≡ map as_read (shared ∷ [])
parse_sessions-print_example = parse_sessions-print (shared ∷ []) (omega arith)

is_forced-track_and_resize_example :
    let r = resize_pane toy pmux (codes "%0") (pos 80) (pos 24) 0 in
    let (_, forced', w') = track_and_resize toy pmux (codes "%0") (pos 80) (pos 24) [] 0 in
    (w' ≡ r.1)
    × (((r.0 ≡ ok tt)
          × (is_forced (codes "%0") forced'
              ≡ (if str_eq (codes "%0") (codes "%0") then true else is_forced (codes "%0") [])))
        ⊎ ((e : TmuxError) × (r.0 ≡ err e) × (forced' ≡ [])))
is_forced-track_and_resize_example =
    is_forced-track_and_resize toy pmux (codes "%0") (codes "%0") (pos 80) (pos 24) [] 0
