-- ===== src/Tmux/Listing.antt =====
-- The listings of internal/tmux/tmux.go: sessions, windows and panes, and the tree of all three.
pub mod RoundTrip
pub mod Sessions
use pmux_agent.Base.{
  ℕ, ℤ, Bool, true, false, ◌||◌, List, [], ◌∷◌, ◌++◌, Option, none, some, Bytes, codes, str_eq,
  if◌then◌else◌, Result, ok, err,
}
use pmux_agent.Strings.{split, split_n, contains, trim_space}
use pmux_agent.Strings.Numbers.{or_nearest, atoi}
use pmux_agent.Tmux.Server.{Server, TmuxError, M, ◌>>=◌, ◌>>◌, return, wrap, run, command}
use pmux_agent.Tmux.Client.{validate_target}

pub record PaneSize : Type 0 where
  pub cols : ℤ
  pub rows : ℤ

pub record Pane : Type 0 where
  pub id : Bytes
  pub index : ℤ
  pub active : Bool
  pub size : PaneSize
  pub title : Bytes
  pub current_command : Bytes

pub record Window : Type 0 where
  pub id : Bytes
  pub name : Bytes
  pub index : ℤ
  pub active : Bool
  pub panes : List Pane

pub record Session : Type 0 where
  pub id : Bytes
  pub name : Bytes
  pub created_at : ℤ
  pub last_activity_at : ℤ
  pub attached : Bool
  pub windows : List Window

-- A line of a listing by its parts; a line with too few parts is skipped.
unfoldable pub session_of : List Bytes → Option Session
session_of (id ∷ name ∷ created ∷ activity ∷ attached ∷ []) = some (record {
  id = id;
  name = name;
  created_at = or_nearest (atoi created);
  last_activity_at = or_nearest (atoi activity);
  attached = str_eq attached (codes "1");
  windows = [];
})
session_of _ = none

unfoldable pub window_of : List Bytes → Option Window
window_of (id ∷ name ∷ index ∷ active ∷ []) = some (record {
  id = id;
  name = name;
  index = or_nearest (atoi index);
  active = str_eq active (codes "1");
  panes = [];
})
window_of _ = none

unfoldable pub pane_of : List Bytes → Option Pane
pane_of (id ∷ index ∷ active ∷ cols ∷ rows ∷ title ∷ cmd ∷ []) = some (record {
  id = id;
  index = or_nearest (atoi index);
  active = str_eq active (codes "1");
  size = record { cols = or_nearest (atoi cols); rows = or_nearest (atoi rows) };
  title = title;
  current_command = cmd;
})
pane_of _ = none

-- The loop over the lines.
unfoldable pub parse_lines : {A : Type 0} → (List Bytes → Option A) → ℕ → List Bytes → List A
parse_lines read n [] = []
parse_lines read n (line ∷ lines) =
    let rest = parse_lines read n lines in
    elim (read (split_n b'|' n line)) [ none ↦ rest | some a ↦ a ∷ rest ]

-- The answer of a listing: nothing for an empty output, else its lines.
unfoldable pub parse_output : {A : Type 0} → (List Bytes → Option A) → ℕ → Bytes → List A
unfolding parse_lines
parse_output read n out = if str_eq out [] then [] else parse_lines read n (split 10 out)

unfoldable pub parse_sessions : Bytes → List Session
unfolding parse_output session_of
parse_sessions out = parse_output session_of 5 out

unfoldable pub parse_windows : Bytes → List Window
unfolding parse_output window_of
parse_windows out = parse_output window_of 4 out

unfoldable pub parse_panes : Bytes → List Pane
unfolding parse_output pane_of
parse_panes out = parse_output pane_of 7 out

-- `errors.As(err, &exitErr)`.
abbrev is_exit_error : TmuxError → Bool
is_exit_error TmuxError.exited = true
is_exit_error _ = false

-- The errors of `list-sessions` that mean that there are none.
unfoldable pub no_sessions : Bytes → TmuxError → Bool
no_sessions out e =
    contains out (codes "no server running")
    || contains out (codes "no sessions")
    || (if str_eq (trim_space out) [] then is_exit_error e else false)

module _ (server : Server) (socket : Bytes) where
  open server use {World}

  unfoldable pub list_sessions : M World (List Session)
  unfolding run no_sessions
  list_sessions w =
      let (out, e, w') =
        run server socket
          (codes "list-sessions"
            ∷ codes "-F"
            ∷ codes
                "#{session_id}|#{session_name}|#{session_created}|#{session_last_activity}|#{session_attached}"
            ∷ [])
          w in
      elim e [
        | none ↦ (ok (parse_sessions out), w')
        | some e' ↦
            if no_sessions out e'
            then (ok [], w')
            else (err (TmuxError.command_failed (codes "list-sessions") e' out), w')
      ]

  unfoldable pub list_windows : Bytes → M World (List Window)
  unfolding validate_target
  list_windows session = do
    wrap (codes "list-windows") (validate_target session)
    out ← command server socket (codes "list-windows") (
        codes "list-windows"
        ∷ codes "-t"
        ∷ session
        ∷ codes "-F"
        ∷ codes "#{window_id}|#{window_name}|#{window_index}|#{window_active}"
        ∷ [])
    return (parse_windows out)

  unfoldable pub list_panes : Bytes → M World (List Pane)
  unfolding validate_target
  list_panes target = do
    wrap (codes "list-panes") (validate_target target)
    out ← command server socket (codes "list-panes") (
        codes "list-panes"
        ∷ codes "-t"
        ∷ target
        ∷ codes "-F"
        ∷ codes
            "#{pane_id}|#{pane_index}|#{pane_active}|#{pane_width}|#{pane_height}|#{pane_title}|#{pane_current_command}"
        ∷ [])
    return (parse_panes out)

  -- The inner loop of `ListAll`, over the windows of a session.
  unfoldable pub fill_windows : Bytes → List Window → M World (List Window)
  fill_windows session [] = return []
  fill_windows session (v ∷ vs) = do
    panes ← wrap v.id (list_panes (session ++ codes ":" ++ v.id))
    rest ← fill_windows session vs
    return (record v { panes = panes } ∷ rest)

  -- The outer loop.
  unfoldable pub fill_sessions : List Session → M World (List Session)
  unfolding fill_windows
  fill_sessions [] = return []
  fill_sessions (s ∷ ss) = do
    windows ← wrap s.id (list_windows s.id)
    filled ← fill_windows s.id windows
    rest ← fill_sessions ss
    return (record s { windows = filled } ∷ rest)

  unfoldable pub list_all : M World (List Session)
  unfolding fill_sessions
  list_all = do sessions ← list_sessions; fill_sessions sessions
