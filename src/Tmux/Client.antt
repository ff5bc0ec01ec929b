-- ===== src/Tmux/Client.antt =====
-- The operations of internal/tmux/tmux.go and `WindowForPane` of pty.go, less the listings.
pub mod Guard
use pmux_agent.Base.{
  ℕ, suc, ◌+◌, ℤ, pos, ltbℤ, ◌≡◌, refl, Bool, true, false, not, ◌&&◌, ◌||◌, List, [], ◌∷◌, ◌++◌,
  Option, none, some, Bytes, codes, length, ◌==◌, leb, ltb, str_eq, if◌then◌else◌, Result, ok, err,
}
use pmux_agent.Strings.{split_n, trim_space}
use pmux_agent.Strings.Numbers.{Parsed, or_nearest, atoi, itoa}
use pmux_agent.Tmux.Server.{
  Server, TmuxError, M, ◌>>=◌, ◌>>◌, return, fail, wrap, run, run_stdin, command,
}

-- `[a-zA-Z0-9_.$@:%\-]`.
unfoldable pub is_target_byte : ℕ → Bool
is_target_byte c =
    (leb b'a' c && leb c b'z')
    || (leb b'A' c && leb c b'Z')
    || (leb b'0' c && leb c b'9')
    || c == b'_'
    || c == b'.'
    || c == b'$'
    || c == b'@'
    || c == b':'
    || c == b'%'
    || c == b'-'

unfoldable pub all_target_bytes : Bytes → Bool
unfolding is_target_byte
all_target_bytes [] = true
all_target_bytes (c ∷ s) = is_target_byte c && all_target_bytes s

-- `ValidTmuxTarget`: one or more such bytes, and nothing else.
unfoldable pub valid_target : Bytes → Bool
unfolding all_target_bytes
valid_target [] = false
valid_target (c ∷ s) = all_target_bytes (c ∷ s)

unfoldable pub validate_target : {W : Type 0} → Bytes → M W (Unit {0})
validate_target target =
    if valid_target target then return tt else fail (TmuxError.invalid_target target)

pub record PaneCursorState : Type 0 where
  pub cursor_x : ℤ
  pub cursor_y : ℤ
  pub alternate_on : Bool
  pub cursor_visible : Bool

abbrev unknown_cursor : PaneCursorState
unknown_cursor = record {
  cursor_x = pos 0;
  cursor_y = pos 0;
  alternate_on = false;
  cursor_visible = true;
}

-- The fields of the answer, with the defaults for those that are missing.
unfoldable pub parse_cursor : List Bytes → PaneCursorState
parse_cursor [] = unknown_cursor
parse_cursor (x ∷ []) = unknown_cursor
parse_cursor (x ∷ y ∷ []) = record unknown_cursor {
  cursor_x = or_nearest (atoi x);
  cursor_y = or_nearest (atoi y);
}
parse_cursor (x ∷ y ∷ a ∷ []) = record unknown_cursor {
  cursor_x = or_nearest (atoi x);
  cursor_y = or_nearest (atoi y);
  alternate_on = str_eq a (codes "1");
}
parse_cursor (x ∷ y ∷ a ∷ v ∷ rest) = record {
  cursor_x = or_nearest (atoi x);
  cursor_y = or_nearest (atoi y);
  alternate_on = str_eq a (codes "1");
  cursor_visible = if str_eq v [] then true else not (str_eq v (codes "0"));
}

-- `bytes.ReplaceAll(data, []byte{0}, nil)`.
unfoldable pub strip_nulls : Bytes → Bytes
strip_nulls [] = []
strip_nulls (c ∷ s) = if c == 0 then strip_nulls s else c ∷ strip_nulls s

module _ (server : Server) (socket : Bytes) where
  open server use {World}

  unfoldable pub is_server_running : World → Bool × World
  unfolding run
  is_server_running w =
      let (out, e, w') = run server socket (codes "has-session" ∷ []) w in
      elim e [ none ↦ (true, w') | some e' ↦ (false, w') ]

  unfoldable pub set_global_env : Bytes → Bytes → M World (Unit {0})
  set_global_env key value = do
    out ←
        command server socket (codes "set-environment")
          (codes "set-environment" ∷ codes "-g" ∷ key ∷ value ∷ [])
    return tt

  unfoldable pub create_session : Bytes → Bytes → M World Bytes
  create_session name cmd = do
    let base =
        codes "new-session" ∷ codes "-d" ∷ codes "-P" ∷ codes "-F" ∷ codes "#{session_id}" ∷ []
    let named = if str_eq name [] then base else base ++ codes "-s" ∷ name ∷ []
    let args = if str_eq cmd [] then named else named ++ cmd ∷ []
    out ← command server socket (codes "new-session") args
    return (trim_space out)

  unfoldable pub kill_session : Bytes → M World (Unit {0})
  unfolding validate_target
  kill_session session = do
    validate_target session
    out ←
        command server socket (codes "kill-session")
          (codes "kill-session" ∷ codes "-t" ∷ session ∷ [])
    return tt

  unfoldable pub resize_window : Bytes → ℤ → ℤ → M World (Unit {0})
  resize_window target cols rows = do
    out ← command server socket (codes "resize-window") (
        codes "resize-window"
        ∷ codes "-t"
        ∷ target
        ∷ codes "-x"
        ∷ itoa cols
        ∷ codes "-y"
        ∷ itoa rows
        ∷ [])
    return tt

  unfoldable pub clear_window_size_override : Bytes → M World (Unit {0})
  unfolding validate_target
  clear_window_size_override target = do
    validate_target target
    out ←
        command server socket (codes "unset window-size")
          (codes "set-window-option" ∷ codes "-t" ∷ target ∷ codes "-u" ∷ codes "window-size" ∷ [])
    return tt

  unfoldable pub window_for_pane : Bytes → M World Bytes
  unfolding validate_target
  window_for_pane pane = do
    wrap (codes "find window for pane") (validate_target pane)
    out ← command server socket (codes "find window for pane") (
        codes "display-message"
        ∷ codes "-t"
        ∷ pane
        ∷ codes "-p"
        ∷ codes "#{session_id}:#{window_id}"
        ∷ [])
    return (trim_space out)

  abbrev pane_count : Bytes → Parsed → M World ℤ
  pane_count out (Parsed.value n) = return n
  pane_count out Parsed.bad_syntax =
      fail (TmuxError.unexpected_output (codes "window pane count") out)
  pane_count out (Parsed.bad_range n) =
      fail (TmuxError.unexpected_output (codes "window pane count") out)

  unfoldable pub window_pane_count : Bytes → M World ℤ
  window_pane_count pane = do
    out ←
        command server socket (codes "window pane count")
          (codes "display-message" ∷ codes "-t" ∷ pane ∷ codes "-p" ∷ codes "#{window_panes}" ∷ [])
    pane_count out (atoi (trim_space out))

  abbrev resize_pane_only : Bytes → ℤ → ℤ → M World (Unit {0})
  resize_pane_only pane cols rows = do
    out ← command server socket (codes "resize-pane") (
        codes "resize-pane"
        ∷ codes "-t"
        ∷ pane
        ∷ codes "-x"
        ∷ itoa cols
        ∷ codes "-y"
        ∷ itoa rows
        ∷ [])
    return tt

  -- A pane alone in its window is resized with the window.
  abbrev resize_window_of : Bytes → ℤ → ℤ → M World (Unit {0})
  resize_window_of pane cols rows = do
    target ← wrap (codes "resize-pane") (window_for_pane pane)
    resize_window target cols rows

  unfoldable pub resize_pane : Bytes → ℤ → ℤ → M World (Unit {0})
  unfolding validate_target window_pane_count window_for_pane resize_window
  resize_pane pane cols rows = do
    wrap (codes "resize-pane") (validate_target pane)
    count ← wrap (codes "resize-pane") (window_pane_count pane)
    if ltbℤ (pos 1) count then resize_pane_only pane cols rows else resize_window_of pane cols rows

  abbrev dimensions : Bytes → List Bytes → M World (ℤ × ℤ)
  dimensions out (x ∷ y ∷ []) = both (atoi x) (atoi y)
    where
      both : Parsed → Parsed → M World (ℤ × ℤ)
      both (Parsed.value cols) (Parsed.value rows) = return (cols, rows)
      both _ _ = fail (TmuxError.unexpected_output (codes "pane-dimensions") out)
  dimensions out _ = fail (TmuxError.unexpected_output (codes "pane-dimensions") out)

  unfoldable pub pane_dimensions : Bytes → M World (ℤ × ℤ)
  unfolding validate_target
  pane_dimensions pane = do
    wrap (codes "pane-dimensions") (validate_target pane)
    out ← command server socket (codes "pane-dimensions") (
        codes "display-message"
        ∷ codes "-t"
        ∷ pane
        ∷ codes "-p"
        ∷ codes "#{pane_width}:#{pane_height}"
        ∷ [])
    dimensions out (split_n b':' 2 (trim_space out))

  unfoldable pub capture_pane : Bytes → M World Bytes
  capture_pane pane =
      command server socket (codes "capture-pane")
        (codes "capture-pane" ∷ codes "-t" ∷ pane ∷ codes "-e" ∷ codes "-p" ∷ [])

  -- On an error the caller gets `unknown_cursor` as well, and reads none of it.
  unfoldable pub cursor_state : Bytes → M World PaneCursorState
  unfolding validate_target
  cursor_state pane = do
    wrap (codes "cursor-state") (validate_target pane)
    out ← command server socket (codes "cursor-state") (
        codes "display-message"
        ∷ codes "-t"
        ∷ pane
        ∷ codes "-p"
        ∷ codes "#{cursor_x}:#{cursor_y}:#{alternate_on}:#{cursor_flag}"
        ∷ [])
    return (parse_cursor (split_n b':' 4 (trim_space out)))

  unfoldable pub pane_exists : Bytes → World → Bool × World
  unfolding run
  pane_exists pane w =
      let (out, e, w') =
        run server socket
          (codes "display-message" ∷ codes "-t" ∷ pane ∷ codes "-p" ∷ codes "#{pane_id}" ∷ []) w in
      elim e [ none ↦ (str_eq (trim_space out) pane, w') | some e' ↦ (false, w') ]

  abbrev buffer_name : ℕ → Bytes
  buffer_name n = codes "pmux-in-" ++ itoa (pos n)

  -- The number of buffers named so far is passed in and given back: `inputSeq`.
  unfoldable pub send_keys : Bytes → Bytes → ℕ → World → Result TmuxError (Unit {0}) × ℕ × World
  unfolding run_stdin run strip_nulls
  send_keys pane bytes seq w = elim (strip_nulls bytes) [
    | [] ↦ (ok tt, seq, w)
    | c ∷ s ↦
        let name = buffer_name (seq + 1) in
        let (out, e, w') =
          run_stdin server socket (some (c ∷ s))
            (codes "load-buffer"
              ∷ codes "-b"
              ∷ name
              ∷ codes "-"
              ∷ codes ";"
              ∷ codes "paste-buffer"
              ∷ codes "-d"
              ∷ codes "-r"
              ∷ codes "-b"
              ∷ name
              ∷ codes "-t"
              ∷ pane
              ∷ [])
            w in
        elim e [
          | none ↦ (ok tt, seq + 1, w')
          | some e' ↦
              let (out', e'', w'') =
                run server socket (codes "delete-buffer" ∷ codes "-b" ∷ name ∷ []) w' in
              (err (TmuxError.command_failed (codes "paste input") e' out), seq + 1, w'')
        ]
  ]
