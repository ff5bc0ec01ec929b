-- ===== src/Tmux/Server.antt =====
-- The tmux server as the client of internal/tmux/tmux.go sees it: a program that is run with
-- arguments, ends in some way with some output, and changes a world of its own.
use pmux_agent.Base.{List, [], ◌∷◌, Option, none, some, Bytes, codes, Result, ok, err}
use pmux_agent.Strings.{trim_newlines}

-- How a run ended: exit status 0, another status, the time limit, or never started.
pub data Exit : Type 0 where
  success exit_error timed_out failed : Exit

-- `exec` is given the bytes for the standard input, if any, and the arguments.
pub record Server : Type 1 where
  pub World : Type 0
  pub exec : Option Bytes → List Bytes → World → Bytes × Exit × World

-- The error values, with the texts that they mention.
pub data TmuxError : Type 0 where
  invalid_target : Bytes → TmuxError
  exited : TmuxError
  not_started : TmuxError
  timeout : Bytes → TmuxError
  wrapped : Bytes → TmuxError → TmuxError
  command_failed : Bytes → TmuxError → Bytes → TmuxError
  unexpected_output : Bytes → Bytes → TmuxError

-- An operation that may fail, on the world of a server.
abbrev pub M : Type 0 → Type 0 → Type 0
M W A = W → Result TmuxError A × W

infixl 5 ◌>>=◌ ◌>>◌
abbrev pub ◌>>=◌ : {W A B : Type 0} → M W A → (A → M W B) → M W B
◌>>=◌ m f w = let (r, w') = m w in elim r [ ok a ↦ f a w' | err e ↦ (err e, w') ]

abbrev pub ◌>>◌ : {W B : Type 0} → M W (Unit {0}) → M W B → M W B
m >> k = m >>= λ _. k

abbrev pub return : {W A : Type 0} → A → M W A
return a w = (ok a, w)

abbrev pub fail : {W A : Type 0} → TmuxError → M W A
fail e w = (err e, w)

-- `fmt.Errorf("name: %w", err)`.
abbrev pub wrap : {W A : Type 0} → Bytes → M W A → M W A
wrap name m w =
    let (r, w') = m w in elim r [ ok a ↦ (ok a, w') | err e ↦ (err (TmuxError.wrapped name e), w') ]

abbrev first_arg : List Bytes → Bytes
first_arg [] = []
first_arg (a ∷ args) = a

abbrev pub exit_to_error : List Bytes → Exit → Option TmuxError
exit_to_error args Exit.success = none
exit_to_error args Exit.exit_error = some TmuxError.exited
exit_to_error args Exit.timed_out = some (TmuxError.timeout (first_arg args))
exit_to_error args Exit.failed = some TmuxError.not_started

module _ (server : Server) (socket : Bytes) where
  open server use {World, exec}

  -- `runCtxStdin`: the output without its trailing newlines, and the error, both in any case.
  unfoldable pub run_stdin : Option Bytes → List Bytes → World → Bytes × Option TmuxError × World
  run_stdin stdin args w =
      let (out, e, w') = exec stdin (codes "-L" ∷ socket ∷ args) w in
      (trim_newlines out, exit_to_error args e, w')

  unfoldable pub run : List Bytes → World → Bytes × Option TmuxError × World
  unfolding run_stdin
  run args w = run_stdin none args w

  -- `out, err := c.run(args...)` with `fmt.Errorf("name: %w: %s", err, out)` on an error.
  unfoldable pub command : Bytes → List Bytes → M World Bytes
  unfolding run
  command name args w =
      let (out, e, w') = run args w in
      elim e [ none ↦ (ok out, w') | some e' ↦ (err (TmuxError.command_failed name e' out), w') ]
