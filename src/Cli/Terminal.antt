-- ===== src/Cli/Terminal.antt =====
-- What src/cli.rs talks to: the process's streams, its terminal and its environment. Any call on
-- them may fail; a call that fails has no effect.
use article.Base.{
  ℕ, suc, Bool, Option, none, some, List, [], ◌∷◌, ◌++◌, ◌==◌, ltb, if◌then◌else◌, length, take,
  drop,
}
use article.Base.Bytes.{Bytes, is_utf8}
use article.Error.{IoError, Result, ok, err, io, invalid_data, unexpected_eof}
use article.Exec.{Exec}
use article.System.Paths.{FilePath}
use article.System.Files.{World}
use article.Storage.State.{Environment}

-- By its number, whether a call fails; what the streams are; what `/bin/stty` does with its
-- arguments and the terminal's settings: its success and its output, if it could be run, and the
-- new settings.
pub record Console : Type 0 where
  pub fault : ℕ → Option IoError
  pub stdin_terminal : Bool
  pub stdout_terminal : Bool
  pub stderr_terminal : Bool
  pub stty : ℕ → List Bytes → Bytes → Result (Bool × Bytes) × Bytes
  pub environment : Environment
  pub current_dir : Result FilePath

-- What can still be read from the terminal and from the standard input, what was written, the
-- terminal's settings, and the number of calls made.
pub record Session : Type 0 where
  pub world : World
  pub tty : Bytes
  pub stdin : Bytes
  pub stdout : Bytes
  pub stderr : Bytes
  pub settings : Bytes
  pub uses : ℕ

-- A step on the file system.
unfoldable pub fs : {A : Type 0} → Exec World A → Exec Session A
fs m s = let (r, w) = m s.world in (r, record s { world = w })

-- The first line, with its ending, and the rest.
unfoldable pub cut_line : Bytes → Bytes × Bytes
cut_line [] = ([], [])
cut_line (b ∷ bs) =
    let (line, rest) = cut_line bs in if b == b'\n' then (b ∷ [], bs) else (b ∷ line, rest)

-- `eprint!`
unfoldable pub eprint : Bytes → Exec Session (Unit {0})
eprint text s = (ok tt, record s { stderr = s.stderr ++ text })

-- `eprintln!`
abbrev pub eprintln : Bytes → Exec Session (Unit {0})
eprintln text = eprint (text ++ (b'\n' ∷ []))

module _ (c : Console) where
  unfoldable pub call : {A : Type 0} → (Session → Result A × Session) → Exec Session A
  call f s =
      let s' = record s { uses = suc s.uses } in
      elim (c.fault s.uses) [ some e ↦ (err (io e), s') | none ↦ f s' ]

  -- `terminal_input` opens the terminal.
  unfoldable pub terminal_input : Exec Session (Unit {0})
  terminal_input = call λ s. (ok tt, s)

  -- `read_line` of a reader on the terminal. A terminal hands out one line at a time, so that no
  -- input is lost with the reader.
  unfoldable pub read_line : Exec Session Bytes
  read_line = call λ s.
      let (line, rest) = cut_line s.tty in
      let s' = record s { tty = rest } in
      if is_utf8 line then (ok line, s') else (err (io invalid_data), s')

  -- `read_exact` on the terminal, for a number of bytes.
  unfoldable pub read_exact : ℕ → Exec Session Bytes
  read_exact n = call λ s.
      if ltb (length s.tty) n
      then (err (io unexpected_eof), record s { tty = [] })
      else (ok (take n s.tty), record s { tty = drop n s.tty })

  -- `io::stdin().take(limit).read_to_end`
  unfoldable pub read_stdin : ℕ → Exec Session Bytes
  read_stdin limit = call λ s. (ok (take limit s.stdin), record s { stdin = drop limit s.stdin })

  -- `write_all` on the standard output
  unfoldable pub write_out : Bytes → Exec Session (Unit {0})
  write_out bytes = call λ s. (ok tt, record s { stdout = s.stdout ++ bytes })

  -- `flush` of a stream
  unfoldable pub flush : Exec Session (Unit {0})
  flush = call λ s. (ok tt, s)

  -- A run of `/bin/stty`.
  unfoldable pub run_stty : List Bytes → Exec Session (Bool × Bytes)
  run_stty arguments s =
      let (r, settings') = c.stty s.uses arguments s.settings in
      (r, record s { settings = settings'; uses = suc s.uses })
