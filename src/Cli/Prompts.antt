-- ===== src/Cli/Prompts.antt =====
-- The questions that src/cli.rs asks at the terminal, and the paths it is told.
use article.Base.{
  ℕ, zero, suc, ◌+◌, Bool, true, false, Option, none, some, [], ◌∷◌, ◌++◌, ◌==◌, ltb, min,
  if◌then◌else◌, length,
}
use article.Base.Bytes.{Bytes, bytes_eq, utf8}
use article.Error.{Result, ok, err, invalid_input, ok_or}
use article.Exec.{Exec, pure, raise, lift, ◌>>=◌, ◌>>◌}
use article.Protocol.{max_body_len, usize_max}
use article.System.Paths.{FilePath, path_of}
use article.Cli.Terminal.{Console, Session, eprint, terminal_input, read_line, flush}
use article.Cli.Home.{expand_home_path}
use article.Cli.Text.{trim, trim_line_end, to_ascii_lowercase}

-- `saturating_add` on `usize`
abbrev pub saturating_add : ℕ → ℕ → ℕ
saturating_add a b = min (a + b) usize_max

module _ (c : Console) where
  unfoldable pub read_terminal_line : Exec Session Bytes
  read_terminal_line = do terminal_input c; read_line c

  abbrev prompt_text : Bytes → Option Bytes → Bytes
  prompt_text label none = label ++ utf8 ": "
  prompt_text label (some value) = label ++ (utf8 " [" ++ (value ++ utf8 "]: "))

  unfoldable pub prompt : Bytes → Option Bytes → Exec Session Bytes
  prompt label default = do
    eprint (prompt_text label default)
    flush c
    input ← read_terminal_line
    let trimmed = trim input
    if bytes_eq trimmed []
        then lift (ok_or (invalid_input "input cannot be empty") default)
        else pure trimmed

  unfoldable pub prompt_path : Bytes → Option Bytes → Exec Session FilePath
  prompt_path label default = do entered ← prompt label default; lift (expand_home_path c entered)

  unfoldable pub prompt_unlock_path : Bool → Exec Session FilePath
  prompt_unlock_path initializing = elim c.environment.sealed_unlock_key [
    | some path ↦ pure (path_of path)
    | none ↦
        prompt_path
          (if initializing then utf8 "New unlock-key file path" else utf8 "Unlock-key file path")
          none
  ]

  -- The `match` on the answer.
  abbrev yes_or_no : Bytes → Result Bool
  yes_or_no answer =
      if bytes_eq answer (utf8 "y")
      then ok true
      else if bytes_eq answer (utf8 "yes")
      then ok true
      else if bytes_eq answer (utf8 "n")
      then ok false
      else if bytes_eq answer (utf8 "no")
      then ok false
      else err (invalid_input "answer with y or n")

  unfoldable pub prompt_yes_no : Bytes → Bool → Exec Session Bool
  prompt_yes_no label default_yes = do
    let default = if default_yes then utf8 "Y/n" else utf8 "y/N"
    answer ← prompt label (some default)
    if bytes_eq answer default
        then pure default_yes
        else lift (yes_or_no (to_ascii_lowercase answer))

  unfoldable pub wait_for_enter : Bytes → Exec Session (Unit {0})
  wait_for_enter label = do eprint (label ++ utf8 "..."); flush c; read_terminal_line; pure tt

  -- The loop of `read_multiline_letter`. Every round reads a byte or ends the loop; `none` means
  -- that the fuel ran out.
  unfoldable pub read_letter : ℕ → Bytes → Exec Session (Option Bytes)
  read_letter zero body = pure none
  read_letter (suc fuel) body = do
    line ← read_line c
    elim (length line == 0) [
      | true ↦ raise (invalid_input "terminal input ended before the final dot")
      | false ↦ elim (bytes_eq (trim_line_end line) (b'.' ∷ [])) [
        | true ↦ pure (some body)
        | false ↦ elim (ltb max_body_len (saturating_add (length body) (length line))) [
          | true ↦ raise (invalid_input "message body exceeds the 1 MiB limit")
          | false ↦ read_letter fuel (body ++ line)
        ]
      ]
    ]

  -- `read_multiline_letter`, with fuel for every byte that can be read.
  unfoldable pub read_multiline_letter : Exec Session (Option Bytes)
  read_multiline_letter s = (terminal_input c >> read_letter (suc (length s.tty)) []) s

  unfoldable pub read_path_from_terminal : Bytes → Exec Session FilePath
  read_path_from_terminal text = do
    eprint text
    flush c
    input ← read_terminal_line
    let trimmed = trim input
    if bytes_eq trimmed []
        then raise (invalid_input "unlock key path cannot be empty")
        else pure (path_of trimmed)

  unfoldable pub resolve_unlock_path : Option FilePath → Bool → Exec Session FilePath
  resolve_unlock_path (some path) initializing = pure path
  resolve_unlock_path none initializing = elim c.environment.sealed_unlock_key [
    | some path ↦ pure (path_of path)
    | none ↦ read_path_from_terminal (
        if initializing
        then utf8 "Choose a new location for the unlock key (prefer removable/offline media): "
        else utf8 "Unlock key path: ")
  ]
