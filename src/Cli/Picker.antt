-- ===== src/Cli/Picker.antt =====
-- The arrow-key picker of src/cli.rs, and the terminal's raw mode.
use article.Base.{
  ℕ, zero, suc, ◌+◌, ◌-◌, ◌/◌, ◌%◌, Bool, true, false, Option, none, some, List, [], ◌∷◌, ◌++◌,
  ◌==◌, ◌&&◌, ◌||◌, not, ltb, if◌then◌else◌, length, get_or,
}
use article.Base.Bytes.{Bytes, utf8, is_utf8}
use article.Error.{Result, ok, err, invalid_input, refuse_if}
use article.Exec.{Exec, pure, raise, lift, attempt, ◌>>=◌, ◌>>◌}
use article.Cli.Terminal.{
  Console, Session, eprint, eprintln, terminal_input, read_exact, flush, run_stty,
}
use article.Cli.Style.{TerminalStyle, bold, dim, highlighted}
use article.Cli.Text.{trim, parse_usize}
use article.Cli.Prompts.{prompt}

pub data PickerKey : Type 0 where
  up down select cancel ignore : PickerKey

-- The decimal digits of a number, with fuel for its digits.
decimal_digits : ℕ → ℕ → Bytes
decimal_digits zero n = []
decimal_digits (suc fuel) n = elim (ltb n 10) [
  | true ↦ (b'0' + n) ∷ []
  | false ↦ decimal_digits fuel (n / 10) ++ ((b'0' + n % 10) ∷ [])
]

-- `{}` of a `usize`
unfoldable pub decimal : ℕ → Bytes
unfolding decimal_digits
decimal = decimal_digits 20

-- The `match` on a sequence after the escape byte.
abbrev arrow : ℕ → ℕ → PickerKey
arrow a b =
    if (a == b'[' && b == b'A') || (a == b'O' && b == b'A')
    then up
    else if (a == b'[' && b == b'B') || (a == b'O' && b == b'B')
    then down
    else ignore

-- One `checked_sub(1)` with its default, or one step with wrap-around.
abbrev pub moved_up : ℕ → ℕ → ℕ
moved_up selected count = if selected == 0 then count - 1 else selected - 1

abbrev pub moved_down : ℕ → ℕ → ℕ
moved_down selected count = (selected + 1) % count

module _ (c : Console) where
  unfoldable pub read_picker_key : Exec Session PickerKey
  read_picker_key = do
    first ← read_exact c 1
    let key = get_or first 0 0
    if key == b'\r' || key == b'\n'
        then pure select
        else if key == 0x03
        then pure cancel
        else if key == b'k'
        then pure up
        else if key == b'j'
        then pure down
        else if key == 0x1b
        then (do
          sequence ← read_exact c 2
          pure (arrow (get_or sequence 0 0) (get_or sequence 1 0)))
        else pure ignore

  -- The lines of `draw_picker`.
  abbrev draw_line : TerminalStyle → Bytes → Bool → Bytes
  draw_line style choice true =
      utf8 "  " ++ (highlighted style (utf8 "›") ++ (utf8 " " ++ highlighted style choice))
  draw_line style choice false = utf8 "    " ++ choice

  unfoldable pub draw_lines : List Bytes → ℕ → ℕ → TerminalStyle → Exec Session (Unit {0})
  draw_lines [] index selected style = pure tt
  draw_lines (choice ∷ choices) index selected style = do
    eprint (b'\r' ∷ (0x1b ∷ utf8 "[2K"))
    eprintln (draw_line style choice (index == selected))
    draw_lines choices (suc index) selected style

  unfoldable pub draw_picker : List Bytes → ℕ → TerminalStyle → Bool → Exec Session (Unit {0})
  draw_picker choices selected style redraw = do
    if redraw then eprint (0x1b ∷ (b'[' ∷ (decimal (length choices) ++ utf8 "A"))) else pure tt
    draw_lines choices 0 selected style
    flush c

  -- The checks of `stty` on the outcome of the command.
  abbrev pub checked : Bool × Bytes → Exec Session Bytes
  checked output = do
    lift (refuse_if (not output.0) (invalid_input "cannot configure terminal key input"))
    lift (refuse_if (not (is_utf8 output.1)) (invalid_input "terminal returned invalid settings"))
    pure (trim output.1)

  -- `stty`
  unfoldable pub stty : List Bytes → Exec Session Bytes
  stty arguments = do output ← run_stty c arguments; checked output

  unfoldable pub restore_stty : Bytes → Exec Session (Unit {0})
  restore_stty saved_mode = do attempt (run_stty c (saved_mode ∷ [])); pure tt

  abbrev pub raw_arguments : List Bytes
  raw_arguments =
      utf8 "-icanon"
      ∷ (utf8 "min"
          ∷ (utf8 "1" ∷ (utf8 "time" ∷ (utf8 "0" ∷ (utf8 "-echo" ∷ (utf8 "-isig" ∷ []))))))

  -- The end of `RawTerminal::enter`: an error restores the settings.
  abbrev pub entered : Bytes → Result Bytes → Exec Session Bytes
  entered saved_mode (ok output) = pure saved_mode
  entered saved_mode (err error) = do restore_stty saved_mode; raise error

  -- `RawTerminal::enter`: the settings to restore.
  unfoldable pub enter : Exec Session Bytes
  enter = do
    terminal_input c
    saved_mode ← stty (utf8 "-g" ∷ [])
    raw ← attempt (stty raw_arguments)
    entered saved_mode raw

  -- The arms of the loop of `choose_from_list` in raw mode, and how it goes on.
  abbrev pub after_key :
      (ℕ → Exec Session (Option (Option ℕ)))
      → List Bytes
      → TerminalStyle
      → ℕ
      → PickerKey
      → Exec Session (Option (Option ℕ))
  after_key again choices style selected up = do
    draw_picker choices (moved_up selected (length choices)) style true
    again (moved_up selected (length choices))
  after_key again choices style selected down = do
    draw_picker choices (moved_down selected (length choices)) style true
    again (moved_down selected (length choices))
  after_key again choices style selected select = do eprintln []; pure (some (some selected))
  after_key again choices style selected cancel = do eprintln []; pure (some none)
  after_key again choices style selected ignore = again selected

  -- The loop. Every round reads a byte; `none` means that the fuel ran out.
  unfoldable pub pick : ℕ → List Bytes → TerminalStyle → ℕ → Exec Session (Option (Option ℕ))
  pick zero choices style selected = pure none
  pick (suc fuel) choices style selected = do
    key ← read_picker_key
    after_key (pick fuel choices style) choices style selected key

  -- What the raw terminal is used for, with fuel for every byte that can be read.
  unfoldable pub pick_raw : Bytes → List Bytes → TerminalStyle → Exec Session (Option (Option ℕ))
  pick_raw title choices style s =
      (do
        eprintln (b'\n' ∷ bold style title)
        eprintln (dim style (utf8 "Use ↑/↓ and Enter. Ctrl-C cancels."))
        draw_picker choices 0 style false
        pick (suc (length s.tty)) choices style 0)
        s

  -- The drop of the raw terminal, when its scope ends in any way.
  unfoldable pub with_restored : {A : Type 0} → Bytes → Exec Session A → Exec Session A
  with_restored saved_mode m s = let (r, s') = m s in (r, (restore_stty saved_mode s').1)

  unfoldable pub list_choices : List Bytes → ℕ → Exec Session (Unit {0})
  list_choices [] index = pure tt
  list_choices (choice ∷ choices) index = do
    eprintln (utf8 "  " ++ (decimal (index + 1) ++ (utf8 "  " ++ choice)))
    list_choices choices (suc index)

  -- A number that was typed: its choice, counted from one.
  abbrev pub numbered : ℕ → Option ℕ → Result (Option (Option ℕ))
  numbered count none = err (invalid_input "invalid selection")
  numbered count (some zero) = err (invalid_input "invalid selection")
  numbered count (some (suc index)) =
      if ltb index count then ok (some (some index)) else err (invalid_input "invalid selection")

  -- Without arrow keys.
  unfoldable pub pick_number : Bytes → List Bytes → TerminalStyle → Exec Session (Option (Option ℕ))
  pick_number title choices style = do
    eprintln (b'\n' ∷ bold style title)
    eprintln (dim style (utf8 "Arrow navigation is unavailable; enter a number."))
    list_choices choices 0
    selected ← prompt c (utf8 "Selection") none
    lift (numbered (length choices) (parse_usize selected))

  -- With the raw terminal, if there is one.
  abbrev pub choose_with :
      Bytes → List Bytes → TerminalStyle → Result Bytes → Exec Session (Option (Option ℕ))
  choose_with title choices style (ok saved_mode) =
      with_restored saved_mode (pick_raw title choices style)
  choose_with title choices style (err error) = pick_number title choices style

  unfoldable pub choose_from_list :
      Bytes → List Bytes → TerminalStyle → Exec Session (Option (Option ℕ))
  choose_from_list title choices style = do
    lift (refuse_if (length choices == 0) (invalid_input "there is nothing to select"))
    terminal ← attempt enter
    choose_with title choices style terminal
