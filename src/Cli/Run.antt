-- ===== src/Cli/Run.antt =====
-- `run` and `interactive` of src/cli.rs, and `main` of src/main.rs.
use article.Base.{
  ℕ, zero, suc, Bool, true, false, Option, none, some, List, [], ◌∷◌, ◌++◌, ◌&&◌, if◌then◌else◌,
  length, get_elem?,
}
use article.Base.Bytes.{Bytes, bytes_eq, utf8, is_utf8}
use article.Error.{IoText, Result, ok, err, invalid_input, display}
use article.Exec.{Exec, pure, raise, lift, attempt, ◌>>=◌, ◌>>◌}
use article.Primitives.{Primitives}
use article.Contact.{Contact}
use article.Identity.{PublicProfile, formatted_fingerprint}
use article.System.Files.{Os}
use article.Storage.State.{StatePaths, discover, export_profile, all_contacts}
use article.Cli.Terminal.{Console, Session, fs, eprintln}
use article.Cli.Options.{usage_text}
use article.Cli.Style.{TerminalStyle, detect, bold, dim, success, warning, failure}
use article.Cli.Prompts.{wait_for_enter}
use article.Cli.Picker.{choose_from_list, decimal}
use article.Cli.Commands.{
  usage_error, command_init, command_identity, command_trust, command_seal, command_open,
}
use article.Cli.Wizards.{
  settled, wizard_init, wizard_export, wizard_trust, wizard_seal, wizard_open, wizard_show,
}

abbrev menu_items : List Bytes
menu_items =
    utf8 "Create identity"
    ∷ (utf8 "Export public profile"
        ∷ (utf8 "Add or verify contact"
            ∷ (utf8 "Seal a letter"
                ∷ (utf8 "Open a letter"
                    ∷ (utf8 "Show identity and contacts" ∷ (utf8 "Exit" ∷ []))))))

unfoldable pub print_banner : TerminalStyle → Exec Session (Unit {0})
print_banner style = do
  eprintln (
      b'\n'
      ∷ (bold style (utf8 "╭────────────────────────────────────────╮")
          ++ (b'\n'
              ∷ (bold style (utf8 "│  SEALED  ·  private one-time letters  │")
                  ++ (b'\n'
                      ∷ (bold style (utf8 "╰────────────────────────────────────────╯")
                          ++ (b'\n' ∷ [])))))))
  eprintln (warning style ++ utf8 " Experimental and unaudited. The transport is untrusted.")

-- `println!`
abbrev pub println : Bytes → Exec Session (Unit {0})
println text s = (ok tt, record s { stdout = s.stdout ++ (text ++ (b'\n' ∷ [])) })

module _ (p : Primitives) (os : Os) (c : Console) where
  abbrev pub identity_lines : TerminalStyle → Result PublicProfile → Exec Session (Unit {0})
  identity_lines style (ok profile) = do
    eprintln (utf8 "  " ++ (success style ++ utf8 " Identity ready"))
    eprintln (utf8 "     " ++ formatted_fingerprint profile)
  identity_lines style (err e) =
      eprintln
        (utf8 "  " ++ (dim style (utf8 "○") ++ utf8 " No identity yet — start with option 1"))

  abbrev pub contact_line : TerminalStyle → Result (List Contact) → Exec Session (Unit {0})
  contact_line style (ok contacts) = eprintln (
      utf8 "  "
      ++ (dim style (utf8 "•")
          ++ (utf8 " " ++ (decimal (length contacts) ++ utf8 " pinned contact(s)"))))
  contact_line style (err e) =
      eprintln (utf8 "  " ++ (warning style ++ utf8 " Contact store needs attention"))

  unfoldable pub print_state_summary : StatePaths → TerminalStyle → Exec Session (Unit {0})
  print_state_summary paths style = do
    eprintln (b'\n' ∷ bold style (utf8 "Status"))
    identity ← attempt (fs (export_profile p os paths))
    identity_lines style identity
    contacts ← attempt (fs (all_contacts p os paths))
    contact_line style contacts

  -- The actions of the menu, in its order.
  abbrev pub actions : StatePaths → TerminalStyle → List (Exec Session (Unit {0}))
  actions paths style =
      wizard_init p os c paths style
      ∷ (wizard_export p os c paths style
          ∷ (wizard_trust p os c paths style
              ∷ (wizard_seal p os c paths style
                  ∷ (wizard_open p os c paths style ∷ (wizard_show p os c paths style ∷ [])))))

  -- What the menu says of the outcome of an action.
  abbrev report : TerminalStyle → IoText → Result (Unit {0}) → Bytes
  report style text (ok _) = b'\n' ∷ (success style ++ (utf8 " Done." ++ (b'\n' ∷ [])))
  report style text (err e) =
      b'\n' ∷ (failure style ++ (utf8 " " ++ (display text e ++ (b'\n' ∷ []))))

  -- The rest of a round, for the selected action.
  unfoldable pub act :
      IoText
      → StatePaths
      → TerminalStyle
      → Option (Exec Session (Unit {0}))
      → Exec Session (Unit {0})
  act text paths style none = raise (invalid_input "invalid menu selection")
  act text paths style (some action) = do
    outcome ← attempt action
    eprintln (report style text outcome)
    wait_for_enter c (utf8 "Press Enter to return to the menu")

  abbrev pub is_exit : Option ℕ → Bool
  is_exit none = true
  is_exit (some index) = elim index [ suc (suc (suc (suc (suc (suc zero))))) ↦ true | _ ↦ false ]

  abbrev pub selected_action :
      StatePaths → TerminalStyle → Option ℕ → Option (Exec Session (Unit {0}))
  selected_action paths style none = none
  selected_action paths style (some index) = get_elem? (actions paths style) index

  -- The loop of `interactive`. A round that goes on has read a byte; `none` means that the fuel ran
  -- out.
  unfoldable pub menu : ℕ → IoText → StatePaths → TerminalStyle → Exec Session (Option (Unit {0}))
  menu zero text paths style = pure none
  menu (suc fuel) text paths style = do
    print_state_summary paths style
    choice ← choose_from_list c (utf8 "Choose an action") menu_items style
    picked ← lift (settled choice)
    elim (is_exit picked) [
      | true ↦ (do
        eprintln (b'\n' ∷ (dim style (utf8 "•") ++ (utf8 " Goodbye." ++ (b'\n' ∷ []))))
        pure (some tt))
      | false ↦ (do
        act text paths style (selected_action paths style picked)
        menu fuel text paths style)
    ]

  -- `interactive`, with fuel for every byte that can be read.
  unfoldable pub interactive : IoText → Exec Session (Unit {0})
  interactive text s =
      (do
        paths ← lift (discover c.environment)
        let style = detect c
        print_banner style
        ended ← menu (suc (length s.tty)) text paths style
        lift (settled ended))
        s

  unfoldable pub dispatch : StatePaths → Bytes → List Bytes → Exec Session (Unit {0})
  dispatch paths command remaining =
      if bytes_eq command (utf8 "init")
      then command_init p os c paths remaining
      else if bytes_eq command (utf8 "identity")
      then command_identity p os c paths remaining
      else if bytes_eq command (utf8 "trust")
      then command_trust p os c paths remaining
      else if bytes_eq command (utf8 "seal")
      then command_seal p os c paths remaining
      else if bytes_eq command (utf8 "open")
      then command_open p os c paths remaining
      else if bytes_eq command (utf8 "help")
      then println (utf8 usage_text)
      else if bytes_eq command (utf8 "--help")
      then println (utf8 usage_text)
      else if bytes_eq command (utf8 "-h")
      then println (utf8 usage_text)
      else raise usage_error

  -- `run`, on the arguments after the program's name.
  unfoldable pub run : IoText → List Bytes → Exec Session (Unit {0})
  run text [] =
      if c.stdin_terminal && c.stdout_terminal then interactive text else raise usage_error
  run text (command ∷ remaining) =
      if is_utf8 command
      then (do paths ← lift (discover c.environment); dispatch paths command remaining)
      else raise usage_error

  -- `main`: the exit code, after the error was printed.
  abbrev pub ended : IoText → Result (Unit {0}) → Exec Session ℕ
  ended text (ok _) = pure 0
  ended text (err e) = do eprintln (display text e); pure 1

  unfoldable pub run_main : IoText → List Bytes → Exec Session ℕ
  run_main text args = do outcome ← attempt (run text args); ended text outcome
