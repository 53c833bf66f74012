-- ===== src/Tests/Cli.antt =====
-- Runs of src/cli.rs on a small state directory.
use article.Base.{
  length, ◌≤◌, ℕ, ◌≡◌, ◌≢◌, ◌<◌, ◌⊎◌, inr, refl, sym, subst, ap, Bool, true, false, none, some,
  List, [], ◌∷◌, ◌++◌, if◌then◌else◌, arith,
}
use article.Base.Bytes.{Bytes, bytes_eq, bytes_eq_sound, is_utf8, utf8}
use article.Error.{IoText, Result, ok, ok_injective}
use article.Primitives.Toy.{toy}
use article.System.Paths.{FilePath, Component, path_eq}
use article.System.Files.{file, lookup}
use article.System.Kept.{Kept, content}
use article.Message.Seal.{seal}
use article.Cli.Terminal.{Console, Session}
use article.Cli.Style.{detect}
use article.Cli.Text.{trim, trim_line_end}
use article.Cli.Typed.{IsTyped, read_multiline_letter-IsTyped}
use article.Cli.Untouched.{command_open_keep}
use article.Cli.Commands.{command_open}
use article.Cli.Prompts
use article.Protocol.{max_body_len}
use article.Cli.Options.{parse_options, parse_from, arm_of, no_options}
use article.Cli.Accepted.{Reads, parse_options-Reads}
use article.Cli.Arguments.{
  Item, unlock_key_item, positional_item, render, meaning, parse_options-render,
}
use article.Cli.Prompts.{read_multiline_letter}
use article.Cli.Picker
use article.Cli.Terminal
use article.Exec
use article.Cli.Picker.{choose_from_list}
use article.Cli.Chosen.{choose_from_list_bound}
use article.Cli.Ends.{choose_from_list_total, read_multiline_letter_total, menu_total}
use article.Cli.Run.{run_main, dispatch, menu}
use article.Cli.Safe.{IsShown}
use article.Cli.Settings.{IsStty}
use article.Cli.Promises.{run_main-settings, run_main-IsShown, dispatch-Kept}
use article.Tests.{bob, alice_profile, bob_profile, greeting}
use article.Tests.Home.{quiet, home, paths, quiet-IsHonest}
use article.Tests.Letters.{or_empty}

abbrev pub cooked : Bytes
cooked = utf8 "cooked"

-- A terminal that can only save and restore its usual settings.
abbrev pub simple_stty : ℕ → List Bytes → Bytes → Result (Bool × Bytes) × Bytes
simple_stty n [] now = (ok (false, []), now)
simple_stty n (a ∷ []) now =
    if bytes_eq a (utf8 "-g")
    then (ok (bytes_eq now cooked, cooked ++ (b'\n' ∷ [])), now)
    else (ok (true, []), a)
simple_stty n (a ∷ b ∷ arguments) now = (ok (true, []), utf8 "raw")

abbrev pub console : Console
console = record {
  fault = λ n. none;
  stdin_terminal = true;
  stdout_terminal = true;
  stderr_terminal = true;
  stty = simple_stty;
  environment = record {
    sealed_home = some (utf8 "/s");
    home = none;
    userprofile = none;
    sealed_project_dir = none;
    sealed_unlock_key = some (utf8 "/k");
    no_color = some [];
  };
  current_dir = ok (Component.root_dir ∷ []);
}

simple-IsStty : IsStty console
unfolding bytes_eq utf8 trim
simple-IsStty = record {
  prints = λ n now. refl;
  restores = λ m n saved output now h.
      let both = ok_injective _ _ h in
      subst (λ x. (simple_stty n (trim x ∷ []) now).1 ≡ saved) (ap (λ q. q.1) both)
        (sym (bytes_eq_sound saved cooked (ap (λ q. q.0) both)));
}

abbrev io_text : IoText
io_text e = utf8 "failed"

-- A letter from Bob to Alice.
unfoldable pub note : Bytes
note = or_empty (seal toy bob bob_profile alice_profile greeting 0).0

abbrev pub note_path : FilePath
note_path = Component.root_dir ∷ (Component.normal (b'n' ∷ []) ∷ [])

-- Alice's home, with the letter in a file, "j" and the Enter key typed, and a text on the input.
abbrev pub session : Session
session = record {
  world = record home { entries = (note_path, file note 0o600) ∷ home.entries };
  tty = b'j' ∷ (b'\r' ∷ []);
  stdin = greeting;
  stdout = [];
  stderr = [];
  settings = cooked;
  uses = 0;
}

abbrev open_note : List Bytes
open_note = utf8 "open" ∷ (utf8 "/n" ∷ [])

run_main-settings_example : (run_main toy quiet console io_text [] session).1.settings ≡ cooked
run_main-settings_example = run_main-settings toy quiet console simple-IsStty io_text [] session

note_there : content note_path session.world.entries ≡ some note
unfolding lookup path_eq bytes_eq
note_there = refl

run_main-IsShown_example :
    (let t = (run_main toy quiet console io_text open_note session).1 in
      (content note_path t.world.entries ≡ some note) ⊎ IsShown toy note t.stdout)
run_main-IsShown_example =
    run_main-IsShown toy quiet console (λ n es. refl) quiet-IsHonest io_text open_note session refl
      note_path note note_there

not_open : bytes_eq (utf8 "seal") (utf8 "open") ≡ false
unfolding bytes_eq utf8
not_open = refl

dispatch-Kept_example :
    Kept session.world.entries
      (dispatch toy quiet console paths (utf8 "seal") (utf8 "bob" ∷ []) session).1.world.entries
dispatch-Kept_example =
    dispatch-Kept toy quiet console (λ n es. refl) quiet-IsHonest paths (utf8 "seal")
      (utf8 "bob" ∷ []) session not_open

menu_total_example : (menu toy quiet console 3 io_text paths (detect console) session).0 ≢ ok none
menu_total_example =
    menu_total console toy quiet 3 io_text paths (detect console) session (omega arith)

abbrev fruit : List Bytes
fruit = utf8 "apple" ∷ (utf8 "pear" ∷ [])

choose_from_list_total_example :
    (choose_from_list console (utf8 "Fruit") fruit (detect console) session).0 ≢ ok none
choose_from_list_total_example =
    choose_from_list_total console (utf8 "Fruit") fruit (detect console) session

read_multiline_letter_total_example : (read_multiline_letter console session).0 ≢ ok none
read_multiline_letter_total_example = read_multiline_letter_total console session

picked :
    (choose_from_list console (utf8 "Fruit") fruit (detect console) session).0 ≡ ok (some (some 1))
unfolding choose_from_list Exec.◌>>=◌ Picker.enter Terminal.terminal_input Terminal.call Picker.stty
    Terminal.run_stty bytes_eq utf8 is_utf8 Picker.with_restored Picker.pick_raw Terminal.eprint
    Picker.draw_picker Picker.draw_lines Terminal.flush Picker.pick Picker.read_picker_key
    Terminal.read_exact Picker.restore_stty trim detect
picked = refl

choose_from_list_bound_example : 1 < 2
choose_from_list_bound_example =
    choose_from_list_bound console (utf8 "Fruit") fruit (detect console) session 1 picked

abbrev items : List Item
items = positional_item (utf8 "bob") ∷ (unlock_key_item (utf8 "--name") ∷ [])

parse_options-render_example :
    parse_options (render items) false true ≡ ok (meaning items no_options)
unfolding utf8
parse_options-render_example = parse_options-render items false true (inr refl, (tt, tt))

parsed : parse_options (render items) false true ≡ ok (meaning items no_options)
unfolding parse_options parse_from arm_of bytes_eq utf8 is_utf8
parsed = refl

parse_options-Reads_example : Reads false true no_options (render items) (meaning items no_options)
parse_options-Reads_example =
    parse_options-Reads (render items) false true (meaning items no_options) parsed

-- Two lines with dots in them, a line with a single dot, and what is typed after it.
abbrev typing : Session
typing = record session { tty = utf8 "hi.\n..\n.\r\nx" }

typed : Session
typed = (read_multiline_letter console typing).1

typed_lem : read_multiline_letter console typing ≡ (ok (some (utf8 "hi.\n..\n")), typed)
unfolding typed read_multiline_letter Prompts.read_letter Exec.◌>>=◌ Terminal.terminal_input
    Terminal.call Terminal.read_line Terminal.cut_line trim_line_end utf8 is_utf8 bytes_eq
typed_lem = refl

read_multiline_letter-IsTyped_example :
    IsTyped typing.tty (utf8 "hi.\n..\n") typed.tty × (length (utf8 "hi.\n..\n") ≤ max_body_len)
read_multiline_letter-IsTyped_example =
    read_multiline_letter-IsTyped console typing typed (utf8 "hi.\n..\n") typed_lem

command_open_keep_example :
    (command_open toy quiet console paths
      (utf8 "--keep" ∷ (utf8 "/n" ∷ []))
      session).1.world.entries
    ≡ session.world.entries
command_open_keep_example =
    command_open_keep toy quiet console (λ n es. refl) paths [] (utf8 "/n" ∷ []) session
