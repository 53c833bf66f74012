-- ===== src/Cli/Wizards.antt =====
-- The wizards of the interactive terminal in src/cli.rs.
use article.Base.{
  Bool, true, false, Option, none, some, List, [], ◌∷◌, ◌++◌, ◌==◌, not, if◌then◌else◌, length,
  take, map, get_elem?,
}
use article.Base.Bytes.{Bytes, utf8}
use article.Error.{Error, Result, invalid_input, missing, usage, ok_or, refuse_if}
use article.Exec.{Exec, pure, lift, on_err, ◌>>=◌, ◌>>◌}
use article.Primitives.{Primitives}
use article.Contact.{Contact, validate_alias}
use article.Identity.{PublicProfile, encode, formatted_fingerprint}
use article.Message.{OpenedLetter, SenderTrust}
use article.Message.Seal.{seal}
use article.System.Paths.{FilePath, path_eq, show}
use article.System.Files.{Os, exists}
use article.System.Directories.{create_dir_all}
use article.Storage.Access.{parent_or_dot, consume_blob, write_new_private}
use article.Storage.State.{
  StatePaths, draw, valid_stem, initialize, export_profile, load_identity, trust_profile,
  all_contacts,
}
use article.Cli.Terminal.{Console, Session, fs, eprintln, write_out, flush}
use article.Cli.Style.{TerminalStyle, bold, dim, success, warning, failure}
use article.Cli.Home.{project_local_unlock_path}
use article.Cli.Prompts.{
  prompt, prompt_path, prompt_unlock_path, prompt_yes_no, read_multiline_letter,
}
use article.Cli.Picker.{choose_from_list, decimal}
use article.Cli.Commands.{fetch_letter}

-- The result of a loop whose fuel is enough.
abbrev pub settled : {A : Type 0} → Option A → Result A
settled = ok_or (usage "the fuel ran out")

unfoldable pub short_fingerprint : PublicProfile → Bytes
short_fingerprint profile = take 19 (formatted_fingerprint profile) ++ utf8 "…"

abbrev pub contact_option : Contact → Bytes
contact_option contact = contact.alias ++ (utf8 "  ·  " ++ short_fingerprint contact.profile)

abbrev rule : TerminalStyle → Bytes
rule style = dim style (utf8 "──────────────────────────────────────────")

-- The line on the sender that `print_letter_status` prints.
unfoldable pub status_line : TerminalStyle → SenderTrust → Bytes
status_line style (SenderTrust.pinned alias) =
    utf8 "  " ++ (success style ++ (utf8 " Sender pinned: " ++ alias))
status_line style (SenderTrust.mismatch alias) =
    utf8 "  "
    ++ (failure style ++ (utf8 " Sender mismatch: " ++ (alias ++ utf8 " — POSSIBLE MITM")))
status_line style SenderTrust.unknown =
    utf8 "  " ++ (warning style ++ utf8 " Sender is valid but not pinned")

unfoldable pub print_letter_status : OpenedLetter → TerminalStyle → Exec Session (Unit {0})
print_letter_status letter style = do
  eprintln (utf8 "  " ++ (success style ++ utf8 " Integrity valid"))
  eprintln (utf8 "  " ++ (success style ++ utf8 " Signature valid"))
  eprintln (utf8 "  " ++ (success style ++ utf8 " Recipient valid"))
  eprintln (status_line style letter.sender_trust)
  eprintln (utf8 "     " ++ formatted_fingerprint letter.sender)

-- `body.ends_with(b"\n")`
unfoldable pub ends_line : Bytes → Bool
ends_line [] = false
ends_line (b ∷ []) = b == b'\n'
ends_line (b ∷ d ∷ bs) = ends_line (d ∷ bs)

module _ (p : Primitives) (os : Os) (c : Console) where
  -- The directory of a new unlock key.
  unfoldable pub prepare_parent : TerminalStyle → FilePath → FilePath → Exec Session (Unit {0})
  prepare_parent style unlock_path default_unlock_path = do
    there ← fs (exists os (parent_or_dot unlock_path))
    if there
        then pure tt
        else if path_eq unlock_path default_unlock_path
        then (do
          fs (create_dir_all os (parent_or_dot unlock_path))
          eprintln (
              dim style (utf8 "→")
              ++ (utf8 " Created local test-key directory: " ++ show (parent_or_dot unlock_path))))
        else (do
          create ←
              prompt_yes_no c
                (utf8 "Directory "
                  ++ (show (parent_or_dot unlock_path) ++ utf8 " does not exist. Create it?"))
                true
          lift (refuse_if (not create) (invalid_input "identity creation cancelled"))
          fs (create_dir_all os (parent_or_dot unlock_path)))

  unfoldable pub wizard_init : StatePaths → TerminalStyle → Exec Session (Unit {0})
  wizard_init paths style = do
    eprintln (b'\n' ∷ bold style (utf8 "Create identity"))
    eprintln (utf8 "The encrypted identity stays in: " ++ show paths.root)
    default_unlock_path ← lift (project_local_unlock_path c)
    eprintln (utf8 "For easy local testing, the default key location is inside this clone.")
    eprintln (warning style ++ utf8 " For real use, use removable or separate storage instead.")
    unlock_path ← prompt_path c (utf8 "Unlock-key file path") (some (show default_unlock_path))
    prepare_parent style unlock_path default_unlock_path
    eprintln (dim style (utf8 "→") ++ utf8 " Generating keys from the operating-system CSPRNG...")
    profile ← fs (initialize p os paths unlock_path)
    eprintln (success style ++ utf8 " Identity created")
    eprintln (utf8 "Fingerprint: " ++ formatted_fingerprint profile)
    eprintln (utf8 "Unlock key: " ++ show unlock_path)

  abbrev no_identity : Error
  no_identity = missing "identity is not initialized; choose option 1 first"

  unfoldable pub wizard_export : StatePaths → TerminalStyle → Exec Session (Unit {0})
  wizard_export paths style = do
    eprintln (b'\n' ∷ bold style (utf8 "Export public profile"))
    profile ← on_err (λ _. no_identity) (fs (export_profile p os paths))
    destination ← prompt_path c (utf8 "Save public profile as") (some (utf8 "sealed-profile.pub"))
    fs (write_new_private os destination (encode profile))
    eprintln (success style ++ (utf8 " Saved: " ++ show destination))
    eprintln (utf8 "Fingerprint: " ++ formatted_fingerprint profile)
    eprintln (utf8 "This file is public. Verify the fingerprint out of band.")

  unfoldable pub wizard_trust : StatePaths → TerminalStyle → Exec Session (Unit {0})
  wizard_trust paths style = do
    eprintln (b'\n' ∷ bold style (utf8 "Add or verify contact"))
    profile_path ← prompt_path c (utf8 "Received .pub file") none
    alias ← prompt c (utf8 "Contact name") (valid_stem profile_path)
    lift (
        refuse_if (not (validate_alias alias))
          (invalid_input "contact name may contain only letters, digits, '-' or '_'"))
    profile ← fs (trust_profile p os paths profile_path alias)
    eprintln (success style ++ (utf8 " Contact pinned: " ++ alias))
    eprintln (utf8 "Fingerprint: " ++ formatted_fingerprint profile)
    eprintln (
        warning style ++ utf8 " Compare the full fingerprint in person or by voice before sending.")

  unfoldable pub wizard_seal : StatePaths → TerminalStyle → Exec Session (Unit {0})
  wizard_seal paths style = do
    eprintln (b'\n' ∷ bold style (utf8 "Seal a letter"))
    contacts ← fs (all_contacts p os paths)
    lift (
        refuse_if (length contacts == 0)
          (missing "no pinned contacts; import a public profile with option 3"))
    choice ← choose_from_list c (utf8 "Choose recipient") (map contact_option contacts) style
    picked ← lift (settled choice)
    selected_index ← lift (ok_or (invalid_input "recipient selection cancelled") picked)
    selected ←
        lift
          (ok_or (invalid_input "invalid recipient selection") (get_elem? contacts selected_index))
    unlock_path ← prompt_unlock_path c false
    output_path ←
        prompt_path c (utf8 "Save encrypted letter as")
          (some (utf8 "letter-for-" ++ (selected.alias ++ utf8 ".bin")))
    eprintln (b'\n' ∷ utf8 "Write the letter. Finish with a single dot on a new line:")
    eprintln (rule style)
    written ← read_multiline_letter c
    body ← lift (settled written)
    lift (refuse_if (length body == 0) (invalid_input "letter body cannot be empty"))
    owner ← fs (load_identity p os paths unlock_path)
    blob ← fs (draw (seal p owner.0 owner.1 selected.profile body))
    fs (write_new_private os output_path blob)
    eprintln (success style ++ (utf8 " Letter sealed for " ++ selected.alias))
    eprintln (
        utf8 "File: "
        ++ (show output_path ++ (utf8 " (" ++ (decimal (length blob) ++ utf8 " bytes)"))))
    eprintln (utf8 "Send this file through any byte-preserving transport.")

  -- What `wizard_open` prints of a letter.
  unfoldable pub present_letter : OpenedLetter → TerminalStyle → Exec Session (Unit {0})
  present_letter letter style = do
    eprintln (b'\n' ∷ bold style (utf8 "Verification"))
    print_letter_status letter style
    eprintln (b'\n' ∷ bold style (utf8 "Letter"))
    eprintln (rule style)
    write_out c letter.body
    if ends_line letter.body then pure tt else write_out c (b'\n' ∷ [])
    flush c
    eprintln (rule style)

  -- What `wizard_open` does with the blob in the end.
  unfoldable pub conclude : FilePath → TerminalStyle → Bool → Exec Session (Unit {0})
  conclude blob_path style true = do
    fs (consume_blob os blob_path)
    eprintln (success style ++ utf8 " Ciphertext consumed (logical deletion only)")
  conclude blob_path style false =
      eprintln (warning style ++ (utf8 " Ciphertext retained: " ++ show blob_path))

  unfoldable pub wizard_open : StatePaths → TerminalStyle → Exec Session (Unit {0})
  wizard_open paths style = do
    eprintln (b'\n' ∷ bold style (utf8 "Open a letter"))
    blob_path ← prompt_path c (utf8 "Encrypted letter file") none
    unlock_path ← prompt_unlock_path c false
    consume ← prompt_yes_no c (utf8 "Delete the ciphertext after a successful open?") true
    letter ← fetch_letter p os c paths unlock_path blob_path
    present_letter letter style
    conclude blob_path style consume

  unfoldable pub show_contacts : List Contact → TerminalStyle → Exec Session (Unit {0})
  show_contacts [] style = pure tt
  show_contacts (contact ∷ contacts) style = do
    eprintln (utf8 "  " ++ (success style ++ (utf8 " " ++ contact.alias)))
    eprintln (utf8 "     " ++ formatted_fingerprint contact.profile)
    show_contacts contacts style

  unfoldable pub wizard_show : StatePaths → TerminalStyle → Exec Session (Unit {0})
  wizard_show paths style = do
    eprintln (b'\n' ∷ bold style (utf8 "Identity"))
    profile ← on_err (λ _. no_identity) (fs (export_profile p os paths))
    eprintln (utf8 "Fingerprint: " ++ formatted_fingerprint profile)
    eprintln (utf8 "State: " ++ show paths.root)
    eprintln (b'\n' ∷ bold style (utf8 "Pinned contacts"))
    contacts ← fs (all_contacts p os paths)
    if length contacts == 0
        then eprintln (utf8 "  " ++ (dim style (utf8 "○") ++ utf8 " None"))
        else show_contacts contacts style
