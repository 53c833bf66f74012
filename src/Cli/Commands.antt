-- ===== src/Cli/Commands.antt =====
-- The commands of src/cli.rs.
use article.Base.{
  suc, Bool, true, false, Option, none, some, List, [], ◌∷◌, ◌++◌, ◌==◌, not, ltb, if◌then◌else◌,
  length,
}
use article.Base.Bytes.{Bytes, bytes_eq, utf8}
use article.Error.{Error, Result, ok, invalid_input, cannot_open, usage, ok_or, refuse_if}
use article.Exec.{Exec, pure, lift, on_err, ◌>>=◌, ◌>>◌}
use article.Primitives.{Primitives}
use article.Protocol.{max_body_len}
use article.Identity.{encode, formatted_fingerprint}
use article.Message.{OpenedLetter, SenderTrust}
use article.Message.Seal.{seal}
use article.Message.Open.{open_letter}
use article.System.Paths.{FilePath, path_of, to_str, show}
use article.System.Files.{Os}
use article.Storage.Access.{read_blob, consume_blob, write_new_private}
use article.Storage.State.{
  StatePaths, draw, valid_stem, initialize, export_profile, load_identity, trust_profile, contact,
  all_contacts,
}
use article.Cli.Terminal.{Console, Session, fs, eprintln, read_stdin, write_out, flush}
use article.Cli.Options.{parse_options, parse_open_options, usage_text}
use article.Cli.Picker.{decimal}
use article.Cli.Prompts.{resolve_unlock_path}

-- The one argument that a command takes.
abbrev pub only : List Bytes → Option Bytes
only [] = none
only (a ∷ []) = some a
only (a ∷ b ∷ args) = none

abbrev pub usage_error : Error
usage_error = usage usage_text

-- The line on the sender that `command_open` prints.
unfoldable pub sender_line : SenderTrust → Bytes
sender_line (SenderTrust.pinned alias) = utf8 "SENDER: PINNED (" ++ (alias ++ utf8 ")")
sender_line (SenderTrust.mismatch alias) =
    utf8 "SENDER: MISMATCH (" ++ (alias ++ utf8 ") — POSSIBLE MITM")
sender_line SenderTrust.unknown =
    utf8 "SENDER: UNKNOWN — signature is valid but identity is not pinned"

-- The alias of `command_trust`.
abbrev pub chosen_alias : Option Bytes → FilePath → Result Bytes
chosen_alias (some alias) source = ok alias
chosen_alias none source =
    ok_or (invalid_input "cannot derive a safe contact name; use --name NAME") (valid_stem source)

abbrev is_export : List Bytes → Bool
is_export [] = false
is_export (a ∷ []) = bytes_eq a (utf8 "export")
is_export (a ∷ b ∷ args) = false

module _ (p : Primitives) (os : Os) (c : Console) where
  unfoldable pub command_init : StatePaths → List Bytes → Exec Session (Unit {0})
  command_init paths args = do
    options ← lift (parse_options args false false)
    lift (refuse_if (not (length options.positionals == 0)) usage_error)
    unlock_path ← resolve_unlock_path c options.unlock_path true
    eprintln (utf8 "Generating identity using the operating-system CSPRNG...")
    profile ← fs (initialize p os paths unlock_path)
    eprintln (utf8 "Identity initialized.")
    eprintln (utf8 "Fingerprint: " ++ formatted_fingerprint profile)
    eprintln (utf8 "Encrypted identity: " ++ show paths.identity_encrypted)
    eprintln (utf8 "Unlock key: " ++ show unlock_path)
    eprintln (utf8 "Keep the unlock key separate. Losing it makes the identity unrecoverable.")

  unfoldable pub command_identity : StatePaths → List Bytes → Exec Session (Unit {0})
  command_identity paths args = do
    lift (refuse_if (not (is_export args)) usage_error)
    profile ← fs (export_profile p os paths)
    write_out c (encode profile)

  unfoldable pub command_trust : StatePaths → List Bytes → Exec Session (Unit {0})
  command_trust paths args = do
    options ← lift (parse_options args true false)
    argument ← lift (ok_or usage_error (only options.positionals))
    let source = path_of argument
    alias ← lift (chosen_alias options.alias source)
    profile ← fs (trust_profile p os paths source alias)
    eprintln (utf8 "Pinned contact: " ++ alias)
    eprintln (utf8 "Fingerprint: " ++ formatted_fingerprint profile)
    eprintln (utf8 "Verify this fingerprint through an independent trusted channel.")

  -- The `match` on the output path of `command_seal`.
  unfoldable pub deliver : Option FilePath → Bytes → Exec Session (Unit {0})
  deliver (some path) blob = do
    fs (write_new_private os path blob)
    eprintln (
        utf8 "Sealed " ++ (decimal (length blob) ++ (utf8 " bytes to " ++ (show path ++ utf8 "."))))
  deliver none blob = do
    write_out c blob
    flush c
    eprintln (utf8 "Sealed " ++ (decimal (length blob) ++ utf8 " bytes."))

  -- What `command_seal` says where the body is typed.
  abbrev pub hint : Exec Session (Unit {0})
  hint =
      if c.stdin_terminal
      then eprintln (
          utf8
            "Enter the letter body, then send EOF (Ctrl-D on Unix, Ctrl-Z then Enter on Windows):")
      else pure tt

  unfoldable pub command_seal : StatePaths → List Bytes → Exec Session (Unit {0})
  command_seal paths args = do
    options ← lift (parse_options args false true)
    argument ← lift (ok_or usage_error (only options.positionals))
    alias ← lift (ok_or (invalid_input "contact name is not valid UTF-8") (to_str argument))
    recipient ← fs (contact p os paths alias)
    unlock_path ← resolve_unlock_path c options.unlock_path false
    owner ← fs (load_identity p os paths unlock_path)
    hint
    body ← read_stdin c (suc max_body_len)
    lift (
        refuse_if (ltb max_body_len (length body))
          (invalid_input "message body exceeds the 1 MiB limit"))
    blob ← fs (draw (seal p owner.0 owner.1 recipient.profile body))
    deliver options.output blob

  -- What `command_open` prints of a letter.
  unfoldable pub print_letter : OpenedLetter → Exec Session (Unit {0})
  print_letter letter = do
    eprintln (utf8 "INTEGRITY: VALID")
    eprintln (utf8 "SIGNATURE: VALID")
    eprintln (utf8 "RECIPIENT: VALID")
    eprintln (sender_line letter.sender_trust)
    eprintln (utf8 "SENDER FINGERPRINT: " ++ formatted_fingerprint letter.sender)
    write_out c letter.body
    flush c

  -- What `command_open` does with the blob in the end.
  unfoldable pub dispose : FilePath → Bool → Exec Session (Unit {0})
  dispose blob_path true = pure tt
  dispose blob_path false = do
    fs (consume_blob os blob_path)
    eprintln (utf8 "CIPHERTEXT: CONSUMED (logical deletion only)")

  -- The letter in a file, opened by the owner of an identity.
  unfoldable pub fetch_letter : StatePaths → FilePath → FilePath → Exec Session OpenedLetter
  fetch_letter paths unlock_path blob_path = do
    owner ← fs (load_identity p os paths unlock_path)
    contacts ← fs (all_contacts p os paths)
    blob ← on_err (λ _. cannot_open) (fs (read_blob os blob_path))
    lift (open_letter p owner.0 owner.1 contacts blob)

  unfoldable pub command_open : StatePaths → List Bytes → Exec Session (Unit {0})
  command_open paths args = do
    options ← lift (parse_open_options args)
    argument ← lift (ok_or usage_error (only options.0.positionals))
    let blob_path = path_of argument
    unlock_path ← resolve_unlock_path c options.0.unlock_path false
    letter ← fetch_letter paths unlock_path blob_path
    print_letter letter
    dispose blob_path options.1
