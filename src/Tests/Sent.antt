-- ===== src/Tests/Sent.antt =====
-- A letter that Alice seals for Bob from the command line of src/cli.rs.
use article.Base.{◌≡◌, refl, true, false, List, none, some, [], ◌∷◌}
use article.Base.Bytes.{Bytes, utf8, bytes_eq, is_utf8, strip_prefix, be_bytes}
use article.Error
use article.Error.{Result, ok, err}
use article.Exec
use article.Entropy.{random_array}
use article.Primitives.Toy.{toy, toy-IsLawful}
use article.Protocol.{padded_blob_len, valid_blob_len}
use article.Format.Hex.{hex_decode, hex_nibble}
use article.Format.Lines.{lines}
use article.Contact.{validate_alias}
use article.Identity
use article.Identity.{
  parse_field, parse_unlock_key, decrypt_private_identity, profile_eq, public_profile, new,
  fingerprint,
}
use article.Crypto.{
  hkdf_32, derive_message_key_from_shared, reject_all_zero, signature_input,
  derive_message_key_sender, sign_message,
}
use article.Message.Seal.{seal, random_bytes, encrypt_outer}
use article.Message.Serialize.{serialize_internal}
use article.System.Paths.{path_of, path_eq, join, to_str}
use article.System.Files
use article.System.Files.{lookup}
use article.Storage.Access.{ensure_regular_file, read_regular_limited}
use article.Storage.State.{contact, contact_path, load_identity, export_profile, draw}
use article.Cli.Terminal
use article.Cli.Terminal.{Session, fs}
use article.Cli.Options.{Options, no_options, parse_options, parse_from, arm_of, push_positional}
use article.Cli.Prompts.{resolve_unlock_path}
use article.Cli.Commands.{command_seal, deliver}
use article.Cli.Sent.{Reaches, command_seal-Reaches}
use article.Tests.{bob, contacts, greeting}
use article.Tests.Home.{quiet, home, paths, bob_contact}
use article.Tests.Letters.{toy-HasEntropy, toy-IsContributory, greeting-AllBytes}
use article.Tests.Cli.{console, session}

abbrev to_bob : List Bytes
to_bob = utf8 "bob" ∷ []

abbrev options : Options
options = push_positional (utf8 "bob") no_options

parsed : parse_options to_bob false true ≡ ok options
unfolding parse_options parse_from arm_of bytes_eq utf8 is_utf8
parsed = refl

named : to_str (utf8 "bob") ≡ some (utf8 "bob")
unfolding utf8 is_utf8
named = refl

looked_up : (contact toy quiet paths (utf8 "bob") home).0 ≡ ok bob_contact
unfolding home contact contact_path path_of join validate_alias read_regular_limited utf8
    ensure_regular_file Files.symlink_metadata Files.open_file Files.file_len Files.read_limited
    Files.sys Files.resolve lookup path_eq is_utf8 lines hex_decode hex_nibble Identity.parse
    parse_field strip_prefix Error.◌>>=◌
looked_up = refl

abbrev start : Session
start = record session { world = home }

sent : Session
unfolding utf8
sent = (command_seal toy quiet console paths to_bob start).1

sealed : command_seal toy quiet console paths to_bob start ≡ (ok tt, sent)
unfolding sent command_seal parse_options parse_from arm_of Exec.◌>>=◌ Error.◌>>=◌ fs home contact
    contact_path path_of join validate_alias read_regular_limited utf8 ensure_regular_file
    Files.symlink_metadata Files.open_file Files.file_len Files.read_limited Files.sys Files.resolve
    lookup path_eq is_utf8 lines hex_decode hex_nibble Identity.parse parse_field strip_prefix
    load_identity export_profile parse_unlock_key decrypt_private_identity profile_eq
    resolve_unlock_path Terminal.eprint Terminal.read_stdin Terminal.call Terminal.write_out
    Terminal.flush draw deliver seal random_array random_bytes padded_blob_len serialize_internal
    sign_message signature_input encrypt_outer derive_message_key_sender
    derive_message_key_from_shared hkdf_32 reject_all_zero toy be_bytes public_profile new
    fingerprint bytes_eq valid_blob_len
sealed = refl

command_seal-Reaches_example : Reaches toy none bob contacts greeting start sent
command_seal-Reaches_example =
    command_seal-Reaches toy quiet console (λ n es. refl) toy-IsLawful toy-HasEntropy bob contacts
      paths to_bob options (utf8 "bob") (utf8 "bob") bob_contact start sent (toy-IsContributory _)
      parsed refl named looked_up refl greeting-AllBytes sealed
