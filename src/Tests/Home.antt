-- ===== src/Tests/Home.antt =====
-- A whole state directory of src/storage.rs, with one identity and one contact.
use article.Base.{◌≡◌, refl, true, none, some, [], ◌∷◌, ◌++◌, All, replicate}
use article.Base.Bytes.{Bytes, bytes_eq, is_utf8, strip_prefix, utf8}
use article.Error
use article.Error.{Result, ok, err}
use article.Exec
use article.Contact.{Contact, validate_alias}
use article.Entropy.{random_array}
use article.Format.Hex.{hex_encode, hex_decode, hex_nibble}
use article.Format.Lines.{lines}
use article.Identity
use article.Identity.{
  PublicProfile, IdentitySecrets, encode, encode_unlock_key, parse_unlock_key, parse_field,
  profile_eq, public_profile, decrypt_private_identity,
}
use article.Identity.Private.{encrypt_private_identity}
use article.Identity.Profile.{IsProfile, public_profile-IsProfile}
use article.Primitives.Toy.{toy, toy-IsLawful}
use article.System.Paths.{
  FilePath, Component, component_eq, path_eq, path_of, join, child, parent, extension, file_stem,
  sort,
}
use article.System.Files
use article.System.Files.{Os, World, Node, file, dir, lookup}
use article.Storage.Access.{
  create_private_directory, set_private_permissions, ensure_regular_file, ensure_real_directory,
  read_regular_limited,
}
use article.Storage.Contacts.{contact_path-child}
use article.Storage.Loading.{IsContact, load_identity_sound, all_contacts-IsContact}
use article.Storage.Lookup.{trust_profile-contact}
use article.Storage.Pins.{trust_profile_unchanged}
use article.System.Kept.{Keeps, content}
use article.Storage.Fresh.{IsHonest, initialize-Keeps}
use article.Storage.State.{
  initialize, trust_profile, pin, StatePaths, from_root, contact_path, load_identity,
  export_profile, contact, contact_files, valid_stem, read_contacts, all_contacts,
}
use article.Tests.{bob, alice, alice_profile, bob_profile}

-- No call fails, and no other process runs.
abbrev pub quiet : Os
quiet = record { fault = λ n. none; interfere = λ n es. es }

abbrev key : Bytes
key = replicate 32 0xcd

abbrev pub root : FilePath
root = Component.root_dir ∷ (Component.normal (b's' ∷ []) ∷ [])

abbrev pub key_path : FilePath
key_path = Component.root_dir ∷ (Component.normal (b'k' ∷ []) ∷ [])

or_none : Result Bytes → Bytes
or_none (ok bytes) = bytes
or_none (err e) = []

abbrev pub paths : StatePaths
paths = from_root root

unfoldable pub home : World
unfolding or_none from_root utf8 encode encode_unlock_key hex_encode encrypt_private_identity
    random_array toy bytes_eq public_profile Identity.new Identity.fingerprint Exec.◌>>=◌
home = record {
  entries =
      (key_path, file (encode_unlock_key key) 0o600)
      ∷ ((paths.identity_public, file (encode alice_profile) 0o600)
          ∷ ((
            paths.identity_encrypted,
            file (or_none (encrypt_private_identity toy alice key 5).0) 0o600,
          )
              ∷ ((paths.contacts, dir 0o700)
                  ∷ ((child paths.contacts (utf8 "bob.contact"), file (encode bob_profile) 0o600)
                      ∷ []))));
  calls = 0;
  draws = 0;
}

loaded : (load_identity toy quiet paths key_path home).0 ≡ ok (alice, alice_profile)
unfolding home load_identity export_profile read_regular_limited ensure_regular_file
    Files.symlink_metadata Files.open_file Files.file_len Files.read_limited Files.sys Files.resolve
    lookup path_eq parse_unlock_key is_utf8 lines hex_decode hex_nibble Identity.parse parse_field
    strip_prefix decrypt_private_identity profile_eq Error.◌>>=◌
loaded = refl

load_identity_sound_example :
    (public_profile toy alice ≡ alice_profile) × IsProfile toy alice_profile
load_identity_sound_example =
    load_identity_sound toy quiet paths key_path home alice alice_profile loaded

abbrev pub bob_contact : Contact
bob_contact = record { alias = b'b' ∷ (b'o' ∷ (b'b' ∷ [])); profile = bob_profile }

listed : (all_contacts toy quiet paths home).0 ≡ ok (bob_contact ∷ [])
unfolding home all_contacts parent contact_files read_contacts valid_stem extension file_stem sort
    validate_alias read_regular_limited ensure_regular_file ensure_real_directory Files.exists
    Files.read_dir Files.symlink_metadata Files.open_file Files.file_len Files.read_limited
    Files.sys Files.resolve lookup path_eq is_utf8 lines hex_decode hex_nibble Identity.parse
    parse_field strip_prefix Error.◌>>=◌
listed = refl

all_contacts-IsContact_example : All (IsContact toy) (bob_contact ∷ [])
all_contacts-IsContact_example =
    all_contacts-IsContact toy quiet paths home (bob_contact ∷ []) listed

valid_name : validate_alias bob_contact.alias ≡ true
unfolding validate_alias
valid_name = refl

contact_path-child_example :
    contact_path paths bob_contact.alias
    ≡ child paths.contacts (bob_contact.alias ++ utf8 ".contact")
contact_path-child_example = contact_path-child paths bob_contact.alias valid_name

abbrev bob_path : FilePath
bob_path = contact_path paths bob_contact.alias

bob_text : content bob_path home.entries ≡ some (encode bob_profile)
unfolding home contact_path path_of join path_eq component_eq lookup from_root utf8 bytes_eq
bob_text = refl

trusted_home : World
unfolding home
trusted_home = (trust_profile toy quiet paths bob_path bob_contact.alias home).1

trusted :
    trust_profile toy quiet paths bob_path bob_contact.alias home ≡ (ok bob_profile, trusted_home)
unfolding trusted_home Files.put trust_profile pin create_private_directory set_private_permissions
    home contact_path path_of join validate_alias read_regular_limited ensure_regular_file
    ensure_real_directory Files.exists Files.set_permissions Files.symlink_metadata Files.open_file
    Files.file_len Files.read_limited Files.sys Files.resolve lookup path_eq is_utf8 lines
    hex_decode hex_nibble Identity.parse parse_field strip_prefix profile_eq Error.◌>>=◌
trusted = refl

trust_profile-contact_example :
    (contact toy quiet paths bob_contact.alias trusted_home).0
    ≡ ok (record { alias = bob_contact.alias; profile = bob_profile })
trust_profile-contact_example =
    trust_profile-contact toy quiet quiet paths bob_path bob_contact.alias bob_profile home
      trusted_home trusted_home toy-IsLawful (λ n es. refl) (λ n es. refl) (λ n. refl) trusted refl

trust_profile_unchanged_example : bob_profile ≡ bob_profile
trust_profile_unchanged_example =
    trust_profile_unchanged toy quiet (λ n es. refl) toy-IsLawful paths bob_path bob_contact.alias
      bob_profile bob_profile home trusted_home (public_profile-IsProfile toy toy-IsLawful bob)
      bob_text trusted

pub quiet-IsHonest : IsHonest quiet
quiet-IsHonest n e = cc e

initialize-Keeps_example : Keeps (initialize toy quiet paths key_path)
initialize-Keeps_example = initialize-Keeps quiet (λ n es. refl) toy quiet-IsHonest paths key_path
