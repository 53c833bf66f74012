-- ===== src/Storage/State.antt =====
-- `StatePaths` of src/storage.rs.
use article.Base.{ℕ, Bool, true, false, Option, none, some, List, [], ◌∷◌, ◌++◌, not, if◌then◌else◌}
use article.Base.Bytes.{Bytes, utf8, bytes_eq}
use article.Error.{
  Result, ok, err, missing, invalid_input, identity_mismatch, refuse_if, ok_or, map_err,
}
use article.Exec.{Exec, pure, raise, lift, on_err, ◌>>=◌, ◌>>◌}
use article.Primitives.{Primitives}
use article.Entropy.{random_array}
use article.Contact.{Contact, validate_alias}
use article.Identity.{
  PublicProfile, IdentitySecrets, encode, parse, encode_unlock_key, parse_unlock_key,
  decrypt_private_identity, public_profile, profile_eq,
}
use article.Identity.Private.{generate, encrypt_private_identity}
use article.System.Paths.{
  FilePath, starts_with, child, parent, extension, file_stem, to_str, sort, path_of, join,
}
use article.System.Files.{Os, World, exists, read_dir, remove_file}
use article.Storage.Access.{
  parent_or_dot, map_not_found, reject_existing, ensure_real_directory, create_private_directory,
  write_new_private, read_regular_limited,
}

pub record StatePaths : Type 0 where
  pub root : FilePath
  pub identity_public : FilePath
  pub identity_encrypted : FilePath
  pub contacts : FilePath

unfoldable pub from_root : FilePath → StatePaths
from_root root = record {
  root = root;
  identity_public = child (child root (utf8 "identity")) (utf8 "identity.pub");
  identity_encrypted = child (child root (utf8 "identity")) (utf8 "identity.key.enc");
  contacts = child root (utf8 "contacts");
}

-- The environment variables that the program reads.
pub record Environment : Type 0 where
  pub sealed_home : Option Bytes
  pub home : Option Bytes
  pub userprofile : Option Bytes
  pub sealed_project_dir : Option Bytes
  pub sealed_unlock_key : Option Bytes
  pub no_color : Option Bytes

abbrev pub or_else : Option Bytes → Option Bytes → Option Bytes
or_else none b = b
or_else (some a) b = some a

-- `StatePaths::discover`
unfoldable pub discover : Environment → Result StatePaths
discover env = elim env.sealed_home [
  | some path ↦ ok (from_root (path_of path))
  | none ↦ elim (or_else env.home env.userprofile) [
    | some base ↦ ok (from_root (join (path_of base) (path_of (utf8 ".sealed"))))
    | none ↦ err (missing "home directory is unavailable; set SEALED_HOME")
  ]
]

-- A step that draws randomness.
unfoldable pub draw : {A : Type 0} → Exec ℕ A → Exec World A
draw m w = let (r, n) = m w.draws in (r, record w { draws = n })

-- The file of a contact.
unfoldable pub contact_path : StatePaths → Bytes → FilePath
contact_path paths alias = join paths.contacts (path_of (alias ++ utf8 ".contact"))

-- The first loop of `all_contacts`: the entries whose extension is "contact".
unfoldable pub contact_files : List FilePath → List FilePath
contact_files [] = []
contact_files (path ∷ paths) =
    let rest = contact_files paths in
    elim (extension path) [
      | none ↦ rest
      | some value ↦ if bytes_eq value (utf8 "contact") then path ∷ rest else rest
    ]

-- A file name that is a valid contact name.
unfoldable pub valid_stem : FilePath → Option Bytes
valid_stem path = elim (file_stem path) [
  | none ↦ none
  | some stem ↦ elim (to_str stem) [
    | none ↦ none
    | some name ↦ if validate_alias name then some name else none
  ]
]

module _ (p : Primitives) (os : Os) where
  -- The directories of a new state.
  unfoldable pub create_directories : StatePaths → Exec World (Unit {0})
  create_directories paths = do
    create_private_directory os paths.root
    identity_parent ←
        lift (ok_or (invalid_input "identity path has no parent") (parent paths.identity_public))
    create_private_directory os identity_parent
    create_private_directory os paths.contacts

  -- The last write of `initialize`: if it fails, the public identity is removed again.
  unfoldable pub write_encrypted : StatePaths → Bytes → Exec World (Unit {0})
  write_encrypted paths encrypted w =
      let (r, w') = write_new_private os paths.identity_encrypted encrypted w in
      elim r [
        | ok _ ↦ (ok tt, w')
        | err e ↦ let (_, w'') = remove_file os paths.identity_public w' in (err e, w'')
      ]

  unfoldable pub initialize : StatePaths → FilePath → Exec World PublicProfile
  initialize paths unlock_path = do
    lift (
        refuse_if (starts_with unlock_path paths.root)
          (invalid_input "unlock key must be stored outside the Sealed state directory"))
    reject_existing os paths.identity_public "identity already exists"
    reject_existing os paths.identity_encrypted "identity already exists"
    reject_existing os unlock_path "unlock key destination already exists"
    ensure_real_directory os (parent_or_dot unlock_path)
    create_directories paths
    unlock_key ← draw (random_array p 32)
    generated ← draw (generate p)
    encrypted ← draw (encrypt_private_identity p generated.0 unlock_key)
    write_new_private os unlock_path (encode_unlock_key unlock_key)
    write_new_private os paths.identity_public (encode generated.1)
    write_encrypted paths encrypted
    pure generated.1

  unfoldable pub export_profile : StatePaths → Exec World PublicProfile
  export_profile paths = do
    bytes ← read_regular_limited os paths.identity_public 512
    lift (parse p bytes)

  unfoldable pub load_identity :
      StatePaths → FilePath → Exec World (IdentitySecrets × PublicProfile)
  load_identity paths unlock_path = do
    unlock_bytes ← read_regular_limited os unlock_path 128
    unlock_key ← lift (parse_unlock_key unlock_bytes)
    encrypted ← read_regular_limited os paths.identity_encrypted 512
    profile ← export_profile paths
    secrets ← lift (
        map_err (λ _. invalid_input "cannot unlock identity")
          (decrypt_private_identity p encrypted unlock_key))
    lift (
        refuse_if (not (profile_eq (public_profile p secrets) profile))
          (invalid_input "encrypted identity does not match public identity"))
    pure (secrets, profile)

  -- What `trust_profile` does once it knows whether the contact file exists.
  unfoldable pub pin : FilePath → PublicProfile → Bool → Exec World PublicProfile
  pin destination profile true = do
    bytes ← read_regular_limited os destination 512
    pinned ← lift (parse p bytes)
    if profile_eq pinned profile then pure profile else raise identity_mismatch
  pin destination profile false = do write_new_private os destination (encode profile); pure profile

  unfoldable pub trust_profile : StatePaths → FilePath → Bytes → Exec World PublicProfile
  trust_profile paths source alias = do
    lift (
        refuse_if (not (validate_alias alias))
          (invalid_input "contact name must contain only ASCII letters, digits, '-' or '_'"))
    bytes ← read_regular_limited os source 512
    profile ← lift (parse p bytes)
    create_private_directory os paths.contacts
    there ← exists os (contact_path paths alias)
    pin (contact_path paths alias) profile there

  unfoldable pub contact : StatePaths → Bytes → Exec World Contact
  contact paths alias = do
    lift (refuse_if (not (validate_alias alias)) (invalid_input "invalid contact name"))
    bytes ←
        on_err (map_not_found "contact is not pinned")
          (read_regular_limited os (contact_path paths alias) 512)
    profile ← lift (parse p bytes)
    pure (record { alias = alias; profile = profile })

  -- The second loop.
  unfoldable pub read_contacts : List FilePath → Exec World (List Contact)
  read_contacts [] = pure []
  read_contacts (path ∷ paths) = do
    alias ← lift (ok_or (invalid_input "invalid contact filename") (valid_stem path))
    bytes ← read_regular_limited os path 512
    profile ← lift (parse p bytes)
    contacts ← read_contacts paths
    pure (record { alias = alias; profile = profile } ∷ contacts)

  unfoldable pub all_contacts : StatePaths → Exec World (List Contact)
  all_contacts paths = do
    there ← exists os paths.contacts
    if not there then pure [] else (do
      ensure_real_directory os paths.contacts
      found ← read_dir os paths.contacts
      read_contacts (sort (contact_files found)))
