-- ===== src/Tests/Created.antt =====
-- An identity that is made in an empty tree: src/storage.rs.
use article.Base.{◌≡◌, refl, [], ◌∷◌}
use article.Base.Bytes.{bytes_eq, utf8}
use article.Error
use article.Error.{ok}
use article.Exec
use article.Entropy.{random_array}
use article.Format.Hex.{hex_encode}
use article.Identity.{IdentitySecrets, encode, encode_unlock_key, public_profile, new, fingerprint}
use article.Identity.Private.{generate, encrypt_private_identity}
use article.Primitives.Toy.{toy, toy-IsLawful}
use article.System.Paths.{Component, component_eq, path_eq, parent, starts_with}
use article.System.Files
use article.System.Files.{World, dir, lookup}
use article.Storage.Access.{
  create_private_directory, set_private_permissions, ensure_real_directory, write_new_private,
  reject_existing,
}
use article.Storage.State.{
  draw, from_root, create_directories, write_encrypted, initialize, load_identity,
}
use article.Storage.Reload.{initialize-load_identity}
use article.Tests.{alice_profile}
use article.Tests.Home.{quiet, paths, key_path}

abbrev blank : World
blank = record { entries = (Component.root_dir ∷ [], dir 0o755) ∷ []; calls = 0; draws = 0 }

created : World
created = (initialize toy quiet paths key_path blank).1

created_lem : initialize toy quiet paths key_path blank ≡ (ok alice_profile, created)
unfolding created initialize create_directories write_encrypted draw random_array generate
    encrypt_private_identity reject_existing write_new_private create_private_directory
    set_private_permissions ensure_real_directory from_root parent starts_with component_eq path_eq
    bytes_eq Files.exists Files.create_dir Files.create_new Files.has_parent Files.put
    Files.write_all Files.sync_all Files.set_permissions Files.symlink_metadata Files.sys
    Files.resolve lookup encode encode_unlock_key hex_encode public_profile new fingerprint toy utf8
    Exec.◌>>=◌ Error.◌>>=◌
created_lem = refl

initialize-load_identity_example :
    (secrets : IdentitySecrets) × ((load_identity toy quiet paths key_path created).0
      ≡ ok (secrets, alice_profile))
initialize-load_identity_example =
    initialize-load_identity toy quiet quiet paths key_path blank created created alice_profile
      toy-IsLawful (λ n es. refl) (λ n es. refl) (λ n. refl) created_lem refl
