-- ===== src/Storage/Unchanged.antt =====
-- The methods of `StatePaths` in src/storage.rs that read, and the tree.
use article.Base.{ℕ, refl, List, [], ◌∷◌}
use article.Base.Bytes.{Bytes}
use article.Exec.{Exec}
use article.Exec.Always.{Always, always_rules, pure-Always, lift-Always, bind-Always}
use article.Primitives.{Primitives}
use article.System.Paths.{FilePath}
use article.System.Files.{Os}
use article.System.Kept.{IsAlone}
use article.System.Unchanged.{
  unchanged, symlink_metadata-unchanged, exists-unchanged, open_file-unchanged, file_len-unchanged,
  read_limited-unchanged, read_dir-unchanged,
}
use article.Storage.Access.{
  ensure_regular_file, ensure_real_directory, read_regular_limited, read_blob,
}
use article.Storage.State.{
  StatePaths, draw, export_profile, load_identity, contact, read_contacts, all_contacts,
}

pub draw-unchanged : {A : Type 0} (m : Exec ℕ A) → Always unchanged (draw m)
unfolding draw
draw-unchanged m = record { at = λ w. refl }

module _ (os : Os) (alone : IsAlone os) where
  pub ensure_regular_file-unchanged :
      (path : FilePath) → Always unchanged (ensure_regular_file os path)
  unfolding ensure_regular_file
  ensure_regular_file-unchanged path = search (symlink_metadata-unchanged os alone, always_rules)

  ensure_real_directory-unchanged :
      (path : FilePath) → Always unchanged (ensure_real_directory os path)
  unfolding ensure_real_directory
  ensure_real_directory-unchanged path = search (symlink_metadata-unchanged os alone, always_rules)

  pub read_regular_limited-unchanged :
      (path : FilePath) (maximum : ℕ) → Always unchanged (read_regular_limited os path maximum)
  unfolding read_regular_limited
  read_regular_limited-unchanged path maximum =
      search
        (
          ensure_regular_file-unchanged,
          open_file-unchanged os alone,
          file_len-unchanged os alone,
          read_limited-unchanged os alone,
          always_rules,
        )
        depth 12

  pub read_blob-unchanged : (path : FilePath) → Always unchanged (read_blob os path)
  unfolding read_blob
  read_blob-unchanged path = read_regular_limited-unchanged path _

  module _ (p : Primitives) where
    pub export_profile-unchanged :
        (paths : StatePaths) → Always unchanged (export_profile p os paths)
    unfolding export_profile
    export_profile-unchanged paths = search (read_regular_limited-unchanged, always_rules)

    pub load_identity-unchanged :
        (paths : StatePaths) (unlock_path : FilePath)
        → Always unchanged (load_identity p os paths unlock_path)
    unfolding load_identity
    load_identity-unchanged paths unlock_path =
        search (read_regular_limited-unchanged, export_profile-unchanged, always_rules) depth 12

    pub contact-unchanged :
        (paths : StatePaths) (alias : Bytes) → Always unchanged (contact p os paths alias)
    unfolding contact
    contact-unchanged paths alias = search (read_regular_limited-unchanged, always_rules) depth 12

    read_contacts-unchanged : (files : List FilePath) → Always unchanged (read_contacts p os files)
    unfolding read_contacts
    read_contacts-unchanged [] = pure-Always []
    read_contacts-unchanged (path ∷ paths) = bind-Always _ _ (lift-Always _) λ _.
        bind-Always _ _ (read_regular_limited-unchanged path _) λ _.
          bind-Always _ _ (lift-Always _)
            λ _. bind-Always _ _ (read_contacts-unchanged paths) λ _. pure-Always _

    pub all_contacts-unchanged : (paths : StatePaths) → Always unchanged (all_contacts p os paths)
    unfolding all_contacts
    all_contacts-unchanged paths =
        search
          (
            exists-unchanged os alone,
            ensure_real_directory-unchanged,
            read_dir-unchanged os alone,
            read_contacts-unchanged,
            always_rules,
          )
          depth 12
