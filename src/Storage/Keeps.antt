-- ===== src/Storage/Keeps.antt =====
-- The operations of src/storage.rs that pin contacts, and the files that are there before.
use article.Base.{
  ℕ, suc, ◌≡◌, sym, ap, subst, Bool, true, false, Option, none, some, [], Bool-cases, Option-cases,
  inl, inr,
}
use article.Base.Bytes.{Bytes}
use article.Error.{IoError, Result, ok}
use article.Exec.{◌>>◌}
use article.Primitives.{Primitives}
use article.Identity.{PublicProfile, encode}
use article.System.Paths.{FilePath, path_eq, path_eq_iff}
use article.System.Files.{
  Os, World, Entries, Node, file, dir, symlink, lookup, sys, outcome, made, written, has_parent,
  create_new, write_all, sync_all,
}
use article.System.Kept.{
  Kept, Kept-trans, KeptBut, put-KeptBut, Keeps, IsAlone, content, bytes_of, bind-Kept, bind-Keeps,
  pure-Keeps, raise-Keeps, lift-Keeps, if-Keeps, symlink_metadata-Keeps, exists-Keeps,
  open_file-Keeps, file_len-Keeps, read_limited-Keeps, sync_all-Keeps, set_permissions-Keeps,
  create_new-Keeps, create_dir-Keeps,
}
use article.Storage.Access.{
  parent_or_dot, ensure_regular_file, ensure_real_directory, set_private_permissions,
  create_private_directory, write_new_private, read_regular_limited,
}
use article.Storage.State.{StatePaths, trust_profile, pin, contact_path}

fresh_lem :
    (path handle : FilePath) (node : Node) (w : World) (o : Option IoError) {w' : World}
    → (let (r, es) = outcome o (made path node path) w.entries in
        ◌≡◌ {A = Result FilePath × World}
          (r, record w { entries = es; calls = suc w.calls })
          (ok handle, w'))
    → (handle ≡ path) × (lookup path w.entries ≡ none)
fresh_lem path handle node w (some e) h = absurd (cc)
fresh_lem path handle node w none h = elim (Option-cases (lookup path w.entries)) [
  | inr (n, k) ↦ absurd (cc (rw (k, made) at h))
  | inl k ↦ elim (Bool-cases (has_parent path w.entries)) [
    | inl t ↦ (cc (rw t at (rw (k, made) at h)), k)
    | inr t ↦ absurd (cc (rw t at (rw (k, made) at h)))
  ]
]

pub KeptBut-refl : (path : FilePath) (es : Entries) → KeptBut path es es
KeptBut-refl path es = record { stays = λ q bytes h e. e }

written-KeptBut :
    (path : FilePath) (bytes : Bytes) (o : Option Node) (es : Entries)
    → KeptBut path es (written path bytes o es).1
written-KeptBut path bytes (some (file old mode)) es = put-KeptBut path (file bytes mode) es
written-KeptBut path bytes (some (dir mode)) es = KeptBut-refl path es
written-KeptBut path bytes (some (symlink target)) es = KeptBut-refl path es
written-KeptBut path bytes none es = KeptBut-refl path es

pub outcome-KeptBut :
    {A : Type 0} (path : FilePath) (o : Option IoError) (f : Entries → Result A × Entries)
    (es : Entries)
    → KeptBut path es (f es).1
    → KeptBut path es (outcome o f es).1
outcome-KeptBut path (some e) f es h = KeptBut-refl path es
outcome-KeptBut path none f es h = h

-- A file that was not there cannot have been lost.
pub Kept-of_fresh :
    (path : FilePath) (a b c : Entries)
    → lookup path a ≡ none
    → Kept a b
    → KeptBut path b c
    → Kept a c
Kept-of_fresh path a b c fresh h k = record {
  stays = λ q bytes e. elim (Bool-cases (path_eq path q)) [
    | inl t ↦ absurd (
        cc (
          ap bytes_of fresh,
          subst (λ r. content r a ≡ some bytes) (sym ((path_eq_iff path q).0 t)) e,
        ))
    | inr t ↦ k.stays q bytes t (h.stays q bytes e)
  ];
}

module _ (os : Os) (alone : IsAlone os) where
  pub ensure_regular_file-Keeps : (path : FilePath) → Keeps (ensure_regular_file os path)
  unfolding ensure_regular_file
  ensure_regular_file-Keeps path =
      bind-Keeps _ _ (symlink_metadata-Keeps os alone path) λ m. lift-Keeps _

  pub ensure_real_directory-Keeps : (path : FilePath) → Keeps (ensure_real_directory os path)
  unfolding ensure_real_directory
  ensure_real_directory-Keeps path =
      bind-Keeps _ _ (symlink_metadata-Keeps os alone path) λ m. lift-Keeps _

  pub set_private_permissions-Keeps : (path : FilePath) → Keeps (set_private_permissions os path)
  unfolding set_private_permissions
  set_private_permissions-Keeps path =
      bind-Keeps _ _ (symlink_metadata-Keeps os alone path)
        λ m. set_permissions-Keeps os alone path _

  pub create_private_directory-Keeps : (path : FilePath) → Keeps (create_private_directory os path)
  unfolding create_private_directory
  create_private_directory-Keeps path = bind-Keeps _ _ (exists-Keeps os alone path) λ there.
      if-Keeps there _ _
        (bind-Keeps _ _ (ensure_real_directory-Keeps path) λ _. set_private_permissions-Keeps path)
        (bind-Keeps _ _ (create_dir-Keeps os alone path) λ _. set_private_permissions-Keeps path)

  pub read_regular_limited-Keeps :
      (path : FilePath) (maximum : ℕ) → Keeps (read_regular_limited os path maximum)
  unfolding read_regular_limited
  read_regular_limited-Keeps path maximum = bind-Keeps _ _ (ensure_regular_file-Keeps path) λ _.
      bind-Keeps _ _ (open_file-Keeps os alone path) λ handle.
        bind-Keeps _ _ (file_len-Keeps os alone handle) λ declared.
          bind-Keeps _ _ (lift-Keeps _) λ _.
            bind-Keeps _ _ (read_limited-Keeps os alone handle (suc maximum))
              λ bytes. bind-Keeps _ _ (lift-Keeps _) λ _. pure-Keeps bytes

  -- A file that was just made was not there before.
  pub create_new_fresh :
      (path handle : FilePath) (mode : ℕ) (w w' : World)
      → create_new os path mode w ≡ (ok handle, w')
      → (handle ≡ path) × (lookup path w.entries ≡ none)
  unfolding create_new sys
  create_new_fresh path handle mode w w' e =
      fresh_lem path handle (file [] mode) w (os.fault w.calls) (rw alone at e)

  write_all-KeptBut :
      (path : FilePath) (bytes : Bytes) (w : World)
      → KeptBut path w.entries (write_all os path bytes w).1.entries
  unfolding write_all sys
  write_all-KeptBut path bytes w = rw alone (
      outcome-KeptBut path (os.fault w.calls) _ w.entries
        (written-KeptBut path bytes (lookup path w.entries) w.entries))

  -- What follows the creation of a new file only touches that file.
  fill :
      (path : FilePath) (bytes : Bytes) (handle : FilePath) (w w' : World)
      → create_new os path 0o600 w ≡ (ok handle, w')
      → (handle ≡ path) × (lookup path w.entries ≡ none)
      → Kept w.entries
          ((write_all os handle bytes >> (sync_all os handle >> set_private_permissions os path))
            w').1.entries
  fill path bytes handle w w' e (same, fresh) =
      let kept =
        subst (λ r. Kept w.entries r.1.entries) e ((create_new-Keeps os alone path 0o600).at w) in
      let but =
        subst (λ q. KeptBut q w'.entries (write_all os handle bytes w').1.entries) same
          (write_all-KeptBut handle bytes w') in
      let all = Kept-of_fresh path w.entries w'.entries _ fresh kept but in
      bind-Kept _ _ w.entries w' all λ _ w'' e'.
        Kept-trans (subst (λ r. Kept w.entries r.1.entries) e' all) (
          (bind-Keeps _ _ (sync_all-Keeps os alone handle)
              λ _. set_private_permissions-Keeps path).at
            w'')

  -- Whatever fails on the way, a new file leaves the files that were there.
  pub write_new_private-Keeps :
      (path : FilePath) (bytes : Bytes) → Keeps (write_new_private os path bytes)
  unfolding write_new_private
  write_new_private-Keeps path bytes =
      bind-Keeps _ _ (ensure_real_directory-Keeps (parent_or_dot path)) λ _. record {
        at = λ w.
            bind-Kept _ _ w.entries w ((create_new-Keeps os alone path 0o600).at w) λ handle w' e.
              fill path bytes handle w w' e (create_new_fresh path handle 0o600 w w' e);
      }

  module _ (p : Primitives) where
    pin-Keeps :
        (path : FilePath) (profile : PublicProfile) (there : Bool)
        → Keeps (pin p os path profile there)
    unfolding pin
    pin-Keeps path profile true = bind-Keeps _ _ (read_regular_limited-Keeps path 512) λ bytes.
        bind-Keeps _ _ (lift-Keeps _) λ pinned. if-Keeps _ _ _ (pure-Keeps profile) (raise-Keeps _)
    pin-Keeps path profile false =
        bind-Keeps _ _ (write_new_private-Keeps path (encode profile)) λ _. pure-Keeps profile

    -- Whatever fails on the way, with no other process at work on the tree, pinning a contact
    -- leaves every file that was there with its contents.
    pub trust_profile-Keeps :
        (paths : StatePaths) (source : FilePath) (alias : Bytes)
        → Keeps (trust_profile p os paths source alias)
    unfolding trust_profile
    trust_profile-Keeps paths source alias = bind-Keeps _ _ (lift-Keeps _) λ _.
        bind-Keeps _ _ (read_regular_limited-Keeps source 512) λ bytes.
          bind-Keeps _ _ (lift-Keeps _) λ profile.
            bind-Keeps _ _ (create_private_directory-Keeps paths.contacts) λ _.
              bind-Keeps _ _ (exists-Keeps os alone (contact_path paths alias))
                λ there. pin-Keeps (contact_path paths alias) profile there
