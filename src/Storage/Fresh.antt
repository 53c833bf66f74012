-- ===== src/Storage/Fresh.antt =====
-- `initialize` of src/storage.rs and the files that are there before.
use article.Base.{
  ℕ, ◌≢◌, ◌∙◌, ◌≡◌, refl, ap, subst, Option, none, some, Option-cases, inl, inr, String,
}
use article.Base.Bytes.{Bytes}
use article.Error.{IoError, Result, ok, err, io, not_found}
use article.Exec.{Exec, pure, continue, ◌>>=◌, ◌>>◌}
use article.Primitives.{Primitives}
use article.Entropy.{random_array}
use article.Identity.Private.{generate, encrypt_private_identity}
use article.Identity.{PublicProfile, encode, encode_unlock_key}
use article.System.Paths.{FilePath}
use article.System.Files.{
  Os, World, Entries, Node, lookup, sys, outcome, symlink_metadata, remove_file,
}
use article.System.Kept.{
  Kept, Kept-refl, KeptBut, Keeps, IsAlone, bind-Kept, bind-Keeps, lift-Keeps,
  symlink_metadata-Keeps,
}
use article.Storage.Access.{parent_or_dot, reject_found, reject_existing, write_new_private}
use article.Storage.Consumed.{KeptBut-trans, remove_file-all_but}
use article.Storage.Keeps.{
  Kept-of_fresh, ensure_real_directory-Keeps, create_private_directory-Keeps,
  write_new_private-Keeps,
}
use article.Storage.State.{StatePaths, initialize, create_directories, write_encrypted, draw}

-- A step that keeps all files but perhaps the one at `path`, also when it fails.
record Spares (path : FilePath) {A : Type 0} (m : Exec World A) : Type 0 where
  at : (w : World) → KeptBut path w.entries (m w).1.entries

Keeps-Spares : {A : Type 0} (path : FilePath) (m : Exec World A) → Keeps m → Spares path m
Keeps-Spares path m h = record {
  at = λ w. record { stays = λ q bytes _ e. (h.at w).stays q bytes e };
}

module _ {A B : Type 0} where
  bind-Spares :
      (path : FilePath) (m : Exec World A) (f : A → Exec World B)
      → Keeps m
      → ((a : A) → Spares path (f a))
      → Spares path (m >>= f)
  unfolding ◌>>=◌
  bind-Spares path m f h k = record { at = λ w. go w (m w) (((Keeps-Spares path m h).at) w) }
    where
      go :
          (w : World) (r : Result A × World)
          → KeptBut path w.entries r.1.entries
          → KeptBut path w.entries (continue r.0 f r.1).1.entries
      go w (ok a, w') e = KeptBut-trans e ((k a).at w')
      go w (err x, w') e = e

draw-Keeps : {A : Type 0} (m : Exec ℕ A) → Keeps (draw m)
unfolding draw
draw-Keeps m = record { at = λ w. Kept-refl w.entries }

-- No call reports that a path is missing for another reason.
abbrev pub IsHonest : Os → Type 0
IsHonest os = (n : ℕ) → os.fault n ≢ some not_found

fault_lem :
    (message : String) (x : IoError) → reject_found message (err (io x)) ≡ ok tt → x ≡ not_found
fault_lem message not_found h = refl
fault_lem message _ h = cc

quiet_lem :
    (message : String) (es : Entries) (found : Option Node)
    → reject_found message
        (elim found as (λ _. Result Node × Entries) [
          | none ↦ (err (io not_found), es)
          | some node ↦ (ok node, es)
        ]).0
      ≡ ok tt
    → found ≡ none
quiet_lem message es none h = refl
quiet_lem message es (some node) h = cc

module _ (os : Os) (alone : IsAlone os) where
  reject_existing-Keeps :
      (path : FilePath) (message : String) → Keeps (reject_existing os path message)
  unfolding reject_existing
  reject_existing-Keeps path message = record {
    at = λ w. (symlink_metadata-Keeps os alone path).at w;
  }

  -- What is not rejected is not there.
  rejected_ok :
      IsHonest os
      → (path : FilePath) (message : String) (w w' : World)
      → reject_existing os path message w ≡ (ok tt, w')
      → lookup path w.entries ≡ none
  unfolding reject_existing symlink_metadata sys
  rejected_ok honest path message w w' e = elim (Option-cases (os.fault w.calls)) [
    | inl h ↦
        quiet_lem message w.entries (lookup path w.entries)
          (ap (λ q. q.0) (rw (h, outcome) at (rw alone at e)))
    | inr (x, h) ↦ absurd (
        honest w.calls
          (h ∙ ap some (fault_lem message x (ap (λ q. q.0) (rw (h, outcome) at (rw alone at e))))))
  ]

  module _ (p : Primitives) where
    write_encrypted-Spares :
        (paths : StatePaths) (encrypted : Bytes)
        → Spares paths.identity_public (write_encrypted p os paths encrypted)
    unfolding write_encrypted
    write_encrypted-Spares paths encrypted = record {
      at = λ w. go w (write_new_private os paths.identity_encrypted encrypted w) (
          (Keeps-Spares paths.identity_public _
              (write_new_private-Keeps os alone paths.identity_encrypted encrypted)).at
            w);
    }
      where
        go :
            (w : World) (q : Result (Unit {0}) × World)
            → KeptBut paths.identity_public w.entries q.1.entries
            → KeptBut paths.identity_public w.entries
                (elim q.0 as (λ _. Result (Unit {0}) × World) [
                  | ok _ ↦ (ok tt, q.1)
                  | err e ↦ (err e, (remove_file os paths.identity_public q.1).1)
                ]).1.entries
        go w (ok x, w') h = h
        go w (err e, w') h =
            KeptBut-trans h ((remove_file-all_but os alone paths.identity_public).at w')

    create_directories-Keeps : (paths : StatePaths) → Keeps (create_directories p os paths)
    unfolding create_directories
    create_directories-Keeps paths =
        bind-Keeps _ _ (create_private_directory-Keeps os alone paths.root) λ _.
          bind-Keeps _ _ (lift-Keeps _) λ identity_parent.
            bind-Keeps _ _ (create_private_directory-Keeps os alone identity_parent)
              λ _. create_private_directory-Keeps os alone paths.contacts

    ending :
        (paths : StatePaths) (encrypted : Bytes) (profile : PublicProfile)
        → Spares paths.identity_public (write_encrypted p os paths encrypted >> pure profile)
    unfolding ◌>>=◌
    ending paths encrypted profile = record {
      at = λ w.
          go w (write_encrypted p os paths encrypted w)
            ((write_encrypted-Spares paths encrypted).at w);
    }
      where
        go :
            (w : World) (q : Result (Unit {0}) × World)
            → KeptBut paths.identity_public w.entries q.1.entries
            → KeptBut paths.identity_public w.entries
                (continue q.0 (λ _. pure profile) q.1).1.entries
        go w (ok x, w') h = h
        go w (err e, w') h = h

    -- However it ends, and whichever calls fail, with no other process at work on the tree and no
    -- false report of a missing path, `initialize` leaves every file that was there with its
    -- contents.
    pub initialize-Keeps :
        IsHonest os
        → (paths : StatePaths) (unlock_path : FilePath) → Keeps (initialize p os paths unlock_path)
    unfolding initialize
    initialize-Keeps honest paths unlock_path = bind-Keeps _ _ (lift-Keeps _) λ _. record {
      at = λ w.
          bind-Kept _ _ w.entries w ((reject_existing-Keeps paths.identity_public _).at w) λ _ w1 e.
            let kept =
              subst (λ r. Kept w.entries r.1.entries) e
                ((reject_existing-Keeps paths.identity_public _).at w) in
            let fresh = rejected_ok honest paths.identity_public _ w w1 e in
            Kept-of_fresh paths.identity_public w.entries w1.entries _ fresh kept (
              (bind-Spares paths.identity_public _ _
                  (reject_existing-Keeps paths.identity_encrypted _)
                  λ _. bind-Spares _ _ _ (reject_existing-Keeps unlock_path _) λ _.
                    bind-Spares _ _ _
                      (ensure_real_directory-Keeps os alone (parent_or_dot unlock_path))
                      λ _. bind-Spares _ _ _ (create_directories-Keeps paths) λ _.
                        bind-Spares _ _ _ (draw-Keeps (random_array p 32)) λ unlock_key.
                          bind-Spares _ _ _ (draw-Keeps (generate p)) λ generated.
                            bind-Spares _ _ _
                              (draw-Keeps (encrypt_private_identity p generated.0 unlock_key))
                              λ encrypted.
                                bind-Spares _ _ _
                                  (write_new_private-Keeps os alone unlock_path
                                    (encode_unlock_key unlock_key))
                                  λ _.
                                    bind-Spares _ _ _
                                      (write_new_private-Keeps os alone paths.identity_public
                                        (encode generated.1))
                                      λ _. ending paths encrypted generated.1).at
                w1);
    }
