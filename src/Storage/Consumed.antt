-- ===== src/Storage/Consumed.antt =====
-- `remove_file` and `consume_blob` of src/storage.rs, and the other files.
use article.Base.{◌≡◌, sym, subst, ◌⊎◌, if◌then◌else◌, none, [], ◌∷◌, inl, inr, arith}
use article.Exec.Always.{Frame, Always, bind-Always, Always-weaken}
use article.System.Paths.{FilePath, path_eq, path_eq_iff}
use article.System.Files.{Os, World, Entries, lookup, erase, sys, remove_file}
use article.System.Kept.{IsAlone, KeptBut}
use article.Storage.Access.{consume_blob}
use article.Storage.Unchanged.{ensure_regular_file-unchanged}
use article.Storage.Keeps.{KeptBut-refl, outcome-KeptBut}

lookup-erase :
    (path q : FilePath) (es : Entries)
    → lookup q (erase path es) ≡ (if path_eq path q then none else lookup q es)
unfolding lookup erase
lookup-erase path q [] = ground arith
lookup-erase path q ((r, n) ∷ es) =
    ground (arith, lookup-erase path q es, path_eq_iff r path, path_eq_iff path q, path_eq_iff r q)

erase-KeptBut : (path : FilePath) (es : Entries) → KeptBut path es (erase path es)
erase-KeptBut path es = record { stays = λ q bytes h e. rw (lookup-erase path q es) (rw h e) }

removed-KeptBut :
    (path : FilePath) (before after : Entries)
    → (after ≡ before) ⊎ (after ≡ erase path before)
    → KeptBut path before after
removed-KeptBut path before after (inl e) =
    subst (KeptBut path before) (sym e) (KeptBut-refl path before)
removed-KeptBut path before after (inr e) =
    subst (KeptBut path before) (sym e) (erase-KeptBut path before)

pub KeptBut-trans :
    {path : FilePath} {a b c : Entries} → KeptBut path a b → KeptBut path b c → KeptBut path a c
KeptBut-trans h k = record { stays = λ q bytes t e. k.stays q bytes t (h.stays q bytes t e) }

-- All files but one stay.
abbrev pub all_but : FilePath → Frame World
all_but path = record {
  rel = λ v w. KeptBut path v.entries w.entries;
  rel_refl = λ w. KeptBut-refl path w.entries;
  rel_trans = KeptBut-trans;
}

module _ (os : Os) (alone : IsAlone os) where
  pub remove_file-all_but : (path : FilePath) → Always (all_but path) (remove_file os path)
  unfolding remove_file sys
  remove_file-all_but path = record {
    at = λ w. rw alone (
        outcome-KeptBut path (os.fault w.calls) _ w.entries
          (removed-KeptBut path w.entries _ (ground arith)));
  }

  pub consume_blob-all_but : (path : FilePath) → Always (all_but path) (consume_blob os path)
  unfolding consume_blob
  consume_blob-all_but path =
      bind-Always _ _
        (Always-weaken (λ v w e. removed-KeptBut path v.entries w.entries (inl e))
          (ensure_regular_file-unchanged os alone path))
        λ _. remove_file-all_but path
