-- ===== src/System/Created.antt =====
-- `fs::create_dir_all`, and the files that are there.
use article.Base.{ℕ, zero, suc, sym, subst, [], ◌∷◌, length, Option-cases, inl, inr}
use article.Error.{Result, ok, err, io, not_found}
use article.Exec.{Exec}
use article.Exec.Always.{
  Frame, Always, always_rules, pure-Always, raise-Always, attempt-Always, bind-Always,
  Always-weaken,
}
use article.System.Paths.{FilePath, parent}
use article.System.Files.{Os, World, create_dir, is_dir_path}
use article.System.Directories.{unless_there, create_above, create_all, create_dir_all}
use article.System.Kept.{Kept, Kept-refl, Kept-trans, Keeps, IsAlone, create_dir-Keeps}
use article.System.Unchanged.{unchanged, is_dir_path-unchanged}

-- Every file that was there is there with its bytes.
abbrev pub kept : Frame World
kept = record {
  rel = λ v w. Kept v.entries w.entries;
  rel_refl = λ w. Kept-refl w.entries;
  rel_trans = Kept-trans;
}

pub Always-kept : {A : Type 0} {m : Exec World A} → Keeps m → Always kept m
Always-kept h = record { at = λ w. h.at w }

pub unchanged-kept : {A : Type 0} {m : Exec World A} → Always unchanged m → Always kept m
unchanged-kept = Always-weaken λ v w e. subst (Kept v.entries) (sym e) (Kept-refl v.entries)

module _ (os : Os) (alone : IsAlone os) where
  is_dir_path-kept : (path : FilePath) → Always kept (is_dir_path os path)
  is_dir_path-kept path = unchanged-kept (is_dir_path-unchanged os alone path)

  create_dir-kept : (path : FilePath) → Always kept (create_dir os path)
  create_dir-kept path = Always-kept (create_dir-Keeps os alone path)

  unless_there-kept :
      (path : FilePath) (r : Result (Unit {0})) → Always kept (unless_there os path r)
  unfolding unless_there
  unless_there-kept path (ok _) = pure-Always tt
  unless_there-kept path (err e) = search (is_dir_path-kept, always_rules)

  create_above-kept :
      (path : FilePath) (create : FilePath → Exec World (Unit {0})) (made : Result (Unit {0}))
      → ((above : FilePath) → Always kept (create above))
      → Always kept (create_above os path create made)
  create_above-kept path create (ok _) h = pure-Always tt
  create_above-kept path create (err (io not_found)) h = elim (Option-cases (parent path)) [
    | inl e ↦ rw (e, create_above) (raise-Always _)
    | inr (above, e) ↦
        rw (e, create_above)
          (bind-Always _ _ (h above) λ _.
            bind-Always _ _ (attempt-Always _ (create_dir-kept path))
              λ again. unless_there-kept path again)
  ]
  create_above-kept path create (err e) h = unless_there-kept path (err e)

  create_all-kept : (fuel : ℕ) (path : FilePath) → Always kept (create_all os fuel path)
  unfolding create_all
  create_all-kept zero path = pure-Always tt
  create_all-kept (suc fuel) [] = pure-Always tt
  create_all-kept (suc fuel) (d ∷ path) =
      bind-Always _ _ (attempt-Always _ (create_dir-kept (d ∷ path)))
        λ made. create_above-kept (d ∷ path) (create_all os fuel) made (create_all-kept fuel)

  pub create_dir_all-kept : (path : FilePath) → Always kept (create_dir_all os path)
  unfolding create_dir_all
  create_dir_all-kept path = create_all-kept (length path) path
