-- ===== src/System/Directories.antt =====
-- `fs::create_dir_all` of the standard library, over `fs::create_dir`.
use article.Base.{ℕ, zero, suc, none, some, [], ◌∷◌, if◌then◌else◌, length}
use article.Error.{Result, ok, err, io, not_found, other}
use article.Exec.{Exec, pure, raise, attempt, ◌>>=◌, ◌>>◌}
use article.System.Paths.{FilePath, parent}
use article.System.Files.{Os, World, create_dir, is_dir_path}

module _ (os : Os) where
  -- A failed `mkdir` is no failure if the directory is there.
  unfoldable pub unless_there : FilePath → Result (Unit {0}) → Exec World (Unit {0})
  unless_there path (ok _) = pure tt
  unless_there path (err e) = do there ← is_dir_path os path; if there then pure tt else raise e

  -- The rest, after a first attempt: a directory that is missing above is made first.
  abbrev pub create_above :
      FilePath → (FilePath → Exec World (Unit {0})) → Result (Unit {0}) → Exec World (Unit {0})
  create_above path create (ok _) = pure tt
  create_above path create (err (io not_found)) = elim (parent path) [
    | none ↦ raise (io other)
    | some above ↦ (do create above; again ← attempt (create_dir os path); unless_there path again)
  ]
  create_above path create (err e) = unless_there path (err e)

  -- Fuel for every component: the path shrinks with each round, and the empty path needs nothing.
  unfoldable pub create_all : ℕ → FilePath → Exec World (Unit {0})
  create_all zero path = pure tt
  create_all (suc fuel) [] = pure tt
  create_all (suc fuel) (d ∷ path) = do
    made ← attempt (create_dir os (d ∷ path))
    create_above (d ∷ path) (create_all fuel) made

  unfoldable pub create_dir_all : FilePath → Exec World (Unit {0})
  create_dir_all path = create_all (length path) path
