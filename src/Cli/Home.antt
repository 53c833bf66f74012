-- ===== src/Cli/Home.antt =====
-- The paths that src/cli.rs derives from the environment.
use article.Base.{Option, none, some, if◌then◌else◌}
use article.Base.Bytes.{Bytes, bytes_eq, utf8, strip_prefix}
use article.Error.{Result, ok, err, missing, ◌>>=◌}
use article.System.Paths.{FilePath, path_of, join}
use article.Storage.State.{or_else}
use article.Cli.Terminal.{Console}

module _ (c : Console) where
  unfoldable pub project_local_unlock_path : Result FilePath
  project_local_unlock_path = do
    project_dir ← elim c.environment.sealed_project_dir [
      | some path ↦ ok (path_of path)
      | none ↦ c.current_dir
    ]
    ok (join (join project_dir (path_of (utf8 ".sealed-local"))) (path_of (utf8 "unlock.key")))

  unfoldable pub home_directory : Result FilePath
  home_directory = elim (or_else c.environment.home c.environment.userprofile) [
    | some base ↦ ok (path_of base)
    | none ↦ err (missing "home directory is unavailable")
  ]

  abbrev under_home : Option Bytes → Bytes → Result FilePath
  under_home (some remainder) input = do home ← home_directory; ok (join home (path_of remainder))
  under_home none input = ok (path_of input)

  unfoldable pub expand_home_path : Bytes → Result FilePath
  expand_home_path input =
      if bytes_eq input (utf8 "~")
      then home_directory
      else under_home (strip_prefix (utf8 "~/") input) input
