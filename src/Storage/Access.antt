-- ===== src/Storage/Access.antt =====
-- The free functions of src/storage.rs: guarded access to single paths.
use article.Base.{
  ℕ, suc, String, Bool, true, false, none, some, [], ◌∷◌, ltb, not, if◌then◌else◌, length,
}
use article.Base.Bytes.{Bytes}
use article.Error.{Error, Result, ok, err, io, not_found, missing, invalid_input, refuse_if}
use article.Exec.{Exec, pure, lift, ◌>>=◌, ◌>>◌}
use article.Protocol.{max_blob_len}
use article.System.Paths.{FilePath, Component, parent}
use article.System.Files.{
  Os, World, Node, file, dir, symlink, symlink_metadata, exists, open_file, file_len, read_limited,
  create_new, write_all, sync_all, set_permissions, create_dir, remove_file,
}

abbrev pub is_regular : Node → Bool
is_regular (file bytes mode) = true
is_regular (dir mode) = false
is_regular (symlink target) = false

abbrev is_dir : Node → Bool
is_dir (dir mode) = true
is_dir (file bytes mode) = false
is_dir (symlink target) = false

-- `path.parent().filter(non-empty).unwrap_or(".")`
abbrev pub parent_or_dot : FilePath → FilePath
parent_or_dot path = elim (parent path) [
  | none ↦ Component.cur_dir ∷ []
  | some [] ↦ Component.cur_dir ∷ []
  | some (c ∷ p) ↦ c ∷ p
]

-- `map_not_found`
unfoldable pub map_not_found : String → Error → Error
map_not_found message (io not_found) = missing message
map_not_found message e = e

-- The `match` of `reject_existing`: an error other than "not found" is passed on.
abbrev pub reject_found : String → Result Node → Result (Unit {0})
reject_found message (ok node) = err (invalid_input message)
reject_found message (err (io not_found)) = ok tt
reject_found message (err e) = err e

module _ (os : Os) where
  unfoldable pub reject_existing : FilePath → String → Exec World (Unit {0})
  reject_existing path message w =
      let (r, w') = symlink_metadata os path w in (reject_found message r, w')

  unfoldable pub ensure_regular_file : FilePath → Exec World (Unit {0})
  ensure_regular_file path = do
    metadata ← symlink_metadata os path
    lift (refuse_if (not (is_regular metadata)) (invalid_input "path is not a regular file"))

  unfoldable pub ensure_real_directory : FilePath → Exec World (Unit {0})
  ensure_real_directory path = do
    metadata ← symlink_metadata os path
    lift (refuse_if (not (is_dir metadata)) (invalid_input "path is not a real directory"))

  unfoldable pub set_private_permissions : FilePath → Exec World (Unit {0})
  set_private_permissions path = do
    metadata ← symlink_metadata os path
    set_permissions os path (if is_dir metadata then 0o700 else 0o600)

  unfoldable pub create_private_directory : FilePath → Exec World (Unit {0})
  create_private_directory path = do
    there ← exists os path
    if there
        then (do ensure_real_directory path; set_private_permissions path)
        else (do create_dir os path; set_private_permissions path)

  unfoldable pub write_new_private : FilePath → Bytes → Exec World (Unit {0})
  write_new_private path bytes = do
    ensure_real_directory (parent_or_dot path)
    handle ← create_new os path 0o600
    write_all os handle bytes
    sync_all os handle
    set_private_permissions path

  unfoldable pub read_regular_limited : FilePath → ℕ → Exec World Bytes
  read_regular_limited path maximum = do
    ensure_regular_file path
    handle ← open_file os path
    declared ← file_len os handle
    lift (refuse_if (ltb maximum declared) (invalid_input "file is too large"))
    bytes ← read_limited os handle (suc maximum)
    lift (refuse_if (ltb maximum (length bytes)) (invalid_input "file is too large"))
    pure bytes

  unfoldable pub read_blob : FilePath → Exec World Bytes
  read_blob path = read_regular_limited path max_blob_len

  unfoldable pub consume_blob : FilePath → Exec World (Unit {0})
  consume_blob path = do ensure_regular_file path; remove_file os path
