-- ===== src/Tests/State.antt =====
-- The state directory of src/storage.rs on a small tree.
use article.Base.{◌≤◌, ◌≡◌, refl, none, some, [], ◌∷◌}
use article.Base.Bytes.{bytes_eq}
use article.Error
use article.Error.{Result, ok}
use article.Exec
use article.System.Paths.{FilePath, Component, parent, path_eq}
use article.System.Files
use article.System.Files.{Os, World, Node, file, dir, lookup}
use article.System.Kept.{content}
use article.Storage.Access.{
  ensure_real_directory, set_private_permissions, write_new_private, ensure_regular_file,
  read_regular_limited,
}
use article.Storage.Limits.{length-read_regular_limited}
use article.Storage.Taken.{content-read_regular_limited}
use article.Storage.Written.{content-write_new_private}
use article.Tests.{greeting}

-- No call fails, and no other process runs.
abbrev calm : Os
calm = record { fault = λ n. none; interfere = λ n es. es }

abbrev root : FilePath
root = Component.root_dir ∷ []

abbrev note : FilePath
note = Component.root_dir ∷ (Component.normal (b'n' ∷ []) ∷ [])

abbrev world : World
world = record {
  entries = (root, dir 0o700) ∷ ((note, file greeting 0o600) ∷ []);
  calls = 0;
  draws = 0;
}

note_lem : (read_regular_limited calm note 8 world).0 ≡ ok greeting
unfolding read_regular_limited ensure_regular_file Files.symlink_metadata Files.open_file
    Files.file_len Files.read_limited Files.sys Files.resolve lookup path_eq bytes_eq Exec.◌>>=◌
    Error.◌>>=◌
note_lem = refl

length-read_regular_limited_example : 2 ≤ 8
length-read_regular_limited_example =
    length-read_regular_limited calm note 8 world greeting note_lem

after : World
unfolding read_regular_limited ensure_regular_file Files.symlink_metadata Files.open_file
    Files.file_len Files.read_limited Files.sys Files.resolve lookup path_eq bytes_eq Exec.◌>>=◌
    Error.◌>>=◌
after = (read_regular_limited calm note 8 world).1

read_lem : read_regular_limited calm note 8 world ≡ (ok greeting, after)
unfolding after
read_lem = refl

content-read_regular_limited_example : content note after.entries ≡ some greeting
content-read_regular_limited_example =
    content-read_regular_limited calm (λ n es. refl) note 8 greeting world after read_lem

abbrev fresh : FilePath
fresh = Component.root_dir ∷ (Component.normal (b'f' ∷ []) ∷ [])

grown : World
unfolding write_new_private set_private_permissions ensure_real_directory Files.create_new
    Files.has_parent Files.put Files.write_all Files.sync_all Files.set_permissions parent
    Files.symlink_metadata Files.sys Files.resolve lookup path_eq bytes_eq Exec.◌>>=◌
grown = (write_new_private calm fresh greeting world).1

write_lem : write_new_private calm fresh greeting world ≡ (ok tt, grown)
unfolding grown
write_lem = refl

content-write_new_private_example : content fresh grown.entries ≡ some greeting
content-write_new_private_example =
    content-write_new_private calm (λ n es. refl) fresh greeting world grown write_lem
