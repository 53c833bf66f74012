-- ===== src/System/Files.antt =====
-- `std::fs` on a Unix system: a tree of named entries, and the system calls that the program makes.
-- Any call may fail, and other processes may change the tree before any call.
use article.Base.{
  ℕ, zero, suc, Bool, true, false, Option, none, some, List, [], ◌∷◌, ◌++◌, if◌then◌else◌, take,
  drop, length,
}
use article.Base.Bytes.{Bytes}
use article.Error.{IoError, Result, ok, err, io, not_found, already_exists, other}
use article.Exec.{Exec}
use article.System.Paths.{FilePath, Component, path_eq, parent}

-- A file has its contents and its mode.
pub data Node : Type 0 where
  file : Bytes → ℕ → Node
  dir : ℕ → Node
  symlink : FilePath → Node

abbrev pub Entries : Type 0
Entries = List (FilePath × Node)

unfoldable pub lookup : FilePath → Entries → Option Node
lookup path [] = none
lookup path ((q, node) ∷ es) = if path_eq q path then some node else lookup path es

unfoldable pub put : FilePath → Node → Entries → Entries
put path node [] = (path, node) ∷ []
put path node ((q, n) ∷ es) =
    if path_eq q path then (path, node) ∷ es else (q, n) ∷ put path node es

unfoldable pub erase : FilePath → Entries → Entries
erase path [] = []
erase path ((q, n) ∷ es) =
    let rest = erase path es in if path_eq q path then rest else (q, n) ∷ rest

-- What the calls of one run meet: by its number, whether a call fails, and what others did to the
-- tree before it.
pub record Os : Type 0 where
  pub fault : ℕ → Option IoError
  pub interfere : ℕ → Entries → Entries

-- The tree, the number of calls made, and the number of requests for randomness.
pub record World : Type 0 where
  pub entries : Entries
  pub calls : ℕ
  pub draws : ℕ

-- A path that symbolic links lead to; a chain of more than 40 is an error, as on Linux.
unfoldable pub follow : ℕ → FilePath → Entries → Option FilePath
follow zero path es = none
follow (suc fuel) path es = elim (lookup path es) [
  | none ↦ none
  | some (symlink target) ↦ follow fuel target es
  | some (file bytes mode) ↦ some path
  | some (dir mode) ↦ some path
]

unfoldable pub resolve : FilePath → Entries → Option FilePath
unfolding follow
resolve = follow 41

abbrev pub and_lookup : Option FilePath → Entries → Option (FilePath × Node)
and_lookup none es = none
and_lookup (some path) es = elim (lookup path es) [ none ↦ none | some node ↦ some (path, node) ]

is_directory : Option Node → Bool
is_directory (some (dir mode)) = true
is_directory _ = false

-- Whether a new entry can be made: its parent is a directory.
unfoldable pub has_parent : FilePath → Entries → Bool
unfolding is_directory
has_parent path es = elim (parent path) [
  | none ↦ false
  | some [] ↦ is_directory (lookup (Component.cur_dir ∷ []) es)
  | some (c ∷ p) ↦ is_directory (lookup (c ∷ p) es)
]

unfoldable pub with_mode : Node → ℕ → Node
with_mode (file bytes old) mode = file bytes mode
with_mode (dir old) mode = dir mode
with_mode (symlink target) mode = symlink target

abbrev found : Result Bool → Bool
found (ok b) = b
found (err e) = false

-- A new entry: refused if there is one, or no directory to hold it.
abbrev pub made : {A : Type 0} → FilePath → Node → A → Entries → Result A × Entries
made path node a es = elim (lookup path es) [
  | some old ↦ (err (io already_exists), es)
  | none ↦ if has_parent path es then (ok a, put path node es) else (err (io not_found), es)
]

-- A write to a handle. A file that was removed takes it without effect on the tree.
abbrev pub written : FilePath → Bytes → Option Node → Entries → Result (Unit {0}) × Entries
written handle bytes (some (file old mode)) es = (ok tt, put handle (file bytes mode) es)
written handle bytes (some (dir mode)) es = (err (io other), es)
written handle bytes (some (symlink target)) es = (err (io other), es)
written handle bytes none es = (ok tt, es)

-- A call that fails does nothing.
abbrev pub outcome :
    {A : Type 0} → Option IoError → (Entries → Result A × Entries) → Entries → Result A × Entries
outcome (some e) f es = (err (io e), es)
outcome none f es = f es

abbrev is_child : FilePath → Option FilePath → Bool
is_child path none = false
is_child path (some p) = path_eq p path

-- The entries of the directory that a path leads to, under that path.
children : FilePath → FilePath → Entries → List FilePath
children path target [] = []
children path target ((q, node) ∷ es) =
    let rest = children path target es in
    if is_child target (parent q) then (path ++ drop (length target) q) ∷ rest else rest

listing : FilePath → Option (FilePath × Node) → Entries → Result (List FilePath)
listing path none es = err (io not_found)
listing path (some (target, dir mode)) es = ok (children path target es)
listing path (some (target, file bytes mode)) es = err (io other)
listing path (some (target, symlink next)) es = err (io other)

module _ (os : Os) where
  unfoldable pub sys : {A : Type 0} → (Entries → Result A × Entries) → Exec World A
  sys f w =
      let (r, es) = outcome (os.fault w.calls) f (os.interfere w.calls w.entries) in
      (r, record w { entries = es; calls = suc w.calls })

  -- `fs::symlink_metadata`
  unfoldable pub symlink_metadata : FilePath → Exec World Node
  symlink_metadata path =
      sys
        λ es. elim (lookup path es) [ none ↦ (err (io not_found), es) | some node ↦ (ok node, es) ]

  -- `path.exists()`: links are followed, and a failing call counts as no.
  unfoldable pub exists : FilePath → Exec World Bool
  exists path w =
      let (r, w') =
        sys (λ es. elim (resolve path es) [ none ↦ (ok false, es) | some q ↦ (ok true, es) ]) w in
      (ok (found r), w')

  -- `File::open`: the file that links lead to.
  unfoldable pub open_file : FilePath → Exec World FilePath
  open_file path =
      sys λ es. elim (resolve path es) [ none ↦ (err (io not_found), es) | some q ↦ (ok q, es) ]

  -- `file.metadata()?.len()`
  unfoldable pub file_len : FilePath → Exec World ℕ
  file_len handle = sys λ es. elim (lookup handle es) [
    | some (file bytes mode) ↦ (ok (length bytes), es)
    | some (dir mode) ↦ (ok 4096, es)
    | some (symlink target) ↦ (err (io other), es)
    | none ↦ (err (io other), es)
  ]

  -- `file.take(limit).read_to_end`
  unfoldable pub read_limited : FilePath → ℕ → Exec World Bytes
  read_limited handle limit = sys λ es. elim (lookup handle es) [
    | some (file bytes mode) ↦ (ok (take limit bytes), es)
    | some (dir mode) ↦ (err (io other), es)
    | some (symlink target) ↦ (err (io other), es)
    | none ↦ (err (io other), es)
  ]

  -- `open` with `write`, `create_new` and a mode.
  unfoldable pub create_new : FilePath → ℕ → Exec World FilePath
  create_new path mode = sys (made path (file [] mode) path)

  -- `file.write_all` on a file just created
  unfoldable pub write_all : FilePath → Bytes → Exec World (Unit {0})
  write_all handle bytes = sys λ es. written handle bytes (lookup handle es) es

  -- `file.sync_all`
  unfoldable pub sync_all : FilePath → Exec World (Unit {0})
  sync_all handle = sys λ es. (ok tt, es)

  -- `fs::set_permissions`, which follows links
  unfoldable pub set_permissions : FilePath → ℕ → Exec World (Unit {0})
  unfolding with_mode
  set_permissions path mode = sys λ es. elim (and_lookup (resolve path es) es) [
    | none ↦ (err (io not_found), es)
    | some (q, node) ↦ (ok tt, put q (with_mode node mode) es)
  ]

  -- `fs::create_dir`
  unfoldable pub create_dir : FilePath → Exec World (Unit {0})
  create_dir path = sys (made path (dir 0o755) tt)

  -- `path.is_dir()`: links are followed, and a failing call counts as no.
  unfoldable pub is_dir_path : FilePath → Exec World Bool
  unfolding is_directory
  is_dir_path path w =
      let (r, w') =
        sys
          (λ es. elim (resolve path es) [
            | none ↦ (ok false, es)
            | some q ↦ (ok (is_directory (lookup q es)), es)
          ])
          w in
      (ok (found r), w')

  -- `fs::remove_file`
  unfoldable pub remove_file : FilePath → Exec World (Unit {0})
  remove_file path = sys λ es. elim (lookup path es) [
    | some (file bytes mode) ↦ (ok tt, erase path es)
    | some (symlink target) ↦ (ok tt, erase path es)
    | some (dir mode) ↦ (err (io other), es)
    | none ↦ (err (io not_found), es)
  ]

  -- `fs::read_dir` and the loop over its entries, in the order of the tree: links are followed, and
  -- an entry that cannot be read fails the call.
  unfoldable pub read_dir : FilePath → Exec World (List FilePath)
  unfolding children listing
  read_dir path = sys λ es. (listing path (and_lookup (resolve path es) es) es, es)
