-- ===== src/System/Kept.antt =====
-- Which file contents system calls leave alone.
use mathlib.Core.Option.{some-injective}
use article.Base.{
  ℕ, ◌≡◌, refl, sym, ap, subst, Bool, true, false, Option, none, some, [], ◌∷◌, arith,
  if◌then◌else◌, Bool-cases, Option-cases, inl, inr,
}
use article.Base.Bytes.{Bytes}
use article.Error.{Error, Result, ok, err, IoError}
use article.Exec.{Exec, pure, raise, lift, ◌>>=◌, continue}
use article.System.Paths.{FilePath, path_eq, path_eq_iff}
use article.System.Files.{
  Os, World, Entries, Node, file, dir, symlink, lookup, put, made, outcome, sys, symlink_metadata,
  exists, open_file, file_len, read_limited, create_new, sync_all, set_permissions, create_dir,
  read_dir, resolve, with_mode, and_lookup, has_parent,
}

pub lookup-put :
    (path q : FilePath) (node : Node) (es : Entries)
    → lookup q (put path node es) ≡ (if path_eq path q then some node else lookup q es)
unfolding lookup put
lookup-put path q node [] = refl
lookup-put path q node ((r, n) ∷ es) =
    ground
      (arith, lookup-put path q node es, path_eq_iff r path, path_eq_iff path q, path_eq_iff r q)

abbrev pub bytes_of : Option Node → Option Bytes
bytes_of (some (file bytes mode)) = some bytes
bytes_of (some (dir mode)) = none
bytes_of (some (symlink target)) = none
bytes_of none = none

-- The bytes of the regular file at a path.
abbrev pub content : FilePath → Entries → Option Bytes
content path es = bytes_of (lookup path es)

-- Every file of the first tree, but perhaps the one at `path`, is in the second with its bytes.
pub record KeptBut (path : FilePath) (before after : Entries) : Type 0 where
  pub stays :
      (q : FilePath) (bytes : Bytes)
      → path_eq path q ≡ false
      → content q before ≡ some bytes
      → content q after ≡ some bytes

-- Every file of the first tree is in the second with its bytes.
pub record Kept (before after : Entries) : Type 0 where
  pub stays :
      (q : FilePath) (bytes : Bytes) → content q before ≡ some bytes → content q after ≡ some bytes

pub Kept-refl : (es : Entries) → Kept es es
Kept-refl es = record { stays = λ q bytes h. h }

pub Kept-trans : {a b c : Entries} → Kept a b → Kept b c → Kept a c
Kept-trans h k = record { stays = λ q bytes e. k.stays q bytes (h.stays q bytes e) }

pub put-Kept :
    (path : FilePath) (node : Node) (es : Entries)
    → lookup path es ≡ none
    → Kept es (put path node es)
put-Kept path node es fresh = record {
  stays = λ q bytes e. rw (lookup-put path q node es) (elim (Bool-cases (path_eq path q)) [
    | inl h ↦ absurd (
        cc (
          ap bytes_of fresh,
          subst (λ r. content r es ≡ some bytes) (sym ((path_eq_iff path q).0 h)) e,
        ))
    | inr h ↦ rw h e
  ]);
}

pub put-KeptBut :
    (path : FilePath) (node : Node) (es : Entries) → KeptBut path es (put path node es)
put-KeptBut path node es = record { stays = λ q bytes h e. rw (lookup-put path q node es) (rw h e) }

-- Changing a mode keeps the bytes.
pub with_mode-Kept :
    (path : FilePath) (node : Node) (mode : ℕ) (es : Entries)
    → lookup path es ≡ some node
    → Kept es (put path (with_mode node mode) es)
unfolding with_mode
with_mode-Kept path node mode es found = record {
  stays = λ q bytes e.
      rw (lookup-put path q (with_mode node mode) es) (elim (Bool-cases (path_eq path q)) [
        | inl h ↦ rw h (same node (cc (found, ap (λ r. lookup r es) ((path_eq_iff path q).0 h), e)))
        | inr h ↦ rw h e
      ]);
}
  where
    same :
        (n : Node) {bytes : Bytes}
        → bytes_of (some n) ≡ some bytes
        → bytes_of (some (with_mode n mode)) ≡ some bytes
    same (file b m) e = e
    same (dir m) e = cc
    same (symlink t) e = cc

-- No other process touches the tree during the run. Calls may still fail.
abbrev pub IsAlone : Os → Type 0
IsAlone os = (n : ℕ) (es : Entries) → os.interfere n es ≡ es

-- A step that keeps all files, also when it fails.
pub record Keeps {A : Type 0} (m : Exec World A) : Type 0 where
  pub at : (w : World) → Kept w.entries (m w).1.entries

Kept-of_eq : (a b : Entries) → b ≡ a → Kept a b
Kept-of_eq a b e = subst (Kept a) (sym e) (Kept-refl a)

and_lookup_sound :
    (o : Option FilePath) (es : Entries) {found : FilePath × Node}
    → and_lookup o es ≡ some found
    → lookup found.0 es ≡ some found.1
and_lookup_sound none es h = cc
and_lookup_sound (some path) es h = elim (Option-cases (lookup path es)) [
  | inl k ↦ absurd (cc (rw (k, and_lookup) at h))
  | inr (n, k) ↦
      subst (λ f. lookup f.0 es ≡ some f.1) (some-injective _ _ (rw (k, and_lookup) at h)) k
]

outcome-Kept :
    {A : Type 0} (o : Option IoError) (f : Entries → Result A × Entries)
    → ((es : Entries) → Kept es (f es).1)
    → (es : Entries) → Kept es (outcome o f es).1
outcome-Kept (some e) f h es = Kept-refl es
outcome-Kept none f h es = h es

module _ (os : Os) (alone : IsAlone os) where
  sys-Keeps :
      {A : Type 0} (f : Entries → Result A × Entries)
      → ((es : Entries) → Kept es (f es).1)
      → Keeps (sys os f)
  unfolding sys
  sys-Keeps f h = record { at = λ w. rw alone (outcome-Kept (os.fault w.calls) f h w.entries) }

  pub symlink_metadata-Keeps : (path : FilePath) → Keeps (symlink_metadata os path)
  unfolding symlink_metadata
  symlink_metadata-Keeps path = sys-Keeps _ λ es. Kept-of_eq _ _ (ground arith)

  pub exists-Keeps : (path : FilePath) → Keeps (exists os path)
  unfolding exists
  exists-Keeps path = record { at = λ w. (sys-Keeps _ (λ es. Kept-of_eq _ _ (ground arith))).at w }

  pub open_file-Keeps : (path : FilePath) → Keeps (open_file os path)
  unfolding open_file
  open_file-Keeps path = sys-Keeps _ λ es. Kept-of_eq _ _ (ground arith)

  pub file_len-Keeps : (path : FilePath) → Keeps (file_len os path)
  unfolding file_len
  file_len-Keeps path = sys-Keeps _ λ es. Kept-of_eq _ _ (ground arith)

  pub read_limited-Keeps : (path : FilePath) (limit : ℕ) → Keeps (read_limited os path limit)
  unfolding read_limited
  read_limited-Keeps path limit = sys-Keeps _ λ es. Kept-of_eq _ _ (ground arith)

  pub sync_all-Keeps : (path : FilePath) → Keeps (sync_all os path)
  unfolding sync_all
  sync_all-Keeps path = sys-Keeps _ λ es. Kept-refl es

  pub read_dir-Keeps : (path : FilePath) → Keeps (read_dir os path)
  unfolding read_dir
  read_dir-Keeps path = sys-Keeps _ λ es. Kept-refl es

  pub set_permissions-Keeps : (path : FilePath) (mode : ℕ) → Keeps (set_permissions os path mode)
  unfolding set_permissions
  set_permissions-Keeps path mode = sys-Keeps _ λ es.
      elim (Option-cases (and_lookup (resolve path es) es)) [
        | inl h ↦ rw h (Kept-refl es)
        | inr (found, h) ↦
            rw h (with_mode-Kept found.0 found.1 mode es (and_lookup_sound (resolve path es) es h))
      ]

  create_lem :
      (path : FilePath) (node : Node) (es : Entries) {A : Type 0} (a : A)
      → Kept es (made path node a es).1
  create_lem path node es a = elim (Option-cases (lookup path es)) [
    | inr (n, h) ↦ rw (h, made) (Kept-refl es)
    | inl h ↦ elim (Bool-cases (has_parent path es)) [
      | inl t ↦ rw (h, made) (rw t (put-Kept path node es h))
      | inr t ↦ rw (h, made) (rw t (Kept-refl es))
    ]
  ]

  pub create_new-Keeps : (path : FilePath) (mode : ℕ) → Keeps (create_new os path mode)
  unfolding create_new
  create_new-Keeps path mode = sys-Keeps _ λ es. create_lem path (file [] mode) es path

  pub create_dir-Keeps : (path : FilePath) → Keeps (create_dir os path)
  unfolding create_dir
  create_dir-Keeps path = sys-Keeps _ λ es. create_lem path (dir 0o755) es tt

module _ {A : Type 0} where
  pub pure-Keeps : (a : A) → Keeps (pure a)
  pure-Keeps a = record { at = λ w. Kept-refl w.entries }

  pub raise-Keeps : (e : Error) → Keeps (raise {A = A} e)
  raise-Keeps e = record { at = λ w. Kept-refl w.entries }

  pub lift-Keeps : (r : Result A) → Keeps (lift r)
  lift-Keeps r = record { at = λ w. Kept-refl w.entries }

  pub if-Keeps : (b : Bool) (m n : Exec World A) → Keeps m → Keeps n → Keeps (if b then m else n)
  if-Keeps true m n h k = h
  if-Keeps false m n h k = k

module _ {A B : Type 0} where
  -- A chain keeps the files if each step does from where it starts.
  pub bind-Kept :
      (m : Exec World A) (f : A → Exec World B) (before : Entries) (w : World)
      → Kept before (m w).1.entries
      → ((a : A) (w' : World) → m w ≡ (ok a, w') → Kept before (f a w').1.entries)
      → Kept before ((m >>= f) w).1.entries
  unfolding ◌>>=◌
  bind-Kept m f before w h k = go (m w) refl
    where
      go : (r : Result A × World) → m w ≡ r → Kept before (continue r.0 f r.1).1.entries
      go (ok a, w') e = k a w' e
      go (err x, w') e = subst (λ r. Kept before r.1.entries) e h

  pub bind-Keeps :
      (m : Exec World A) (f : A → Exec World B)
      → Keeps m
      → ((a : A) → Keeps (f a))
      → Keeps (m >>= f)
  bind-Keeps m f h k = record {
    at = λ w.
        bind-Kept m f w.entries w (h.at w)
          λ a w' e. Kept-trans (subst (λ r. Kept w.entries r.1.entries) e (h.at w)) ((k a).at w');
  }
