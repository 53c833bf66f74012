-- ===== src/System/Unchanged.antt =====
-- System calls that look at the tree, with no other process at work.
use article.Base.{ℕ, ◌≡◌, refl, ◌∙◌, Option, none, some, arith}
use article.Error.{IoError, Result}
use article.Exec.Always.{Frame, Always}
use article.System.Paths.{FilePath}
use article.System.Files.{
  Os, World, Entries, outcome, sys, symlink_metadata, exists, open_file, file_len, read_limited,
  read_dir, is_dir_path,
}
use article.System.Kept.{IsAlone}

-- The same tree before and after.
abbrev pub unchanged : Frame World
unchanged = record {
  rel = λ v w. w.entries ≡ v.entries;
  rel_refl = λ w. refl;
  rel_trans = λ h k. k ∙ h;
}

outcome-unchanged :
    {A : Type 0} (o : Option IoError) (f : Entries → Result A × Entries)
    → ((es : Entries) → (f es).1 ≡ es)
    → (es : Entries) → (outcome o f es).1 ≡ es
outcome-unchanged (some e) f h es = refl
outcome-unchanged none f h es = h es

module _ (os : Os) (alone : IsAlone os) where
  sys-unchanged :
      {A : Type 0} (f : Entries → Result A × Entries)
      → ((es : Entries) → (f es).1 ≡ es)
      → Always unchanged (sys os f)
  unfolding sys
  sys-unchanged f h = record {
    at = λ w. rw alone (outcome-unchanged (os.fault w.calls) f h w.entries);
  }

  pub symlink_metadata-unchanged : (path : FilePath) → Always unchanged (symlink_metadata os path)
  unfolding symlink_metadata
  symlink_metadata-unchanged path = sys-unchanged _ λ es. ground arith

  pub exists-unchanged : (path : FilePath) → Always unchanged (exists os path)
  unfolding exists
  exists-unchanged path = record { at = λ w. (sys-unchanged _ (λ es. ground arith)).at w }

  pub open_file-unchanged : (path : FilePath) → Always unchanged (open_file os path)
  unfolding open_file
  open_file-unchanged path = sys-unchanged _ λ es. ground arith

  pub file_len-unchanged : (path : FilePath) → Always unchanged (file_len os path)
  unfolding file_len
  file_len-unchanged path = sys-unchanged _ λ es. ground arith

  pub read_limited-unchanged :
      (path : FilePath) (limit : ℕ) → Always unchanged (read_limited os path limit)
  unfolding read_limited
  read_limited-unchanged path limit = sys-unchanged _ λ es. ground arith

  pub read_dir-unchanged : (path : FilePath) → Always unchanged (read_dir os path)
  unfolding read_dir
  read_dir-unchanged path = sys-unchanged _ λ es. refl

  pub is_dir_path-unchanged : (path : FilePath) → Always unchanged (is_dir_path os path)
  unfolding is_dir_path
  is_dir_path-unchanged path = record { at = λ w. (sys-unchanged _ (λ es. ground arith)).at w }
