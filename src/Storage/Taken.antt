-- ===== src/Storage/Taken.antt =====
-- With no other process at work: what the guarded read of src/storage.rs takes from the tree.
use article.Base.{
  ℕ, zero, suc, not, ◌<◌, ◌≤◌, ◌≡◌, refl, sym, ap, ◌∙◌, subst, Option, none, some, List, [], ◌∷◌,
  arith, ltb, ltb→ge, length, take, Bool-cases, Option-cases, inl, inr,
}
use article.Base.Bytes.{Bytes}
use article.Error.{Result, ok, err, ok_injective, refuse_if, io, not_found, invalid_input}
use article.Exec.{lift, exec_done}
use article.System.Paths.{FilePath}
use article.System.Files.{
  Os, World, Entries, Node, file, dir, symlink, lookup, resolve, follow, symlink_metadata,
  open_file, file_len, read_limited,
}
use article.System.Kept.{
  IsAlone, content, bytes_of, open_file-Keeps, file_len-Keeps, read_limited-Keeps,
}
use article.Storage.Access.{is_regular, ensure_regular_file, read_regular_limited}
use article.Storage.Keeps.{ensure_regular_file-Keeps}
use article.Storage.Written.{sys_ok, keep}

pub take_enough : {A : Type 0} (n : ℕ) (xs : List A) → length (take n xs) < n → take n xs ≡ xs
take_enough zero xs h = absurd (omega arith)
take_enough (suc n) [] h = refl
take_enough (suc n) (x ∷ xs) h = ap (λ t. x ∷ t) (take_enough n xs (omega arith))

pub file_of :
    (path : FilePath) (es : Entries) (bytes : Bytes)
    → content path es ≡ some bytes
    → (mode : ℕ) × (lookup path es ≡ some (file bytes mode))
file_of path es bytes h = elim (Option-cases (lookup path es)) [
  | inl e ↦ absurd (cc (rw e at h))
  | inr (file b mode, e) ↦ (mode, cc (e, rw e at h))
  | inr (dir mode, e) ↦ absurd (cc (rw e at h))
  | inr (symlink target, e) ↦ absurd (cc (rw e at h))
]

module _ (os : Os) (alone : IsAlone os) where
  regular_ok :
      (path : FilePath) (w w' : World)
      → ensure_regular_file os path w ≡ (ok tt, w')
      → (bytes : Bytes) × (content path w.entries ≡ some bytes)
  unfolding ensure_regular_file symlink_metadata
  regular_ok path w w' e =
      exec_done (symlink_metadata os path) _ w e
        λ node w1 seen e1. go (lookup path w.entries) node w1 (sys_ok os alone _ w w1 node seen) e1
    where
      go :
          (o : Option Node) (node : Node) (w1 : World)
          → ◌≡◌ {A = Result Node × Entries}
              (elim o [ none ↦ (err (io not_found), w.entries) | some n ↦ (ok n, w.entries) ])
              (ok node, w1.entries)
          → lift (refuse_if (not (is_regular node)) (invalid_input "path is not a regular file")) w1
            ≡ (ok tt, w')
          → (bytes : Bytes) × (bytes_of o ≡ some bytes)
      go none node w1 h k = absurd (cc)
      go (some (file bytes mode)) node w1 h k = (bytes, refl)
      go (some (dir mode)) node w1 h k =
          let e : dir mode ≡ node = ok_injective _ _ (ap (λ q. q.0) h) in
          absurd (
            cc (
              subst
                (λ n.
                  lift (refuse_if (not (is_regular n)) (invalid_input "path is not a regular file"))
                    w1
                  ≡ (ok tt, w'))
                (sym e) k))
      go (some (symlink t)) node w1 h k =
          let e : symlink t ≡ node = ok_injective _ _ (ap (λ q. q.0) h) in
          absurd (
            cc (
              subst
                (λ n.
                  lift (refuse_if (not (is_regular n)) (invalid_input "path is not a regular file"))
                    w1
                  ≡ (ok tt, w'))
                (sym e) k))

pub resolve_file :
    (path : FilePath) (bytes : Bytes) (mode : ℕ) (es : Entries)
    → lookup path es ≡ some (file bytes mode)
    → resolve path es ≡ some path
unfolding resolve follow
resolve_file path bytes mode es h = rw (h, follow) refl

module _ (os : Os) (alone : IsAlone os) where
  opened_ok :
      (path handle : FilePath) (bytes : Bytes) (w w' : World)
      → content path w.entries ≡ some bytes
      → open_file os path w ≡ (ok handle, w')
      → path ≡ handle
  unfolding open_file
  opened_ok path handle bytes w w' h e =
      let (mode, found) = file_of path w.entries bytes h in
      ok_injective _ _ (
        ap (λ q. q.0)
          (rw (resolve_file path bytes mode w.entries found) at (sys_ok os alone _ w w' handle e)))

  read_ok :
      (path : FilePath) (limit : ℕ) (bytes found : Bytes) (w w' : World)
      → content path w.entries ≡ some bytes
      → read_limited os path limit w ≡ (ok found, w')
      → take limit bytes ≡ found
  unfolding read_limited
  read_ok path limit bytes found w w' h e =
      let (mode, k) = file_of path w.entries bytes h in
      ok_injective _ _ (ap (λ q. q.0) (rw k at (sys_ok os alone _ w w' found e)))

  -- With no other process at work on the tree: a guarded read that succeeds returned the whole
  -- contents of the regular file at the path, and left them there.
  pub content-read_regular_limited :
      (path : FilePath) (maximum : ℕ) (bytes : Bytes) (w w' : World)
      → read_regular_limited os path maximum w ≡ (ok bytes, w')
      → content path w'.entries ≡ some bytes
  unfolding read_regular_limited
  content-read_regular_limited path maximum bytes w w' e =
      exec_done (ensure_regular_file os path) _ w e λ _ w1 regular e1.
        exec_done (open_file os path) _ w1 e1 λ handle w2 opened e2.
          exec_done (file_len os handle) _ w2 e2 λ declared w3 measured e3.
            exec_done (lift _) _ w3 e3 λ _ w4 fits e4.
              exec_done (read_limited os handle (suc maximum)) _ w4 e4 λ found w5 read e5.
                exec_done (lift _) _ w5 e5 λ _ w6 small done.
                  let (b, there) = regular_ok os alone path w w1 regular in
                  let h1 =
                    keep os alone _ path b w w1 (ensure_regular_file-Keeps os alone path) regular
                      there in
                  let same = opened_ok path handle b w1 w2 h1 opened in
                  let h2 = keep os alone _ path b w1 w2 (open_file-Keeps os alone path) opened h1 in
                  let h3 =
                    keep os alone _ path b w2 w3 (file_len-Keeps os alone handle) measured h2 in
                  let h4 : content path w4.entries ≡ some b =
                    subst (λ (v : World). content path v.entries ≡ some b) (ap (λ q. q.1) fits)
                      h3 in
                  let taken = read_ok path (suc maximum) b found w4 w5 h4 (
                    subst (λ q. read_limited os q (suc maximum) w4 ≡ (ok found, w5)) (sym same)
                      read) in
                  let h5 =
                    keep os alone _ path b w4 w5 (read_limited-Keeps os alone handle (suc maximum))
                      read h4 in
                  let short : length found ≤ maximum =
                    fits_lem maximum (length found) (ap (λ q. q.0) small) in
                  let whole : b ≡ bytes =
                    sym (take_enough (suc maximum) b (rw taken (omega (arith, short))))
                    ∙ taken
                    ∙ ok_injective _ _ (ap (λ q. q.0) done) in
                  subst (λ (x : Bytes). content path w'.entries ≡ some x) whole
                    (subst (λ (v : World). content path v.entries ≡ some b)
                      (ap (λ q. q.1) small ∙ ap (λ q. q.1) done) h5)
    where
      fits_lem : (m n : ℕ) → refuse_if (ltb m n) (invalid_input "file is too large") ≡ ok tt → n ≤ m
      fits_lem m n h = elim (Bool-cases (ltb m n)) [
        | inl t ↦ absurd (cc (rw t at h))
        | inr t ↦ ltb→ge m n t
      ]
