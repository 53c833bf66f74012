-- ===== src/Storage/Written.antt =====
-- With no other process at work: what the guarded reads and writes of src/storage.rs leave in, and
-- take from, the tree when they succeed. Any call may still fail.
use article.Base.{
  ℕ, suc, ◌≡◌, refl, ap, subst, Option, none, some, [], Bool-cases, Option-cases, inl, inr,
}
use article.Base.Bytes.{Bytes}
use article.Error.{IoError, Result, ok}
use article.Exec.{Exec, exec_done}
use article.System.Paths.{FilePath, path_eq_refl}
use article.System.Files.{
  Os, World, Entries, Node, file, dir, symlink, lookup, put, sys, outcome, made, written,
  has_parent, create_new, write_all, sync_all,
}
use article.System.Kept.{Keeps, IsAlone, content, bytes_of, lookup-put, sync_all-Keeps}
use article.Storage.Access.{parent_or_dot, ensure_real_directory, write_new_private}
use article.Storage.Keeps.{set_private_permissions-Keeps, create_new_fresh}

content-put :
    (path : FilePath) (bytes : Bytes) (mode : ℕ) (es : Entries)
    → content path (put path (file bytes mode) es) ≡ some bytes
content-put path bytes mode es =
    rw (lookup-put path path (file bytes mode) es, path_eq_refl path) refl

made_ok :
    (path : FilePath) (mode : ℕ) (es es' : Entries) {handle : FilePath}
    → made path (file [] mode) path es ≡ (ok handle, es')
    → content path es' ≡ some []
made_ok path mode es es' e = elim (Option-cases (lookup path es)) [
  | inr (n, h) ↦ absurd (cc (rw (h, made) at e))
  | inl h ↦ elim (Bool-cases (has_parent path es)) [
    | inr t ↦ absurd (cc (rw t at (rw (h, made) at e)))
    | inl t ↦
        subst (λ s. content path s ≡ some []) (ap (λ r. r.1) (rw t at (rw (h, made) at e)))
          (content-put path [] mode es)
  ]
]

written_ok :
    (path : FilePath) (bytes : Bytes) (o : Option Node) (es es' : Entries) {old : Bytes}
    → bytes_of o ≡ some old
    → written path bytes o es ≡ (ok tt, es')
    → content path es' ≡ some bytes
written_ok path bytes (some (file b mode)) es es' h e =
    subst (λ s. content path s ≡ some bytes) (ap (λ r. r.1) e) (content-put path bytes mode es)
written_ok path bytes (some (dir mode)) es es' h e = absurd (cc)
written_ok path bytes (some (symlink target)) es es' h e = absurd (cc)
written_ok path bytes none es es' h e = absurd (cc)

module _ (os : Os) (alone : IsAlone os) where
  pub sys_ok :
      {A : Type 0} (f : Entries → Result A × Entries) (w w' : World) (a : A)
      → sys os f w ≡ (ok a, w')
      → f w.entries ≡ (ok a, w'.entries)
  unfolding sys
  sys_ok {A} f w w' a e = go (os.fault w.calls) (rw alone at e)
    where
      go :
          (o : Option IoError)
          → (let (r, es) = outcome o f w.entries in
              ◌≡◌ {A = Result A × World}
                (r, record w { entries = es; calls = suc w.calls })
                (ok a, w'))
          → f w.entries ≡ (ok a, w'.entries)
      go (some x) h = absurd (cc)
      go none h = ap (λ q. (q.0, q.1.entries)) h

  -- A step that keeps files keeps the contents of a path.
  pub keep :
      {A : Type 0} (m : Exec World A) (path : FilePath) (bytes : Bytes) (w w' : World)
      {r : Result A}
      → Keeps m
      → m w ≡ (r, w')
      → content path w.entries ≡ some bytes
      → content path w'.entries ≡ some bytes
  keep m path bytes w w' k e h =
      subst (λ q. content path q.1.entries ≡ some bytes) e ((k.at w).stays path bytes h)

  -- With no other process at work on the tree: a new file that was written without an error has
  -- the bytes that were given.
  pub content-write_new_private :
      (path : FilePath) (bytes : Bytes) (w w' : World)
      → write_new_private os path bytes w ≡ (ok tt, w')
      → content path w'.entries ≡ some bytes
  unfolding write_new_private create_new write_all
  content-write_new_private path bytes w w' e =
      exec_done (ensure_real_directory os (parent_or_dot path)) _ w e λ _ w1 _ e1.
        exec_done (create_new os path 0o600) _ w1 e1 λ handle w2 created e2.
          exec_done (write_all os handle bytes) _ w2 e2 λ _ w3 wrote e3.
            exec_done (sync_all os handle) _ w3 e3 λ _ w4 synced e4.
              let same = (create_new_fresh os alone path handle 0o600 w1 w2 created).0 in
              let empty =
                made_ok path 0o600 w1.entries w2.entries (sys_ok _ w1 w2 handle created) in
              let full =
                written_ok path bytes (lookup path w2.entries) w2.entries w3.entries empty (
                  subst
                    (λ q. written q bytes (lookup q w2.entries) w2.entries ≡ (ok tt, w3.entries))
                    same (sys_ok _ w2 w3 tt wrote)) in
              keep _ path bytes w4 w' (set_private_permissions-Keeps os alone path) e4
                (keep _ path bytes w3 w4 (sync_all-Keeps os alone handle) synced full)
