-- ===== src/Storage/Found.antt =====
-- The guarded read of src/storage.rs where no call fails.
use article.Base.{
  ℕ, zero, suc, ◌∷◌, ◌≡◌, refl, sym, ap, subst, ◌≤◌, none, some, [], ltb, ge→ltb, length, take,
  arith,
}
use article.Base.Bytes.{Bytes}
use article.Error.{Result, ok, refuse_if, invalid_input}
use article.Exec.{Exec, lift, ◌>>=◌}
use article.Exec.Always.{Always}
use article.System.Paths.{FilePath}
use article.System.Files.{
  Os, World, Entries, file, sys, outcome, symlink_metadata, open_file, file_len, read_limited,
}
use article.System.Kept.{IsAlone, content}
use article.System.Unchanged.{unchanged, open_file-unchanged, file_len-unchanged}
use article.Storage.Access.{ensure_regular_file, read_regular_limited}
use article.Storage.Taken.{file_of, resolve_file}
use article.Storage.Unchanged.{ensure_regular_file-unchanged}

-- No call fails.
abbrev pub IsFaultless : Os → Type 0
IsFaultless os = (n : ℕ) → os.fault n ≡ none

take_over : (n : ℕ) (xs : Bytes) → length xs ≤ n → take n xs ≡ xs
take_over zero [] h = refl
take_over zero (x ∷ xs) h = absurd (omega (arith, h))
take_over (suc n) [] h = refl
take_over (suc n) (x ∷ xs) h = ap (λ r. x ∷ r) (take_over n xs (omega (arith, h)))

-- A chain whose first step succeeds goes on.
pub exec_on :
    {S A B : Type 0} (m : Exec S A) (f : A → Exec S B) (s : S) (a : A) {r : Result B}
    → (m s).0 ≡ ok a
    → (f a (m s).1).0 ≡ r
    → ((m >>= f) s).0 ≡ r
unfolding ◌>>=◌
exec_on m f s a h k = rw h k

module _ (os : Os) (alone : IsAlone os) (faultless : IsFaultless os) where
  sys_total :
      {A : Type 0} (f : Entries → Result A × Entries) (w : World) (a : A)
      → (f w.entries).0 ≡ ok a
      → (sys os f w).0 ≡ ok a
  unfolding sys
  sys_total f w a h = rw alone (rw (faultless w.calls, outcome) h)

  module _ (path : FilePath) (bytes : Bytes) (maximum : ℕ) (small : length bytes ≤ maximum) where
    fits :
        (w : World)
        → (lift (refuse_if (ltb maximum (length bytes)) (invalid_input "file is too large")) w).0
          ≡ ok tt
    fits w = rw (ge→ltb maximum (length bytes) small) refl

    ensured :
        (w : World)
        → content path w.entries ≡ some bytes
        → (ensure_regular_file os path w).0 ≡ ok tt
    unfolding ensure_regular_file symlink_metadata
    ensured w h =
        let (mode, found) = file_of path w.entries bytes h in
        exec_on (symlink_metadata os path) _ w (file bytes mode)
          (sys_total _ w (file bytes mode) (rw found refl)) refl

    opened : (w : World) → content path w.entries ≡ some bytes → (open_file os path w).0 ≡ ok path
    unfolding open_file
    opened w h =
        let (mode, found) = file_of path w.entries bytes h in
        sys_total _ w path (rw (resolve_file path bytes mode w.entries found) refl)

    measured :
        (w : World)
        → content path w.entries ≡ some bytes
        → (file_len os path w).0 ≡ ok (length bytes)
    unfolding file_len
    measured w h =
        let (mode, found) = file_of path w.entries bytes h in
        sys_total _ w (length bytes) (rw found refl)

    taken :
        (w : World)
        → content path w.entries ≡ some bytes
        → (read_limited os path (suc maximum) w).0 ≡ ok bytes
    unfolding read_limited
    taken w h =
        let (mode, found) = file_of path w.entries bytes h in
        sys_total _ w bytes
          (rw found (ap ok (take_over (suc maximum) bytes (omega (arith, small)))))

    still :
        {A : Type 0} {m : Exec World A} (w : World)
        → Always unchanged m
        → content path w.entries ≡ some bytes
        → content path (m w).1.entries ≡ some bytes
    still w same h = subst (λ es. content path es ≡ some bytes) (sym (same.at w)) h

    -- Where no call fails and no other process is at work, a file within the limit is read.
    pub read_regular_limited_total :
        (w : World)
        → content path w.entries ≡ some bytes
        → (read_regular_limited os path maximum w).0 ≡ ok bytes
    unfolding read_regular_limited
    read_regular_limited_total w h =
        let h1 = still w (ensure_regular_file-unchanged os alone path) h in
        let w1 = (ensure_regular_file os path w).1 in
        let h2 = still w1 (open_file-unchanged os alone path) h1 in
        let w2 = (open_file os path w1).1 in
        let h3 = still w2 (file_len-unchanged os alone path) h2 in
        let w3 = (file_len os path w2).1 in
        exec_on _ _ w tt (ensured w h) (
          exec_on _ _ w1 path (opened w1 h1) (
            exec_on _ _ w2 (length bytes) (measured w2 h2) (
              exec_on _ _ w3 tt (fits w3) (
                exec_on _ _ w3 bytes (taken w3 h3) (
                  exec_on _ _ (read_limited os path (suc maximum) w3).1 tt
                    (fits (read_limited os path (suc maximum) w3).1) refl)))))
