-- ===== src/Storage/Limits.antt =====
-- What the guarded readers of src/storage.rs return, whatever other processes do meanwhile.
use article.Base.{ℕ, suc, ◌≤◌, ◌≡◌, ltb→ge, length, subst}
use article.Base.Bytes.{Bytes}
use article.Error.{ok, ok_injective}
use article.Exec.{exec_ok, exec_refuse}
use article.System.Paths.{FilePath}
use article.System.Files.{Os, World, open_file, file_len, read_limited}
use article.Storage.Access.{ensure_regular_file, read_regular_limited}

-- A read that succeeds returned at most the maximum, even if the file grew, or was replaced,
-- between the checks.
pub length-read_regular_limited :
    (os : Os) (path : FilePath) (maximum : ℕ) (w : World) (bytes : Bytes)
    → (read_regular_limited os path maximum w).0 ≡ ok bytes
    → length bytes ≤ maximum
unfolding read_regular_limited
length-read_regular_limited os path maximum w bytes e =
    exec_ok (ensure_regular_file os path) _ w e λ _ w1 _ e1.
      exec_ok (open_file os path) _ w1 e1 λ handle w2 _ e2.
        exec_ok (file_len os handle) _ w2 e2 λ declared w3 _ e3. exec_refuse _ _ _ w3 e3 λ _ e4.
          exec_ok (read_limited os handle (suc maximum)) _ w3 e4 λ found w4 _ e5.
            exec_refuse _ _ _ w4 e5 λ small e6.
              subst (λ b. length b ≤ maximum) (ok_injective found bytes e6)
                (ltb→ge maximum (length found) small)
