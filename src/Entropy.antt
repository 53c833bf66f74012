-- ===== src/Entropy.antt =====
-- src/entropy.rs: bytes from the operating system. The state counts the calls of `getrandom`.
use article.Base.{Option-cases, inl, inr, arith, ℕ, suc, Option, none, some, [], ◌≡◌, ◌++◌, length}
use article.Base.Bytes.{Bytes, IsArray, utf8, be_bytes}
use article.Error.{Result, ok, err, randomness}
use article.Exec.{Exec, pure, lift, ◌>>=◌}
use article.Primitives.{Primitives, IsLawful}

module _ (p : Primitives) where
  -- The bytes that fill a destination of this length.
  unfoldable pub fill_random : ℕ → Exec ℕ Bytes
  fill_random n calls = elim (p.getrandom calls n) [
    | none ↦ (err randomness, suc calls)
    | some bytes ↦ (ok bytes, suc calls)
  ]

  unfoldable pub random_array : ℕ → Exec ℕ Bytes
  unfolding fill_random
  random_array n = do bytes ← fill_random n; pure bytes

  -- `additional` is what the source's `collect` returns, if there is a source.
  unfoldable pub root_seed : Option (Result Bytes) → Exec ℕ Bytes
  unfolding random_array
  root_seed additional = do
    os_random ← random_array 32
    human_bytes ← lift (elim additional [ none ↦ ok [] | some collected ↦ collected ])
    pure (
        p.sha256 (
          utf8 "sealed/root-entropy/v1"
          ++ (os_random ++ (be_bytes 8 (length human_bytes) ++ human_bytes))))

  -- What the system returned is what the caller gets, and one call is made.
  pub random_array_lem :
      (n calls : ℕ) {bytes : Bytes}
      → p.getrandom calls n ≡ some bytes
      → random_array n calls ≡ (ok bytes, suc calls)
  unfolding random_array ◌>>=◌
  random_array_lem n calls e = rw (e, fill_random)

  pub random_array-IsArray :
      IsLawful p
      → (n calls calls' : ℕ) (bytes : Bytes) → random_array n calls ≡ (ok bytes, calls')
      → IsArray n bytes
  unfolding random_array ◌>>=◌
  random_array-IsArray lawful n calls calls' bytes e = elim (Option-cases (p.getrandom calls n)) [
    | inl h ↦ absurd (ground (arith, h))
    | inr (found, h) ↦ lawful.getrandom_size calls n bytes (ground (arith, h))
  ]
