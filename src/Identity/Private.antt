-- ===== src/Identity/Private.antt =====
-- The private identity of src/identity.rs: generation, and encryption at rest.
use article.Base.{
  ℕ, ◌≡◌, sym, ap, ◌∙◌, subst, false, some, List, [], ◌∷◌, ◌++◌, arith, ◌==◌, not, ◌||◌, length,
  take_exact, drop_exact, take_all, All-append, take, drop, get_or, length-append, length-drop, ◌≢◌,
  take-append-drop, length-take, Bool-cases, inl, inr, ==_iff,
}
use article.Base.Bytes.{Bytes, AllBytes, IsArray}
use article.Error
use article.Error.{
  refuse_if-eq-ok, ok_or-eq-ok, Error, Result, ok, err, authentication, ok_or, ok_injective,
}
use article.Exec.{Exec, pure, lift, ◌>>=◌, exec_ok}
use article.Primitives.{Primitives, IsLawful}
use article.Entropy.{random_array, random_array-IsArray}
use article.Protocol.{
  profile_version, identity_aad_domain, nonce_len, ed25519_secret_len, x25519_secret_len,
}
use article.Identity.{
  PublicProfile, IdentitySecrets, public_profile, decrypt_private_identity, private_plaintext_len,
  private_file_max_len,
}

-- The plaintext of the identity file.
abbrev pub private_plaintext : IdentitySecrets → Bytes
private_plaintext secrets = profile_version ∷ (secrets.identity_secret ++ secrets.agreement_secret)

-- The sizes that the type `IdentitySecrets` fixes.
pub record IsSecrets (secrets : IdentitySecrets) : Type 0 where
  pub identity_size : IsArray 32 secrets.identity_secret
  pub agreement_size : IsArray 32 secrets.agreement_secret

module _ (p : Primitives) where
  -- `IdentitySecrets::generate`
  unfoldable pub generate : Exec ℕ (IdentitySecrets × PublicProfile)
  generate = do
    identity_secret ← random_array p ed25519_secret_len
    agreement_secret ← random_array p x25519_secret_len
    let secrets : IdentitySecrets = record {
      identity_secret = identity_secret;
      agreement_secret = agreement_secret;
    }
    pure (secrets, public_profile p secrets)

  unfoldable pub encrypt_private_identity : IdentitySecrets → Bytes → Exec ℕ Bytes
  encrypt_private_identity secrets unlock_key = do
    nonce ← random_array p nonce_len
    ciphertext ← lift (
        ok_or authentication
          (p.encrypt unlock_key nonce identity_aad_domain (private_plaintext secrets)))
    pure (nonce ++ ciphertext)

private_plaintext-AllBytes :
    (secrets : IdentitySecrets) → IsSecrets secrets → AllBytes (private_plaintext secrets)
private_plaintext-AllBytes secrets s = (
  omega arith,
  All-append _ secrets.identity_secret _ s.identity_size.all_bytes s.agreement_size.all_bytes,
)

module _ (p : Primitives) where
  module _ (lawful : IsLawful p) where
    decrypt_lem :
        (secrets : IdentitySecrets) (unlock_key nonce ciphertext : Bytes)
        → IsSecrets secrets
        → IsArray nonce_len nonce
        → p.encrypt unlock_key nonce identity_aad_domain (private_plaintext secrets)
          ≡ some ciphertext
        → decrypt_private_identity p (nonce ++ ciphertext) unlock_key ≡ ok secrets
    unfolding decrypt_private_identity Error.◌>>=◌
    decrypt_lem secrets unlock_key nonce ciphertext s n e =
        let id = secrets.identity_secret in
        let ag = secrets.agreement_secret in
        let plain_size : length (private_plaintext secrets) ≡ 65 =
          omega (arith, length-append id ag, s.identity_size.size, s.agreement_size.size) in
        let cipher_size = lawful.encrypt_size _ _ _ _ _ (private_plaintext-AllBytes secrets s) e in
        let size : length (nonce ++ ciphertext) ≡ private_file_max_len =
          omega (arith, length-append nonce ciphertext, n.size, cipher_size.size, plain_size) in
        rw (size, decrypt_private_identity)
          (rw
            (
              take_exact nonce_len nonce ciphertext n.size,
              drop_exact nonce_len nonce ciphertext n.size,
            )
            (rw (lawful.decrypt-encrypt _ _ _ _ _ e) (
              rw plain_size (
                rw
                  (
                    take_exact 32 id ag s.identity_size.size,
                    drop_exact 32 id ag s.identity_size.size,
                  )
                  (rw (← s.agreement_size.size) (rw (take_all ag)))))))

    -- With lawful primitives, what is encrypted of secrets of 32 bytes each decrypts, with the
    -- same key, to the same secrets.
    pub decrypt-encrypt_private_identity :
        (secrets : IdentitySecrets) (unlock_key : Bytes) (calls : ℕ) (encrypted : Bytes)
        → IsSecrets secrets
        → (encrypt_private_identity p secrets unlock_key calls).0 ≡ ok encrypted
        → decrypt_private_identity p encrypted unlock_key ≡ ok secrets
    unfolding encrypt_private_identity
    decrypt-encrypt_private_identity secrets unlock_key calls encrypted s e0 =
        exec_ok (random_array p nonce_len) _ calls e0 λ nonce calls' drawn e1.
          let n = random_array-IsArray p lawful nonce_len calls calls' nonce drawn in
          exec_ok
            (lift (
              ok_or authentication
                (p.encrypt unlock_key nonce identity_aad_domain (private_plaintext secrets))))
            _ calls' e1
            λ ciphertext calls'' found done.
              let e = ok_or-eq-ok _ _ (ap (λ r. r.0) found) in
              subst (λ b. decrypt_private_identity p b unlock_key ≡ ok secrets)
                (ok_injective _ _ done) (decrypt_lem secrets unlock_key nonce ciphertext s n e)

-- A plaintext of the right size and version is the plaintext of the secrets that are cut from it.
abbrev cut_secrets : Bytes → IdentitySecrets
cut_secrets plaintext = record {
  identity_secret = take 32 (drop 1 plaintext);
  agreement_secret = take 32 (drop 33 plaintext);
}

take_rest : {A : Type 0} (n : ℕ) (xs : List A) → length xs ≡ n → take n xs ≡ xs
take_rest n xs h = subst (λ k. take k xs ≡ xs) h (take_all xs)

cut_secrets_lem :
    (plaintext : Bytes)
    → length plaintext ≡ private_plaintext_len
    → get_or plaintext 0 0 ≡ profile_version
    → (private_plaintext (cut_secrets plaintext) ≡ plaintext)
      × (length (take 32 (drop 1 plaintext)) ≡ 32)
      × (length (take 32 (drop 33 plaintext)) ≡ 32)
cut_secrets_lem [] size version = absurd (omega arith)
cut_secrets_lem (v ∷ tail) size version =
    let e : take 32 (drop 32 tail) ≡ drop 32 tail =
      take_rest 32 (drop 32 tail) (omega (arith, length-drop 32 tail)) in
    (
      cc (version, e, take-append-drop 32 tail),
      omega (arith, length-take 32 tail),
      omega (arith, length-take 32 (drop 32 tail), length-drop 32 tail),
    )

checked :
    (n v : ℕ)
    → (not (n == private_plaintext_len) || not (v == profile_version)) ≡ false
    → (n ≡ private_plaintext_len) × (v ≡ profile_version)
checked n v h = ground arith

module _ (p : Primitives) where
  -- With lawful primitives, whatever decrypts is an encryption, under that key and the nonce in
  -- front, of the version and the two secrets that are returned, each of 32 bytes, and has the
  -- one size that is accepted.
  pub decrypt_private_identity_sound :
      IsLawful p
      → (encrypted unlock_key : Bytes) (secrets : IdentitySecrets)
      → decrypt_private_identity p encrypted unlock_key ≡ ok secrets
      → (length secrets.identity_secret ≡ 32)
        × (length secrets.agreement_secret ≡ 32)
        × (length encrypted ≡ private_file_max_len)
        × (p.encrypt unlock_key
              (take nonce_len encrypted)
              identity_aad_domain
              (private_plaintext secrets)
            ≡ some (drop nonce_len encrypted))
  unfolding decrypt_private_identity
  decrypt_private_identity_sound lawful encrypted unlock_key secrets e =
      elim (Bool-cases (length encrypted == private_file_max_len)) [
        | inr h ↦ absurd (cc (rw h at e))
        | inl h ↦
            Error.bind_ok
              (ok_or authentication (
                p.decrypt unlock_key (take nonce_len encrypted) identity_aad_domain
                  (drop nonce_len encrypted)))
              _ (rw h at e)
              λ plaintext found e1.
                let (test, done) = refuse_if-eq-ok _ _ _ e1 in
                let (size, version) = checked (length plaintext) (get_or plaintext 0 0) test in
                let (shape, a, b) = cut_secrets_lem plaintext size version in
                let same : cut_secrets plaintext ≡ secrets = ok_injective _ _ done in
                (
                  subst (λ s. length s.identity_secret ≡ 32) same a,
                  subst (λ s. length s.agreement_secret ≡ 32) same b,
                  (==_iff (length encrypted) private_file_max_len).0 h,
                  lawful.encrypt-decrypt _ _ _ _ _ (
                      subst
                        (λ s.
                          p.decrypt unlock_key (take nonce_len encrypted) identity_aad_domain
                            (drop nonce_len encrypted)
                          ≡ some (private_plaintext s))
                        same (ok_or-eq-ok _ _ found ∙ ap some (sym shape))),
                )
      ]

  -- A file of another size is refused before anything is decrypted.
  pub decrypt_private_identity_size :
      (encrypted unlock_key : Bytes)
      → length encrypted ≢ private_file_max_len
      → decrypt_private_identity p encrypted unlock_key ≡ err authentication
  unfolding decrypt_private_identity
  decrypt_private_identity_size encrypted unlock_key h = ground arith
