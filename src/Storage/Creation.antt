-- ===== src/Storage/Creation.antt =====
-- The files that `initialize` of src/storage.rs makes.
use article.Base.{ℕ, ◌≡◌, refl, ap, subst, ◌≤◌, some, ◌==◌, length, Bool-cases, inl, inr, arith}
use article.Base.Bytes.{Bytes, IsArray}
use article.Error.{Result, ok, err, ok_injective}
use article.Exec.{Exec, lift, exec_done}
use article.Primitives.{Primitives, IsLawful}
use article.Entropy.{random_array, random_array-IsArray}
use article.Identity.{
  PublicProfile, IdentitySecrets, encode, encode_unlock_key, public_profile,
  decrypt_private_identity, private_file_max_len,
}
use article.Identity.Private.{
  generate, encrypt_private_identity, IsSecrets, decrypt-encrypt_private_identity,
}
use article.System.Paths.{FilePath}
use article.System.Files.{Os, World, Entries, remove_file}
use article.System.Kept.{IsAlone, content}
use article.Storage.Access.{
  parent_or_dot, reject_existing, ensure_real_directory, write_new_private,
}
use article.Storage.Keeps.{write_new_private-Keeps}
use article.Storage.Written.{content-write_new_private, keep}
use article.Storage.State.{StatePaths, draw, create_directories, write_encrypted, initialize}

-- The three files of an identity.
pub record Holds (p : Primitives) (paths : StatePaths) (unlock_path : FilePath)
    (profile : PublicProfile) (es : Entries) : Type 0 where
  pub secrets : IdentitySecrets
  pub unlock_key : Bytes
  pub encrypted : Bytes
  pub unlock_there : content unlock_path es ≡ some (encode_unlock_key unlock_key)
  pub public_there : content paths.identity_public es ≡ some (encode profile)
  pub encrypted_there : content paths.identity_encrypted es ≡ some encrypted
  pub key_size : IsArray 32 unlock_key
  pub own : public_profile p secrets ≡ profile
  pub opens : decrypt_private_identity p encrypted unlock_key ≡ ok secrets

abbrev HoldsResult : Primitives → StatePaths → FilePath → Result PublicProfile × World → Type 0
HoldsResult p paths unlock_path (ok profile, w) = Holds p paths unlock_path profile w.entries
HoldsResult p paths unlock_path (err e, w) = Unit {0}

draw_done :
    {A : Type 0} (m : Exec ℕ A) (w w' : World) (a : A)
    → draw m w ≡ (ok a, w')
    → m w.draws ≡ (ok a, w'.draws)
unfolding draw
draw_done m w w' a e = ap (λ r. (r.0, r.1.draws)) e

pub decrypted_length :
    (p : Primitives) (encrypted unlock_key : Bytes) (secrets : IdentitySecrets)
    → decrypt_private_identity p encrypted unlock_key ≡ ok secrets
    → length encrypted ≤ 512
unfolding decrypt_private_identity
decrypted_length p encrypted unlock_key secrets e =
    elim (Bool-cases (length encrypted == private_file_max_len)) [
      | inl h ↦ grind (arith, h)
      | inr h ↦ absurd (cc (rw (h, decrypt_private_identity) at e))
    ]

module _ (p : Primitives) (lawful : IsLawful p) where
  generate_done :
      (calls calls' : ℕ) (g : IdentitySecrets × PublicProfile)
      → generate p calls ≡ (ok g, calls')
      → IsSecrets g.0 × (public_profile p g.0 ≡ g.1)
  unfolding generate
  generate_done calls calls' g e =
      exec_done (random_array p 32) _ calls e λ identity calls1 e1 rest.
        exec_done (random_array p 32) _ calls1 rest λ agreement calls2 e2 done.
          subst
            (λ (q : IdentitySecrets × PublicProfile). IsSecrets q.0 × (public_profile p q.0 ≡ q.1))
            (ok_injective _ _ (ap (λ r. r.0) done))
            (
              record {
                identity_size = random_array-IsArray p lawful 32 calls calls1 identity e1;
                agreement_size = random_array-IsArray p lawful 32 calls1 calls2 agreement e2;
              },
              refl,
            )

  module _ (os : Os) (alone : IsAlone os) where
    write_encrypted_done :
        (paths : StatePaths) (encrypted : Bytes) (w w' : World)
        → write_encrypted p os paths encrypted w ≡ (ok tt, w')
        → write_new_private os paths.identity_encrypted encrypted w ≡ (ok tt, w')
    unfolding write_encrypted
    write_encrypted_done paths encrypted w w' e =
        go (write_new_private os paths.identity_encrypted encrypted w) e
      where
        go :
            (q : Result (Unit {0}) × World)
            → (elim q.0 as (λ _. Result (Unit {0}) × World) [
              | ok _ ↦ (ok tt, q.1)
              | err x ↦ let (_, w'') = remove_file os paths.identity_public q.1 in (err x, w'')
            ])
              ≡ (ok tt, w')
            → q ≡ (ok tt, w')
        go (ok _, v) h = h
        go (err x, v) h = absurd (cc (ap (λ r. r.0) h))

    -- The files are written one after the other, and each write keeps those before it.
    record Wrote (paths : StatePaths) (unlock_path : FilePath)
        (unlock_text public_text encrypted : Bytes) (es : Entries) : Type 0 where
      unlock_there : content unlock_path es ≡ some unlock_text
      public_there : content paths.identity_public es ≡ some public_text
      encrypted_there : content paths.identity_encrypted es ≡ some encrypted

    wrote_lem :
        (paths : StatePaths) (unlock_path : FilePath) (unlock_text public_text encrypted : Bytes)
        (w9 w10 w11 w12 : World)
        → write_new_private os unlock_path unlock_text w9 ≡ (ok tt, w10)
        → write_new_private os paths.identity_public public_text w10 ≡ (ok tt, w11)
        → write_new_private os paths.identity_encrypted encrypted w11 ≡ (ok tt, w12)
        → Wrote paths unlock_path unlock_text public_text encrypted w12.entries
    wrote_lem paths unlock_path unlock_text public_text encrypted w9 w10 w11 w12 e1 e2 e3 =
        let unlock_kept = write_new_private-Keeps os alone paths.identity_public public_text in
        let rest_kept = write_new_private-Keeps os alone paths.identity_encrypted encrypted in
        record {
          unlock_there = keep os alone _ unlock_path unlock_text w11 w12 rest_kept e3 (
              keep os alone _ unlock_path unlock_text w10 w11 unlock_kept e2
                (content-write_new_private os alone unlock_path unlock_text w9 w10 e1));
          public_there =
              keep os alone _ paths.identity_public public_text w11 w12 rest_kept e3
                (content-write_new_private os alone paths.identity_public public_text w10 w11 e2);
          encrypted_there =
              content-write_new_private os alone paths.identity_encrypted encrypted w11 w12 e3;
        }

    pub initialize-Holds :
        (paths : StatePaths) (unlock_path : FilePath) (w w' : World) (profile : PublicProfile)
        → initialize p os paths unlock_path w ≡ (ok profile, w')
        → Holds p paths unlock_path profile w'.entries
    unfolding initialize
    initialize-Holds paths unlock_path w w' profile e = exec_done (lift _) _ w e λ _ w1 _ e1.
        exec_done (reject_existing os paths.identity_public _) _ w1 e1 λ _ w2 _ e2.
          exec_done (reject_existing os paths.identity_encrypted _) _ w2 e2 λ _ w3 _ e3.
            exec_done (reject_existing os unlock_path _) _ w3 e3 λ _ w4 _ e4.
              exec_done (ensure_real_directory os (parent_or_dot unlock_path)) _ w4 e4 λ _ w5 _ e5.
                exec_done (create_directories p os paths) _ w5 e5 λ _ w6 _ e6.
                  exec_done (draw (random_array p 32)) _ w6 e6 λ unlock_key w7 key_drawn e7.
                    exec_done (draw (generate p)) _ w7 e7 λ generated w8 generation e8.
                      exec_done (draw (encrypt_private_identity p generated.0 unlock_key)) _ w8 e8
                        λ encrypted w9 encryption e9.
                          exec_done
                            (write_new_private os unlock_path (encode_unlock_key unlock_key)) _ w9
                            e9
                            λ _ w10 wrote1 e10.
                              exec_done
                                (write_new_private os paths.identity_public (encode generated.1)) _
                                w10 e10
                                λ _ w11 wrote2 e11.
                                  exec_done (write_encrypted p os paths encrypted) _ w11 e11
                                    λ _ w12 wrote3 done.
                                      let wrote =
                                        wrote_lem paths unlock_path _ _ encrypted w9 w10 w11 w12
                                          wrote1 wrote2
                                          (write_encrypted_done paths encrypted w11 w12 wrote3) in
                                      let (sizes, own) =
                                        generate_done w7.draws w8.draws generated
                                          (draw_done _ w7 w8 generated generation) in
                                      subst
                                        (λ (q : Result PublicProfile × World).
                                          HoldsResult p paths unlock_path q)
                                        done
                                        (record {
                                          secrets = generated.0;
                                          unlock_key = unlock_key;
                                          encrypted = encrypted;
                                          unlock_there = wrote.unlock_there;
                                          public_there = wrote.public_there;
                                          encrypted_there = wrote.encrypted_there;
                                          key_size =
                                              random_array-IsArray p lawful 32 w6.draws w7.draws
                                                unlock_key (draw_done _ w6 w7 unlock_key key_drawn);
                                          own = own;
                                          opens =
                                              decrypt-encrypt_private_identity p lawful generated.0
                                                unlock_key w8.draws encrypted sizes
                                                (ap (λ r. r.0)
                                                  (draw_done _ w8 w9 encrypted encryption));
                                        })
