-- ===== src/Storage/Reload.antt =====
-- `initialize` and then `load_identity` of src/storage.rs.
use article.Base.{◌≡◌, refl, sym, ap, subst, true, some, not, arith}
use article.Base.Bytes.{Bytes, bytes_eq_refl}
use article.Error.{ok, refuse_if, map_err, invalid_input}
use article.Exec.{Exec, lift}
use article.Exec.Always.{Always}
use article.Primitives.{Primitives, IsLawful}
use article.Identity.{
  PublicProfile, IdentitySecrets, encode, encode_unlock_key, public_profile, profile_eq,
}
use article.Identity.Profile.{IsProfile, public_profile-IsProfile, parse_iff, length-encode}
use article.Identity.UnlockKey.{parse_unlock_key_iff, length-encode_unlock_key}
use article.System.Paths.{FilePath}
use article.System.Files.{Os, World}
use article.System.Kept.{IsAlone, content}
use article.System.Unchanged.{unchanged}
use article.Storage.Access.{read_regular_limited}
use article.Storage.Found.{IsFaultless, exec_on, read_regular_limited_total}
use article.Storage.State.{StatePaths, initialize, export_profile, load_identity}
use article.Storage.Unchanged.{read_regular_limited-unchanged}
use article.Storage.Creation.{Holds, decrypted_length, initialize-Holds}

profile_eq_refl : (a : PublicProfile) → profile_eq a a ≡ true
unfolding profile_eq
profile_eq_refl a = ground (
  arith,
  bytes_eq_refl a.identity_public,
  bytes_eq_refl a.agreement_public,
  bytes_eq_refl a.fingerprint,
)

module _ (p : Primitives) (lawful : IsLawful p) (os : Os) (alone : IsAlone os)
    (faultless : IsFaultless os) where
  still :
      {A : Type 0} {m : Exec World A} (path : FilePath) (bytes : Bytes) (w : World)
      → Always unchanged m
      → content path w.entries ≡ some bytes
      → content path (m w).1.entries ≡ some bytes
  still path bytes w same h = subst (λ es. content path es ≡ some bytes) (sym (same.at w)) h

  owned :
      (secrets : IdentitySecrets) (profile : PublicProfile)
      → public_profile p secrets ≡ profile
      → (w : World)
      → (lift
          (refuse_if
            (not (profile_eq (public_profile p secrets) profile))
            (invalid_input "encrypted identity does not match public identity"))
          w).0
        ≡ ok tt
  owned secrets profile own w = rw (own, profile_eq_refl profile) refl

  exported :
      (paths : StatePaths) (profile : PublicProfile) (w : World)
      → IsProfile p profile
      → content paths.identity_public w.entries ≡ some (encode profile)
      → (export_profile p os paths w).0 ≡ ok profile
  unfolding export_profile
  exported paths profile w valid h =
      exec_on _ _ w (encode profile)
        (read_regular_limited_total os alone faultless paths.identity_public (encode profile) 512
          (omega (arith, length-encode p lawful profile valid)) w h)
        ((parse_iff p lawful (encode profile) profile).1 (valid, refl))

  load_Holds :
      (paths : StatePaths) (unlock_path : FilePath) (profile : PublicProfile) (w : World)
      (h : Holds p paths unlock_path profile w.entries)
      → (load_identity p os paths unlock_path w).0 ≡ ok (h.secrets, profile)
  unfolding load_identity
  load_Holds paths unlock_path profile w h =
      let unlock_text = encode_unlock_key h.unlock_key in
      let valid : IsProfile p profile =
        subst (IsProfile p) h.own (public_profile-IsProfile p lawful h.secrets) in
      let reading = read_regular_limited-unchanged os alone unlock_path 128 in
      let w1 = (read_regular_limited os unlock_path 128 w).1 in
      let encrypted1 = still _ _ w reading h.encrypted_there in
      let public1 = still _ _ w reading h.public_there in
      let w2 = (read_regular_limited os paths.identity_encrypted 512 w1).1 in
      let public2 =
        still _ _ w1 (read_regular_limited-unchanged os alone paths.identity_encrypted 512)
          public1 in
      let w3 = (export_profile p os paths w2).1 in
      exec_on _ _ w unlock_text
        (read_regular_limited_total os alone faultless unlock_path unlock_text 128
          (omega (arith, length-encode_unlock_key h.unlock_key h.key_size)) w h.unlock_there)
        (exec_on _ _ w1 h.unlock_key
          ((parse_unlock_key_iff unlock_text h.unlock_key).1 (h.key_size, refl))
          (exec_on _ _ w1 h.encrypted
            (read_regular_limited_total os alone faultless paths.identity_encrypted h.encrypted 512
              (decrypted_length p h.encrypted h.unlock_key h.secrets h.opens) w1 encrypted1)
            (exec_on _ _ w2 profile (exported paths profile w2 valid public2) (
              exec_on _ _ w3 h.secrets (ap (map_err _) h.opens)
                (exec_on _ _ w3 tt (owned h.secrets profile h.own w3) refl)))))

-- An identity that was created can be loaded: where `initialize` succeeds, with lawful primitives
-- and no other process at work on the tree, `load_identity` with the same unlock key then succeeds,
-- as long as the tree stays as it is and no call fails, and returns the profile that `initialize`
-- returned.
pub initialize-load_identity :
    (p : Primitives) (os later : Os) (paths : StatePaths) (unlock_path : FilePath) (w w' v : World)
    (profile : PublicProfile)
    → IsLawful p
    → IsAlone os
    → IsAlone later
    → IsFaultless later
    → initialize p os paths unlock_path w ≡ (ok profile, w')
    → v.entries ≡ w'.entries
    → (secrets : IdentitySecrets) × ((load_identity p later paths unlock_path v).0
        ≡ ok (secrets, profile))
initialize-load_identity p os later paths unlock_path w w' v profile lawful alone alone' faultless
      done same =
    let h =
      subst (Holds p paths unlock_path profile) (sym same)
        (initialize-Holds p lawful os alone paths unlock_path w w' profile done) in
    (h.secrets, load_Holds p lawful later alone' faultless paths unlock_path profile v h)
