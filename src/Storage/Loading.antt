-- ===== src/Storage/Loading.antt =====
-- What the readers of src/storage.rs return when they succeed, whatever other processes do and
-- whichever calls fail.
use article.Base.{
  ◌≡◌, subst, Bool, true, false, some, List, [], ◌∷◌, arith, not, All, if◌then◌else◌, ap,
}
use article.Base.Bytes.{Bytes}
use article.Error.{Result, ok, ok_or, ok_or-eq-ok, ok_injective, not-false}
use article.Exec.{pure, lift, exec_ok, exec_refuse, ◌>>=◌, ◌>>◌}
use article.Primitives.{Primitives}
use article.Contact.{Contact, validate_alias}
use article.Identity.{PublicProfile, IdentitySecrets, parse, parse_unlock_key, public_profile}
use article.Identity.Profile.{IsProfile, parse_sound, profile_eq_sound}
use article.System.Paths.{FilePath, sort}
use article.System.Files.{Os, World, exists, read_dir}
use article.Storage.Access.{ensure_real_directory, read_regular_limited}
use article.Storage.State.{
  StatePaths, load_identity, export_profile, contact_files, valid_stem, read_contacts, all_contacts,
}

-- A contact as the program keeps it: a valid name, and a well-formed profile.
pub record IsContact (p : Primitives) (contact : Contact) : Type 0 where
  pub alias : validate_alias contact.alias ≡ true
  pub profile : IsProfile p contact.profile

valid_stem_sound :
    (path : FilePath) (name : Bytes) → valid_stem path ≡ some name → validate_alias name ≡ true
unfolding valid_stem
valid_stem_sound path name e = ground arith

lift_ok : {S A : Type 0} (r : Result A) (s s' : S) {a : A} → lift r s ≡ (ok a, s') → r ≡ ok a
lift_ok r s s' e = ap (λ q. q.0) e

module _ (p : Primitives) (os : Os) where
  export_profile-IsProfile :
      (paths : StatePaths) (w : World) (profile : PublicProfile)
      → (export_profile p os paths w).0 ≡ ok profile
      → IsProfile p profile
  unfolding export_profile
  export_profile-IsProfile paths w profile e =
      exec_ok (read_regular_limited os paths.identity_public 512) _ w e
        λ bytes w1 _ e1. (parse_sound p bytes profile e1).0

  -- An identity is loaded only if its secrets own the public profile that is returned with it,
  -- and that profile is well formed, whoever wrote the files and whichever calls fail.
  pub load_identity_sound :
      (paths : StatePaths) (unlock_path : FilePath) (w : World) (secrets : IdentitySecrets)
      (profile : PublicProfile)
      → (load_identity p os paths unlock_path w).0 ≡ ok (secrets, profile)
      → (public_profile p secrets ≡ profile) × IsProfile p profile
  unfolding load_identity
  load_identity_sound paths unlock_path w secrets profile e =
      exec_ok (read_regular_limited os unlock_path 128) _ w e λ unlock_bytes w1 _ e1.
        exec_ok (lift (parse_unlock_key unlock_bytes)) _ w1 e1 λ unlock_key w2 _ e2.
          exec_ok (read_regular_limited os paths.identity_encrypted 512) _ w2 e2
            λ encrypted w3 _ e3. exec_ok (export_profile p os paths) _ w3 e3 λ found w4 exported e4.
              exec_ok (lift _) _ w4 e4 λ decrypted w5 _ e5. exec_refuse _ _ _ w5 e5 λ same done.
                let pair : (decrypted, found) ≡ (secrets, profile) = ok_injective _ _ done in
                let owner : public_profile p decrypted ≡ found =
                  profile_eq_sound _ _ (not-false _ same) in
                let formed = export_profile-IsProfile paths w3 found (ap (λ q. q.0) exported) in
                subst
                  (λ (q : IdentitySecrets × PublicProfile).
                    (public_profile p q.0 ≡ q.1) × IsProfile p q.1)
                  pair (owner, formed)

  read_contacts-IsContact :
      (paths : List FilePath) (w : World) (found : List Contact)
      → (read_contacts p os paths w).0 ≡ ok found
      → All (IsContact p) found
  unfolding read_contacts
  read_contacts-IsContact [] w found e = subst (All (IsContact p)) (ok_injective _ _ e) tt
  read_contacts-IsContact (path ∷ paths) w found e =
      exec_ok (lift (ok_or _ (valid_stem path))) _ w e λ alias w1 named e1.
        exec_ok (read_regular_limited os path 512) _ w1 e1 λ bytes w2 _ e2.
          exec_ok (lift (parse p bytes)) _ w2 e2 λ profile w3 parsed e3.
            exec_ok (read_contacts p os paths) _ w3 e3 λ others w4 rest done.
              subst (All (IsContact p)) (ok_injective _ _ done) (
                record {
                  alias = valid_stem_sound path alias (ok_or-eq-ok _ _ (lift_ok _ _ _ named));
                  profile = (parse_sound p bytes profile (lift_ok _ _ _ parsed)).0;
                },
                read_contacts-IsContact paths w3 others (ap (λ q. q.0) rest),
              )

  -- Every contact that is listed has a valid name and a well-formed profile, whoever wrote the
  -- files and whichever calls fail.
  pub all_contacts-IsContact :
      (paths : StatePaths) (w : World) (found : List Contact)
      → (all_contacts p os paths w).0 ≡ ok found
      → All (IsContact p) found
  unfolding all_contacts
  all_contacts-IsContact paths w found e =
      exec_ok (exists os paths.contacts) _ w e λ there w1 _ e1. listed there w1 e1
    where
      listed :
          (there : Bool) (w1 : World)
          → ((if not there then pure [] else (do
            ensure_real_directory os paths.contacts
            names ← read_dir os paths.contacts
            read_contacts p os (sort (contact_files names))))
              w1).0
            ≡ ok found
          → All (IsContact p) found
      listed false w1 e1 = subst (All (IsContact p)) (ok_injective _ _ e1) tt
      listed true w1 e1 = exec_ok (ensure_real_directory os paths.contacts) _ w1 e1 λ _ w2 _ e2.
          exec_ok (read_dir os paths.contacts) _ w2 e2
            λ names w3 _ e3. read_contacts-IsContact _ w3 found e3
