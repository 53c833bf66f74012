-- ===== src/Storage/Lookup.antt =====
-- `trust_profile` and then `contact` of src/storage.rs.
use article.Base.{◌≡◌, refl, sym, ap, subst, true, false, some, not, Bool, arith}
use article.Base.Bytes.{Bytes}
use article.Error.{Error, ok, refuse_if, map_err, invalid_input}
use article.Exec.{lift, exec_done}
use article.Primitives.{Primitives, IsLawful}
use article.Contact.{validate_alias}
use article.Identity.{PublicProfile, encode}
use article.Identity.Profile.{parse_iff, length-encode}
use article.System.Paths.{FilePath}
use article.System.Files.{Os, World}
use article.System.Kept.{IsAlone, content}
use article.Storage.Access.{read_regular_limited, map_not_found}
use article.Storage.Found.{IsFaultless, exec_on, read_regular_limited_total}
use article.Storage.Pins.{trust_profile-IsProfile, trust_profile-pinned}
use article.Storage.State.{StatePaths, contact_path, trust_profile, contact}

accepted :
    (alias : Bytes)
    → validate_alias alias ≡ true
    → (w : World)
    → (lift (refuse_if (not (validate_alias alias)) (invalid_input "invalid contact name")) w).0
      ≡ ok tt
accepted alias h w = rw h refl

refused_not : (b : Bool) (e : Error) → refuse_if (not b) e ≡ ok tt → b ≡ true
refused_not true e h = refl
refused_not false e h = absurd (cc h)

module _ (p : Primitives) where
  trusted_alias :
      (os : Os) (paths : StatePaths) (source : FilePath) (alias : Bytes) (profile : PublicProfile)
      (w w' : World)
      → trust_profile p os paths source alias w ≡ (ok profile, w')
      → validate_alias alias ≡ true
  unfolding trust_profile
  trusted_alias os paths source alias profile w w' e =
      exec_done (lift (refuse_if (not (validate_alias alias)) _)) _ w e
        λ _ w1 first _. refused_not _ _ (ap (λ q. q.0) first)

  -- A contact that was pinned is found under its name: where `trust_profile` succeeds, with lawful
  -- primitives and no other process at work on the tree, `contact` with the same name then returns
  -- that name and that profile, as long as the tree stays as it is and no call fails.
  pub trust_profile-contact :
      (os later : Os) (paths : StatePaths) (source : FilePath) (alias : Bytes)
      (profile : PublicProfile) (w w' v : World)
      → IsLawful p
      → IsAlone os
      → IsAlone later
      → IsFaultless later
      → trust_profile p os paths source alias w ≡ (ok profile, w')
      → v.entries ≡ w'.entries
      → (contact p later paths alias v).0 ≡ ok (record { alias = alias; profile = profile })
  unfolding contact
  trust_profile-contact os later paths source alias profile w w' v lawful alone alone' faultless
        done same =
      let path = contact_path paths alias in
      let text = encode profile in
      let valid = trust_profile-IsProfile p os alone paths source alias profile w w' done in
      let named = trusted_alias os paths source alias profile w w' done in
      let there =
        subst (λ es. content path es ≡ some text) (sym same)
          (trust_profile-pinned p os alone paths source alias profile w w' done) in
      let read =
        read_regular_limited_total later alone' faultless path text 512
          (omega (arith, length-encode p lawful profile valid)) v there in
      exec_on _ _ v tt (accepted alias named v) (
        exec_on _ _ v text (ap (map_err (map_not_found "contact is not pinned")) read) (
          exec_on _ _ (read_regular_limited later path 512 v).1 profile
            ((parse_iff p lawful text profile).1 (valid, refl)) refl))
