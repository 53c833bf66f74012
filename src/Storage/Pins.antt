-- ===== src/Storage/Pins.antt =====
-- What `trust_profile` of src/storage.rs leaves behind.
use mathlib.Core.Option.{some-injective}
use article.Base.{
  ◌≡◌, refl, sym, ap, ◌∙◌, subst, Bool, true, false, some, Bool-cases, inl, inr, if◌then◌else◌,
}
use article.Base.Bytes.{Bytes}
use article.Error.{ok, ok_injective, identity_mismatch}
use article.Exec.{lift, pure, raise, exec_done}
use article.Primitives.{Primitives, IsLawful}
use article.Identity.{PublicProfile, encode, parse, profile_eq}
use article.Identity.Profile.{IsProfile, parse_sound, parse_iff, profile_eq_sound}
use article.System.Paths.{FilePath}
use article.System.Files.{Os, World, exists}
use article.System.Kept.{IsAlone, content}
use article.Storage.Access.{create_private_directory, read_regular_limited, write_new_private}
use article.Storage.State.{StatePaths, trust_profile, pin, contact_path}
use article.Storage.Keeps.{trust_profile-Keeps}
use article.Storage.Written.{content-write_new_private}
use article.Storage.Taken.{content-read_regular_limited}

module _ (p : Primitives) (os : Os) (alone : IsAlone os) where
  compared :
      (pinned profile result : PublicProfile) (w w' : World)
      → (if profile_eq pinned profile then pure profile else raise identity_mismatch) w
        ≡ (ok result, w')
      → (pinned ≡ result) × (w ≡ w')
  compared pinned profile result w w' e = elim (Bool-cases (profile_eq pinned profile)) [
    | inl t ↦
        let d : pure profile w ≡ (ok result, w') = rw t at e in
        (profile_eq_sound pinned profile t ∙ ok_injective _ _ (ap (λ q. q.0) d), ap (λ q. q.1) d)
    | inr t ↦ absurd (cc (rw t at e))
  ]

  pin_ok :
      (path : FilePath) (bytes : Bytes) (profile result : PublicProfile) (there : Bool)
      (w w' : World)
      → parse p bytes ≡ ok profile
      → pin p os path profile there w ≡ (ok result, w')
      → content path w'.entries ≡ some (encode result)
  unfolding pin
  pin_ok path bytes profile result true w w' parsed e =
      exec_done (read_regular_limited os path 512) _ w e λ found w1 read e1.
        exec_done (lift (parse p found)) _ w1 e1 λ pinned w2 known e2.
          let (same, stays) = compared pinned profile result w2 w' e2 in
          let text = (parse_sound p found pinned (ap (λ q. q.0) known)).1 in
          let there = content-read_regular_limited os alone path 512 found w w1 read in
          subst (λ (v : World). content path v.entries ≡ some (encode result))
            (ap (λ q. q.1) known ∙ stays) (there ∙ ap some (text ∙ ap encode same))
  pin_ok path bytes profile result false w w' parsed e =
      exec_done (write_new_private os path (encode profile)) _ w e λ _ w1 wrote done.
        let same : profile ≡ result = ok_injective _ _ (ap (λ q. q.0) done) in
        subst (λ (v : World). content path v.entries ≡ some (encode result)) (ap (λ q. q.1) done)
          (content-write_new_private os alone path (encode profile) w w1 wrote
            ∙ ap (λ q. some (encode q)) same)

  -- With no other process at work on the tree: when a profile is trusted, the file of the contact
  -- holds exactly the text of that profile, whether it was pinned before or is pinned now.
  pub trust_profile-pinned :
      (paths : StatePaths) (source : FilePath) (alias : Bytes) (profile : PublicProfile)
      (w w' : World)
      → trust_profile p os paths source alias w ≡ (ok profile, w')
      → content (contact_path paths alias) w'.entries ≡ some (encode profile)
  unfolding trust_profile
  trust_profile-pinned paths source alias profile w w' e = exec_done (lift _) _ w e λ _ w1 _ e1.
      exec_done (read_regular_limited os source 512) _ w1 e1 λ bytes w2 _ e2.
        exec_done (lift (parse p bytes)) _ w2 e2 λ found w3 parsed e3.
          exec_done (create_private_directory os paths.contacts) _ w3 e3 λ _ w4 _ e4.
            exec_done (exists os (contact_path paths alias)) _ w4 e4 λ there w5 _ e5.
              pin_ok (contact_path paths alias) bytes found profile there w5 w'
                (ap (λ q. q.0) parsed) e5

  pin_result :
      (path : FilePath) (profile result : PublicProfile) (there : Bool) (w w' : World)
      → pin p os path profile there w ≡ (ok result, w')
      → profile ≡ result
  unfolding pin
  pin_result path profile result true w w' e =
      exec_done (read_regular_limited os path 512) _ w e λ found w1 _ e1.
        exec_done (lift (parse p found)) _ w1 e1 λ pinned w2 _ e2.
          elim (Bool-cases (profile_eq pinned profile)) [
            | inl t ↦ ok_injective _ _ (ap (λ q. q.0) (rw t at e2))
            | inr t ↦ absurd (cc (rw t at e2))
          ]
  pin_result path profile result false w w' e =
      exec_done (write_new_private os path (encode profile)) _ w e
        λ _ w1 _ done. ok_injective _ _ (ap (λ q. q.0) done)

  pub trust_profile-IsProfile :
      (paths : StatePaths) (source : FilePath) (alias : Bytes) (profile : PublicProfile)
      (w w' : World)
      → trust_profile p os paths source alias w ≡ (ok profile, w')
      → IsProfile p profile
  unfolding trust_profile
  trust_profile-IsProfile paths source alias profile w w' e = exec_done (lift _) _ w e λ _ w1 _ e1.
      exec_done (read_regular_limited os source 512) _ w1 e1 λ bytes w2 _ e2.
        exec_done (lift (parse p bytes)) _ w2 e2 λ found w3 parsed e3.
          exec_done (create_private_directory os paths.contacts) _ w3 e3 λ _ w4 _ e4.
            exec_done (exists os (contact_path paths alias)) _ w4 e4 λ there w5 _ e5.
              subst (IsProfile p)
                (pin_result (contact_path paths alias) found profile there w5 w' e5)
                (parse_sound p bytes found (ap (λ q. q.0) parsed)).0

  -- A changed key is never accepted under an old name. With lawful primitives and no other
  -- process at work on the tree: if the file of a contact holds the text of a well-formed profile, then trusting a profile under
  -- that name succeeds only for that same profile.
  pub trust_profile_unchanged :
      IsLawful p
      → (paths : StatePaths) (source : FilePath) (alias : Bytes) (old profile : PublicProfile)
        (w w' : World)
      → IsProfile p old
      → content (contact_path paths alias) w.entries ≡ some (encode old)
      → trust_profile p os paths source alias w ≡ (ok profile, w')
      → profile ≡ old
  trust_profile_unchanged lawful paths source alias old profile w w' formed before e =
      let path = contact_path paths alias in
      let kept =
        subst (λ q. content path q.1.entries ≡ some (encode old)) e
          (((trust_profile-Keeps os alone p paths source alias).at w).stays path (encode old)
            before) in
      let text : encode old ≡ encode profile =
        some-injective _ _ (sym kept ∙ trust_profile-pinned paths source alias profile w w' e) in
      let read_old = (parse_iff p lawful (encode old) old).1 (formed, refl) in
      let read_new =
        (parse_iff p lawful (encode old) profile).1
          (trust_profile-IsProfile paths source alias profile w w' e, text) in
      ok_injective _ _ (sym read_new ∙ read_old)
