-- ===== src/Message/Trust.antt =====
-- The sender's trust in src/message.rs: what the contacts say about a verified sender.
use article.Base.{
  ◌≡◌, ◌≢◌, refl, sym, ap, Bool, true, false, some, none, List, [], ◌∷◌, arith, find?, Option-cases,
  subst, inl, inr, ◌⊎◌,
}
use article.Identity.{PublicProfile, profile_eq}
use article.Identity.Profile.{profile_eq_sound, profile_eq_refl}
use article.Contact.{Contact}
use article.Message.{SenderTrust}
use article.Message.Open.{classify, shares_key}

-- A contact stands in the list.
abbrev pub Has : List Contact → Contact → Type 0
Has [] c = ⊥
Has (x ∷ xs) c = (x ≡ c) ⊎ Has xs c

find?-some :
    (test : Contact → Bool) (xs : List Contact) (c : Contact)
    → find? test xs ≡ some c
    → Has xs c × (test c ≡ true)
find?-some test [] c h = absurd (cc)
find?-some test (x ∷ xs) c h = ground (arith, find?-some test xs c)

find?-none :
    (test : Contact → Bool) (xs : List Contact) (c : Contact)
    → find? test xs ≡ none
    → Has xs c
    → test c ≡ false
find?-none test [] c h k = absurd k
find?-none test (x ∷ xs) c h (inl e) = ground (arith, ap test e)
find?-none test (x ∷ xs) c h (inr k) = ground (arith, find?-none test xs c)

-- The reason for each verdict.
abbrev pub Justified : List Contact → PublicProfile → SenderTrust → Type 0
Justified contacts sender (SenderTrust.pinned alias) =
    (c : Contact) × Has contacts c × (c.alias ≡ alias) × (c.profile ≡ sender)
Justified contacts sender (SenderTrust.mismatch alias) =
    ((c : Contact) → Has contacts c → c.profile ≢ sender)
    × ((c : Contact) × Has contacts c × (c.alias ≡ alias) × (shares_key sender c ≡ true))
Justified contacts sender SenderTrust.unknown =
    (c : Contact) → Has contacts c → (c.profile ≢ sender) × (shares_key sender c ≡ false)

module _ (contacts : List Contact) (sender : PublicProfile) where
  abbrev exact : Contact → Bool
  exact contact = profile_eq contact.profile sender

  not_exact : find? exact contacts ≡ none → (c : Contact) → Has contacts c → c.profile ≢ sender
  not_exact h c k e = cc (
    find?-none exact contacts c h k,
    subst (λ q. profile_eq q sender ≡ true) (sym e) (profile_eq_refl sender),
  )

  -- Pinned: some contact has exactly the sender's profile, and its alias is reported. Mismatch: no
  -- contact has the profile, and the one reported shares a key with it. Unknown: no contact has the
  -- profile or shares a key with it.
  pub classify-Justified : Justified contacts sender (classify contacts sender)
  unfolding classify
  classify-Justified = elim (Option-cases (find? exact contacts)) [
    | inr (c, h) ↦
        let (has, test) = find?-some exact contacts c h in
        rw (h, classify) (c, has, refl, profile_eq_sound _ _ test)
    | inl h ↦ elim (Option-cases (find? (shares_key sender) contacts)) [
      | inr (c, k) ↦
          let (has, test) = find?-some (shares_key sender) contacts c k in
          rw (h, classify) (rw k (not_exact h, (c, has, refl, test)))
      | inl k ↦
          rw (h, classify)
            (rw k (λ c has. (not_exact h c has, find?-none (shares_key sender) contacts c k has)))
    ]
  ]
