-- ===== src/Crypto/Agreement.antt =====
-- The two ends of a key agreement in src/crypto.rs.
use article.Base.{◌≡◌, Bool-cases, inl, inr}
use article.Base.Bytes.{Bytes, bytes_le, bytes_le_antisymm, bytes_le_total}
use article.Error.{◌>>=◌}
use article.Primitives.{Primitives, IsLawful}
use article.Identity.{IdentitySecrets, public_profile, new, canonical_key_material}
use article.Identity.Profile.{profile_eq_refl}
use article.Crypto.{
  ordered, derive_contact_root, derive_message_key_sender, derive_message_key_recipient,
}

ordered_comm : (a b : Bytes) → ordered a b ≡ ordered b a
unfolding ordered
ordered_comm a b = elim (Bool-cases (bytes_le a b)) [
  | inr h ↦ rw (h, bytes_le_total a b h)
  | inl h ↦ elim (Bool-cases (bytes_le b a)) [
    | inr k ↦ rw (h, k)
    | inl k ↦ let e = bytes_le_antisymm a b h k in rw (h, k) (cc e)
  ]
]

module _ (p : Primitives) (lawful : IsLawful p) where
  shared_comm :
      (a b : IdentitySecrets)
      → p.x25519 a.agreement_secret (public_profile p b).agreement_public
        ≡ p.x25519 b.agreement_secret (public_profile p a).agreement_public
  unfolding public_profile new
  shared_comm a b = lawful.x25519_comm a.agreement_secret b.agreement_secret

  -- With lawful primitives, both correspondents derive the same contact root, or fail alike.
  pub derive_contact_root_comm :
      (a b : IdentitySecrets)
      → derive_contact_root p a (public_profile p a) (public_profile p b)
        ≡ derive_contact_root p b (public_profile p b) (public_profile p a)
  unfolding derive_contact_root ◌>>=◌
  derive_contact_root_comm a b =
      rw (profile_eq_refl (public_profile p a), profile_eq_refl (public_profile p b))
        (rw (
          ordered_comm (canonical_key_material (public_profile p a))
              (canonical_key_material (public_profile p b)),
          shared_comm a b,
        ))

  -- With lawful primitives, the recipient derives the key that the sender derived for an
  -- ephemeral secret, or both fail alike.
  pub derive_message_key_agree :
      (ephemeral_secret recipient_secret : Bytes)
      → derive_message_key_recipient p recipient_secret
          (p.x25519_public ephemeral_secret)
          (p.x25519_public recipient_secret)
        ≡ derive_message_key_sender p ephemeral_secret
            (p.x25519_public ephemeral_secret)
            (p.x25519_public recipient_secret)
  unfolding derive_message_key_recipient derive_message_key_sender
  derive_message_key_agree e r = rw (lawful.x25519_comm r e)
