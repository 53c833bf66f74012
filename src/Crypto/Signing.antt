-- ===== src/Crypto/Signing.antt =====
-- What src/crypto.rs signs and verifies.
use article.Base.{
  ◌^◌, ◌<◌, ◌≡◌, refl, sym, ◌∙◌, subst, true, ◌∷◌, ◌++◌, arith, length, lt→ltb, append_injective,
}
use article.Base.Bytes.{Bytes, IsArray, be_bytes, length-be_bytes}
use article.Error.{ok, ◌>>=◌}
use article.Primitives.{Primitives, IsLawful}
use article.Protocol.{signature_domain, protocol_version, crypto_suite_classical_v1}
use article.Identity.{PublicProfile, IdentitySecrets, public_profile}
use article.Identity.Profile.{profile_eq_refl, identity_public_lem}
use article.Crypto.{signature_input, sign_message, verify_message_signature}

-- The bytes that are signed, for a body whose length fits.
abbrev pub signed_bytes : PublicProfile → Bytes → Bytes → Bytes → Bytes
signed_bytes sender recipient_fingerprint message_id body =
    signature_domain
    ++ (protocol_version
        ∷ (crypto_suite_classical_v1
            ∷ (sender.identity_public
                ++ (sender.agreement_public
                    ++ (recipient_fingerprint
                        ++ (message_id ++ (be_bytes 4 (length body) ++ body)))))))

module _ (sender : PublicProfile) (recipient_fingerprint message_id body : Bytes) where
  pub signature_input_lem :
      length body < 2 ^ 32
      → signature_input sender recipient_fingerprint message_id body
        ≡ ok (signed_bytes sender recipient_fingerprint message_id body)
  unfolding signature_input ◌>>=◌
  signature_input_lem h = rw (lt→ltb (length body) (2 ^ 32) h)

  pub signature_input_sound :
      (input : Bytes)
      → signature_input sender recipient_fingerprint message_id body ≡ ok input
      → input ≡ signed_bytes sender recipient_fingerprint message_id body
  unfolding signature_input ◌>>=◌
  signature_input_sound input h = ground arith

-- The parts of what is signed whose sizes the program fixes.
pub record HasSizes (sender : PublicProfile) (recipient_fingerprint message_id : Bytes)
    : Type 0 where
  pub identity : length sender.identity_public ≡ 32
  pub agreement : length sender.agreement_public ≡ 32
  pub recipient : length recipient_fingerprint ≡ 32
  pub message : length message_id ≡ 32

-- For keys, fingerprints and message ids of 32 bytes, one signature input is the input of one
-- letter only: it fixes the sender's keys, the recipient's fingerprint, the message id and the
-- body.
pub signature_input_injective :
    (s t : PublicProfile) (r m b r' m' b' input : Bytes)
    → HasSizes s r m
    → HasSizes t r' m'
    → signature_input s r m b ≡ ok input
    → signature_input t r' m' b' ≡ ok input
    → (s.identity_public ≡ t.identity_public)
      × (s.agreement_public ≡ t.agreement_public)
      × (r ≡ r')
      × (m ≡ m')
      × (b ≡ b')
signature_input_injective s t r m b r' m' b' input h k e f =
    let same =
      sym (signature_input_sound s r m b input e) ∙ signature_input_sound t r' m' b' input f in
    let (_, tail) = append_injective signature_domain signature_domain _ _ refl same in
    let tail' : s.identity_public
          ++ (s.agreement_public ++ (r ++ (m ++ (be_bytes 4 (length b) ++ b))))
        ≡ t.identity_public
          ++ (t.agreement_public ++ (r' ++ (m' ++ (be_bytes 4 (length b') ++ b')))) =
      cc tail in
    let (e1, t1) =
      append_injective s.identity_public t.identity_public _ _ (h.identity ∙ sym k.identity)
        tail' in
    let (e2, t2) =
      append_injective s.agreement_public t.agreement_public _ _ (h.agreement ∙ sym k.agreement)
        t1 in
    let (e3, t3) = append_injective r r' _ _ (h.recipient ∙ sym k.recipient) t2 in
    let (e4, t4) = append_injective m m' _ _ (h.message ∙ sym k.message) t3 in
    let (_, e5) =
      append_injective (be_bytes 4 (length b)) (be_bytes 4 (length b')) _ _
        (length-be_bytes 4 (length b) ∙ sym (length-be_bytes 4 (length b'))) t4 in
    (e1, e2, e3, e4, e5)

module _ (p : Primitives) (lawful : IsLawful p) where
  -- With lawful primitives, signing succeeds for the owner of a profile and a body whose length
  -- fits in 32 bits, and the signature that it makes has 64 bytes and is accepted for the same
  -- parts.
  pub verify-sign_message :
      (secrets : IdentitySecrets) (recipient_fingerprint message_id body : Bytes)
      → length body < 2 ^ 32
      → (signature : Bytes) × (sign_message p secrets
            (public_profile p secrets)
            recipient_fingerprint
            message_id
            body
          ≡ ok signature)
        × IsArray 64 signature
        × (verify_message_signature p
              (public_profile p secrets)
              recipient_fingerprint
              message_id
              body
              signature
            ≡ ok tt)
  unfolding sign_message verify_message_signature ◌>>=◌
  verify-sign_message secrets r m body h =
      let sender = public_profile p secrets in
      let input = signed_bytes sender r m body in
      let e = signature_input_lem sender r m body h in
      let i : sender.identity_public ≡ p.ed25519_public secrets.identity_secret =
        identity_public_lem p secrets in
      let signature = p.ed25519_sign secrets.identity_secret input in
      let accepted : p.ed25519_accepts sender.identity_public ≡ true =
        rw i (lawful.ed25519_accepts_public secrets.identity_secret) in
      let verified : p.ed25519_verify sender.identity_public input signature ≡ true =
        subst (λ k. p.ed25519_verify k input signature ≡ true) (sym i)
          (lawful.ed25519_verify-sign secrets.identity_secret input) in
      (
        signature,
        rw (profile_eq_refl sender) (rw e),
        lawful.ed25519_sign_size _ _,
        rw (accepted, e) (rw verified),
      )
