-- ===== src/Crypto.antt =====
-- src/crypto.rs: key agreement, key derivation, and what is signed.
pub mod Agreement
pub mod Signing
use article.Base.{
  ℕ, ◌+◌, ◌^◌, ◌*◌, Bool, true, false, Option, none, some, List, [], ◌∷◌, ◌++◌, ◌==◌, ltb, not,
  length, all, if◌then◌else◌,
}
use article.Base.Bytes.{Bytes, bytes_le, be_bytes}
use article.Error.{Result, ok, err, invalid_input, authentication, ok_or, refuse_if, ◌>>=◌, ◌>>◌}
use article.Primitives.{Primitives}
use article.Protocol.{
  contact_root_info, contact_root_salt, crypto_suite_classical_v1, message_key_info,
  message_key_salt, outer_aad_domain, protocol_version, signature_domain, stego_info, subkey_salt,
}
use article.Identity.{
  PublicProfile, IdentitySecrets, public_profile, profile_eq, canonical_key_material,
}

unfoldable pub reject_all_zero : Bytes → Result (Unit {0})
reject_all_zero shared = if all (λ byte. byte == 0) shared then err authentication else ok tt

-- `u32::try_from(length)`
abbrev pub u32_try_from : ℕ → Option ℕ
u32_try_from n = if ltb n (2 ^ 32) then some n else none

unfoldable pub signature_input : PublicProfile → Bytes → Bytes → Bytes → Result Bytes
signature_input sender recipient_fingerprint message_id body = do
  body_len ← ok_or (invalid_input "message body is too large") (u32_try_from (length body))
  ok (
      signature_domain
      ++ (protocol_version
          ∷ (crypto_suite_classical_v1
              ∷ (sender.identity_public
                  ++ (sender.agreement_public
                      ++ (recipient_fingerprint
                          ++ (message_id ++ (be_bytes 4 body_len ++ body))))))))

abbrev pub outer_aad : Bytes → Bytes → Bytes
outer_aad ephemeral_public nonce = outer_aad_domain ++ (ephemeral_public ++ nonce)

-- The two endpoints in unsigned byte order.
unfoldable pub ordered : Bytes → Bytes → Bytes
ordered local_material peer_material =
    if bytes_le local_material peer_material
    then local_material ++ peer_material
    else peer_material ++ local_material

module _ (p : Primitives) where
  unfoldable pub hkdf_32 : Bytes → Bytes → Bytes → Result Bytes
  hkdf_32 salt input info =
      ok_or (invalid_input "HKDF output length is invalid") (p.hkdf salt input info 32)

  unfoldable pub derive_contact_root :
      IdentitySecrets → PublicProfile → PublicProfile → Result Bytes
  derive_contact_root local_secrets local_profile peer_profile = do
    refuse_if (not (profile_eq (public_profile p local_secrets) local_profile))
        (invalid_input "local public profile does not match private identity")
    let shared = p.x25519 local_secrets.agreement_secret peer_profile.agreement_public
    reject_all_zero shared
    let endpoints =
        ordered (canonical_key_material local_profile) (canonical_key_material peer_profile)
    hkdf_32 contact_root_salt shared (contact_root_info ++ endpoints)

  unfoldable pub derive_stego_key : Bytes → Result Bytes
  derive_stego_key contact_root = hkdf_32 subkey_salt contact_root stego_info

  unfoldable pub derive_message_key_from_shared : Bytes → Bytes → Bytes → Result Bytes
  derive_message_key_from_shared shared ephemeral_public recipient_agreement_public =
      hkdf_32 message_key_salt shared
        (message_key_info ++ (ephemeral_public ++ recipient_agreement_public))

  unfoldable pub derive_message_key_sender : Bytes → Bytes → Bytes → Result Bytes
  derive_message_key_sender ephemeral_secret ephemeral_public recipient_agreement_public = do
    let shared = p.x25519 ephemeral_secret recipient_agreement_public
    reject_all_zero shared
    derive_message_key_from_shared shared ephemeral_public recipient_agreement_public

  unfoldable pub derive_message_key_recipient : Bytes → Bytes → Bytes → Result Bytes
  derive_message_key_recipient recipient_agreement_secret ephemeral_public
        recipient_agreement_public =
      do
        let shared = p.x25519 recipient_agreement_secret ephemeral_public
        reject_all_zero shared
        derive_message_key_from_shared shared ephemeral_public recipient_agreement_public

  unfoldable pub sign_message :
      IdentitySecrets → PublicProfile → Bytes → Bytes → Bytes → Result Bytes
  sign_message secrets sender recipient_fingerprint message_id body = do
    refuse_if (not (profile_eq (public_profile p secrets) sender))
        (invalid_input "sender public profile does not match private identity")
    input ← signature_input sender recipient_fingerprint message_id body
    ok (p.ed25519_sign secrets.identity_secret input)

  unfoldable pub verify_message_signature :
      PublicProfile → Bytes → Bytes → Bytes → Bytes → Result (Unit {0})
  verify_message_signature sender recipient_fingerprint message_id body signature = do
    refuse_if (not (p.ed25519_accepts sender.identity_public)) authentication
    input ← signature_input sender recipient_fingerprint message_id body
    refuse_if (not (p.ed25519_verify sender.identity_public input signature)) authentication
