-- ===== src/Message/Open.antt =====
-- `open` of src/message.rs.
use article.Base.{◌+◌, Bool, none, some, List, ◌||◌, ltb, not, length, take, drop, find?}
use article.Base.Bytes.{Bytes, bytes_eq}
use article.Error.{Result, ok, cannot_open, ok_or, refuse_if, map_err, ◌>>=◌, ◌>>◌}
use article.Primitives.{Primitives}
use article.Protocol.{outer_overhead, ephemeral_public_len, nonce_len, valid_blob_len}
use article.Identity.{PublicProfile, IdentitySecrets, public_profile, profile_eq}
use article.Contact.{Contact}
use article.Crypto.{outer_aad, derive_message_key_recipient, verify_message_signature}
use article.Message.{OpenedLetter, SenderTrust}
use article.Message.Parse.{parse_internal}

-- The second search, for a contact that shares one key with the sender.
abbrev pub shares_key : PublicProfile → Contact → Bool
shares_key sender contact =
    bytes_eq contact.profile.identity_public sender.identity_public
    || bytes_eq contact.profile.agreement_public sender.agreement_public

unfoldable pub classify : List Contact → PublicProfile → SenderTrust
classify contacts sender = elim (find? (λ contact. profile_eq contact.profile sender) contacts) [
  | some contact ↦ SenderTrust.pinned contact.alias
  | none ↦ elim (find? (shares_key sender) contacts) [
    | some contact ↦ SenderTrust.mismatch contact.alias
    | none ↦ SenderTrust.unknown
  ]
]

module _ (p : Primitives) where
  unfoldable pub open_letter :
      IdentitySecrets → PublicProfile → List Contact → Bytes → Result OpenedLetter
  open_letter recipient_secrets recipient_profile contacts blob = do
    refuse_if (not (valid_blob_len (length blob)) || ltb (length blob) outer_overhead) cannot_open
    refuse_if (not (profile_eq (public_profile p recipient_secrets) recipient_profile)) cannot_open
    let ephemeral_public = take ephemeral_public_len blob
    let nonce = take nonce_len (drop ephemeral_public_len blob)
    let ciphertext = drop (ephemeral_public_len + nonce_len) blob
    message_key ←
        map_err (λ _. cannot_open)
          (derive_message_key_recipient p recipient_secrets.agreement_secret ephemeral_public
            recipient_profile.agreement_public)
    refuse_if (not (p.cipher_accepts message_key)) cannot_open
    plaintext ←
        ok_or cannot_open
          (p.decrypt message_key nonce (outer_aad ephemeral_public nonce) ciphertext)
    parsed ← map_err (λ _. cannot_open) (parse_internal p plaintext)
    refuse_if (not (bytes_eq parsed.recipient_fingerprint recipient_profile.fingerprint))
        cannot_open
    map_err (λ _. cannot_open)
        (verify_message_signature p parsed.sender parsed.recipient_fingerprint parsed.message_id
          parsed.body parsed.signature)
    ok (record {
      body = parsed.body;
      message_id = parsed.message_id;
      sender = parsed.sender;
      sender_trust = classify contacts parsed.sender;
    })
