-- ===== src/Message/Seal.antt =====
-- `seal` of src/message.rs.
use article.Base.{ℕ, ◌-◌, ◌==◌, ◌++◌, ltb, not, length}
use article.Base.Bytes.{Bytes}
use article.Error.{invalid_input, authentication, ok_or, refuse_if}
use article.Exec.{Exec, pure, lift, ◌>>=◌, ◌>>◌}
use article.Primitives.{Primitives}
use article.Entropy.{random_array, fill_random}
use article.Protocol.{max_body_len, internal_fixed_len, outer_overhead, nonce_len, padded_blob_len}
use article.Identity.{PublicProfile, IdentitySecrets}
use article.Crypto.{derive_message_key_sender, outer_aad}
use article.Message.Serialize.{serialize_internal}

module _ (p : Primitives) where
  unfoldable pub random_bytes : ℕ → Exec ℕ Bytes
  random_bytes n = do bytes ← fill_random p n; pure bytes

  -- The last steps, once the record is written.
  unfoldable pub encrypt_outer : Bytes → Bytes → PublicProfile → Bytes → Bytes → ℕ → Exec ℕ Bytes
  encrypt_outer ephemeral_secret ephemeral_public recipient nonce internal blob_len = do
    message_key ←
        lift
          (derive_message_key_sender p ephemeral_secret ephemeral_public recipient.agreement_public)
    lift (refuse_if (not (p.cipher_accepts message_key)) authentication)
    ciphertext ← lift (
        ok_or authentication
          (p.encrypt message_key nonce (outer_aad ephemeral_public nonce) internal))
    let blob = ephemeral_public ++ (nonce ++ ciphertext)
    lift (
        refuse_if (not (length blob == blob_len))
          (invalid_input "outer padding calculation failed"))
    pure blob

  unfoldable pub seal : IdentitySecrets → PublicProfile → PublicProfile → Bytes → Exec ℕ Bytes
  seal sender_secrets sender_profile recipient body = do
    lift (
        refuse_if (ltb max_body_len (length body))
          (invalid_input "message body exceeds the 1 MiB limit"))
    ephemeral_secret ← random_array p 32
    let ephemeral_public = p.x25519_public ephemeral_secret
    nonce ← random_array p nonce_len
    message_id ← random_array p 32
    blob_len ← lift (
        ok_or (invalid_input "message cannot fit a supported padding bucket")
          (padded_blob_len (length body)))
    let plaintext_len = blob_len - outer_overhead
    let padding_len = plaintext_len - internal_fixed_len - length body
    padding ← random_bytes padding_len
    internal ←
        lift (serialize_internal p sender_secrets sender_profile recipient message_id body padding)
    lift (
        refuse_if (not (length internal == plaintext_len))
          (invalid_input "internal padding calculation failed"))
    encrypt_outer ephemeral_secret ephemeral_public recipient nonce internal blob_len
