-- ===== src/Message/Serialize.antt =====
-- `serialize_internal` of src/message.rs.
use article.Base.{◌+◌, ◌^◌, ◌≤◌, ◌≡◌, some, ◌∷◌, ◌++◌, arith, ltb, length, ge→ltb}
use article.Base.Bytes.{Bytes, be_bytes}
use article.Error.{Result, ok, invalid_input, ok_or, refuse_if, ◌>>=◌, ◌>>◌}
use article.Primitives.{Primitives}
use article.Protocol.{
  protocol_version, crypto_suite_classical_v1, max_body_len, internal_fixed_len, checked_add,
  and_then,
}
use article.Identity.{PublicProfile, IdentitySecrets}
use article.Crypto.{u32_try_from, sign_message}
use article.Message.{inner_bytes}

module _ (p : Primitives) where
  unfoldable pub serialize_internal :
      IdentitySecrets → PublicProfile → PublicProfile → Bytes → Bytes → Bytes → Result Bytes
  serialize_internal sender_secrets sender_profile recipient message_id body padding = do
    refuse_if (ltb max_body_len (length body))
        (invalid_input "message body exceeds the 1 MiB limit")
    body_len ← ok_or (invalid_input "message body is too large") (u32_try_from (length body))
    signature ← sign_message p sender_secrets sender_profile recipient.fingerprint message_id body
    capacity ← ok_or (invalid_input "internal message length overflow") (
        and_then (checked_add internal_fixed_len (length body))
          λ length'. checked_add length' (length padding))
    ok (
        protocol_version
        ∷ (crypto_suite_classical_v1
            ∷ (sender_profile.identity_public
                ++ (sender_profile.agreement_public
                    ++ (recipient.fingerprint
                        ++ (message_id
                            ++ (be_bytes 4 body_len ++ (body ++ (signature ++ padding)))))))))

  module _ (secrets : IdentitySecrets) (sender recipient : PublicProfile)
      (message_id body padding signature : Bytes) where
    -- For a body within the limit the record is the fields in their order.
    pub serialize_internal_lem :
        length body ≤ max_body_len
        → length padding ≤ 2 ^ 32
        → sign_message p secrets sender recipient.fingerprint message_id body ≡ ok signature
        → serialize_internal secrets sender recipient message_id body padding
          ≡ ok (inner_bytes sender recipient.fingerprint message_id body signature padding)
    unfolding serialize_internal ◌>>=◌
    serialize_internal_lem h k e =
        let fits : u32_try_from (length body) ≡ some (length body) = ground arith in
        let first : checked_add internal_fixed_len (length body)
            ≡ some (internal_fixed_len + length body) =
          ground arith in
        let second : checked_add (internal_fixed_len + length body) (length padding)
            ≡ some (internal_fixed_len + length body + length padding) =
          ground arith in
        rw (ge→ltb max_body_len (length body) h) (rw (fits, e) (rw (first) (rw second)))
