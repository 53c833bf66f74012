-- ===== src/Message/Parse.antt =====
-- `parse_internal` of src/message.rs.
use article.Base.{ℕ, ◌-◌, ◌==◌, ltb, not, ◌||◌, length, if◌then◌else◌}
use article.Base.Bytes.{Bytes}
use article.Error.{Result, err, invalid_input, refuse_if}
use article.Exec.{Exec, pure, gets, lift, ◌>>=◌, ◌>>◌}
use article.Primitives.{Primitives}
use article.Protocol.{
  protocol_version, crypto_suite_classical_v1, max_body_len, internal_fixed_len, signature_len,
}
use article.Format.Reader
use article.Format.Reader.{Reader}
use article.Identity.{new}
use article.Message.{ParsedMessage}

-- `a - b` on `usize` that stops at 0, which is `-` on ℕ.
abbrev saturating_sub : ℕ → ℕ → ℕ
saturating_sub a b = a - b

module _ (p : Primitives) where
  -- The steps of `parse_internal` on its reader.
  unfoldable pub read_fields : Exec Reader ParsedMessage
  read_fields = do
    version ← Reader.byte
    lift (
        refuse_if (not (version == protocol_version))
          (invalid_input "unsupported protocol version"))
    suite ← Reader.byte
    lift (
        refuse_if (not (suite == crypto_suite_classical_v1))
          (invalid_input "unsupported cryptographic suite"))
    identity_public ← Reader.array 32
    agreement_public ← Reader.array 32
    recipient_fingerprint ← Reader.array 32
    message_id ← Reader.array 32
    body_len ← Reader.u32_be
    room ← gets Reader.remaining
    lift (
        refuse_if (ltb max_body_len body_len || ltb (saturating_sub room signature_len) body_len)
          (invalid_input "invalid body length"))
    body ← Reader.take body_len
    signature ← Reader.array signature_len
    padding_len ← gets Reader.remaining
    authenticated_padding ← Reader.take padding_len
    pure (record {
      sender = new p identity_public agreement_public;
      recipient_fingerprint = recipient_fingerprint;
      message_id = message_id;
      body = body;
      signature = signature;
    })

  unfoldable pub parse_internal : Bytes → Result ParsedMessage
  parse_internal plaintext =
      if ltb (length plaintext) internal_fixed_len
      then err (invalid_input "internal message is truncated")
      else (read_fields (Reader.new plaintext)).0
