-- ===== src/Message/Envelope.antt =====
-- The outer blob of src/message.rs: what the last steps of `seal` write, `open` takes apart.
use article.Base.{
  ℕ, suc, ◌≡◌, refl, sym, ap, ◌∙◌, subst, true, false, some, List, ◌++◌, arith, ltb, length, take,
  drop, ge→ltb, ==_refl, length-append, All-append, append_assoc, take_exact, drop_exact,
}
use article.Base.Bytes.{Bytes, AllBytes, be_bytes-AllBytes, bytes_eq_refl}
use article.Error.{ok, authentication, ok_or, bind_step, refuse_step}
use article.Exec
use article.Exec.{Exec, pure, lift, exec_step, exec_refuse_step}
use article.Primitives.{Primitives, IsLawful}
use article.Entropy.{fill_random}
use article.Protocol.{outer_overhead, nonce_len, valid_blob_len}
use article.Protocol.Buckets.{valid_blob_len_iff}
use article.Contact.{Contact}
use article.Identity.{PublicProfile, IdentitySecrets, public_profile}
use article.Identity.Profile.{profile_eq_refl, agreement_public_lem}
use article.Crypto.{
  reject_all_zero, hkdf_32, derive_message_key_sender, derive_message_key_recipient,
  derive_message_key_from_shared, outer_aad, verify_message_signature,
}
use article.Crypto.Agreement.{derive_message_key_agree}
use article.Message.{ParsedMessage, inner_bytes}
use article.Message.Parse.{parse_internal}
use article.Message.Seal.{encrypt_outer, random_bytes}
use article.Message.Open.{open_letter, classify}

-- The operating system's randomness does not fail.
abbrev pub HasEntropy : Primitives → Type 0
HasEntropy p = (call n : ℕ) → (bytes : Bytes) × (p.getrandom call n ≡ some bytes)

-- A public key with which no key agreement ends in the all-zero secret, as any key of an honest
-- owner.
abbrev pub IsContributory : Primitives → Bytes → Type 0
IsContributory p public = (secret : Bytes) → reject_all_zero (p.x25519 secret public) ≡ ok tt

module _ (p : Primitives) (lawful : IsLawful p) where
  -- The sender's key derivation succeeds, with a key that the cipher accepts.
  pub derive_message_key_sender_total :
      (secret ephemeral recipient : Bytes)
      → IsContributory p recipient
      → (key : Bytes) × (derive_message_key_sender p secret ephemeral recipient ≡ ok key)
        × (p.cipher_accepts key ≡ true)
  unfolding derive_message_key_sender derive_message_key_from_shared hkdf_32
  derive_message_key_sender_total secret ephemeral recipient h =
      let (key, e) = lawful.hkdf_total _ _ _ 32 (omega arith) in
      (
        key,
        bind_step (reject_all_zero _) _ tt (h secret) (ap (ok_or _) e),
        lawful.cipher_accepts_key key (lawful.hkdf_size _ _ _ 32 key e).size,
      )

  pub inner_bytes-AllBytes :
      (sender : PublicProfile) (recipient message_id body signature padding : Bytes)
      → AllBytes sender.identity_public
      → AllBytes sender.agreement_public
      → AllBytes recipient
      → AllBytes message_id
      → AllBytes body
      → AllBytes signature
      → AllBytes padding
      → AllBytes (inner_bytes sender recipient message_id body signature padding)
  inner_bytes-AllBytes sender recipient message_id body signature padding a b c d e f g = (
    omega arith,
    (
      omega arith,
      All-append _ _ _ a (
          All-append _ _ _ b (
            All-append _ recipient _ c (
              All-append _ message_id _ d (
                All-append _ _ _ (be_bytes-AllBytes 4 (length body))
                  (All-append _ body _ e (All-append _ signature padding f g)))))),
    ),
  )

  module _ (recipient : IdentitySecrets) (contacts : List Contact)
      (secret nonce key internal ciphertext : Bytes) (nonce_size : length nonce ≡ nonce_len)
      (keyed : derive_message_key_sender p secret
          (p.x25519_public secret)
          (public_profile p recipient).agreement_public
        ≡ ok key)
      (accepts : p.cipher_accepts key ≡ true)
      (encrypted : p.encrypt key nonce (outer_aad (p.x25519_public secret) nonce) internal
        ≡ some ciphertext) where
    abbrev pub public : Bytes
    public = p.x25519_public secret

    abbrev pub envelope : Bytes
    envelope = public ++ (nonce ++ ciphertext)

    keyed_recipient :
        derive_message_key_recipient p recipient.agreement_secret public
          (public_profile p recipient).agreement_public
        ≡ ok key
    keyed_recipient =
        let e = agreement_public_lem p recipient in
        subst (λ k. derive_message_key_recipient p recipient.agreement_secret public k ≡ ok key)
          (sym e)
          (derive_message_key_agree p lawful secret recipient.agreement_secret
            ∙ subst (λ k. derive_message_key_sender p secret public k ≡ ok key) e keyed)

    public_size : length public ≡ 32
    public_size = (lawful.x25519_public_size secret).size

    cut_ciphertext : drop 56 envelope ≡ ciphertext
    cut_ciphertext =
        subst (λ b. drop 56 b ≡ ciphertext) (append_assoc public nonce ciphertext)
          (drop_exact 56 (public ++ nonce) ciphertext
            (omega (arith, length-append public nonce, public_size, nonce_size)))

    cut_nonce : take 24 (drop 32 envelope) ≡ nonce
    cut_nonce =
        rw (drop_exact 32 public (nonce ++ ciphertext) public_size)
          (take_exact 24 nonce ciphertext nonce_size)

    cut_public : take 32 envelope ≡ public
    cut_public = take_exact 32 public (nonce ++ ciphertext) public_size

    -- Opening an envelope comes down to parsing and checking what it holds.
    pub open_envelope :
        (message : ParsedMessage)
        → valid_blob_len (length envelope) ≡ true
        → parse_internal p internal ≡ ok message
        → message.recipient_fingerprint ≡ (public_profile p recipient).fingerprint
        → verify_message_signature p message.sender message.recipient_fingerprint message.message_id
            message.body message.signature
          ≡ ok tt
        → open_letter p recipient (public_profile p recipient) contacts envelope
          ≡ ok (record {
            body = message.body;
            message_id = message.message_id;
            sender = message.sender;
            sender_trust = classify contacts message.sender;
          })
    unfolding open_letter
    open_envelope message valid parsed bound verified =
        let big = (valid_blob_len_iff (length envelope)).0 valid in
        let fits : ltb (length envelope) outer_overhead ≡ false =
          ge→ltb (length envelope) outer_overhead (omega (arith, big.at_least)) in
        refuse_step _ _ _ (rw (valid, fits)) (
          refuse_step _ _ _ (rw (profile_eq_refl (public_profile p recipient))) (
            rw (cut_public, cut_nonce, cut_ciphertext)
              (bind_step _ _ key (rw keyed_recipient) (
                refuse_step _ _ _ (rw accepts) (
                  bind_step _ _ internal (rw (lawful.decrypt-encrypt _ _ _ _ _ encrypted)) (
                    bind_step _ _ message (rw parsed) (
                      refuse_step _ _ _
                        (rw (bound, bytes_eq_refl (public_profile p recipient).fingerprint))
                        (bind_step _ _ tt (rw verified) refl))))))))

  pub random_bytes_lem :
      (n calls : ℕ) (bytes : Bytes)
      → p.getrandom calls n ≡ some bytes
      → random_bytes p n calls ≡ (ok bytes, suc calls)
  unfolding random_bytes fill_random Exec.◌>>=◌
  random_bytes_lem n calls bytes e = rw (e, fill_random)

  pub encrypt_outer_lem :
      (secret public : Bytes) (recipient : PublicProfile) (nonce internal key ciphertext : Bytes)
      (n calls : ℕ)
      → derive_message_key_sender p secret public recipient.agreement_public ≡ ok key
      → p.cipher_accepts key ≡ true
      → p.encrypt key nonce (outer_aad public nonce) internal ≡ some ciphertext
      → length (public ++ (nonce ++ ciphertext)) ≡ n
      → (encrypt_outer p secret public recipient nonce internal n calls).0
        ≡ ok (public ++ (nonce ++ ciphertext))
  unfolding encrypt_outer
  encrypt_outer_lem secret public recipient nonce internal key ciphertext n calls keyed accepts e
        size =
      exec_step _ _ calls key calls (ap (λ r. (r, calls)) keyed) (
        exec_refuse_step _ _ _ calls (rw accepts) (
          exec_step _ _ calls ciphertext calls (ap (λ r. (ok_or authentication r, calls)) e)
            (exec_refuse_step _ _ _ calls (rw (size, ==_refl n)) refl)))
