-- ===== src/Message/Delivery.antt =====
-- `seal` and then `open` of src/message.rs, as one run.
use article.Base.{
  ℕ, suc, ◌+◌, ◌-◌, ◌^◌, ◌≤◌, ◌≡◌, refl, sym, ap, subst, true, some, List, ◌++◌, arith, length,
  ge→ltb, ==_refl, length-append,
}
use article.Base.Bytes.{Bytes, AllBytes, IsArray}
use article.Error.{ok, invalid_input, ok_or}
use article.Exec.{lift, exec_step, exec_refuse_step}
use article.Primitives.{Primitives, IsLawful}
use article.Entropy.{random_array_lem}
use article.Protocol.{
  max_body_len, internal_fixed_len, outer_overhead, nonce_len, padded_blob_len, valid_blob_len,
}
use article.Protocol.Buckets.{padded_blob_len-least, valid_blob_len_iff}
use article.Contact.{Contact}
use article.Identity.{PublicProfile, IdentitySecrets, public_profile, new}
use article.Identity.Profile.{public_profile-IsProfile, fingerprint_array}
use article.Crypto.{derive_message_key_sender, outer_aad, sign_message, verify_message_signature}
use article.Crypto.Signing.{verify-sign_message}
use article.Message.{inner_bytes}
use article.Message.Serialize.{serialize_internal_lem}
use article.Message.Parse.{parse_internal}
use article.Message.RoundTrip.{length-inner_bytes, parse_internal-inner_bytes}
use article.Message.Seal.{seal}
use article.Message.Open.{open_letter, classify}
use article.Message.Envelope.{
  HasEntropy, IsContributory, derive_message_key_sender_total, inner_bytes-AllBytes, open_envelope,
  random_bytes_lem, encrypt_outer_lem,
}

module _ (p : Primitives) (lawful : IsLawful p) (sender recipient : IdentitySecrets)
    (body : Bytes) where
  abbrev from : PublicProfile
  from = public_profile p sender

  abbrev to : PublicProfile
  to = public_profile p recipient

  -- One run of `seal`: what it draws, and what the primitives return to it.
  record Run (calls : ℕ) : Type 0 where
    secret : Bytes
    nonce : Bytes
    message_id : Bytes
    padding : Bytes
    signature : Bytes
    key : Bytes
    ciphertext : Bytes
    blob_len : ℕ
    drawn1 : p.getrandom calls 32 ≡ some secret
    drawn2 : p.getrandom (suc calls) nonce_len ≡ some nonce
    drawn3 : p.getrandom (suc (suc calls)) 32 ≡ some message_id
    drawn4 :
        p.getrandom
          (suc (suc (suc calls)))
          (blob_len - outer_overhead - internal_fixed_len - length body)
        ≡ some padding
    within : length body ≤ max_body_len
    chosen : padded_blob_len (length body) ≡ some blob_len
    valid : valid_blob_len blob_len ≡ true
    room : outer_overhead + internal_fixed_len + length body ≤ blob_len
    signed : sign_message p sender from to.fingerprint message_id body ≡ ok signature
    signature_array : IsArray 64 signature
    verified : verify_message_signature p from to.fingerprint message_id body signature ≡ ok tt
    keyed : derive_message_key_sender p secret (p.x25519_public secret) to.agreement_public ≡ ok key
    accepts : p.cipher_accepts key ≡ true
    encrypted :
        p.encrypt key nonce
          (outer_aad (p.x25519_public secret) nonce)
          (inner_bytes from to.fingerprint message_id body signature padding)
        ≡ some ciphertext

  module _ (bytes : AllBytes body) (calls : ℕ) (r : Run calls) where
    abbrev internal : Bytes
    internal = inner_bytes from to.fingerprint r.message_id body r.signature r.padding

    abbrev blob : Bytes
    blob = p.x25519_public r.secret ++ (r.nonce ++ r.ciphertext)

    padding_array :
        IsArray (r.blob_len - outer_overhead - internal_fixed_len - length body) r.padding
    padding_array = lawful.getrandom_size _ _ r.padding r.drawn4

    internal-length : length internal ≡ r.blob_len - outer_overhead
    internal-length =
        let a = public_profile-IsProfile p lawful sender in
        let b = public_profile-IsProfile p lawful recipient in
        omega (
          arith,
          length-inner_bytes from to.fingerprint r.message_id body r.signature r.padding
              a.identity_size.size a.agreement_size.size (fingerprint_array p lawful to b).size
              (lawful.getrandom_size _ 32 r.message_id r.drawn3).size r.signature_array.size,
          padding_array.size,
          r.room,
        )

    internal-AllBytes : AllBytes internal
    internal-AllBytes =
        let a = public_profile-IsProfile p lawful sender in
        let b = public_profile-IsProfile p lawful recipient in
        inner_bytes-AllBytes p lawful from to.fingerprint r.message_id body r.signature r.padding
          a.identity_size.all_bytes a.agreement_size.all_bytes
          (fingerprint_array p lawful to b).all_bytes
          (lawful.getrandom_size _ 32 r.message_id r.drawn3).all_bytes bytes
          r.signature_array.all_bytes padding_array.all_bytes

    blob-length : length blob ≡ r.blob_len
    blob-length = omega (
      arith,
      length-append (p.x25519_public r.secret) (r.nonce ++ r.ciphertext),
      length-append r.nonce r.ciphertext,
      (lawful.x25519_public_size r.secret).size,
      (lawful.getrandom_size _ nonce_len r.nonce r.drawn2).size,
      (lawful.encrypt_size _ _ _ internal r.ciphertext internal-AllBytes r.encrypted).size,
      internal-length,
      r.room,
    )

    small_padding : length r.padding ≤ 2 ^ 32
    small_padding =
        let bucket = (valid_blob_len_iff r.blob_len).0 r.valid in
        omega (arith, padding_array.size, bucket.at_most)

    seal_lem : (seal p sender from to body calls).0 ≡ ok blob
    unfolding seal
    seal_lem =
        let c1 = suc calls in
        let c2 = suc c1 in
        let c3 = suc c2 in
        let c4 = suc c3 in
        let sealed =
          serialize_internal_lem p sender from to r.message_id body r.padding r.signature r.within
            small_padding r.signed in
        exec_refuse_step _ _ _ calls (ge→ltb max_body_len (length body) r.within) (
          exec_step _ _ calls r.secret c1 (random_array_lem p 32 calls r.drawn1) (
            exec_step _ _ c1 r.nonce c2 (random_array_lem p nonce_len c1 r.drawn2) (
              exec_step _ _ c2 r.message_id c3 (random_array_lem p 32 c2 r.drawn3) (
                exec_step _ _ c3 r.blob_len c3 (chosen_step c3) (
                  exec_step _ _ c3 r.padding c4 (random_bytes_lem p lawful _ c3 r.padding r.drawn4)
                    (exec_step _ _ c4 internal c4 (ap (λ x. (x, c4)) sealed) (
                      exec_refuse_step _ _ _ c4
                        (rw (internal-length, ==_refl (r.blob_len - outer_overhead)))
                        (encrypt_outer_lem p lawful r.secret (p.x25519_public r.secret) to r.nonce
                          internal r.key r.ciphertext r.blob_len c4 r.keyed r.accepts r.encrypted
                          blob-length))))))))
      where
        chosen_step :
            (c : ℕ)
            → lift
                (ok_or
                  (invalid_input "message cannot fit a supported padding bucket")
                  (padded_blob_len (length body)))
                c
              ≡ (ok r.blob_len, c)
        chosen_step c = rw r.chosen

    inner_lem :
        parse_internal p internal
        ≡ ok (record {
          sender = from;
          recipient_fingerprint = to.fingerprint;
          message_id = r.message_id;
          body = body;
          signature = r.signature;
        })
    unfolding public_profile new
    inner_lem =
        let a = public_profile-IsProfile p lawful sender in
        let b = public_profile-IsProfile p lawful recipient in
        parse_internal-inner_bytes p from.identity_public from.agreement_public to.fingerprint
          r.message_id body r.signature r.padding a.identity_size.size a.agreement_size.size
          (fingerprint_array p lawful to b).size
          (lawful.getrandom_size _ 32 r.message_id r.drawn3).size r.signature_array.size r.within
          small_padding

    open_lem :
        (contacts : List Contact)
        → open_letter p recipient to contacts blob
          ≡ ok (record {
            body = body;
            message_id = r.message_id;
            sender = from;
            sender_trust = classify contacts from;
          })
    open_lem contacts =
        open_envelope p lawful recipient contacts r.secret r.nonce r.key internal r.ciphertext
          (lawful.getrandom_size _ nonce_len r.nonce r.drawn2).size r.keyed r.accepts r.encrypted
          (record {
            sender = from;
            recipient_fingerprint = to.fingerprint;
            message_id = r.message_id;
            body = body;
            signature = r.signature;
          })
          (subst (λ k. valid_blob_len k ≡ true) (sym blob-length) r.valid) inner_lem refl r.verified

  -- With randomness and a contributory key there is such a run.
  find-Run :
      (calls : ℕ)
      → HasEntropy p
      → IsContributory p to.agreement_public
      → length body ≤ max_body_len
      → Run calls
  find-Run calls entropy contributory within =
      let (secret, drawn1) = entropy calls 32 in
      let (nonce, drawn2) = entropy (suc calls) nonce_len in
      let (message_id, drawn3) = entropy (suc (suc calls)) 32 in
      let (n, chosen, valid, room, _) = padded_blob_len-least (length body) within in
      let padding_len = n - outer_overhead - internal_fixed_len - length body in
      let (padding, drawn4) = entropy (suc (suc (suc calls))) padding_len in
      let (signature, signed, array, verified) =
        verify-sign_message p lawful sender to.fingerprint message_id body (omega arith) in
      let (key, keyed, accepts) =
        derive_message_key_sender_total p lawful secret (p.x25519_public secret) to.agreement_public
          contributory in
      let internal = inner_bytes from to.fingerprint message_id body signature padding in
      let a = public_profile-IsProfile p lawful sender in
      let b = public_profile-IsProfile p lawful recipient in
      let size =
        length-inner_bytes from to.fingerprint message_id body signature padding
          a.identity_size.size a.agreement_size.size (fingerprint_array p lawful to b).size
          (lawful.getrandom_size _ 32 message_id drawn3).size array.size in
      let short : length internal ≤ 2 ^ 32 = omega (
        arith,
        size,
        (lawful.getrandom_size _ padding_len padding drawn4).size,
        ((valid_blob_len_iff n).0 valid).at_most,
        room,
        within,
      ) in
      let (ciphertext, encrypted) =
        lawful.encrypt_total key nonce (outer_aad (p.x25519_public secret) nonce) internal short in
      record {
        secret = secret;
        nonce = nonce;
        message_id = message_id;
        padding = padding;
        signature = signature;
        key = key;
        ciphertext = ciphertext;
        blob_len = n;
        drawn1 = drawn1;
        drawn2 = drawn2;
        drawn3 = drawn3;
        drawn4 = drawn4;
        within = within;
        chosen = chosen;
        valid = valid;
        room = room;
        signed = signed;
        signature_array = array;
        verified = verified;
        keyed = keyed;
        accepts = accepts;
        encrypted = encrypted;
      }

module _ (p : Primitives) where
  -- A letter that is sealed for a recipient opens there. With lawful primitives, given randomness and a recipient key that
  -- is contributory, sealing succeeds for every body of bytes within the limit; and the recipient,
  -- with any list of contacts, gets back the body, the message id that was drawn, the sender's
  -- profile and the trust that the contacts give to it.
  pub open-seal :
      IsLawful p
      → (sender recipient : IdentitySecrets) (contacts : List Contact) (body : Bytes) (calls : ℕ)
      → HasEntropy p
      → IsContributory p (public_profile p recipient).agreement_public
      → AllBytes body
      → length body ≤ max_body_len
      → (blob : Bytes) × (message_id : Bytes) × ((seal p sender
            (public_profile p sender)
            (public_profile p recipient)
            body
            calls).0
          ≡ ok blob)
        × (p.getrandom (suc (suc calls)) 32 ≡ some message_id)
        × (open_letter p recipient (public_profile p recipient) contacts blob
            ≡ ok (record {
              body = body;
              message_id = message_id;
              sender = public_profile p sender;
              sender_trust = classify contacts (public_profile p sender);
            }))
  open-seal lawful sender recipient contacts body calls entropy contributory bytes within =
      let r = find-Run p lawful sender recipient body calls entropy contributory within in
      (
        blob p lawful sender recipient body bytes calls r,
        r.message_id,
        seal_lem p lawful sender recipient body bytes calls r,
        r.drawn3,
        open_lem p lawful sender recipient body bytes calls r contacts,
      )
