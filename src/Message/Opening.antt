-- ===== src/Message/Opening.antt =====
-- What a successful, or failed, `open` of src/message.rs tells.
use article.Base.{
  ◌≡◌, refl, subst, Bool, true, false, Option, some, none, List, not, ◌||◌, length, take, drop,
}
use article.Base.Bytes.{Bytes, bytes_eq_sound}
use article.Error.{
  Error, Result, ok, err, cannot_open, refuse_if, refuse_if-eq-ok, ok_or, ok_or-eq-ok, map_err,
  map_err-eq-ok, ok_injective, bind_ok, not-false, ◌>>=◌, ◌>>◌,
}
use article.Primitives.{Primitives, IsLawful}
use article.Protocol.{valid_blob_len}
use article.Identity.{PublicProfile, IdentitySecrets, public_profile}
use article.Identity.Profile.{profile_eq_sound}
use article.Contact.{Contact}
use article.Crypto.{outer_aad, derive_message_key_recipient, verify_message_signature}
use article.Crypto.Signing.{signed_bytes, signature_input_sound}
use article.Message.{OpenedLetter, ParsedMessage}
use article.Message.Parse.{parse_internal}
use article.Message.Open.{open_letter, classify}

-- The evidence for an opened letter: the blob is an ephemeral key, a nonce and the encryption of a
-- record under the agreed key; the record is bound to this recipient; and its signature verifies,
-- under the sender's key, for exactly this sender, recipient, message id and body.
pub record IsAuthentic (p : Primitives) (secrets : IdentitySecrets) (profile : PublicProfile)
    (contacts : List Contact) (blob : Bytes) (letter : OpenedLetter) : Type 0 where
  pub key : Bytes
  pub plaintext : Bytes
  pub message : ParsedMessage
  pub size : valid_blob_len (length blob) ≡ true
  pub owner : public_profile p secrets ≡ profile
  pub agreed :
      derive_message_key_recipient p secrets.agreement_secret
        (take 32 blob)
        profile.agreement_public
      ≡ ok key
  pub sealed :
      p.encrypt key
        (take 24 (drop 32 blob))
        (outer_aad (take 32 blob) (take 24 (drop 32 blob)))
        plaintext
      ≡ some (drop 56 blob)
  pub parsed : parse_internal p plaintext ≡ ok message
  pub bound : message.recipient_fingerprint ≡ profile.fingerprint
  pub signed :
      p.ed25519_verify letter.sender.identity_public
        (signed_bytes letter.sender profile.fingerprint letter.message_id letter.body)
        message.signature
      ≡ true
  pub sender : letter.sender ≡ message.sender
  pub body : letter.body ≡ message.body
  pub message_id : letter.message_id ≡ message.message_id
  pub trust : letter.sender_trust ≡ classify contacts letter.sender

verify_sound :
    (p : Primitives) (sender : PublicProfile) (fingerprint message_id body signature : Bytes)
    → verify_message_signature p sender fingerprint message_id body signature ≡ ok tt
    → p.ed25519_verify sender.identity_public
        (signed_bytes sender fingerprint message_id body)
        signature
      ≡ true
unfolding verify_message_signature
verify_sound p sender fingerprint message_id body signature e =
    let (_, e1) = refuse_if-eq-ok _ _ _ e in
    bind_ok _ _ e1 λ input found e2.
      subst (λ i. p.ed25519_verify sender.identity_public i signature ≡ true)
        (signature_input_sound sender fingerprint message_id body input found) (last_test _ _ e2)
  where
    last_test : (b : Bool) (e : Error) → refuse_if (not b) e ≡ ok tt → b ≡ true
    last_test true e h = refl
    last_test false e h = cc

-- The only error is `cannot_open`.
record IsUniform {A : Type 0} (r : Result A) : Type 0 where
  only : (e : Error) → r ≡ err e → e ≡ cannot_open

module _ {A : Type 0} where
  ok-IsUniform : (a : A) → IsUniform (ok a)
  ok-IsUniform a = record { only = λ e h. cc }

  map_err-IsUniform : (r : Result A) → IsUniform (map_err (λ _. cannot_open) r)
  map_err-IsUniform (ok a) = record { only = λ e h. cc }
  map_err-IsUniform (err x) = record { only = λ e h. cc }

  ok_or-IsUniform : (o : Option A) → IsUniform (ok_or cannot_open o)
  ok_or-IsUniform (some a) = record { only = λ e h. cc }
  ok_or-IsUniform none = record { only = λ e h. cc }

module _ {A B : Type 0} where
  bind-IsUniform :
      (m : Result A) (f : A → Result B)
      → IsUniform m
      → ((a : A) → IsUniform (f a))
      → IsUniform (m >>= f)
  unfolding ◌>>=◌
  bind-IsUniform (ok a) f h k = k a
  bind-IsUniform (err x) f h k = record { only = λ e g. h.only e (cc g) }

refuse-IsUniform :
    {A : Type 0} (test : Bool) {m : Result A}
    → IsUniform m
    → IsUniform (refuse_if test cannot_open >> m)
unfolding ◌>>=◌
refuse-IsUniform true h = record { only = λ e g. cc }
refuse-IsUniform false h = h

size_test : (a b : Bool) → (not a || b) ≡ false → a ≡ true
size_test true b h = refl
size_test false b h = cc

module _ (p : Primitives) where
  -- A letter that opens is authentic, with lawful primitives: the blob has an allowed size and is an
  -- ephemeral key, a nonce and the encryption, under the key agreed with the owner of the profile, of
  -- a record that is bound to this recipient; the sender's signature verifies for exactly the
  -- sender, recipient, message id and body that are returned; and the trust is what the contacts
  -- give to that sender.
  pub open_letter_sound :
      IsLawful p
      → (secrets : IdentitySecrets) (profile : PublicProfile) (contacts : List Contact)
        (blob : Bytes) (letter : OpenedLetter)
      → open_letter p secrets profile contacts blob ≡ ok letter
      → IsAuthentic p secrets profile contacts blob letter
  unfolding open_letter
  open_letter_sound lawful secrets profile contacts blob letter e =
      let (size, e1) = refuse_if-eq-ok _ _ _ e in
      let (owner, e2) = refuse_if-eq-ok _ _ _ e1 in
      bind_ok _ _ e2 λ key agreed e3.
        let (_, e4) = refuse_if-eq-ok _ _ _ e3 in
        bind_ok _ _ e4 λ plaintext decrypted e5. bind_ok _ _ e5 λ message parsed e6.
          let (bound, e7) = refuse_if-eq-ok _ _ _ e6 in
          bind_ok _ _ e7 λ _ verified e8.
            let binding = bytes_eq_sound _ _ (not-false _ bound) in
            subst (IsAuthentic p secrets profile contacts blob) (ok_injective _ letter e8) (record {
              key = key;
              plaintext = plaintext;
              message = message;
              size = size_test _ _ size;
              owner = profile_eq_sound _ _ (not-false _ owner);
              agreed = map_err-eq-ok _ _ agreed;
              sealed = lawful.encrypt-decrypt _ _ _ _ _ (ok_or-eq-ok _ _ decrypted);
              parsed = map_err-eq-ok _ _ parsed;
              bound = binding;
              signed =
                  subst
                    (λ f.
                      p.ed25519_verify message.sender.identity_public
                        (signed_bytes message.sender f message.message_id message.body)
                        message.signature
                      ≡ true)
                    binding
                    (verify_sound p message.sender message.recipient_fingerprint message.message_id
                      message.body message.signature (map_err-eq-ok _ _ verified));
              sender = refl;
              body = refl;
              message_id = refl;
              trust = refl;
            })

  -- Every failure to open, for any primitives, is the one error that says nothing of its cause.
  pub open_letter_uniform :
      (secrets : IdentitySecrets) (profile : PublicProfile) (contacts : List Contact) (blob : Bytes)
      (e : Error)
      → open_letter p secrets profile contacts blob ≡ err e
      → e ≡ cannot_open
  unfolding open_letter
  open_letter_uniform secrets profile contacts blob e h =
      (refuse-IsUniform _ (
          refuse-IsUniform _ (
            bind-IsUniform _ _ (map_err-IsUniform _) λ key. refuse-IsUniform _ (
              bind-IsUniform _ _ (ok_or-IsUniform _) λ plaintext.
                bind-IsUniform _ _ (map_err-IsUniform _) λ message.
                  refuse-IsUniform _
                    (bind-IsUniform _ _ (map_err-IsUniform _) λ _. ok-IsUniform _))))).only
        e h
