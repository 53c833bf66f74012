-- ===== src/Tests/Letters.antt =====
-- Letters from Alice to Bob: src/message.rs and src/crypto.rs on small inputs.
use article.Base.{drop, ◌≡◌, refl, arith, [], ◌∷◌, some, true, length, replicate}
use article.Base.Bytes.{Bytes, AllBytes, utf8, be_bytes, bytes_eq, from_be}
use article.Error.{Error, Result, ok, err, invalid_input, cannot_open, authentication}
use article.Exec
use article.Error
use article.Entropy.{random_array}
use article.Primitives.Toy.{toy, toy-IsLawful, toy_x25519_lem}
use article.Protocol.{padded_blob_len, valid_blob_len}
use article.Identity.{public_profile, new, fingerprint, profile_eq}
use article.Crypto.{
  hkdf_32, derive_message_key_from_shared, reject_all_zero, signature_input,
  derive_message_key_sender, derive_message_key_recipient, sign_message, verify_message_signature,
}
use article.Message.{OpenedLetter, SenderTrust}
use article.Message.Seal.{seal, random_bytes, encrypt_outer}
use article.Message.Serialize.{serialize_internal}
use article.Message.Parse.{parse_internal, read_fields}
use article.Format.Reader
use article.Message.Open.{open_letter, classify}
use article.Message.Envelope.{HasEntropy, IsContributory}
use article.Message.Delivery.{open-seal}
use article.Message.Opening.{IsAuthentic, open_letter_sound, open_letter_uniform}
use article.Message.Sealing.{seal-IsPadded}
use article.Message.Trust.{Justified, classify-Justified}
use article.Tests.{alice, bob, alice_profile, bob_profile, contacts, greeting}

pub toy-HasEntropy : HasEntropy toy
unfolding toy
toy-HasEntropy call n = (_, refl)

pub toy-IsContributory : (public : Bytes) → IsContributory toy public
unfolding reject_all_zero
toy-IsContributory public secret = let (n, e) = toy_x25519_lem secret public in rw e (ground arith)

pub greeting-AllBytes : AllBytes greeting
greeting-AllBytes = (omega arith, (omega arith, tt))

open-seal_example :
    (blob : Bytes) × (message_id : Bytes) × ((seal toy alice alice_profile bob_profile greeting 0).0
      ≡ ok blob)
    × (toy.getrandom 2 32 ≡ some message_id)
    × (open_letter toy bob bob_profile contacts blob
        ≡ ok (record {
          body = greeting;
          message_id = message_id;
          sender = alice_profile;
          sender_trust = classify contacts alice_profile;
        }))
open-seal_example =
    open-seal toy toy-IsLawful alice bob contacts greeting 0 toy-HasEntropy (toy-IsContributory _)
      greeting-AllBytes (omega arith)

pub or_empty : Result Bytes → Bytes
or_empty (ok bytes) = bytes
or_empty (err e) = []

-- The letter that Alice sends.
unfoldable letter : Bytes
unfolding or_empty seal Exec.◌>>=◌ Error.◌>>=◌ random_array random_bytes padded_blob_len
    serialize_internal sign_message signature_input encrypt_outer derive_message_key_sender
    derive_message_key_from_shared hkdf_32 reject_all_zero toy be_bytes utf8 public_profile new
    fingerprint profile_eq bytes_eq valid_blob_len
letter = or_empty (seal toy alice alice_profile bob_profile greeting 0).0

letter_lem : (seal toy alice alice_profile bob_profile greeting 0).0 ≡ ok letter
unfolding letter
letter_lem = refl

seal-IsPadded_example :
    (padded_blob_len 2 ≡ some (length letter)) × (valid_blob_len (length letter) ≡ true)
seal-IsPadded_example =
    seal-IsPadded toy alice alice_profile bob_profile greeting 0 letter letter_lem

opened : OpenedLetter
opened = record {
  body = greeting;
  message_id = replicate 32 2;
  sender = alice_profile;
  sender_trust = SenderTrust.pinned (utf8 "alice");
}

letter_opens : open_letter toy bob bob_profile contacts letter ≡ ok opened
unfolding opened letter open_letter derive_message_key_recipient parse_internal read_fields
    Reader.byte Reader.array Reader.u32_be Reader.take Reader.remaining from_be
    verify_message_signature classify profile_eq
letter_opens = refl

open_letter_sound_example : IsAuthentic toy bob bob_profile contacts letter opened
open_letter_sound_example =
    open_letter_sound toy toy-IsLawful bob bob_profile contacts letter opened letter_opens

-- The letter, with its first byte changed.
unfoldable tampered : Bytes
unfolding letter
tampered = 9 ∷ drop 1 letter

tampered_lem : open_letter toy bob bob_profile contacts tampered ≡ err cannot_open
unfolding tampered open_letter derive_message_key_recipient
tampered_lem = refl

open_letter_uniform_example : cannot_open ≡ cannot_open
open_letter_uniform_example =
    open_letter_uniform toy bob bob_profile contacts tampered cannot_open tampered_lem

classify-Justified_example : Justified contacts alice_profile (classify contacts alice_profile)
classify-Justified_example = classify-Justified contacts alice_profile
