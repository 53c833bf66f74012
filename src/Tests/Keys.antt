-- ===== src/Tests/Keys.antt =====
-- Key agreement and signatures of src/crypto.rs on small inputs.
use article.Base.{◌≡◌, refl, arith, replicate}
use article.Base.Bytes.{Bytes, IsArray}
use article.Error.{ok}
use article.Primitives.Toy.{toy, toy-IsLawful}
use article.Identity.{PublicProfile}
use article.Crypto.{
  derive_contact_root, derive_message_key_sender, derive_message_key_recipient, sign_message,
  verify_message_signature,
}
use article.Crypto.Agreement.{derive_contact_root_comm, derive_message_key_agree}
use article.Crypto.Signing.{
  HasSizes, signature_input_injective, signature_input_lem, signed_bytes, verify-sign_message,
}
use article.Tests.{alice, bob, alice_profile, bob_profile, greeting}

derive_contact_root_comm_example :
    derive_contact_root toy alice alice_profile bob_profile
    ≡ derive_contact_root toy bob bob_profile alice_profile
derive_contact_root_comm_example = derive_contact_root_comm toy toy-IsLawful alice bob

derive_message_key_agree_example :
    derive_message_key_recipient toy
      (replicate 32 4)
      (toy.x25519_public (replicate 32 9))
      (toy.x25519_public (replicate 32 4))
    ≡ derive_message_key_sender toy
        (replicate 32 9)
        (toy.x25519_public (replicate 32 9))
        (toy.x25519_public (replicate 32 4))
derive_message_key_agree_example =
    derive_message_key_agree toy toy-IsLawful (replicate 32 9) (replicate 32 4)

verify-sign_message_example :
    (signature : Bytes) × (sign_message toy alice alice_profile
        (replicate 32 7)
        (replicate 32 8)
        greeting
      ≡ ok signature)
    × IsArray 64 signature
    × (verify_message_signature toy alice_profile
          (replicate 32 7)
          (replicate 32 8)
          greeting
          signature
        ≡ ok tt)
verify-sign_message_example =
    verify-sign_message toy toy-IsLawful alice (replicate 32 7) (replicate 32 8) greeting
      (omega arith)

sender : PublicProfile
sender = record {
  version = 1;
  identity_public = replicate 32 5;
  agreement_public = replicate 32 6;
  fingerprint = replicate 32 7;
}

abbrev recipient : Bytes
recipient = replicate 32 1

abbrev message_id : Bytes
message_id = replicate 32 2

sizes : HasSizes sender recipient message_id
unfolding sender
sizes = record { identity = refl; agreement = refl; recipient = refl; message = refl }

signature_input_injective_example :
    (sender.identity_public ≡ sender.identity_public)
    × (sender.agreement_public ≡ sender.agreement_public)
    × (recipient ≡ recipient)
    × (message_id ≡ message_id)
    × (greeting ≡ greeting)
signature_input_injective_example =
    signature_input_injective sender sender recipient message_id greeting recipient message_id
      greeting (signed_bytes sender recipient message_id greeting) sizes sizes
      (signature_input_lem sender recipient message_id greeting (omega arith))
      (signature_input_lem sender recipient message_id greeting (omega arith))
