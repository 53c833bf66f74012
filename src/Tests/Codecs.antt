-- ===== src/Tests/Codecs.antt =====
-- Texts and keys of src/identity.rs, src/format.rs and src/protocol.rs on small inputs.
use article.Base.{ℕ, ◌+◌, ◌≤◌, ◌≡◌, ◌↔◌, refl, arith, true, some, [], replicate, length, take, drop}
use article.Base.Bytes.{Bytes, IsArray, bytes_eq, utf8}
use article.Error
use article.Error.{Error, Result, ok, err, invalid_input}
use article.Exec
use article.Primitives.Toy.{toy, toy-IsLawful}
use article.Protocol.{
  outer_overhead, internal_fixed_len, padded_blob_len, valid_blob_len, identity_aad_domain,
  nonce_len,
}
use article.Protocol.Buckets.{IsBucket, padded_blob_len-least, valid_blob_len_iff}
use article.Format.Hex.{hex_encode, hex_decode, hex_decode-hex_encode}
use article.Entropy.{random_array}
use article.Identity.{
  encode, parse, encode_unlock_key, parse_unlock_key, decrypt_private_identity,
  private_file_max_len,
}
use article.Identity.Profile.{IsProfile, parse_iff}
use article.Identity.UnlockKey.{parse_unlock_key_iff}
use article.Identity.Private.{
  IsSecrets, encrypt_private_identity, private_plaintext, decrypt-encrypt_private_identity,
  decrypt_private_identity_sound,
}
use article.Tests.{alice, alice_profile, greeting, AllBytes-of_test}

parse_iff_example :
    (parse toy (encode alice_profile) ≡ ok alice_profile)
    ↔ (IsProfile toy alice_profile × (encode alice_profile ≡ encode alice_profile))
parse_iff_example = parse_iff toy toy-IsLawful (encode alice_profile) alice_profile

abbrev unlock_key : Bytes
unlock_key = replicate 32 0xab

parse_unlock_key_iff_example :
    (parse_unlock_key (encode_unlock_key unlock_key) ≡ ok unlock_key)
    ↔ (IsArray 32 unlock_key × (encode_unlock_key unlock_key ≡ encode_unlock_key unlock_key))
parse_unlock_key_iff_example = parse_unlock_key_iff (encode_unlock_key unlock_key) unlock_key

or_empty : Result Bytes → Bytes
or_empty (ok bytes) = bytes
or_empty (err e) = []

-- The identity file of Alice.
unfoldable encrypted : Bytes
unfolding or_empty encrypt_private_identity Exec.◌>>=◌ random_array toy utf8 bytes_eq
encrypted = or_empty (encrypt_private_identity toy alice unlock_key 5).0

encrypted_lem : (encrypt_private_identity toy alice unlock_key 5).0 ≡ ok encrypted
unfolding encrypted
encrypted_lem = refl

alice-IsSecrets : IsSecrets alice
alice-IsSecrets = record {
  identity_size = record { size = refl; all_bytes = AllBytes-of_test alice.identity_secret refl };
  agreement_size = record { size = refl; all_bytes = AllBytes-of_test alice.agreement_secret refl };
}

decrypt-encrypt_private_identity_example :
    decrypt_private_identity toy encrypted unlock_key ≡ ok alice
decrypt-encrypt_private_identity_example =
    decrypt-encrypt_private_identity toy toy-IsLawful alice unlock_key 5 encrypted alice-IsSecrets
      encrypted_lem

decrypted_lem : decrypt_private_identity toy encrypted unlock_key ≡ ok alice
unfolding decrypt_private_identity encrypted Error.◌>>=◌
decrypted_lem = refl

decrypt_private_identity_sound_example :
    (length alice.identity_secret ≡ 32)
    × (length alice.agreement_secret ≡ 32)
    × (length encrypted ≡ private_file_max_len)
    × (toy.encrypt unlock_key
          (take nonce_len encrypted)
          identity_aad_domain
          (private_plaintext alice)
        ≡ some (drop nonce_len encrypted))
decrypt_private_identity_sound_example =
    decrypt_private_identity_sound toy toy-IsLawful encrypted unlock_key alice decrypted_lem

padded_blob_len-least_example :
    (bucket : ℕ) × (padded_blob_len 1000 ≡ some bucket)
    × (valid_blob_len bucket ≡ true)
    × (outer_overhead + internal_fixed_len + 1000 ≤ bucket)
    × ((m : ℕ)
        → valid_blob_len m ≡ true
        → outer_overhead + internal_fixed_len + 1000 ≤ m
        → bucket ≤ m)
padded_blob_len-least_example = padded_blob_len-least 1000 (omega arith)

valid_blob_len_iff_example : (valid_blob_len 1024 ≡ true) ↔ IsBucket 1024
valid_blob_len_iff_example = valid_blob_len_iff 1024

hex_decode-hex_encode_example : hex_decode 2 (hex_encode greeting) ≡ ok greeting
hex_decode-hex_encode_example = hex_decode-hex_encode greeting (AllBytes-of_test greeting refl)
