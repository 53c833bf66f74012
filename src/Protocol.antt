-- ===== src/Protocol.antt =====
-- src/protocol.rs: the constants of protocol v1 and the padding buckets.
pub mod Buckets
use article.Base.{
  ℕ, zero, suc, ◌+◌, ◌*◌, ◌^◌, ◌-◌, ◌/◌, ◌%◌, Bool, true, false, Option, none, some, ◌&&◌, ltb, leb,
  ◌==◌, if◌then◌else◌,
}
use article.Base.Bytes.{Bytes, utf8}

abbrev pub protocol_version : ℕ
protocol_version = 1

abbrev pub crypto_suite_classical_v1 : ℕ
crypto_suite_classical_v1 = 1

abbrev pub profile_version : ℕ
profile_version = 1

abbrev pub ed25519_public_len : ℕ
ed25519_public_len = 32

abbrev pub ed25519_secret_len : ℕ
ed25519_secret_len = 32

abbrev pub x25519_public_len : ℕ
x25519_public_len = 32

abbrev pub x25519_secret_len : ℕ
x25519_secret_len = 32

abbrev pub fingerprint_len : ℕ
fingerprint_len = 32

abbrev pub message_id_len : ℕ
message_id_len = 32

abbrev pub signature_len : ℕ
signature_len = 64

abbrev pub nonce_len : ℕ
nonce_len = 24

abbrev pub ephemeral_public_len : ℕ
ephemeral_public_len = 32

abbrev pub aead_tag_len : ℕ
aead_tag_len = 16

abbrev pub outer_overhead : ℕ
outer_overhead = ephemeral_public_len + nonce_len + aead_tag_len

abbrev pub internal_fixed_len : ℕ
internal_fixed_len =
    1 + 1 + ed25519_public_len + x25519_public_len + fingerprint_len + message_id_len + 4
    + signature_len

abbrev pub min_blob_len : ℕ
min_blob_len = 512

abbrev pub max_body_len : ℕ
max_body_len = 1024 * 1024

abbrev pub max_blob_len : ℕ
max_blob_len = 2 * 1024 * 1024

abbrev pub profile_prefix : Bytes
profile_prefix = utf8 "sealed-profile-v1"

abbrev pub unlock_prefix : Bytes
unlock_prefix = utf8 "sealed-unlock-v1"

abbrev pub fingerprint_domain : Bytes
fingerprint_domain = utf8 "sealed/fingerprint/v1"

abbrev pub contact_root_salt : Bytes
contact_root_salt = utf8 "sealed/contact-root/extract/v1"

abbrev pub contact_root_info : Bytes
contact_root_info = utf8 "sealed/contact-root/expand/v1"

abbrev pub subkey_salt : Bytes
subkey_salt = utf8 "sealed/contact-subkey/extract/v1"

abbrev pub stego_info : Bytes
stego_info = utf8 "sealed/steganography/v1"

abbrev pub message_key_salt : Bytes
message_key_salt = utf8 "sealed/message-key/extract/v1"

abbrev pub message_key_info : Bytes
message_key_info = utf8 "sealed/message-key/expand/v1"

abbrev pub signature_domain : Bytes
signature_domain = utf8 "sealed/message-signature/v1"

abbrev pub outer_aad_domain : Bytes
outer_aad_domain = utf8 "sealed/outer-aead/v1"

abbrev pub identity_aad_domain : Bytes
identity_aad_domain = utf8 "sealed/identity-at-rest/v1"

-- `usize` on a 64-bit target.
abbrev pub usize_max : ℕ
usize_max = 2 ^ 64 - 1

abbrev pub checked_add : ℕ → ℕ → Option ℕ
checked_add a b = if leb (a + b) usize_max then some (a + b) else none

abbrev pub checked_mul : ℕ → ℕ → Option ℕ
checked_mul a b = if leb (a * b) usize_max then some (a * b) else none

-- `while bucket < required { bucket = bucket.checked_mul(2)?; }`. The bucket doubles from 512, so
-- 64 rounds reach past every `usize`.
grow : ℕ → ℕ → ℕ → Option ℕ
grow zero bucket required = none
grow (suc fuel) bucket required = elim (ltb bucket required) [
  | true ↦ elim (checked_mul bucket 2) [ none ↦ none | some b ↦ grow fuel b required ]
  | false ↦ some bucket
]

abbrev pub and_then : {A B : Type 0} → Option A → (A → Option B) → Option B
and_then none f = none
and_then (some a) f = f a

unfoldable pub padded_blob_len : ℕ → Option ℕ
unfolding grow
padded_blob_len body_len =
    if ltb max_body_len body_len
    then none
    else and_then (checked_add internal_fixed_len body_len) λ inner.
      and_then (checked_add inner outer_overhead) λ required.
        and_then (grow 64 min_blob_len required)
          λ bucket. if leb bucket max_blob_len then some bucket else none

-- `usize::is_power_of_two`: halve while even; a power of two ends at 1.
power_of_two : ℕ → ℕ → Bool
power_of_two zero n = false
power_of_two (suc fuel) n = elim (n % 2 == 0 && ltb 0 n) [
  | true ↦ power_of_two fuel (n / 2)
  | false ↦ n == 1
]

unfoldable pub is_power_of_two : ℕ → Bool
unfolding power_of_two
is_power_of_two = power_of_two 64

unfoldable pub valid_blob_len : ℕ → Bool
unfolding is_power_of_two
valid_blob_len length = leb min_blob_len length && leb length max_blob_len && is_power_of_two length
