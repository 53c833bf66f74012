-- ===== src/Identity.antt =====
-- src/identity.rs: public profiles, private identities and unlock keys.
pub mod Profile
pub mod UnlockKey
pub mod Private
use article.Base.{
  ℕ, zero, suc, ◌+◌, ◌-◌, Bool, true, false, Option, none, some, List, [], ◌∷◌, ◌++◌, ◌==◌, ltb,
  not, ◌&&◌, ◌||◌, map, length, take, drop, get_or, if◌then◌else◌,
}
use article.Base.Bytes.{Bytes, utf8, bytes_eq, is_utf8, strip_prefix, upper}
use article.Error.{Result, ok, err, invalid_input, authentication, ok_or, refuse_if, ◌>>=◌, ◌>>◌}
use article.Primitives.{Primitives}
use article.Protocol.{
  profile_version, profile_prefix, unlock_prefix, fingerprint_domain, identity_aad_domain,
  nonce_len, ed25519_secret_len, x25519_secret_len,
}
use article.Format.Hex.{hex_encode, hex_decode}
use article.Format.Lines.{lines, line}

abbrev pub private_plaintext_len : ℕ
private_plaintext_len = 1 + ed25519_secret_len + x25519_secret_len

abbrev pub private_file_max_len : ℕ
private_file_max_len = nonce_len + private_plaintext_len + 16

pub record PublicProfile : Type 0 where
  pub version : ℕ
  pub identity_public : Bytes
  pub agreement_public : Bytes
  pub fingerprint : Bytes

-- The derived `==`.
unfoldable pub profile_eq : PublicProfile → PublicProfile → Bool
profile_eq a b =
    a.version == b.version
    && bytes_eq a.identity_public b.identity_public
    && bytes_eq a.agreement_public b.agreement_public
    && bytes_eq a.fingerprint b.fingerprint

pub record IdentitySecrets : Type 0 where
  pub identity_secret : Bytes
  pub agreement_secret : Bytes

-- `str::lines().next()`
abbrev pub next : List Bytes → Option Bytes
next [] = none
next (l ∷ ls) = some l

abbrev pub rest : List Bytes → List Bytes
rest [] = []
rest (l ∷ ls) = ls

-- `lines.next() != Some(expected)`
abbrev pub next_is : Bytes → List Bytes → Bool
next_is expected [] = false
next_is expected (l ∷ ls) = bytes_eq l expected

abbrev pub is_empty : List Bytes → Bool
is_empty [] = true
is_empty (l ∷ ls) = false

unfoldable pub parse_field : ℕ → Option Bytes → Bytes → Result Bytes
parse_field n line prefix = do
  line ← ok_or (invalid_input "public profile field is missing") line
  encoded ← ok_or (invalid_input "invalid public profile field") (strip_prefix prefix line)
  hex_decode n encoded

unfoldable pub encode : PublicProfile → Bytes
encode profile = line profile_prefix (
    line (utf8 "ed25519=" ++ hex_encode profile.identity_public) (
      line (utf8 "x25519=" ++ hex_encode profile.agreement_public)
        (line (utf8 "fingerprint=" ++ hex_encode profile.fingerprint) [])))

abbrev pub canonical_key_material : PublicProfile → Bytes
canonical_key_material profile = profile.identity_public ++ profile.agreement_public

-- The loop over `chunks(4)`, with a dash before every chunk but the first.
chunks : Bytes → Bytes
chunks [] = []
chunks (a ∷ b ∷ c ∷ d ∷ e ∷ bytes) = a ∷ b ∷ c ∷ d ∷ b'-' ∷ chunks (e ∷ bytes)
chunks bytes = bytes

unfoldable pub format_fingerprint : Bytes → Bytes
unfolding chunks
format_fingerprint fingerprint = chunks (map upper (hex_encode fingerprint))

abbrev pub formatted_fingerprint : PublicProfile → Bytes
formatted_fingerprint profile = format_fingerprint profile.fingerprint

unfoldable pub encode_unlock_key : Bytes → Bytes
encode_unlock_key unlock_key = line unlock_prefix (line (hex_encode unlock_key) [])

unfoldable pub parse_unlock_key : Bytes → Result Bytes
parse_unlock_key bytes = do
  refuse_if (ltb 128 (length bytes)) (invalid_input "unlock key file is too large")
  refuse_if (not (is_utf8 bytes)) (invalid_input "unlock key file is not UTF-8")
  let text = lines bytes
  refuse_if (not (next_is unlock_prefix text)) (invalid_input "unsupported unlock key file")
  let text = rest text
  encoded ← ok_or (invalid_input "unlock key is missing") (next text)
  refuse_if (not (is_empty (rest text))) (invalid_input "unexpected unlock key field")
  key ← hex_decode 32 encoded
  refuse_if (not (bytes_eq (encode_unlock_key key) bytes))
      (invalid_input "unlock key encoding is not canonical")
  ok key

module _ (p : Primitives) where
  unfoldable pub fingerprint : ℕ → Bytes → Bytes → Bytes
  fingerprint version identity_public agreement_public =
      p.sha256 (fingerprint_domain ++ (version ∷ (identity_public ++ agreement_public)))

  -- `PublicProfile::new`
  unfoldable pub new : Bytes → Bytes → PublicProfile
  new identity_public agreement_public = record {
    version = profile_version;
    identity_public = identity_public;
    agreement_public = agreement_public;
    fingerprint = fingerprint profile_version identity_public agreement_public;
  }

  -- `PublicProfile::parse`
  unfoldable pub parse : Bytes → Result PublicProfile
  parse bytes = do
    refuse_if (ltb 512 (length bytes)) (invalid_input "public profile is too large")
    refuse_if (not (is_utf8 bytes)) (invalid_input "public profile is not UTF-8")
    let text = lines bytes
    refuse_if (not (next_is profile_prefix text)) (invalid_input "unsupported public profile")
    let text = rest text
    identity_public ← parse_field 32 (next text) (utf8 "ed25519=")
    let text = rest text
    agreement_public ← parse_field 32 (next text) (utf8 "x25519=")
    let text = rest text
    supplied_fingerprint ← parse_field 32 (next text) (utf8 "fingerprint=")
    refuse_if (not (is_empty (rest text))) (invalid_input "unexpected public profile field")
    let profile = new identity_public agreement_public
    refuse_if (not (bytes_eq profile.fingerprint supplied_fingerprint))
        (invalid_input "public profile fingerprint is invalid")
    refuse_if (not (bytes_eq (encode profile) bytes))
        (invalid_input "public profile encoding is not canonical")
    ok profile

  unfoldable pub public_profile : IdentitySecrets → PublicProfile
  public_profile secrets =
      new (p.ed25519_public secrets.identity_secret) (p.x25519_public secrets.agreement_secret)

  unfoldable pub decrypt_private_identity : Bytes → Bytes → Result IdentitySecrets
  decrypt_private_identity encrypted unlock_key =
      if not (length encrypted == private_file_max_len) then err authentication else do
        let nonce = take nonce_len encrypted
        let ciphertext = drop nonce_len encrypted
        plaintext ← ok_or authentication (p.decrypt unlock_key nonce identity_aad_domain ciphertext)
        refuse_if
            (not (length plaintext == private_plaintext_len)
              || not (get_or plaintext 0 0 == profile_version))
            authentication
        ok (record {
          identity_secret = take 32 (drop 1 plaintext);
          agreement_secret = take 32 (drop 33 plaintext);
        })
