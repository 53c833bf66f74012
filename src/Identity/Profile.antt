-- ===== src/Identity/Profile.antt =====
-- The text form of public profiles in src/identity.rs, and their fingerprints.
use article.Base.{
  ◌+◌, ◌≡◌, ◌↔◌, refl, sym, ap, ◌∙◌, subst, true, Option, some, [], ◌∷◌, ◌++◌, arith, length,
  length-append, All-append, ge→ltb,
}
use article.Base.Bytes.{
  Bytes, AllAscii, IsArray, utf8, is_utf8_of_ascii, bytes_eq_refl, bytes_eq_sound, strip_prefix,
  strip_prefix-append,
}
use article.Error.{ok, bind_ok, refuse_if-eq-ok, ok_or, ok_injective, not-false, ◌>>=◌}
use article.Primitives.{Primitives, IsLawful}
use article.Protocol.{profile_version, profile_prefix}
use article.Format.Hex.{
  hex_encode, hex_decode, hex_decode-hex_encode, hex_decode_sound, hex_encode-AllDigits,
  ascii_of_digits, length-hex_encode,
}
use article.Format.Lines.{
  line, lines, lines-line, AllPlain, AllPlain-of_test, AllPlain-append, hex_encode-AllPlain,
  line-AllAscii, length-line,
}
use article.Identity.{
  PublicProfile, parse_field, encode, fingerprint, new, parse, public_profile, profile_eq,
  IdentitySecrets,
}

-- What every profile that the program makes satisfies.
pub record IsProfile (p : Primitives) (profile : PublicProfile) : Type 0 where
  pub version : profile.version ≡ profile_version
  pub identity_size : IsArray 32 profile.identity_public
  pub agreement_size : IsArray 32 profile.agreement_public
  pub fingerprint :
      profile.fingerprint
      ≡ fingerprint p profile_version profile.identity_public profile.agreement_public

-- The derived equality is equality.
pub profile_eq_sound : (a b : PublicProfile) → profile_eq a b ≡ true → a ≡ b
unfolding profile_eq
profile_eq_sound a b h = ground (
  arith,
  bytes_eq_sound a.identity_public b.identity_public,
  bytes_eq_sound a.agreement_public b.agreement_public,
  bytes_eq_sound a.fingerprint b.fingerprint,
)

pub profile_eq_refl : (a : PublicProfile) → profile_eq a a ≡ true
unfolding profile_eq
profile_eq_refl a = ground (
  arith,
  bytes_eq_refl a.identity_public,
  bytes_eq_refl a.agreement_public,
  bytes_eq_refl a.fingerprint,
)

-- The text of one field: a plain label and the encoding of 32 bytes.
record IsField (label bytes : Bytes) : Type 0 where
  ascii : AllAscii label
  plain : AllPlain label
  array : IsArray 32 bytes

module _ (label bytes : Bytes) (f : IsField label bytes) where
  field-AllAscii : AllAscii (label ++ hex_encode bytes)
  field-AllAscii =
      All-append _ label _ f.ascii
        (ascii_of_digits _ (hex_encode-AllDigits bytes f.array.all_bytes))

  field-AllPlain : AllPlain (label ++ hex_encode bytes)
  field-AllPlain = AllPlain-append label _ f.plain (hex_encode-AllPlain bytes f.array.all_bytes)

  field_length : length (label ++ hex_encode bytes) ≡ length label + 64
  field_length =
      omega (arith, length-append label (hex_encode bytes), length-hex_encode bytes, f.array.size)

  parse_field_lem : parse_field 32 (some (label ++ hex_encode bytes)) label ≡ ok bytes
  unfolding parse_field ◌>>=◌
  parse_field_lem = rw (strip_prefix-append label (hex_encode bytes)) (
      subst (λ n. hex_decode n (hex_encode bytes) ≡ ok bytes) f.array.size
        (hex_decode-hex_encode bytes f.array.all_bytes))

abbrev identity_label : Bytes
identity_label = utf8 "ed25519="

abbrev agreement_label : Bytes
agreement_label = utf8 "x25519="

abbrev fingerprint_label : Bytes
fingerprint_label = utf8 "fingerprint="

module _ (p : Primitives) (lawful : IsLawful p) (profile : PublicProfile)
    (valid : IsProfile p profile) where
  identity-IsField : IsField identity_label profile.identity_public
  unfolding utf8
  identity-IsField = record {
    ascii = omega arith;
    plain = AllPlain-of_test identity_label refl;
    array = valid.identity_size;
  }

  agreement-IsField : IsField agreement_label profile.agreement_public
  unfolding utf8
  agreement-IsField = record {
    ascii = omega arith;
    plain = AllPlain-of_test agreement_label refl;
    array = valid.agreement_size;
  }

  fingerprint-IsField : IsField fingerprint_label profile.fingerprint
  unfolding utf8
  fingerprint-IsField = record {
    ascii = omega arith;
    plain = AllPlain-of_test fingerprint_label refl;
    array = rw valid.fingerprint (unfold fingerprint in lawful.sha256_size _);
  }

  prefix_plain : AllPlain profile_prefix
  unfolding utf8
  prefix_plain = AllPlain-of_test profile_prefix refl

  encode-AllAscii : AllAscii (encode profile)
  unfolding encode
  encode-AllAscii = line-AllAscii profile_prefix _ (unfold utf8 in omega arith) (
      line-AllAscii _ _ (field-AllAscii _ _ identity-IsField) (
        line-AllAscii _ _ (field-AllAscii _ _ agreement-IsField)
          (line-AllAscii _ [] (field-AllAscii _ _ fingerprint-IsField) tt)))

  -- Four lines of fixed lengths.
  pub length-encode : length (encode profile) ≡ 240
  unfolding encode utf8
  length-encode = omega (
    arith,
    length-line (identity_label ++ hex_encode profile.identity_public) _,
    length-line (agreement_label ++ hex_encode profile.agreement_public) _,
    length-line (fingerprint_label ++ hex_encode profile.fingerprint) [],
    field_length _ _ identity-IsField,
    field_length _ _ agreement-IsField,
    field_length _ _ fingerprint-IsField,
  )

  lines-encode :
      lines (encode profile)
      ≡ profile_prefix
        ∷ (identity_label ++ hex_encode profile.identity_public)
        ∷ (agreement_label ++ hex_encode profile.agreement_public)
        ∷ (fingerprint_label ++ hex_encode profile.fingerprint)
        ∷ []
  unfolding encode
  lines-encode =
      lines-line _ _ prefix_plain
      ∙ ap (λ t. profile_prefix ∷ t)
          (lines-line _ _ (field-AllPlain _ _ identity-IsField)
            ∙ ap (λ t. (identity_label ++ hex_encode profile.identity_public) ∷ t)
                (lines-line _ _ (field-AllPlain _ _ agreement-IsField)
                  ∙ ap (λ t. (agreement_label ++ hex_encode profile.agreement_public) ∷ t)
                      (lines-line _ [] (field-AllPlain _ _ fingerprint-IsField)
                        ∙ unfold lines in refl)))

  new_lem : new p profile.identity_public profile.agreement_public ≡ profile
  unfolding new
  new_lem = cc (valid.version, valid.fingerprint)

  -- Parsing reads back every profile that was written.
  pub parse-encode : parse p (encode profile) ≡ ok profile
  unfolding parse ◌>>=◌
  parse-encode = rw (ge→ltb 512 (length (encode profile)) (omega (arith, length-encode))) (
      rw (is_utf8_of_ascii (encode profile) encode-AllAscii) (
        rw lines-encode (
          rw (bytes_eq_refl profile_prefix) (
            rw
              (
                parse_field_lem _ _ identity-IsField,
                parse_field_lem _ _ agreement-IsField,
                parse_field_lem _ _ fingerprint-IsField,
              )
              (rw new_lem
                (rw (bytes_eq_refl profile.fingerprint, bytes_eq_refl (encode profile))))))))

-- Profiles made by the program are well formed.
pub new-IsProfile :
    (p : Primitives) (id ag : Bytes) → IsArray 32 id → IsArray 32 ag → IsProfile p (new p id ag)
unfolding new
new-IsProfile p id ag h k = record {
  version = refl;
  identity_size = h;
  agreement_size = k;
  fingerprint = refl;
}

pub public_profile-IsProfile :
    (p : Primitives)
    → IsLawful p
    → (secrets : IdentitySecrets) → IsProfile p (public_profile p secrets)
unfolding public_profile
public_profile-IsProfile p lawful secrets =
    new-IsProfile p _ _ (lawful.ed25519_public_size _) (lawful.x25519_public_size _)

parse_field_sound :
    (line : Option Bytes) (label : Bytes) (bytes : Bytes)
    → parse_field 32 line label ≡ ok bytes
    → IsArray 32 bytes
unfolding parse_field
parse_field_sound line label bytes e0 = bind_ok (ok_or _ line) _ e0 λ l found e1.
    bind_ok (ok_or _ (strip_prefix label l)) _ e1
      λ encoded cut e2. (hex_decode_sound 32 encoded e2).0

module _ (p : Primitives) where
  -- Whatever parses is a well-formed profile, and the bytes are its own encoding.
  pub parse_sound :
      (bytes : Bytes) (profile : PublicProfile)
      → parse p bytes ≡ ok profile
      → IsProfile p profile × (bytes ≡ encode profile)
  unfolding parse
  parse_sound bytes profile e0 =
      let (_, e1) = refuse_if-eq-ok _ _ _ e0 in
      let (_, e2) = refuse_if-eq-ok _ _ _ e1 in
      let (_, e3) = refuse_if-eq-ok _ _ _ e2 in
      bind_ok (parse_field 32 _ identity_label) _ e3 λ id found1 e4.
        bind_ok (parse_field 32 _ agreement_label) _ e4 λ ag found2 e5.
          bind_ok (parse_field 32 _ fingerprint_label) _ e5 λ fp found3 e6.
            let (_, e7) = refuse_if-eq-ok _ _ _ e6 in
            let (_, e8) = refuse_if-eq-ok _ _ _ e7 in
            let (canonical, e9) = refuse_if-eq-ok _ _ _ e8 in
            let same : new p id ag ≡ profile = ok_injective _ _ e9 in
            subst (λ q. IsProfile p q × (bytes ≡ encode q)) same
              (
                new-IsProfile p id ag (parse_field_sound _ _ _ found1)
                    (parse_field_sound _ _ _ found2),
                sym (bytes_eq_sound _ _ (not-false _ canonical)),
              )

  -- With lawful primitives, a text parses to a profile exactly when the profile is well formed
  -- and the text is the one that `encode` writes for it.
  pub parse_iff :
      IsLawful p
      → (bytes : Bytes) (profile : PublicProfile)
      → (parse p bytes ≡ ok profile) ↔ (IsProfile p profile × (bytes ≡ encode profile))
  parse_iff lawful bytes profile =
      (parse_sound bytes profile, λ h. rw (h.1) (parse-encode p lawful profile h.0))

pub identity_public_lem :
    (p : Primitives) (secrets : IdentitySecrets)
    → (public_profile p secrets).identity_public ≡ p.ed25519_public secrets.identity_secret
unfolding public_profile new
identity_public_lem p secrets = refl

pub agreement_public_lem :
    (p : Primitives) (secrets : IdentitySecrets)
    → (public_profile p secrets).agreement_public ≡ p.x25519_public secrets.agreement_secret
unfolding public_profile new
agreement_public_lem p secrets = refl

pub fingerprint_array :
    (p : Primitives)
    → IsLawful p
    → (profile : PublicProfile) → IsProfile p profile
    → IsArray 32 profile.fingerprint
unfolding fingerprint
fingerprint_array p lawful profile valid = rw valid.fingerprint (lawful.sha256_size _)
