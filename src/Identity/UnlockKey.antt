-- ===== src/Identity/UnlockKey.antt =====
-- The text form of unlock keys in src/identity.rs, and the display form of fingerprints.
use article.Base.{◌≡◌, ◌↔◌, refl, sym, ap, ◌∙◌, subst, [], ◌∷◌, arith, length, ge→ltb}
use article.Base.Bytes.{
  Bytes, AllAscii, IsArray, utf8, is_utf8_of_ascii, bytes_eq_refl, bytes_eq_sound,
}
use article.Error.{ok, bind_ok, refuse_if-eq-ok, ok_or, ok_injective, not-false, ◌>>=◌}
use article.Protocol.{unlock_prefix}
use article.Format.Hex.{
  hex_encode, hex_decode, hex_decode-hex_encode, hex_decode_sound, hex_encode-AllDigits,
  ascii_of_digits, length-hex_encode,
}
use article.Format.Lines.{
  lines, lines-line, AllPlain, AllPlain-of_test, hex_encode-AllPlain, line-AllAscii, length-line,
}
use article.Identity.{encode_unlock_key, parse_unlock_key}

unlock_prefix_plain : AllPlain unlock_prefix
unfolding utf8
unlock_prefix_plain = AllPlain-of_test unlock_prefix refl

module _ (key : Bytes) (array : IsArray 32 key) where
  encode_unlock_key-AllAscii : AllAscii (encode_unlock_key key)
  unfolding encode_unlock_key utf8
  encode_unlock_key-AllAscii =
      line-AllAscii unlock_prefix _ (omega arith)
        (line-AllAscii _ [] (ascii_of_digits _ (hex_encode-AllDigits key array.all_bytes)) tt)

  -- The file of an unlock key is within the limit that its reader sets.
  pub length-encode_unlock_key : length (encode_unlock_key key) ≡ 82
  unfolding encode_unlock_key utf8
  length-encode_unlock_key =
      omega (arith, length-line (hex_encode key) [], length-hex_encode key, array.size)

  lines-encode_unlock_key : lines (encode_unlock_key key) ≡ unlock_prefix ∷ hex_encode key ∷ []
  unfolding encode_unlock_key
  lines-encode_unlock_key =
      lines-line _ _ unlock_prefix_plain
      ∙ ap (λ t. unlock_prefix ∷ t)
          (lines-line _ [] (hex_encode-AllPlain key array.all_bytes) ∙ unfold lines in refl)

  parse-encode_unlock_key : parse_unlock_key (encode_unlock_key key) ≡ ok key
  unfolding parse_unlock_key ◌>>=◌
  parse-encode_unlock_key =
      rw (ge→ltb 128 (length (encode_unlock_key key)) (omega (arith, length-encode_unlock_key))) (
        rw (is_utf8_of_ascii (encode_unlock_key key) encode_unlock_key-AllAscii) (
          rw lines-encode_unlock_key (
            rw (bytes_eq_refl unlock_prefix) (
              rw
                (subst (λ n. hex_decode n (hex_encode key) ≡ ok key) array.size
                  (hex_decode-hex_encode key array.all_bytes))
                (rw (bytes_eq_refl (encode_unlock_key key)))))))

parse_unlock_key_sound :
    (bytes key : Bytes)
    → parse_unlock_key bytes ≡ ok key
    → IsArray 32 key × (bytes ≡ encode_unlock_key key)
unfolding parse_unlock_key
parse_unlock_key_sound bytes key e0 =
    let (_, e1) = refuse_if-eq-ok _ _ _ e0 in
    let (_, e2) = refuse_if-eq-ok _ _ _ e1 in
    let (_, e3) = refuse_if-eq-ok _ _ _ e2 in
    bind_ok (ok_or _ _) _ e3 λ encoded found e4.
      let (_, e5) = refuse_if-eq-ok _ _ _ e4 in
      bind_ok (hex_decode 32 encoded) _ e5 λ decoded h e6.
        let (canonical, e7) = refuse_if-eq-ok _ _ _ e6 in
        subst (λ k. IsArray 32 k × (bytes ≡ encode_unlock_key k)) (ok_injective _ _ e7)
          ((hex_decode_sound 32 encoded h).0, sym (bytes_eq_sound _ _ (not-false _ canonical)))

-- A file holds an unlock key exactly when the key has 32 bytes and the file is the one that
-- `encode_unlock_key` writes for it.
pub parse_unlock_key_iff :
    (bytes key : Bytes)
    → (parse_unlock_key bytes ≡ ok key) ↔ (IsArray 32 key × (bytes ≡ encode_unlock_key key))
parse_unlock_key_iff bytes key =
    (parse_unlock_key_sound bytes key, λ h. rw h.1 (parse-encode_unlock_key key h.0))
