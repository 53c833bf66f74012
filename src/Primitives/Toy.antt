-- ===== src/Primitives/Toy.antt =====
-- Primitives by checksums, for runs of the program: they satisfy all that is assumed of the real
-- ones, and hide nothing.
use native.Mathlib.Nat.{add_comm}
use mathlib.Core.Option.{some-injective}
use article.Base.{
  ℕ, zero, suc, ◌+◌, ◌-◌, ◌%◌, ◌<◌, ◌≡◌, refl, sym, ◌∙◌, ap, subst, true, Option, none, some, [],
  ◌∷◌, ◌++◌, arith, ◌==◌, length, get_or, replicate, length-replicate, take, drop, take-append,
  drop-append, length-append, take-append-drop, All-append, Bool-cases, inl, inr, if◌then◌else◌,
}
use article.Base.Bytes.{Bytes, AllBytes, IsArray, bytes_eq, bytes_eq_refl, bytes_eq_sound}
use article.Primitives.{Primitives, IsLawful}

unfoldable pub checksum : Bytes → ℕ
checksum [] = 1
checksum (b ∷ bs) = (b + checksum bs) % 256

-- `n` copies of the checksum.
unfoldable pub spread : ℕ → Bytes → Bytes
unfolding checksum
spread n bytes = replicate n (checksum bytes)

checksum-lt : (bytes : Bytes) → checksum bytes < 256
unfolding checksum
checksum-lt [] = omega arith
checksum-lt (b ∷ bs) = omega arith

replicate-AllBytes : (n b : ℕ) → b < 256 → AllBytes (replicate n b)
replicate-AllBytes zero b h = tt
replicate-AllBytes (suc n) b h = (h, replicate-AllBytes n b h)

spread-IsArray : (n : ℕ) (bytes : Bytes) → IsArray n (spread n bytes)
unfolding spread
spread-IsArray n bytes = record {
  size = length-replicate n (checksum bytes);
  all_bytes = replicate-AllBytes n (checksum bytes) (checksum-lt bytes);
}

-- The public key of a secret: a checksum that starts a fixed-size key.
secret_key : Bytes → Bytes
unfolding spread
secret_key = spread 32

-- A shared secret that both sides compute alike.
mix : Bytes → Bytes → Bytes
unfolding checksum
mix secret public = replicate 32 ((checksum secret + get_or public 0 0) % 255 + 1)

tag : Bytes → Bytes → Bytes → Bytes → Bytes
unfolding spread
tag key nonce aad message = spread 16 (key ++ (nonce ++ (aad ++ message)))

toy_encrypt : Bytes → Bytes → Bytes → Bytes → Option Bytes
unfolding tag
toy_encrypt key nonce aad message = some (message ++ tag key nonce aad message)

toy_decrypt : Bytes → Bytes → Bytes → Bytes → Option Bytes
unfolding tag bytes_eq
toy_decrypt key nonce aad sealed =
    let n = length sealed - 16 in
    let message = take n sealed in
    if bytes_eq (drop n sealed) (tag key nonce aad message) then some message else none

unfoldable pub toy : Primitives
unfolding spread secret_key mix toy_encrypt toy_decrypt bytes_eq
toy = record {
  sha256 = spread 32;
  hkdf = λ salt input info n. some (spread n (salt ++ (input ++ info)));
  ed25519_public = λ secret. secret_key secret;
  ed25519_sign = λ secret message. spread 64 (secret_key secret ++ message);
  ed25519_accepts = λ key. true;
  ed25519_verify = λ key message signature. bytes_eq signature (spread 64 (key ++ message));
  x25519_public = secret_key;
  x25519 = mix;
  cipher_accepts = λ key. length key == 32;
  encrypt = toy_encrypt;
  decrypt = toy_decrypt;
  getrandom = λ call n. some (replicate n (call % 256));
}

tag-IsArray : (key nonce aad message : Bytes) → IsArray 16 (tag key nonce aad message)
unfolding tag
tag-IsArray key nonce aad message = spread-IsArray 16 _

mix_comm : (a b : Bytes) → mix a (secret_key b) ≡ mix b (secret_key a)
unfolding mix secret_key
mix_comm a b = ap (λ n. replicate 32 (n % 255 + 1)) (add_comm (checksum a) (checksum b))

mix-IsArray : (a b : Bytes) → IsArray 32 (mix a b)
unfolding mix
mix-IsArray a b = record {
  size = length-replicate 32 ((checksum a + get_or b 0 0) % 255 + 1);
  all_bytes = replicate-AllBytes 32 ((checksum a + get_or b 0 0) % 255 + 1) (omega arith);
}

toy_round_trip :
    (key nonce aad message sealed : Bytes)
    → toy_encrypt key nonce aad message ≡ some sealed
    → toy_decrypt key nonce aad sealed ≡ some message
unfolding toy_encrypt toy_decrypt
toy_round_trip key nonce aad message sealed e =
    let t = tag key nonce aad message in
    let size : length (message ++ t) - 16 ≡ length message =
      omega (arith, length-append message t, (tag-IsArray key nonce aad message).size) in
    subst (λ s. toy_decrypt key nonce aad s ≡ some message) (some-injective _ _ e)
      (rw size (rw (take-append message t, drop-append message t) (rw (bytes_eq_refl t))))

toy_authentic :
    (key nonce aad message sealed : Bytes)
    → toy_decrypt key nonce aad sealed ≡ some message
    → toy_encrypt key nonce aad message ≡ some sealed
unfolding toy_encrypt toy_decrypt
toy_authentic key nonce aad message sealed e =
    let n = length sealed - 16 in
    let first = take n sealed in
    elim (Bool-cases (bytes_eq (drop n sealed) (tag key nonce aad first))) [
      | inl h ↦
          let m : first ≡ message = some-injective _ _ (rw h at e) in
          subst (λ m. some (m ++ tag key nonce aad m) ≡ some sealed) m
            (ap some
              (ap (λ t. first ++ t) (sym (bytes_eq_sound _ _ h)) ∙ take-append-drop n sealed))
      | inr h ↦ absurd (cc (rw h at e))
    ]

-- The assumptions can be met together.
pub toy-IsLawful : IsLawful toy
unfolding toy
toy-IsLawful = record {
  sha256_size = λ input. spread-IsArray 32 input;
  hkdf_total = λ salt input info n h. (_, refl);
  hkdf_size = λ salt input info n key e.
      subst (IsArray n) (some-injective _ _ e) (spread-IsArray n (salt ++ (input ++ info)));
  ed25519_public_size = λ secret. unfold secret_key in spread-IsArray 32 secret;
  ed25519_sign_size = λ secret message. spread-IsArray 64 (secret_key secret ++ message);
  ed25519_accepts_public = λ secret. refl;
  ed25519_verify-sign = λ secret message. bytes_eq_refl (toy.ed25519_sign secret message);
  x25519_public_size = λ secret. unfold secret_key in spread-IsArray 32 secret;
  x25519_size = mix-IsArray;
  x25519_comm = mix_comm;
  cipher_accepts_key = λ key h. rw h;
  encrypt_total = λ key nonce aad message h. unfold toy_encrypt in (_, refl);
  encrypt_size = λ key nonce aad message sealed b e.
      unfold toy_encrypt in
      subst (IsArray (length message + 16)) (some-injective _ _ e) (record {
        size = omega (
          arith,
          length-append message (tag key nonce aad message),
          (tag-IsArray key nonce aad message).size,
        );
        all_bytes = All-append _ message _ b (tag-IsArray key nonce aad message).all_bytes;
      });
  decrypt-encrypt = toy_round_trip;
  encrypt-decrypt = toy_authentic;
  getrandom_size = λ call n bytes e. subst (IsArray n) (some-injective _ _ e) (record {
    size = length-replicate n (call % 256);
    all_bytes = replicate-AllBytes n (call % 256) (omega arith);
  });
}

-- A shared secret has no zero byte.
pub toy_x25519_lem :
    (secret public : Bytes) → (n : ℕ) × (toy.x25519 secret public ≡ replicate 32 (suc n))
unfolding toy mix
toy_x25519_lem secret public =
    ((checksum secret + get_or public 0 0) % 255, ap (λ n. replicate 32 n) (omega arith))
