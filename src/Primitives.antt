-- ===== src/Primitives.antt =====
-- The cryptographic libraries and the operating system's randomness, which are not part of this
-- repository's own code (crates sha2, hkdf, ed25519-dalek, x25519-dalek, chacha20poly1305 and
-- getrandom): the operations that the program calls, and their documented behaviour.
pub mod Toy
use article.Base.{ℕ, ◌+◌, ◌*◌, ◌^◌, ◌≤◌, ◌≡◌, Bool, true, Option, some, length}
use article.Base.Bytes.{Bytes, AllBytes, IsArray}

pub record Primitives : Type 0 where
  -- `Sha256` over the concatenation of its updates
  pub sha256 : Bytes → Bytes
  -- `Hkdf::<Sha256>::new(Some(salt), input).expand(info)` to a number of bytes
  pub hkdf : Bytes → Bytes → Bytes → ℕ → Option Bytes
  -- `SigningKey::from_bytes(secret).verifying_key().to_bytes()`
  pub ed25519_public : Bytes → Bytes
  -- `SigningKey::from_bytes(secret).sign(message).to_bytes()`
  pub ed25519_sign : Bytes → Bytes → Bytes
  -- whether `VerifyingKey::from_bytes` accepts the key
  pub ed25519_accepts : Bytes → Bool
  -- `verify_strict` of a key, on a message and a signature
  pub ed25519_verify : Bytes → Bytes → Bytes → Bool
  -- `X25519PublicKey::from(&StaticSecret::from(secret)).to_bytes()`
  pub x25519_public : Bytes → Bytes
  -- `StaticSecret::from(secret).diffie_hellman(&public)`
  pub x25519 : Bytes → Bytes → Bytes
  -- whether `XChaCha20Poly1305::new_from_slice` accepts the key
  pub cipher_accepts : Bytes → Bool
  -- `encrypt` and `decrypt` of XChaCha20Poly1305: key, nonce, associated data, input
  pub encrypt : Bytes → Bytes → Bytes → Bytes → Option Bytes
  pub decrypt : Bytes → Bytes → Bytes → Bytes → Option Bytes
  -- `getrandom::getrandom`: what the call of this number returns for this many bytes
  pub getrandom : ℕ → ℕ → Option Bytes

-- What the program relies on.
pub record IsLawful (p : Primitives) : Type 0 where
  pub sha256_size : (input : Bytes) → IsArray 32 (p.sha256 input)
  pub hkdf_total :
      (salt input info : Bytes) (n : ℕ)
      → n ≤ 255 * 32
      → (key : Bytes) × (p.hkdf salt input info n ≡ some key)
  pub hkdf_size :
      (salt input info : Bytes) (n : ℕ) (key : Bytes)
      → p.hkdf salt input info n ≡ some key
      → IsArray n key
  pub ed25519_public_size : (secret : Bytes) → IsArray 32 (p.ed25519_public secret)
  pub ed25519_sign_size : (secret message : Bytes) → IsArray 64 (p.ed25519_sign secret message)
  pub ed25519_accepts_public : (secret : Bytes) → p.ed25519_accepts (p.ed25519_public secret) ≡ true
  pub ed25519_verify-sign :
      (secret message : Bytes)
      → p.ed25519_verify (p.ed25519_public secret) message (p.ed25519_sign secret message) ≡ true
  pub x25519_public_size : (secret : Bytes) → IsArray 32 (p.x25519_public secret)
  pub x25519_size : (secret public : Bytes) → IsArray 32 (p.x25519 secret public)
  pub x25519_comm : (a b : Bytes) → p.x25519 a (p.x25519_public b) ≡ p.x25519 b (p.x25519_public a)
  pub cipher_accepts_key : (key : Bytes) → length key ≡ 32 → p.cipher_accepts key ≡ true
  pub encrypt_total :
      (key nonce aad message : Bytes)
      → length message ≤ 2 ^ 32
      → (sealed : Bytes) × (p.encrypt key nonce aad message ≡ some sealed)
  pub encrypt_size :
      (key nonce aad message sealed : Bytes)
      → AllBytes message
      → p.encrypt key nonce aad message ≡ some sealed
      → IsArray (length message + 16) sealed
  pub decrypt-encrypt :
      (key nonce aad message sealed : Bytes)
      → p.encrypt key nonce aad message ≡ some sealed
      → p.decrypt key nonce aad sealed ≡ some message
  pub encrypt-decrypt :
      (key nonce aad message sealed : Bytes)
      → p.decrypt key nonce aad sealed ≡ some message
      → p.encrypt key nonce aad message ≡ some sealed
  pub getrandom_size :
      (call n : ℕ) (bytes : Bytes) → p.getrandom call n ≡ some bytes → IsArray n bytes
