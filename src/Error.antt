-- ===== src/Error.antt =====
-- src/error.rs: the error type, its messages, and results.
use article.Base.{String, ◌≡◌, refl, Option, none, some, ◌++◌, Bool, true, false, not}
use article.Base.Bytes.{Bytes, utf8}

-- `std::io::Error`: its kind (`std::io::ErrorKind`) is what the program looks at.
pub data IoError : Type 0 where
  not_found already_exists permission_denied unexpected_eof invalid_data other : IoError

-- What `write!("{error}")` prints for an I/O error is up to the system.
abbrev pub IoText : Type 0
IoText = IoError → Bytes

pub data Error : Type 0 where
  authentication cannot_open identity_mismatch : Error
  invalid_input : String → Error
  io : IoError → Error
  missing : String → Error
  randomness : Error
  usage : String → Error

-- `fmt::Display`
unfoldable pub display : IoText → Error → Bytes
display text authentication = utf8 "authentication failed"
display text cannot_open = utf8 "Cannot open blob."
display text identity_mismatch = utf8 "IDENTITY MISMATCH\nPOSSIBLE MITM"
display text (invalid_input message) = utf8 message
display text (io error) = utf8 "I/O error: " ++ text error
display text (missing message) = utf8 message
display text randomness = utf8 "operating-system randomness failed"
display text (usage message) = utf8 message

-- `std::error::Error::source`
unfoldable pub source : Error → Option IoError
source (io error) = some error
source _ = none

pub data Result (A : Type 0) : Type 0 where
  ok : A → Result A
  err : Error → Result A

module _ {A : Type 0} where
  abbrev pub map_err : (Error → Error) → Result A → Result A
  map_err f (ok a) = ok a
  map_err f (err e) = err (f e)

  -- `Option::ok_or`
  abbrev pub ok_or : Error → Option A → Result A
  ok_or e none = err e
  ok_or e (some a) = ok a

  abbrev pub is_ok : Result A → Bool
  is_ok (ok a) = true
  is_ok (err e) = false

infixl 5 ◌>>=◌ ◌>>◌
-- Shut, so that the two steps of a chain can be told apart; what computes with one unfolds it.
unfoldable pub ◌>>=◌ : {A B : Type 0} → Result A → (A → Result B) → Result B
ok a >>= f = f a
err e >>= f = err e

abbrev pub ◌>>◌ : {A B : Type 0} → Result A → Result B → Result B
m >> k = m >>= λ _. k

-- An early `return Err(e)`.
abbrev pub refuse_if : Bool → Error → Result (Unit {0})
refuse_if true e = err e
refuse_if false e = ok tt

-- Inversion of a successful chain: both steps succeed.
pub bind_ok {ℓ} :
    {A B : Type 0} {P : Type ℓ} (m : Result A) (f : A → Result B) {b : B}
    → (m >>= f) ≡ ok b
    → ((a : A) → m ≡ ok a → f a ≡ ok b → P)
    → P
unfolding ◌>>=◌
bind_ok (ok a) f h k = k a refl h
bind_ok (err e) f h k = absurd (cc)

-- A chain whose first step is known goes on from its result.
pub bind_step :
    {A B : Type 0} (m : Result A) (f : A → Result B) (a : A) {r : Result B}
    → m ≡ ok a
    → f a ≡ r
    → (m >>= f) ≡ r
unfolding ◌>>=◌
bind_step m f a e k = rw e k

pub refuse_step :
    {A : Type 0} (test : Bool) (e : Error) (m : Result A) {r : Result A}
    → test ≡ false
    → m ≡ r
    → (refuse_if test e >> m) ≡ r
unfolding ◌>>=◌
refuse_step test e m h k = rw h k

pub refuse_if-eq-ok :
    {A : Type 0} (b : Bool) (e : Error) (m : Result A) {a : A}
    → (refuse_if b e >> m) ≡ ok a
    → (b ≡ false) × (m ≡ ok a)
unfolding ◌>>=◌
refuse_if-eq-ok true e m h = cc
refuse_if-eq-ok false e m h = (refl, h)

pub map_err-eq-ok :
    {A : Type 0} (f : Error → Error) (r : Result A) {a : A} → map_err f r ≡ ok a → r ≡ ok a
map_err-eq-ok f (ok a) h = h
map_err-eq-ok f (err e) h = cc

pub ok_injective : {A : Type 0} (a b : A) → ok a ≡ ok b → a ≡ b
ok_injective a b h = cc

pub ok_or-eq-ok : {A : Type 0} (e : Error) (o : Option A) {a : A} → ok_or e o ≡ ok a → o ≡ some a
ok_or-eq-ok e none h = cc
ok_or-eq-ok e (some a) h = cc

-- Reads the test of an early return.
pub not-false : (b : Bool) → not b ≡ false → b ≡ true
not-false true h = refl
not-false false h = cc
