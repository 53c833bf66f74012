-- ===== src/Tests.antt =====
-- Runs of the program on small inputs, with the checksum primitives.
mod Letters
mod Keys
mod Codecs
mod Parts
mod State
mod Home
mod Cli
mod Sent
mod Created
use article.Base.{ℕ, ◌≡◌, Bool, true, List, [], ◌∷◌, replicate, ltb, all, arith}
use article.Base.Bytes.{Bytes, AllBytes, utf8}
use article.Primitives.Toy.{toy}
use article.Identity.{IdentitySecrets, PublicProfile, public_profile}
use article.Contact.{Contact}

abbrev pub alice : IdentitySecrets
alice = record { identity_secret = replicate 32 1; agreement_secret = replicate 32 2 }

abbrev pub bob : IdentitySecrets
bob = record { identity_secret = replicate 32 3; agreement_secret = replicate 32 4 }

abbrev pub alice_profile : PublicProfile
alice_profile = public_profile toy alice

abbrev pub bob_profile : PublicProfile
bob_profile = public_profile toy bob

-- The contacts of Bob, who knows Alice.
abbrev pub contacts : List Contact
contacts = record { alias = utf8 "alice"; profile = alice_profile } ∷ []

abbrev pub greeting : Bytes
greeting = b'h' ∷ (b'i' ∷ [])

-- The bytes of a text, checked by evaluation.
pub AllBytes-of_test : (bytes : Bytes) → all (λ b. ltb b 256) bytes ≡ true → AllBytes bytes
AllBytes-of_test [] h = tt
AllBytes-of_test (b ∷ bs) h = (ground arith, AllBytes-of_test bs (ground arith))
