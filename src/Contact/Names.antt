-- ===== src/Contact/Names.antt =====
-- What src/contact.rs accepts as a name.
use article.Base.{ℕ, ◌≡◌, true, false, [], ◌∷◌, arith, ◌==◌, not, all, All, length}
use article.Base.Bytes.{Bytes}
use article.Contact.{validate_alias, is_alias_byte, is_alphanumeric}

-- A byte that means nothing in a path.
abbrev pub IsInert : ℕ → Type 0
IsInert c = ((c == b'/') ≡ false) × ((c == b'.') ≡ false)

IsInert_lem : (c : ℕ) → is_alias_byte c ≡ true → IsInert c
unfolding is_alias_byte is_alphanumeric
IsInert_lem c h = ground arith

all-IsInert : (cs : Bytes) → all is_alias_byte cs ≡ true → All IsInert cs
all-IsInert [] h = tt
all-IsInert (c ∷ cs) h = (IsInert_lem c (ground arith), all-IsInert cs (ground arith))

-- A valid name is not empty, and none of its bytes means anything in a path.
pub validate_alias_sound :
    (alias : Bytes)
    → validate_alias alias ≡ true
    → (not (length alias == 0) ≡ true) × All IsInert alias
unfolding validate_alias
validate_alias_sound alias h = (ground arith, all-IsInert alias (ground arith))
