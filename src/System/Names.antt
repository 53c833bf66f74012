-- ===== src/System/Names.antt =====
-- Paths of one name: what `PathBuf::from` and `join` make of a name without a slash.
use article.Base.{ℕ, ◌≡◌, refl, false, [], ◌∷◌, ◌==◌, All}
use article.Base.Bytes.{Bytes, bytes_eq}
use article.System.Paths.{FilePath, Component, path_of, join, child, pieces}

-- No byte is a slash.
abbrev pub IsName : Bytes → Type 0
IsName = All (λ c. (c == b'/') ≡ false)

pieces_lem : (cs : Bytes) → IsName cs → pieces cs ≡ cs ∷ []
unfolding pieces
pieces_lem [] h = refl
pieces_lem (c ∷ cs) h = rw (h.0, pieces_lem cs h.1)

-- A name that does not start with a dot is a path of one component.
pub path_of_name :
    (c : ℕ) (cs : Bytes)
    → IsName (c ∷ cs)
    → (c == b'.') ≡ false
    → path_of (c ∷ cs) ≡ Component.normal (c ∷ cs) ∷ []
unfolding path_of bytes_eq
path_of_name c cs h dot = rw (h.0, pieces_lem cs h.1) (rw dot refl)

pub join_name :
    (path : FilePath) (name : Bytes) → join path (Component.normal name ∷ []) ≡ child path name
unfolding join
join_name [] name = refl
join_name (c ∷ path) name = refl
