-- ===== src/Storage/Contacts.antt =====
-- Where src/storage.rs keeps contacts.
use article.Base.{◌≡◌, refl, true, [], ◌∷◌, ◌++◌, ◌==◌, not, length, All, All-append}
use article.Base.Bytes.{Bytes, utf8}
use article.Contact.{validate_alias}
use article.Contact.Names.{IsInert, validate_alias_sound}
use article.System.Paths.{child}
use article.System.Names.{IsName, path_of_name, join_name}
use article.Storage.State.{StatePaths, contact_path}

inert-IsName : (cs : Bytes) → All IsInert cs → IsName cs
inert-IsName [] h = tt
inert-IsName (c ∷ cs) (h, k) = (h.0, inert-IsName cs k)

suffix-IsName : IsName (utf8 ".contact")
unfolding utf8
suffix-IsName = (refl, (refl, (refl, (refl, (refl, (refl, (refl, (refl, tt))))))))

-- The file of a contact with a valid name is an entry of the contacts directory itself.
pub contact_path-child :
    (paths : StatePaths) (alias : Bytes)
    → validate_alias alias ≡ true
    → contact_path paths alias ≡ child paths.contacts (alias ++ utf8 ".contact")
unfolding contact_path
contact_path-child paths alias h =
    let (some_byte, inert) = validate_alias_sound alias h in go alias some_byte inert
  where
    go :
        (name : Bytes)
        → not (length name == 0) ≡ true
        → All IsInert name
        → contact_path paths name ≡ child paths.contacts (name ++ utf8 ".contact")
    go [] h k = absurd (cc)
    go (c ∷ cs) h k =
        rw
          (path_of_name c (cs ++ utf8 ".contact")
            (All-append _ (c ∷ cs) (utf8 ".contact") (inert-IsName (c ∷ cs) k) suffix-IsName) k.0.1)
          (join_name paths.contacts ((c ∷ cs) ++ utf8 ".contact"))
