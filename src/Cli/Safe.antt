-- ===== src/Cli/Safe.antt =====
-- What became of the files in a run of src/cli.rs, and what was written.
use mathlib.Core.Option.{some-injective}
use article.Base.{
  ◌≡◌, sym, ap, subst, ◌∙◌, ◌⊎◌, inl, inr, List, [], ◌++◌, append-nil, append_assoc, some,
  Bool-cases,
}
use article.Base.Bytes.{Bytes}
use article.Error.{ok}
use article.Exec.Always.{Frame}
use article.Primitives.{Primitives}
use article.Contact.{Contact}
use article.Identity.{IdentitySecrets, PublicProfile}
use article.Message.{OpenedLetter}
use article.Message.Open.{open_letter}
use article.System.Paths.{FilePath, path_eq, path_eq_iff}
use article.System.Kept.{Kept, Kept-refl, KeptBut, content}
use article.Cli.Terminal.{Session}
use article.Cli.Calm.{IsCalm}

-- Among what was written is the body of a letter that the bytes opened to.
pub record IsShown (p : Primitives) (bytes written : Bytes) : Type 0 where
  pub owner : IdentitySecrets × PublicProfile
  pub contacts : List Contact
  pub letter : OpenedLetter
  pub opened : open_letter p owner.0 owner.1 contacts bytes ≡ ok letter
  pub before : Bytes
  pub after : Bytes
  pub shown : written ≡ before ++ (letter.body ++ after)

-- The standard output only grows, and a file that is lost was a letter that was shown.
pub record IsSafe (p : Primitives) (s t : Session) : Type 0 where
  pub written : Bytes
  pub grown : t.stdout ≡ s.stdout ++ written
  pub stays :
      (q : FilePath) (bytes : Bytes)
      → content q s.world.entries ≡ some bytes
      → (content q t.world.entries ≡ some bytes) ⊎ IsShown p bytes written

module _ {p : Primitives} where
  IsShown-before : {bytes a : Bytes} (b : Bytes) → IsShown p bytes a → IsShown p bytes (a ++ b)
  IsShown-before b h = record {
    owner = h.owner;
    contacts = h.contacts;
    letter = h.letter;
    opened = h.opened;
    before = h.before;
    after = h.after ++ b;
    shown =
        ap (λ x. x ++ b) h.shown
        ∙ (append_assoc h.before (h.letter.body ++ h.after) b
            ∙ ap (λ x. h.before ++ x) (append_assoc h.letter.body h.after b));
  }

  IsShown-after : {bytes b : Bytes} (a : Bytes) → IsShown p bytes b → IsShown p bytes (a ++ b)
  IsShown-after a h = record {
    owner = h.owner;
    contacts = h.contacts;
    letter = h.letter;
    opened = h.opened;
    before = a ++ h.before;
    after = h.after;
    shown = ap (λ x. a ++ x) h.shown ∙ sym (append_assoc a h.before (h.letter.body ++ h.after));
  }

  pub IsSafe-trans : {s t u : Session} → IsSafe p s t → IsSafe p t u → IsSafe p s u
  IsSafe-trans {s} {t} {u} h k = record {
    written = h.written ++ k.written;
    grown =
        k.grown ∙ (ap (λ x. x ++ k.written) h.grown ∙ append_assoc s.stdout h.written k.written);
    stays = λ q bytes e. elim (h.stays q bytes e) [
      | inr shown ↦ inr (IsShown-before k.written shown)
      | inl there ↦ elim (k.stays q bytes there) [
        | inr shown ↦ inr (IsShown-after h.written shown)
        | inl still ↦ inl still
      ]
    ];
  }

  -- Steps that write some text and keep all files are safe.
  pub IsSafe-Kept :
      {s t : Session} (text : Bytes)
      → t.stdout ≡ s.stdout ++ text
      → Kept s.world.entries t.world.entries
      → IsSafe p s t
  IsSafe-Kept text e h = record {
    written = text;
    grown = e;
    stays = λ q bytes there. inl (h.stays q bytes there);
  }

  -- Losing one file is safe if it was a letter that is shown.
  pub IsSafe-shown :
      {s t : Session} (path : FilePath) (blob text : Bytes)
      → t.stdout ≡ s.stdout ++ text
      → KeptBut path s.world.entries t.world.entries
      → content path s.world.entries ≡ some blob
      → IsShown p blob text
      → IsSafe p s t
  IsSafe-shown {s} path blob text e h there shown = record {
    written = text;
    grown = e;
    stays = λ q bytes k. elim (Bool-cases (path_eq path q)) [
      | inr apart ↦ inl (h.stays q bytes apart k)
      | inl same ↦ inr (
          subst (λ b. IsShown p b text)
            (some-injective _ _
              (cc (there, k, ap (λ r. content r s.world.entries) ((path_eq_iff path q).0 same))))
            shown)
    ];
  }

abbrev pub safe : Primitives → Frame Session
safe p = record {
  rel = IsSafe p;
  rel_refl = λ s. IsSafe-Kept [] (sym (append-nil _)) (Kept-refl s.world.entries);
  rel_trans = IsSafe-trans;
}

pub safe-IsCalm : (p : Primitives) → IsCalm (safe p)
safe-IsCalm p s t h =
    IsSafe-Kept h.out h.stdout
      (subst (λ w. Kept s.world.entries w.entries) (sym h.world) (Kept-refl s.world.entries))
