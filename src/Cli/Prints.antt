-- ===== src/Cli/Prints.antt =====
-- What steps of src/cli.rs that succeed have written to the standard output.
use article.Base.{
  suc, ◌≡◌, refl, sym, ap, ◌∙◌, Bool, true, false, [], ◌∷◌, ◌++◌, append-nil, append_assoc,
  if◌then◌else◌, Option-cases, inl, inr,
}
use article.Base.Bytes.{Bytes}
use article.Error.{Result, ok}
use article.Exec.{Exec, pure, exec_done, ◌>>=◌, ◌>>◌}
use article.Primitives.{Primitives}
use article.Message.{OpenedLetter}
use article.System.Files.{Os}
use article.Cli.Terminal.{Console, Session, eprint, call, write_out, flush}
use article.Cli.Style.{TerminalStyle}
use article.Cli.Commands.{print_letter}
use article.Cli.Wizards.{ends_line, print_letter_status, present_letter}

-- A success wrote just this text, and did not touch the files.
pub record Prints {A : Type 0} (m : Exec Session A) (text : Bytes) : Type 0 where
  pub at :
      (s t : Session) (a : A)
      → m s ≡ (ok a, t)
      → (t.world ≡ s.world) × (t.stdout ≡ s.stdout ++ text)

pub bind-Prints :
    {A B : Type 0} {x y : Bytes} (m : Exec Session A) (f : A → Exec Session B)
    → Prints m x
    → ((a : A) → Prints (f a) y)
    → Prints (m >>= f) (x ++ y)
bind-Prints {x = x} {y = y} m f h k = record {
  at = λ s u b e. exec_done m f s e λ a t first rest.
      let (same, wrote) = h.at s t a first in
      let (same', wrote') = (k a).at t u b rest in
      (same' ∙ same, wrote' ∙ (ap (λ z. z ++ y) wrote ∙ append_assoc s.stdout x y));
}

pub pure-Prints : {A : Type 0} (a : A) → Prints (pure a) []
pure-Prints a = record {
  at = λ s t b e.
      (sym (ap (λ r. r.1.world) e), sym (ap (λ r. r.1.stdout) e) ∙ sym (append-nil s.stdout));
}

pub eprint-Prints : (text : Bytes) → Prints (eprint text) []
unfolding eprint
eprint-Prints text = record {
  at = λ s t b e.
      (sym (ap (λ r. r.1.world) e), sym (ap (λ r. r.1.stdout) e) ∙ sym (append-nil s.stdout));
}

module _ (c : Console) where
  call-Prints :
      {A : Type 0} (text : Bytes) (f : Session → Result A × Session)
      → ((s : Session) → ((f s).1.world ≡ s.world) × ((f s).1.stdout ≡ s.stdout ++ text))
      → Prints (call c f) text
  unfolding call
  call-Prints text f h = record {
    at = λ s t a e. elim (Option-cases (c.fault s.uses)) [
      | inr (x, k) ↦ absurd (cc (rw (k, call) at e))
      | inl k ↦
          let e' = rw (k, call) at e in
          let (same, wrote) = h (record s { uses = suc s.uses }) in
          (sym (ap (λ r. r.1.world) e') ∙ same, sym (ap (λ r. r.1.stdout) e') ∙ wrote)
    ];
  }

  pub write_out-Prints : (bytes : Bytes) → Prints (write_out c bytes) bytes
  unfolding write_out
  write_out-Prints bytes = call-Prints bytes _ λ s. (refl, refl)

  pub flush-Prints : Prints (flush c) []
  unfolding flush
  flush-Prints = call-Prints [] _ λ s. (refl, sym (append-nil s.stdout))

  then-Prints :
      {A : Type 0} {text : Bytes} (line : Bytes) (m : Exec Session A)
      → Prints m text
      → Prints (eprint line >> m) text
  then-Prints line m h = bind-Prints _ _ (eprint-Prints line) λ _. h

  module _ (p : Primitives) (os : Os) where
    pub print_letter-Prints :
        (letter : OpenedLetter) → Prints (print_letter p os c letter) (letter.body ++ [])
    unfolding print_letter
    print_letter-Prints letter = then-Prints _ _ (
        then-Prints _ _ (
          then-Prints _ _ (
            then-Prints _ _ (
              then-Prints _ _ (bind-Prints _ _ (write_out-Prints letter.body) λ _. flush-Prints)))))

    status-Prints :
        (letter : OpenedLetter) (style : TerminalStyle)
        → Prints (print_letter_status letter style) []
    unfolding print_letter_status
    status-Prints letter style =
        then-Prints _ _ (then-Prints _ _ (then-Prints _ _ (then-Prints _ _ (eprint-Prints _))))

    newline-Prints :
        (b : Bool)
        → Prints (if b then pure tt else write_out c (b'\n' ∷ [])) (if b then [] else b'\n' ∷ [])
    newline-Prints true = pure-Prints tt
    newline-Prints false = write_out-Prints _

    pub present_letter-Prints :
        (letter : OpenedLetter) (style : TerminalStyle)
        → Prints
            (present_letter p os c letter style)
            (letter.body ++ ((if ends_line letter.body then [] else b'\n' ∷ []) ++ []))
    unfolding present_letter
    present_letter-Prints letter style = then-Prints _ _ (
        bind-Prints _ _ (status-Prints letter style) λ _. then-Prints _ _ (
          then-Prints _ _ (
            bind-Prints _ _ (write_out-Prints letter.body) λ _.
              bind-Prints _ _ (newline-Prints (ends_line letter.body))
                λ _. bind-Prints _ _ flush-Prints λ _. eprint-Prints _)))
