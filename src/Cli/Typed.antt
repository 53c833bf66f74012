-- ===== src/Cli/Typed.antt =====
-- `read_multiline_letter` of src/cli.rs, and the lines that were typed.
use mathlib.Core.List.{flatten}
use mathlib.Core.Option.{some-injective}
use article.Base.{
  List, All, ℕ, zero, suc, ◌≡◌, refl, sym, ap, ap₂, subst, ◌∙◌, ◌+◌, ◌≤◌, true, false, Option, some,
  [], ◌∷◌, ◌++◌, append-nil, append_assoc, ◌==◌, ltb, length, length-append, Bool-cases, inl, inr,
  arith,
}
use article.Base.Bytes.{Bytes, bytes_eq, is_utf8}
use article.Error.{ok, ok_injective, invalid_input}
use article.Exec.{Exec, pure, raise, exec_done}
use article.Protocol.{max_body_len}
use article.Cli.Terminal.{Console, Session, cut_line, read_line, terminal_input}
use article.Cli.Text.{trim_line_end}
use article.Cli.Prompts.{saturating_add, read_letter, read_multiline_letter}
use article.Cli.Lines.{
  IsDotLine, IsLine, IsFirstLine, cut_line-IsFirstLine, join-cut_line, is_dot_iff,
}
use article.Cli.Takes.{call_done}

-- A line before the end of the letter.
abbrev pub IsBodyLine : Bytes → Type 0
IsBodyLine line = IsLine line × ¬ IsDotLine line

-- Whole lines that make up the text, none of them a line with a single dot, then the first line
-- with a single dot, then what is left to read.
pub record IsTyped (tty text left : Bytes) : Type 0 where
  pub lines : List Bytes
  pub body_lines : All IsBodyLine lines
  pub text_is : text ≡ flatten lines
  pub dot : Bytes
  pub is_dot : IsDotLine dot
  pub whole : IsFirstLine dot left
  pub typed : tty ≡ text ++ (dot ++ left)

IsTyped-nil :
    (tty dot left : Bytes)
    → IsDotLine dot
    → IsFirstLine dot left
    → tty ≡ dot ++ left
    → IsTyped tty [] left
unfolding flatten
IsTyped-nil tty dot left h k e = record {
  lines = [];
  body_lines = tt;
  text_is = refl;
  dot = dot;
  is_dot = h;
  whole = k;
  typed = e;
}

-- What was typed is not empty, so a line before it has its newline.
IsTyped-cons :
    (tty line rest text left : Bytes)
    → IsFirstLine line rest
    → ¬ IsDotLine line
    → tty ≡ line ++ rest
    → IsTyped rest text left
    → IsTyped tty (line ++ text) left
unfolding flatten
IsTyped-cons tty line rest text left (inl whole) no_dot e h = record {
  lines = line ∷ h.lines;
  body_lines = ((whole, no_dot), h.body_lines);
  text_is = ap (λ x. line ++ x) h.text_is;
  dot = h.dot;
  is_dot = h.is_dot;
  whole = h.whole;
  typed = e ∙ (ap (λ x. line ++ x) h.typed ∙ sym (append_assoc line text (h.dot ++ left)));
}
IsTyped-cons tty line rest text left (inr (_, nothing)) no_dot e h = absurd (
    omega (
      arith,
      ap length h.typed,
      ap length nothing,
      ap length h.is_dot.line_is,
      length-append text (h.dot ++ left),
      length-append h.dot left,
    ))

within : (a b : ℕ) → ltb max_body_len (saturating_add a b) ≡ false → a + b ≤ max_body_len
within a b h = grind (arith, h)

module _ (c : Console) where
  read_line_typed :
      (s t : Session) (line : Bytes)
      → read_line c s ≡ (ok line, t)
      → IsFirstLine line t.tty × (s.tty ≡ line ++ t.tty)
  unfolding read_line
  read_line_typed s t line e =
      let d = call_done c _ s t line e in
      elim (Bool-cases (is_utf8 (cut_line s.tty).0)) [
        | inr k ↦ absurd (cc (ap (λ q. q.0) (rw k at d)))
        | inl k ↦
            let d' = rw k at d in
            let same = ok_injective _ _ (ap (λ q. q.0) d') in
            let left = ap (λ q. q.1.tty) d' in
            (
              subst (λ x. IsFirstLine x t.tty) same
                  (subst (IsFirstLine (cut_line s.tty).0) left (cut_line-IsFirstLine s.tty)),
              sym (join-cut_line s.tty) ∙ ap₂ (λ x y. x ++ y) same left,
            )
      ]

  terminal_input_done : (s t : Session) → terminal_input c s ≡ (ok tt, t) → t.tty ≡ s.tty
  unfolding terminal_input
  terminal_input_done s t e = ap (λ q. q.1.tty) (sym (call_done c _ s t tt e))

  -- What the loop adds to the body.
  record Adds (body out : Bytes) (s t : Session) : Type 0 where
    more : Bytes
    added : out ≡ body ++ more
    typed : IsTyped s.tty more t.tty
    small : length out ≤ max_body_len

  -- What the loop does with a line.
  ended :
      (fuel : ℕ) (body out : Bytes) (s t : Session) (line : Bytes) (u : Session)
      → length body ≤ max_body_len
      → ((b : Bytes)
          → length b ≤ max_body_len
          → read_letter c fuel b u ≡ (ok (some out), t)
          → Adds b out u t)
      → read_line c s ≡ (ok line, u)
      → (elim (bytes_eq (trim_line_end line) (b'.' ∷ [])) as (λ _. Exec Session (Option Bytes)) [
        | true ↦ pure (some body)
        | false ↦ elim (ltb max_body_len (saturating_add (length body) (length line))) [
          | true ↦ raise (invalid_input "message body exceeds the 1 MiB limit")
          | false ↦ read_letter c fuel (body ++ line)
        ]
      ])
          u
        ≡ (ok (some out), t)
      → Adds body out s t
  ended fuel body out s t line u h again read rest =
      let cut = read_line_typed s u line read in
      elim (Bool-cases (bytes_eq (trim_line_end line) (b'.' ∷ []))) [
        | inl k ↦
            let done = rw k at rest in
            let left = ap (λ q. q.1.tty) done in
            let same = some-injective _ _ (ok_injective _ _ (ap (λ q. q.0) done)) in
            record {
              more = [];
              added = sym same ∙ sym (append-nil body);
              typed =
                  IsTyped-nil s.tty line t.tty ((is_dot_iff line).0 k)
                    (subst (IsFirstLine line) left cut.0) (cut.1 ∙ ap (λ x. line ++ x) left);
              small = subst (λ x. length x ≤ max_body_len) same h;
            }
        | inr k ↦
            elim (Bool-cases (ltb max_body_len (saturating_add (length body) (length line)))) [
              | inl l ↦ absurd (cc (ap (λ q. q.0) (rw l at (rw k at rest))))
              | inr l ↦
                  let fits : length (body ++ line) ≤ max_body_len =
                    omega (arith, within (length body) (length line) l, length-append body line) in
                  let ih = again (body ++ line) fits (rw l at (rw k at rest)) in
                  record {
                    more = line ++ ih.more;
                    added = ih.added ∙ append_assoc body line ih.more;
                    typed =
                        IsTyped-cons s.tty line u.tty ih.more t.tty cut.0
                          (λ d. cc (k, (is_dot_iff line).1 d)) cut.1 ih.typed;
                    small = ih.small;
                  }
            ]
      ]

  read_letter-Adds :
      (fuel : ℕ) (body out : Bytes) (s t : Session)
      → length body ≤ max_body_len
      → read_letter c fuel body s ≡ (ok (some out), t)
      → Adds body out s t
  unfolding read_letter
  read_letter-Adds zero body out s t h e = absurd (cc (ap (λ q. q.0) e))
  read_letter-Adds (suc fuel) body out s t h e = exec_done (read_line c) _ s e λ line u read rest.
      elim (Bool-cases (length line == 0)) [
        | inl k ↦ absurd (cc (ap (λ q. q.0) (rw k at rest)))
        | inr k ↦
            ended fuel body out s t line u h (λ b. read_letter-Adds fuel b out u t) read
              (rw k at rest)
      ]

  -- A letter that was typed is returned byte for byte: it is the lines that the terminal gave before
  -- the first line that is a single dot, which may end in any carriage returns and newlines; what
  -- comes after that line is left to read, and the letter is within the limit.
  pub read_multiline_letter-IsTyped :
      (s t : Session) (body : Bytes)
      → read_multiline_letter c s ≡ (ok (some body), t)
      → IsTyped s.tty body t.tty × (length body ≤ max_body_len)
  unfolding read_multiline_letter
  read_multiline_letter-IsTyped s t body e = exec_done (terminal_input c) _ s e λ _ u opened rest.
      let h = read_letter-Adds (suc (length s.tty)) [] body u t (omega arith) rest in
      (
        subst (λ x. IsTyped x body t.tty) (terminal_input_done s u opened)
            (subst (λ x. IsTyped u.tty x t.tty) (sym h.added) h.typed),
        h.small,
      )
