-- ===== src/Cli/Lines.antt =====
-- The lines that `read_line` cuts off the terminal's input in src/cli.rs, and the line with a single
-- dot.
use mathlib.Core.List.{reverse, reverse-append, reverse-reverse}
use article.Base.{
  ℕ, ◌≡◌, ◌≢◌, refl, sym, ap, subst, ◌∙◌, ◌⊎◌, inl, inr, ◌↔◌, true, [], ◌∷◌, ◌++◌, ◌==◌, ◌||◌,
  Bool-cases, All, All-append, arith,
}
use article.Base.Bytes.{Bytes, bytes_eq, bytes_eq_iff}
use article.Cli.Terminal.{cut_line}
use article.Cli.Text.{trim_line_end, drop_endings}

abbrev pub IsEnding : ℕ → Type 0
IsEnding b = (b ≡ b'\r') ⊎ (b ≡ b'\n')

-- A dot, and after it nothing but carriage returns and newlines.
pub record IsDotLine (line : Bytes) : Type 0 where
  pub ending : Bytes
  pub only : All IsEnding ending
  pub line_is : line ≡ b'.' ∷ ending

abbrev pub HasNoNewline : Bytes → Type 0
HasNoNewline = All (λ b. b ≢ b'\n')

-- A line with its newline, which is its last byte and the only one.
pub record IsLine (line : Bytes) : Type 0 where
  pub front : Bytes
  pub one_line : HasNoNewline front
  pub line_is : line ≡ front ++ (b'\n' ∷ [])

-- The first line of what is typed: it has its newline, or the input ends with it.
abbrev pub IsFirstLine : Bytes → Bytes → Type 0
IsFirstLine line left = IsLine line ⊎ (HasNoNewline line × (left ≡ []))

IsFirstLine-cons :
    (b : ℕ) (line left : Bytes) → b ≢ b'\n' → IsFirstLine line left → IsFirstLine (b ∷ line) left
IsFirstLine-cons b line left h (inl k) = inl (record {
  front = b ∷ k.front;
  one_line = (h, k.one_line);
  line_is = ap (λ x. b ∷ x) k.line_is;
})
IsFirstLine-cons b line left h (inr (k, e)) = inr ((h, k), e)

pub cut_line-IsFirstLine : (bs : Bytes) → IsFirstLine (cut_line bs).0 (cut_line bs).1
unfolding cut_line
cut_line-IsFirstLine [] = inr (tt, refl)
cut_line-IsFirstLine (b ∷ bs) = elim (Bool-cases (b == b'\n')) [
  | inl h ↦
      rw h (inl (record { front = []; one_line = tt; line_is = ap (λ x. x ∷ []) (ground arith) }))
  | inr h ↦ rw h (IsFirstLine-cons b _ _ (ground arith) (cut_line-IsFirstLine bs))
]

pub join-cut_line : (bs : Bytes) → (cut_line bs).0 ++ (cut_line bs).1 ≡ bs
unfolding cut_line
join-cut_line [] = refl
join-cut_line (b ∷ bs) = elim (Bool-cases (b == b'\n')) [
  | inl h ↦ rw h refl
  | inr h ↦ rw h (ap (λ x. b ∷ x) (join-cut_line bs))
]

is_ending_iff : (b : ℕ) → ((b == b'\r' || b == b'\n') ≡ true) ↔ IsEnding b
is_ending_iff b = ground arith

-- What `drop_endings` drops.
record Dropped (bs : Bytes) : Type 0 where
  endings : Bytes
  only : All IsEnding endings
  split : bs ≡ endings ++ drop_endings bs

drop_endings-Dropped : (bs : Bytes) → Dropped bs
unfolding drop_endings
drop_endings-Dropped [] = record { endings = []; only = tt; split = refl }
drop_endings-Dropped (b ∷ bs) = elim (Bool-cases (b == b'\r' || b == b'\n')) [
  | inl h ↦
      let d = drop_endings-Dropped bs in
      record {
        endings = b ∷ d.endings;
        only = ((is_ending_iff b).0 h, d.only);
        split = rw (h, drop_endings) (ap (λ x. b ∷ x) d.split);
      }
  | inr h ↦ record { endings = []; only = tt; split = rw (h, drop_endings) refl }
]

drop_endings-append :
    (endings rest : Bytes)
    → All IsEnding endings
    → drop_endings (endings ++ rest) ≡ drop_endings rest
unfolding drop_endings
drop_endings-append [] rest h = refl
drop_endings-append (b ∷ bs) rest (h, k) =
    rw ((is_ending_iff b).1 h, drop_endings) (drop_endings-append bs rest k)

All-reverse : (bs : Bytes) → All IsEnding bs → All IsEnding (reverse bs)
All-reverse [] h = tt
All-reverse (b ∷ bs) (h, k) =
    subst (All IsEnding) (sym (reverse-append (b ∷ []) bs))
      (All-append IsEnding (reverse bs) (b ∷ []) (All-reverse bs k) (h, tt))

dot_sound : (line : Bytes) → trim_line_end line ≡ b'.' ∷ [] → IsDotLine line
unfolding trim_line_end
dot_sound line h =
    let d = drop_endings-Dropped (reverse line) in
    let dot : drop_endings (reverse line) ≡ b'.' ∷ [] = sym (reverse-reverse _) ∙ ap reverse h in
    record {
      ending = reverse d.endings;
      only = All-reverse d.endings d.only;
      line_is =
          sym (reverse-reverse line)
          ∙ (ap reverse (d.split ∙ ap (λ x. d.endings ++ x) dot)
              ∙ reverse-append d.endings (b'.' ∷ []));
    }

dot_complete : (line : Bytes) → IsDotLine line → trim_line_end line ≡ b'.' ∷ []
unfolding trim_line_end drop_endings
dot_complete line h =
    let back : reverse line ≡ reverse h.ending ++ (b'.' ∷ []) =
      ap reverse h.line_is ∙ reverse-append (b'.' ∷ []) h.ending in
    ap (λ x. reverse (drop_endings x)) back
    ∙ ap reverse (drop_endings-append (reverse h.ending) (b'.' ∷ []) (All-reverse h.ending h.only))

-- The test of `read_multiline_letter`.
pub is_dot_iff :
    (line : Bytes) → (bytes_eq (trim_line_end line) (b'.' ∷ []) ≡ true) ↔ IsDotLine line
is_dot_iff line =
    (λ h. dot_sound line ((bytes_eq_iff _ _).0 h), λ h. (bytes_eq_iff _ _).1 (dot_complete line h))
