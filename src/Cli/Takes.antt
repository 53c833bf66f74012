-- ===== src/Cli/Takes.antt =====
-- The input of the terminal that steps of src/cli.rs consume when they succeed.
use article.Base.{
  ℕ, suc, ◌≡◌, refl, ap, subst, ◌+◌, ◌≤◌, ◌<◌, false, none, List, [], ◌∷◌, ◌==◌, ltb, if◌then◌else◌,
  length, length-drop, Bool-cases, Option-cases, inl, inr, arith,
}
use article.Base.Bytes.{Bytes, bytes_eq, is_utf8}
use article.Error.{Result, ok, err, ok_injective, ok_or, invalid_input}
use article.Exec.{Exec, pure, lift, exec_done, ◌>>=◌}
use article.Exec.Always.{Always, always_rules, lift-Always, attempt-Always}
use article.Cli.Terminal.{Console, Session, cut_line, call, read_line, read_exact, terminal_input}
use article.Cli.Style.{TerminalStyle}
use article.Cli.Text.{trim}
use article.Cli.Calm.{eprint-Always, flush-Always, terminal_input-Always, read_exact-Always}
use article.Cli.Prompts.{prompt, read_terminal_line}
use article.Cli.Picker.{
  read_picker_key, pick, pick_raw, with_restored, pick_number, choose_with, choose_from_list,
}
use article.Cli.Picking.{
  draw_picker-Always, pick-Always, after_key-Always, enter-Always, restore_stty-Always,
  list_choices-Always,
}
use article.Cli.Effects.{tty_shrinks, tty_shrinks-IsCalm, stty-shrinks}

pub record Takes {A : Type 0} (m : Exec Session A) : Type 0 where
  pub at : (s t : Session) (a : A) → m s ≡ (ok a, t) → length t.tty < length s.tty

module _ {A B : Type 0} (m : Exec Session A) (f : A → Exec Session B) where
  pub Takes-then : Takes m → ((a : A) → Always tty_shrinks (f a)) → Takes (m >>= f)
  Takes-then h k = record {
    at = λ s u b e. exec_done m f s e λ a t first rest.
        let taken = h.at s t a first in
        let less =
          subst (λ (q : Result B × Session). length q.1.tty ≤ length t.tty) rest ((k a).at t) in
        omega (arith, taken, less);
  }

  pub then-Takes : Always tty_shrinks m → ((a : A) → Takes (f a)) → Takes (m >>= f)
  then-Takes h k = record {
    at = λ s u b e. exec_done m f s e λ a t first rest.
        let less =
          subst (λ (q : Result A × Session). length q.1.tty ≤ length s.tty) first (h.at s) in
        let taken = (k a).at t u b rest in omega (arith, taken, less);
  }

pub length-cut_line : (bs : Bytes) → length (cut_line bs).0 + length (cut_line bs).1 ≡ length bs
unfolding cut_line
length-cut_line [] = refl
length-cut_line (b ∷ bs) =
    let ih = length-cut_line bs in
    elim (Bool-cases (b == b'\n')) [ inl h ↦ rw h (omega arith) | inr h ↦ rw h (omega (arith, ih)) ]

module _ (c : Console) where
  -- A call that succeeds was made.
  pub call_done :
      {A : Type 0} (f : Session → Result A × Session) (s t : Session) (a : A)
      → call c f s ≡ (ok a, t)
      → f (record s { uses = suc s.uses }) ≡ (ok a, t)
  unfolding call
  call_done f s t a e = elim (Option-cases (c.fault s.uses)) [
    | inr (x, k) ↦ absurd (cc (ap (λ q. q.0) (rw (k, call) at e)))
    | inl k ↦ rw (k, call) at e
  ]

  -- A line that was read is gone.
  pub read_line_done :
      (s t : Session) (line : Bytes)
      → read_line c s ≡ (ok line, t)
      → length line + length t.tty ≡ length s.tty
  unfolding read_line
  read_line_done s t line e =
      let d = call_done _ s t line e in
      elim (Bool-cases (is_utf8 (cut_line s.tty).0)) [
        | inr k ↦ absurd (cc (ap (λ q. q.0) (rw k at d)))
        | inl k ↦
            let d' = rw k at d in
            let same = ok_injective _ _ (ap (λ q. q.0) d') in
            let left = ap (λ q. q.1.tty) d' in
            omega (arith, length-cut_line s.tty, ap length same, ap length left)
      ]

  read_exact-Takes : (n : ℕ) → Takes (read_exact c (suc n))
  unfolding read_exact
  read_exact-Takes n = record {
    at = λ s t bytes e.
        let d = call_done _ s t bytes e in
        elim (Bool-cases (ltb (length s.tty) (suc n))) [
          | inl k ↦ absurd (cc (ap (λ q. q.0) (rw k at d)))
          | inr k ↦
              grind (arith, k, length-drop (suc n) s.tty, ap (λ q. length q.1.tty) (rw k at d))
        ];
  }

  pub read_picker_key-Takes : Takes (read_picker_key c)
  unfolding read_picker_key
  read_picker_key-Takes =
      Takes-then _ _ (read_exact-Takes 0)
        λ first. search (read_exact-Always tty_shrinks tty_shrinks-IsCalm c, always_rules) depth 16

  abbrev answering : Bytes → Exec Session Bytes
  answering line =
      if bytes_eq (trim line) []
      then lift (ok_or (invalid_input "input cannot be empty") none)
      else pure (trim line)

  answering-shrinks : (line : Bytes) → Always tty_shrinks (answering line)
  answering-shrinks line = search always_rules

  -- An answer of nothing is refused where there is no default.
  answered :
      (line : Bytes) (t u : Session) (answer : Bytes)
      → answering line t ≡ (ok answer, u)
      → (0 < length line) × (length u.tty ≤ length t.tty)
  unfolding trim bytes_eq
  answered [] t u answer e = absurd (cc (ap (λ q. q.0) e))
  answered (b ∷ bs) t u answer e = (
    omega arith,
    subst (λ (q : Result Bytes × Session). length q.1.tty ≤ length t.tty) e
        ((answering-shrinks (b ∷ bs)).at t),
  )

  prompt-Takes : (label : Bytes) → Takes (prompt c label none)
  unfolding prompt read_terminal_line
  prompt-Takes label = then-Takes _ _ (eprint-Always tty_shrinks tty_shrinks-IsCalm _) λ _.
      then-Takes _ _ (flush-Always tty_shrinks tty_shrinks-IsCalm c) λ _. record {
        at = λ s u answer e. exec_done (read_terminal_line c) _ s e λ line t typed rest.
            exec_done (terminal_input c) _ s typed λ _ r opened read.
              let (some_input, left) = answered line t u answer rest in
              let less =
                subst (λ (q : Result (Unit {0}) × Session). length q.1.tty ≤ length s.tty) opened
                  ((terminal_input-Always tty_shrinks tty_shrinks-IsCalm c).at s) in
              omega (arith, some_input, left, less, read_line_done r t line read);
      }

  pick_number-Takes :
      (title : Bytes) (choices : List Bytes) (style : TerminalStyle)
      → Takes (pick_number c title choices style)
  unfolding pick_number
  pick_number-Takes title choices style =
      then-Takes _ _ (eprint-Always tty_shrinks tty_shrinks-IsCalm _) λ _.
        then-Takes _ _ (eprint-Always tty_shrinks tty_shrinks-IsCalm _) λ _.
          then-Takes _ _ (list_choices-Always tty_shrinks tty_shrinks-IsCalm c choices 0)
            λ _. Takes-then _ _ (prompt-Takes _) λ selected. lift-Always _

  pick-Takes :
      (fuel : ℕ) (choices : List Bytes) (style : TerminalStyle) (selected : ℕ)
      → Takes (pick c (suc fuel) choices style selected)
  unfolding pick
  pick-Takes fuel choices style selected = Takes-then _ _ read_picker_key-Takes λ key.
      after_key-Always tty_shrinks tty_shrinks-IsCalm c _ choices style selected key
        (pick-Always tty_shrinks tty_shrinks-IsCalm c fuel choices style)

  pick_raw-Takes :
      (title : Bytes) (choices : List Bytes) (style : TerminalStyle)
      → Takes (pick_raw c title choices style)
  unfolding pick_raw
  pick_raw-Takes title choices style = record {
    at = λ s.
        (then-Takes _ _ (eprint-Always tty_shrinks tty_shrinks-IsCalm _) λ _.
            then-Takes _ _ (eprint-Always tty_shrinks tty_shrinks-IsCalm _) λ _.
              then-Takes _ _
                (draw_picker-Always tty_shrinks tty_shrinks-IsCalm c choices 0 style false)
                λ _. pick-Takes (length s.tty) choices style 0).at
          s;
  }

  with_restored-Takes :
      {A : Type 0} (saved_mode : Bytes) (m : Exec Session A)
      → Takes m
      → Takes (with_restored c saved_mode m)
  unfolding with_restored
  with_restored-Takes saved_mode m h = record {
    at = λ s t a e.
        let u = (m s).1 in
        let taken = h.at s u a (ap (λ q. (q.0, u)) e) in
        let less =
          (restore_stty-Always tty_shrinks tty_shrinks-IsCalm c (stty-shrinks c) saved_mode).at u in
        let same = ap (λ q. length q.1.tty) e in omega (arith, taken, less, same);
  }

  choose_with-Takes :
      (title : Bytes) (choices : List Bytes) (style : TerminalStyle) (terminal : Result Bytes)
      → Takes (choose_with c title choices style terminal)
  choose_with-Takes title choices style (ok saved_mode) =
      with_restored-Takes saved_mode _ (pick_raw-Takes title choices style)
  choose_with-Takes title choices style (err error) = pick_number-Takes title choices style

  pub choose_from_list-Takes :
      (title : Bytes) (choices : List Bytes) (style : TerminalStyle)
      → Takes (choose_from_list c title choices style)
  unfolding choose_from_list
  choose_from_list-Takes title choices style = then-Takes _ _ (lift-Always _) λ _.
      then-Takes _ _
        (attempt-Always _ (enter-Always tty_shrinks tty_shrinks-IsCalm c (stty-shrinks c)))
        λ terminal. choose_with-Takes title choices style terminal
