-- ===== src/Cli/Chosen.antt =====
-- The indices that the picker of src/cli.rs returns.
use article.Base.{
  ℕ, zero, suc, ◌≡◌, ap, subst, ltb→lt, ◌<◌, Option, none, some, List, ◌==◌, ltb, length,
  Bool-cases, inl, inr, arith,
}
use article.Base.Bytes.{Bytes}
use article.Error.{Result, ok, err, ok_injective}
use article.Exec.{Exec, pure, attempt, exec_done, exec_refuse, ◌>>=◌}
use article.Cli.Terminal.{Console, Session}
use article.Cli.Style.{TerminalStyle}
use article.Cli.Text.{parse_usize}
use article.Cli.Picker.{
  PickerKey, up, down, select, cancel, ignore, moved_up, moved_down, after_key, pick, pick_raw,
  with_restored, numbered, pick_number, choose_with, enter, choose_from_list,
}

-- A choice, if there is one, is below a bound.
abbrev InRange : ℕ → Option (Option ℕ) → Type 0
InRange count none = Unit {0}
InRange count (some none) = Unit {0}
InRange count (some (some index)) = index < count

record Yields (count : ℕ) (m : Exec Session (Option (Option ℕ))) : Type 0 where
  at : (s t : Session) (o : Option (Option ℕ)) → m s ≡ (ok o, t) → InRange count o

then-Yields :
    {A : Type 0} {count : ℕ} (m : Exec Session A) (f : A → Exec Session (Option (Option ℕ)))
    → ((a : A) → Yields count (f a))
    → Yields count (m >>= f)
then-Yields m f h = record {
  at = λ s u o e. exec_done m f s e λ a t first rest. (h a).at t u o rest;
}

pure-Yields : {count : ℕ} (o : Option (Option ℕ)) → InRange count o → Yields count (pure o)
pure-Yields {count} o h = record {
  at = λ s t q e. subst (InRange count) (ok_injective _ _ (ap (λ r. r.0) e)) h;
}

moved_up-less : (selected count : ℕ) → selected < count → moved_up selected count < count
moved_up-less selected count h = ground (arith, h)

moved_down-less : (selected count : ℕ) → 0 < count → moved_down selected count < count
moved_down-less selected zero h = absurd (omega (arith, h))
moved_down-less selected (suc count) h = omega arith

module _ (c : Console) where
  after_key-Yields :
      (again : ℕ → Exec Session (Option (Option ℕ))) (choices : List Bytes) (style : TerminalStyle)
      (selected : ℕ) (key : PickerKey)
      → selected < length choices
      → ((next : ℕ) → next < length choices → Yields (length choices) (again next))
      → Yields (length choices) (after_key c again choices style selected key)
  after_key-Yields again choices style selected up h k =
      then-Yields _ _ λ _. k _ (moved_up-less selected (length choices) h)
  after_key-Yields again choices style selected down h k =
      then-Yields _ _ λ _. k _ (moved_down-less selected (length choices) (omega (arith, h)))
  after_key-Yields again choices style selected select h k =
      then-Yields _ _ λ _. pure-Yields (some (some selected)) h
  after_key-Yields again choices style selected cancel h k =
      then-Yields _ _ λ _. pure-Yields (some none) tt
  after_key-Yields again choices style selected ignore h k = k selected h

  pick-Yields :
      (fuel : ℕ) (choices : List Bytes) (style : TerminalStyle) (selected : ℕ)
      → selected < length choices
      → Yields (length choices) (pick c fuel choices style selected)
  unfolding pick
  pick-Yields zero choices style selected h = pure-Yields none tt
  pick-Yields (suc fuel) choices style selected h =
      then-Yields _ _
        λ key. after_key-Yields _ choices style selected key h (pick-Yields fuel choices style)

  pick_raw-Yields :
      (title : Bytes) (choices : List Bytes) (style : TerminalStyle)
      → 0 < length choices
      → Yields (length choices) (pick_raw c title choices style)
  unfolding pick_raw
  pick_raw-Yields title choices style h = record {
    at = λ s.
        (then-Yields _ _ λ _.
            then-Yields _ _
              λ _. then-Yields _ _ λ _. pick-Yields (suc (length s.tty)) choices style 0 h).at
          s;
  }

  numbered-InRange :
      (count : ℕ) (o : Option ℕ) (q : Option (Option ℕ))
      → numbered c count o ≡ ok q
      → InRange count q
  numbered-InRange count none q e = absurd (cc e)
  numbered-InRange count (some zero) q e = absurd (cc e)
  numbered-InRange count (some (suc index)) q e = elim (Bool-cases (ltb index count)) [
    | inl h ↦ subst (InRange count) (ok_injective _ _ (rw h at e)) (ltb→lt index count h)
    | inr h ↦ absurd (cc (rw h at e))
  ]

  choose_with-Yields :
      (title : Bytes) (choices : List Bytes) (style : TerminalStyle) (terminal : Result Bytes)
      → 0 < length choices
      → Yields (length choices) (choose_with c title choices style terminal)
  unfolding with_restored pick_number
  choose_with-Yields title choices style (ok saved_mode) h = record {
    at = λ s t o e.
        (pick_raw-Yields title choices style h).at s _ o
          (ap (λ r. (r.0, (pick_raw c title choices style s).1)) e);
  }
  choose_with-Yields title choices style (err error) h = then-Yields _ _ λ _. then-Yields _ _ λ _.
      then-Yields _ _ λ _. then-Yields _ _ λ selected. record {
        at =
            λ s t o e. numbered-InRange (length choices) (parse_usize selected) o (ap (λ r. r.0) e);
      }

  -- A choice that was made is one of the choices: its index is below their number, whether keys or a
  -- number were typed.
  pub choose_from_list_bound :
      (title : Bytes) (choices : List Bytes) (style : TerminalStyle) (s : Session) (index : ℕ)
      → (choose_from_list c title choices style s).0 ≡ ok (some (some index))
      → index < length choices
  unfolding choose_from_list
  choose_from_list_bound title choices style s index e =
      exec_refuse (length choices == 0) _ _ s e λ full rest.
        (then-Yields (attempt (enter c)) (choose_with c title choices style)
            λ terminal. choose_with-Yields title choices style terminal (grind (arith, full))).at
          s ((attempt (enter c) >>= choose_with c title choices style) s).1 (some (some index))
          (ap (λ r. (r, ((attempt (enter c) >>= choose_with c title choices style) s).1)) rest)
