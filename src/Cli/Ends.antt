-- ===== src/Cli/Ends.antt =====
-- The fuel of the loops of src/cli.rs.
use article.Base.{
  ℕ, zero, suc, ◌≡◌, ◌≢◌, subst, ◌≤◌, ◌<◌, Bool, true, false, Option, none, some, List, [], ◌∷◌,
  ◌++◌, ◌==◌, ltb, length, Bool-cases, inl, inr, arith,
}
use article.Base.Bytes.{Bytes, bytes_eq}
use article.Error.{Error, IoText, Result, ok, err}
use article.Exec.{Exec, pure, raise, exec_ok, ◌>>=◌}
use article.Exec.Always.{Always, lift-Always, attempt-Always}
use article.Primitives.{Primitives}
use article.Protocol.{max_body_len}
use article.System.Files.{Os}
use article.Storage.State.{StatePaths}
use article.Cli.Terminal.{Console, Session, eprint}
use article.Cli.Style.{TerminalStyle}
use article.Cli.Text.{trim_line_end, parse_usize}
use article.Cli.Calm.{eprint-Always, prompt-Always, terminal_input-Always}
use article.Cli.Prompts.{saturating_add, read_letter, read_multiline_letter}
use article.Cli.Picker.{
  PickerKey, up, down, select, cancel, ignore, draw_picker, after_key, pick, pick_raw,
  with_restored, numbered, pick_number, choose_with, choose_from_list,
}
use article.Cli.Picking.{draw_picker-Always, list_choices-Always, enter-Always}
use article.Cli.Opening
use article.Cli.Overall.{print_state_summary-Always, act-Always}
use article.Cli.Run.{print_state_summary, is_exit, act, selected_action, menu}
use article.Cli.Effects.{
  tty_shrinks, tty_shrinks-IsCalm, tty_shrinks-IsRespected, stty-shrinks, fs-shrinks,
}
use article.Cli.Takes.{Takes, read_line_done, read_picker_key-Takes, choose_from_list-Takes}

-- Fuel does not run out, with fewer bytes to read than a bound.
pub record Ends {A : Type 0} (bound : ℕ) (m : Exec Session (Option A)) : Type 0 where
  pub at : (s : Session) → length s.tty < bound → (m s).0 ≢ ok none

module _ {A B : Type 0} (m : Exec Session A) (f : A → Exec Session (Option B)) where
  bind-Ends :
      (bound : ℕ)
      → ((s t : Session) (a : A) → length s.tty < bound → m s ≡ (ok a, t) → (f a t).0 ≢ ok none)
      → Ends bound (m >>= f)
  bind-Ends bound h = record {
    at = λ s less e. exec_ok m f s e λ a t first rest. h s t a less first rest;
  }

  Takes-Ends : {bound : ℕ} → Takes m → ((a : A) → Ends bound (f a)) → Ends (suc bound) (m >>= f)
  Takes-Ends h k =
      bind-Ends _ λ s t a less first. (k a).at t (omega (arith, less, h.at s t a first))

  then-Ends :
      {bound : ℕ} → Always tty_shrinks m → ((a : A) → Ends bound (f a)) → Ends bound (m >>= f)
  then-Ends h k = bind-Ends _ λ s t a less first. (k a).at t (
      omega (
        arith,
        less,
        subst (λ (q : Result A × Session). length q.1.tty ≤ length s.tty) first (h.at s),
      ))

some-Ends : {A : Type 0} {bound : ℕ} (a : A) → Ends bound (pure (some a))
some-Ends a = record { at = λ s less e. absurd (cc e) }

raise-Ends : {A : Type 0} {bound : ℕ} (e : Error) → Ends bound (raise {A = Option A} e)
raise-Ends e = record { at = λ s less k. absurd (cc k) }

module _ (c : Console) where
  abbrev say : (text : Bytes) → Always tty_shrinks (eprint text)
  say = eprint-Always tty_shrinks tty_shrinks-IsCalm

  abbrev drawn :
      (choices : List Bytes) (selected : ℕ) (style : TerminalStyle) (redraw : Bool)
      → Always tty_shrinks (draw_picker c choices selected style redraw)
  drawn = draw_picker-Always tty_shrinks tty_shrinks-IsCalm c

  after_key-Ends :
      (bound : ℕ) (again : ℕ → Exec Session (Option (Option ℕ))) (choices : List Bytes)
      (style : TerminalStyle) (selected : ℕ) (key : PickerKey)
      → ((next : ℕ) → Ends bound (again next))
      → Ends bound (after_key c again choices style selected key)
  after_key-Ends bound again choices style selected up h =
      then-Ends _ _ (drawn choices _ style true) λ _. h _
  after_key-Ends bound again choices style selected down h =
      then-Ends _ _ (drawn choices _ style true) λ _. h _
  after_key-Ends bound again choices style selected select h =
      then-Ends _ _ (say _) λ _. some-Ends _
  after_key-Ends bound again choices style selected cancel h =
      then-Ends _ _ (say _) λ _. some-Ends _
  after_key-Ends bound again choices style selected ignore h = h selected

  pick-Ends :
      (fuel : ℕ) (choices : List Bytes) (style : TerminalStyle) (selected : ℕ)
      → Ends fuel (pick c fuel choices style selected)
  unfolding pick
  pick-Ends zero choices style selected = record { at = λ s less. absurd (omega (arith, less)) }
  pick-Ends (suc fuel) choices style selected =
      Takes-Ends _ _ (read_picker_key-Takes c)
        λ key. after_key-Ends fuel _ choices style selected key (pick-Ends fuel choices style)

  pick_raw-Ends :
      (title : Bytes) (choices : List Bytes) (style : TerminalStyle) (s : Session)
      → (pick_raw c title choices style s).0 ≢ ok none
  unfolding pick_raw
  pick_raw-Ends title choices style s =
      (then-Ends _ _ (say _) λ _. then-Ends _ _ (say _) λ _.
          then-Ends _ _ (drawn choices 0 style false)
            λ _. pick-Ends (suc (length s.tty)) choices style 0).at
        s (omega arith)

  numbered-some : (count : ℕ) (o : Option ℕ) → numbered c count o ≢ ok none
  numbered-some count none e = absurd (cc e)
  numbered-some count (some zero) e = absurd (cc e)
  numbered-some count (some (suc index)) e = elim (Bool-cases (ltb index count)) [
    | inl h ↦ absurd (cc (rw h at e))
    | inr h ↦ absurd (cc (rw h at e))
  ]

  pick_number-Ends :
      (bound : ℕ) (title : Bytes) (choices : List Bytes) (style : TerminalStyle)
      → Ends bound (pick_number c title choices style)
  unfolding pick_number
  pick_number-Ends bound title choices style = then-Ends _ _ (say _) λ _. then-Ends _ _ (say _) λ _.
      then-Ends _ _ (list_choices-Always tty_shrinks tty_shrinks-IsCalm c choices 0) λ _.
        then-Ends _ _ (prompt-Always tty_shrinks tty_shrinks-IsCalm c _ none) λ selected. record {
          at = λ s less. numbered-some (length choices) (parse_usize selected);
        }

  choose_with-Ends :
      (title : Bytes) (choices : List Bytes) (style : TerminalStyle) (bound : ℕ)
      (terminal : Result Bytes)
      → Ends bound (choose_with c title choices style terminal)
  unfolding with_restored
  choose_with-Ends title choices style bound (ok saved_mode) = record {
    at = λ s less. pick_raw-Ends title choices style s;
  }
  choose_with-Ends title choices style bound (err error) =
      pick_number-Ends bound title choices style

  -- A choice from a list ends: whatever the terminal gives and whichever calls fail, the fuel of the
  -- loop over the keys is never used up.
  pub choose_from_list_total :
      (title : Bytes) (choices : List Bytes) (style : TerminalStyle) (s : Session)
      → (choose_from_list c title choices style s).0 ≢ ok none
  unfolding choose_from_list
  choose_from_list_total title choices style s =
      (then-Ends _ _ (lift-Always _) λ _.
          then-Ends _ _
            (attempt-Always _ (enter-Always tty_shrinks tty_shrinks-IsCalm c (stty-shrinks c)))
            λ terminal. choose_with-Ends title choices style (suc (length s.tty)) terminal).at
        s (omega arith)

  read_letter-Ends : (fuel : ℕ) (body : Bytes) → Ends fuel (read_letter c fuel body)
  unfolding read_letter
  read_letter-Ends zero body = record { at = λ s less. absurd (omega (arith, less)) }
  read_letter-Ends (suc fuel) body = bind-Ends _ _ _ λ s t line less read.
      elim (Bool-cases (length line == 0)) [
        | inl h ↦ rw h (λ e. absurd (cc e))
        | inr h ↦ rw h (elim (Bool-cases (bytes_eq (trim_line_end line) (b'.' ∷ []))) [
          | inl k ↦ rw k (λ e. absurd (cc e))
          | inr k ↦
              rw k
                (elim (Bool-cases (ltb max_body_len (saturating_add (length body) (length line)))) [
                  | inl l ↦ rw l (λ e. absurd (cc e))
                  | inr l ↦ rw l (
                      (read_letter-Ends fuel (body ++ line)).at t
                        (grind (arith, h, less, read_line_done c s t line read)))
                ])
        ])
      ]

  -- Typing a letter ends: whatever the terminal gives and whichever calls fail, the fuel of the loop
  -- over the lines is never used up.
  pub read_multiline_letter_total : (s : Session) → (read_multiline_letter c s).0 ≢ ok none
  unfolding read_multiline_letter
  read_multiline_letter_total s =
      (then-Ends _ _ (terminal_input-Always tty_shrinks tty_shrinks-IsCalm c)
          λ _. read_letter-Ends (suc (length s.tty)) []).at
        s (omega arith)

  module _ (p : Primitives) (os : Os) where
    summary_shrinks :
        (paths : StatePaths) (style : TerminalStyle)
        → Always tty_shrinks (print_state_summary p os c paths style)
    summary_shrinks = print_state_summary-Always p os c tty_shrinks (tty_shrinks-IsRespected p os c)

    act_shrinks :
        (text : IoText) (paths : StatePaths) (style : TerminalStyle) (picked : Option ℕ)
        → Always tty_shrinks
            (act p os c text paths style (selected_action p os c paths style picked))
    act_shrinks =
        let r = tty_shrinks-IsRespected p os c in
        act-Always p os c tty_shrinks r
          (Opening.wizard_open-Always p os c tty_shrinks r λ path. fs-shrinks _)
          (Opening.command_open-Always p os c tty_shrinks r λ path. fs-shrinks _)

    menu-Ends :
        (fuel : ℕ) (text : IoText) (paths : StatePaths) (style : TerminalStyle)
        → Ends fuel (menu p os c fuel text paths style)
    unfolding menu
    menu-Ends zero text paths style = record { at = λ s less. absurd (omega (arith, less)) }
    menu-Ends (suc fuel) text paths style = then-Ends _ _ (summary_shrinks paths style) λ _.
        Takes-Ends _ _ (choose_from_list-Takes c _ _ style) λ choice.
          then-Ends _ _ (lift-Always _) λ picked. elim (Bool-cases (is_exit p os c picked)) [
            | inl h ↦ rw h (then-Ends _ _ (say _) λ _. some-Ends tt)
            | inr h ↦ rw h (
                then-Ends _ _ (act_shrinks text paths style picked)
                  λ _. menu-Ends fuel text paths style)
          ]

    -- The menu ends: whatever is typed, whichever calls fail and whatever other processes do, with
    -- more rounds of fuel than bytes that the terminal can give, its fuel is not used up.
    pub menu_total :
        (fuel : ℕ) (text : IoText) (paths : StatePaths) (style : TerminalStyle) (s : Session)
        → length s.tty < fuel
        → (menu p os c fuel text paths style s).0 ≢ ok none
    menu_total fuel text paths style = (menu-Ends fuel text paths style).at
