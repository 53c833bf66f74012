-- ===== src/Cli/Settings.antt =====
-- The picker of src/cli.rs switches the terminal to raw mode, and back.
use article.Base.{ℕ, ◌≡◌, refl, subst, ◌∙◌, Bool, true, false, List, [], ◌∷◌, Bool-cases, inl, inr}
use article.Base.Bytes.{Bytes, utf8, is_utf8}
use article.Error.{Result, ok, err}
use article.Exec.{Exec, attempt, continue, ◌>>=◌}
use article.Exec.Always.{Frame, Always, bind-Always, lift-Always}
use article.Cli.Terminal.{Console, Session, terminal_input, run_stty}
use article.Cli.Style.{TerminalStyle}
use article.Cli.Text.{trim}
use article.Cli.Calm.{IsCalm, terminal_input-Always}
use article.Cli.Picker.{
  stty, checked, restore_stty, raw_arguments, entered, enter, pick_raw, with_restored, choose_with,
  choose_from_list,
}
use article.Cli.Picking.{pick_number-Always}

-- What `stty` documents: with "-g" it changes nothing, and what it prints then, given back to it,
-- brings the settings back, whatever they are by then.
pub record IsStty (c : Console) : Type 0 where
  pub prints : (n : ℕ) (now : Bytes) → (c.stty n (utf8 "-g" ∷ []) now).1 ≡ now
  pub restores :
      (m n : ℕ) (saved output now : Bytes)
      → (c.stty m (utf8 "-g" ∷ []) saved).0 ≡ ok (true, output)
      → (c.stty n (trim output ∷ []) now).1 ≡ saved

-- The terminal's settings are the same before and after.
abbrev pub same_settings : Frame Session
same_settings = record {
  rel = λ s t. t.settings ≡ s.settings;
  rel_refl = λ s. refl;
  rel_trans = λ h k. k ∙ h;
}

pub same_settings-IsCalm : IsCalm same_settings
same_settings-IsCalm s t h = h.settings

-- A text that brings settings back, given to `stty`.
abbrev Restoring : Console → Bytes → Bytes → Type 0
Restoring c settings saved = (n : ℕ) (now : Bytes) → (c.stty n (saved ∷ []) now).1 ≡ settings

-- What holds of the result of a step that should return such a text.
abbrev Saves : Console → Bytes → Result Bytes → Type 0
Saves c settings (ok saved) = Restoring c settings saved
Saves c settings (err e) = Unit {0}

module _ (c : Console) (h : IsStty c) where
  checked-Saves :
      (output : Result (Bool × Bytes)) (s t : Session)
      → (c.stty s.uses (utf8 "-g" ∷ []) s.settings).0 ≡ output
      → (let (r, t') = continue output (checked c) t in
          (t'.settings ≡ t.settings) × Saves c s.settings r)
  unfolding ◌>>=◌
  checked-Saves (err e) s t k = (refl, tt)
  checked-Saves (ok (false, output)) s t k = (refl, tt)
  checked-Saves (ok (true, output)) s t k = elim (Bool-cases (is_utf8 output)) [
    | inl e ↦ rw e (refl, λ n now. h.restores s.uses n s.settings output now k)
    | inr e ↦ rw e (refl, tt)
  ]

  stty-Saves :
      (s : Session)
      → (let (r, t) = stty c (utf8 "-g" ∷ []) s in (t.settings ≡ s.settings) × Saves c s.settings r)
  unfolding stty run_stty ◌>>=◌
  stty-Saves s =
      let (same, saves) = checked-Saves (c.stty s.uses (utf8 "-g" ∷ []) s.settings).0 s _ refl in
      (same ∙ h.prints s.uses s.settings, saves)

  -- What holds of the end of `enter`: settings to restore, or the settings are back.
  abbrev Left : Bytes → Result Bytes × Session → Type 0
  Left settings (ok saved, s) = Restoring c settings saved
  Left settings (err e, s) = s.settings ≡ settings

  entered-Left :
      (settings saved : Bytes) (r : Result Bytes) (s : Session)
      → Restoring c settings saved
      → Left settings (entered c saved r s)
  unfolding restore_stty run_stty ◌>>=◌
  entered-Left settings saved (ok output) s k = k
  entered-Left settings saved (err e) s k = k s.uses s.settings

  abbrev set_raw : Bytes → Exec Session Bytes
  set_raw saved = attempt (stty c (raw_arguments c)) >>= λ raw. entered c saved raw

  raw-Left :
      (settings saved : Bytes) (s : Session)
      → Restoring c settings saved
      → Left settings (set_raw saved s)
  unfolding ◌>>=◌
  raw-Left settings saved s k =
      let (r, t) = stty c (raw_arguments c) s in entered-Left settings saved r t k

  saved-Left :
      (settings : Bytes) (r : Result Bytes) (s : Session)
      → s.settings ≡ settings
      → Saves c settings r
      → Left settings (continue r set_raw s)
  saved-Left settings (ok saved) s e k = raw-Left settings saved s k
  saved-Left settings (err x) s e k = e

  begun-Left :
      (settings : Bytes) (r : Result (Unit {0})) (s : Session)
      → s.settings ≡ settings
      → Left settings (continue r (λ _. stty c (utf8 "-g" ∷ []) >>= set_raw) s)
  unfolding ◌>>=◌
  begun-Left settings (ok _) s e =
      let (same, saves) = stty-Saves s in
      let (r, t) = stty c (utf8 "-g" ∷ []) s in
      saved-Left settings r t (same ∙ e) (subst (λ q. Saves c q r) e saves)
  begun-Left settings (err x) s e = e

  enter-Left : (s : Session) → Left s.settings (enter c s)
  unfolding enter ◌>>=◌
  enter-Left s =
      let (r, t) = terminal_input c s in
      begun-Left s.settings r t ((terminal_input-Always same_settings same_settings-IsCalm c).at s)

  chosen :
      (title : Bytes) (choices : List Bytes) (style : TerminalStyle) (settings : Bytes)
      (r : Result Bytes) (s : Session)
      → Left settings (r, s)
      → (choose_with c title choices style r s).1.settings ≡ settings
  unfolding with_restored restore_stty run_stty ◌>>=◌
  chosen title choices style settings (ok saved) s k =
      let (r, t) = pick_raw c title choices style s in k t.uses t.settings
  chosen title choices style settings (err e) s k =
      (pick_number-Always same_settings same_settings-IsCalm c title choices style).at s ∙ k

  choose-settings :
      (title : Bytes) (choices : List Bytes) (style : TerminalStyle)
      → Always same_settings (attempt (enter c) >>= choose_with c title choices style)
  unfolding ◌>>=◌
  choose-settings title choices style = record {
    at = λ s. let (r, t) = enter c s in chosen title choices style s.settings r t (enter-Left s);
  }

  -- However the choice ends, in an error too, the terminal has the settings that it had before, if
  -- `stty` does what it documents: with "-g" it leaves the settings as they are, and what it printed
  -- then restores them.
  pub choose_from_list-settings :
      (title : Bytes) (choices : List Bytes) (style : TerminalStyle)
      → Always same_settings (choose_from_list c title choices style)
  unfolding choose_from_list
  choose_from_list-settings title choices style =
      bind-Always _ _ (lift-Always _) λ _. choose-settings title choices style
