-- ===== src/Cli/Picking.antt =====
-- Relations that steps on the terminal respect, for the picker of src/cli.rs.
use article.Base.{ℕ, zero, suc, Bool, true, false, Option, none, List, [], ◌∷◌, length}
use article.Base.Bytes.{Bytes}
use article.Error.{Result, ok, err}
use article.Exec.{Exec}
use article.Exec.Always.{
  Frame, Always, always_rules, pure-Always, bind-Always, lift-Always, attempt-Always, if-Always,
  raise-Always,
}
use article.Cli.Terminal.{Console, Session, run_stty}
use article.Cli.Style.{TerminalStyle}
use article.Cli.Calm.{
  IsCalm, prompt-Always, eprint-Always, read_exact-Always, flush-Always, terminal_input-Always,
}
use article.Cli.Picker.{
  PickerKey, up, down, select, cancel, ignore, read_picker_key, draw_lines, draw_picker, stty,
  restore_stty, entered, enter, after_key, pick, pick_raw, with_restored, list_choices, pick_number,
  choose_with, choose_from_list,
}

module _ (F : Frame Session) (calm : IsCalm F) (c : Console) where
  draw_lines-Always :
      (choices : List Bytes) (index selected : ℕ) (style : TerminalStyle)
      → Always F (draw_lines c choices index selected style)
  unfolding draw_lines
  draw_lines-Always [] index selected style = pure-Always tt
  draw_lines-Always (choice ∷ choices) index selected style =
      search (eprint-Always F calm, draw_lines-Always choices, always_rules)

  pub list_choices-Always :
      (choices : List Bytes) (index : ℕ) → Always F (list_choices c choices index)
  unfolding list_choices
  list_choices-Always [] index = pure-Always tt
  list_choices-Always (choice ∷ choices) index =
      search (eprint-Always F calm, list_choices-Always choices, always_rules)

  pub read_picker_key-Always : Always F (read_picker_key c)
  unfolding read_picker_key
  read_picker_key-Always = search (read_exact-Always F calm c, always_rules) depth 12

  pub draw_picker-Always :
      (choices : List Bytes) (selected : ℕ) (style : TerminalStyle) (redraw : Bool)
      → Always F (draw_picker c choices selected style redraw)
  unfolding draw_picker
  draw_picker-Always choices selected style redraw =
      bind-Always _ _ (if-Always redraw _ _ (eprint-Always F calm _) (pure-Always tt))
        λ _. bind-Always _ _ (draw_lines-Always choices 0 selected style) λ _. flush-Always F calm c

  pub after_key-Always :
      (again : ℕ → Exec Session (Option (Option ℕ))) (choices : List Bytes) (style : TerminalStyle)
      (selected : ℕ) (key : PickerKey)
      → ((next : ℕ) → Always F (again next))
      → Always F (after_key c again choices style selected key)
  after_key-Always again choices style selected up h =
      bind-Always _ _ (draw_picker-Always choices _ style true) λ _. h _
  after_key-Always again choices style selected down h =
      bind-Always _ _ (draw_picker-Always choices _ style true) λ _. h _
  after_key-Always again choices style selected select h =
      bind-Always _ _ (eprint-Always F calm _) λ _. pure-Always _
  after_key-Always again choices style selected cancel h =
      bind-Always _ _ (eprint-Always F calm _) λ _. pure-Always _
  after_key-Always again choices style selected ignore h = h selected

  pub pick-Always :
      (fuel : ℕ) (choices : List Bytes) (style : TerminalStyle) (selected : ℕ)
      → Always F (pick c fuel choices style selected)
  unfolding pick
  pick-Always zero choices style selected = pure-Always none
  pick-Always (suc fuel) choices style selected =
      bind-Always _ _ read_picker_key-Always
        λ key. after_key-Always _ choices style selected key (pick-Always fuel choices style)

  pub pick_raw-Always :
      (title : Bytes) (choices : List Bytes) (style : TerminalStyle)
      → Always F (pick_raw c title choices style)
  unfolding pick_raw
  pick_raw-Always title choices style = record {
    at = λ s.
        (bind-Always _ _ (eprint-Always F calm _) λ _. bind-Always _ _ (eprint-Always F calm _) λ _.
            bind-Always _ _ (draw_picker-Always choices 0 style false)
              λ _. pick-Always (suc (length s.tty)) choices style 0).at
          s;
  }

  pub pick_number-Always :
      (title : Bytes) (choices : List Bytes) (style : TerminalStyle)
      → Always F (pick_number c title choices style)
  unfolding pick_number
  pick_number-Always title choices style =
      search (eprint-Always F calm, list_choices-Always, prompt-Always F calm c, always_rules)

  -- For relations that do not look at the settings.
  module _ (stty_ok : (arguments : List Bytes) → Always F (run_stty c arguments)) where
    stty-Always : (arguments : List Bytes) → Always F (stty c arguments)
    unfolding stty
    stty-Always arguments = search (stty_ok, always_rules)

    pub restore_stty-Always : (saved_mode : Bytes) → Always F (restore_stty c saved_mode)
    unfolding restore_stty
    restore_stty-Always saved_mode = search (stty_ok, always_rules)

    entered-Always : (saved_mode : Bytes) (r : Result Bytes) → Always F (entered c saved_mode r)
    entered-Always saved_mode (ok output) = pure-Always saved_mode
    entered-Always saved_mode (err e) =
        bind-Always _ _ (restore_stty-Always saved_mode) λ _. raise-Always e

    pub enter-Always : Always F (enter c)
    unfolding enter
    enter-Always = bind-Always _ _ (terminal_input-Always F calm c) λ _.
        bind-Always _ _ (stty-Always _) λ saved_mode.
          bind-Always _ _ (attempt-Always _ (stty-Always _)) λ raw. entered-Always saved_mode raw

    with_restored-Always :
        {A : Type 0} (saved_mode : Bytes) (m : Exec Session A)
        → Always F m
        → Always F (with_restored c saved_mode m)
    unfolding with_restored
    with_restored-Always saved_mode m h = record {
      at = λ s. F.rel_trans (h.at s) ((restore_stty-Always saved_mode).at (m s).1);
    }

    choose_with-Always :
        (title : Bytes) (choices : List Bytes) (style : TerminalStyle) (terminal : Result Bytes)
        → Always F (choose_with c title choices style terminal)
    choose_with-Always title choices style (ok saved_mode) =
        with_restored-Always saved_mode _ (pick_raw-Always title choices style)
    choose_with-Always title choices style (err error) = pick_number-Always title choices style

    pub choose_from_list-Always :
        (title : Bytes) (choices : List Bytes) (style : TerminalStyle)
        → Always F (choose_from_list c title choices style)
    unfolding choose_from_list
    choose_from_list-Always title choices style = bind-Always _ _ (lift-Always _) λ _.
        bind-Always _ _ (attempt-Always _ enter-Always)
          λ terminal. choose_with-Always title choices style terminal
