-- ===== src/Cli/Overall.antt =====
-- What a whole run of src/cli.rs respects, if each operation that it is made of does.
use mathlib.Core.Option.{some-injective}
use article.Base.{
  ℕ, zero, suc, ◌≡◌, refl, Option, none, some, List, [], ◌∷◌, ◌++◌, ◌&&◌, length, get_elem?,
  Bool-cases, Option-cases, inl, inr, All, subst, arith,
}
use article.Base.Bytes.{Bytes, is_utf8}
use article.Error.{IoText, Result, ok, err}
use article.Exec.Always.{
  Frame, Always, always_rules, pure-Always, raise-Always, lift-Always, attempt-Always, if-Always,
  bind-Always,
}
use article.Primitives.{Primitives}
use article.Contact.{Contact}
use article.Identity.{PublicProfile}
use article.System.Files.{Os}
use article.Storage.State.{StatePaths, discover}
use article.Cli.Terminal.{Console, Session, eprint}
use article.Cli.Style.{TerminalStyle, detect}
use article.Cli.Calm.{eprint-Always, wait_for_enter-Always}
use article.Cli.Commands.{command_open}
use article.Cli.Respect.{
  IsRespected, command_init-Always, command_identity-Always, command_trust-Always,
  command_seal-Always,
}
use article.Cli.Guided.{
  wizard_init-Always, wizard_export-Always, wizard_trust-Always, wizard_seal-Always,
  wizard_show-Always,
}
use article.Cli.Wizards.{settled, wizard_open}
use article.Cli.Run.{
  println, print_banner, identity_lines, contact_line, print_state_summary, actions, act, is_exit,
  selected_action, menu, interactive, dispatch, run, ended, run_main,
}

get_elem?-All :
    {A : Type 0} (P : A → Type 0) (xs : List A) {a : A}
    → All P xs
    → (i : ℕ) → get_elem? xs i ≡ some a
    → P a
get_elem?-All P [] h i e = absurd (cc)
get_elem?-All P (x ∷ xs) h zero e = subst P (some-injective _ _ e) h.0
get_elem?-All P (x ∷ xs) h (suc i) e = get_elem?-All P xs h.1 i e

module _ (p : Primitives) (os : Os) (c : Console) (F : Frame Session)
    (r : IsRespected p os c F) where
  abbrev say : (text : Bytes) → Always F (eprint text)
  say = eprint-Always F r.calm

  identity_lines-Always :
      (style : TerminalStyle) (o : Result PublicProfile) → Always F (identity_lines p os c style o)
  identity_lines-Always style (ok profile) = search (say, always_rules)
  identity_lines-Always style (err e) = say _

  contact_line-Always :
      (style : TerminalStyle) (o : Result (List Contact)) → Always F (contact_line p os c style o)
  contact_line-Always style (ok contacts) = say _
  contact_line-Always style (err e) = say _

  pub print_state_summary-Always :
      (paths : StatePaths) (style : TerminalStyle)
      → Always F (print_state_summary p os c paths style)
  unfolding print_state_summary
  print_state_summary-Always paths style =
      search
        (say, r.export_ok, r.contacts_ok, identity_lines-Always, contact_line-Always, always_rules)
        depth 12

  pub println-Always : (text : Bytes) → Always F (println text)
  println-Always text = record {
    at = λ s. r.calm _ _ (record {
      world = refl;
      settings = refl;
      tty = omega arith;
      out = text ++ (b'\n' ∷ []);
      stdout = refl;
    });
  }

  module _
      (wizard_ok : (paths : StatePaths) (style : TerminalStyle)
        → Always F (wizard_open p os c paths style))
      (command_ok : (paths : StatePaths) (args : List Bytes)
        → Always F (command_open p os c paths args)) where
    actions-Always :
        (paths : StatePaths) (style : TerminalStyle) → All (Always F) (actions p os c paths style)
    actions-Always paths style = (
      wizard_init-Always p os c F r paths style,
      (
        wizard_export-Always p os c F r paths style,
        (
          wizard_trust-Always p os c F r paths style,
          (
            wizard_seal-Always p os c F r paths style,
            (wizard_ok paths style, (wizard_show-Always p os c F r paths style, tt)),
          ),
        ),
      ),
    )

    pub act-Always :
        (text : IoText) (paths : StatePaths) (style : TerminalStyle) (picked : Option ℕ)
        → Always F (act p os c text paths style (selected_action p os c paths style picked))
    unfolding act
    act-Always text paths style none = raise-Always _
    act-Always text paths style (some index) =
        elim (Option-cases (get_elem? (actions p os c paths style) index)) [
          | inl h ↦ rw (h, act) (raise-Always _)
          | inr (action, h) ↦
              rw (h, act)
                (bind-Always _ _
                  (attempt-Always action (
                    get_elem?-All (Always F) (actions p os c paths style)
                      (actions-Always paths style) index h))
                  λ outcome. bind-Always _ _ (say _) λ _. wait_for_enter-Always F r.calm c _)
        ]

    pub menu-Always :
        (fuel : ℕ) (text : IoText) (paths : StatePaths) (style : TerminalStyle)
        → Always F (menu p os c fuel text paths style)
    unfolding menu
    menu-Always zero text paths style = pure-Always none
    menu-Always (suc fuel) text paths style =
        bind-Always _ _ (print_state_summary-Always paths style) λ _.
          bind-Always _ _ (r.choose _ _ style) λ choice. bind-Always _ _ (lift-Always _) λ picked.
            elim (Bool-cases (is_exit p os c picked)) [
              | inl h ↦ rw h (bind-Always _ _ (say _) λ _. pure-Always (some tt))
              | inr h ↦ rw h (
                  bind-Always _ _ (act-Always text paths style picked)
                    λ _. menu-Always fuel text paths style)
            ]

    pub interactive-Always : (text : IoText) → Always F (interactive p os c text)
    unfolding interactive print_banner
    interactive-Always text = record {
      at = λ s.
          (bind-Always _ _ (lift-Always (discover c.environment)) λ paths.
              bind-Always _ _ (bind-Always _ _ (say _) λ _. say _) λ _.
                bind-Always _ _ (menu-Always (suc (length s.tty)) text paths (detect c))
                  λ ended. lift-Always (settled ended)).at
            s;
    }

    dispatch-Always :
        (paths : StatePaths) (command : Bytes) (remaining : List Bytes)
        → Always F (dispatch p os c paths command remaining)
    unfolding dispatch
    dispatch-Always paths command remaining =
        search
          (
            command_init-Always p os c F r,
            command_identity-Always p os c F r,
            command_trust-Always p os c F r,
            command_seal-Always p os c F r,
            command_ok,
            println-Always,
            always_rules,
          )
          depth 30

    pub run-Always : (text : IoText) (args : List Bytes) → Always F (run p os c text args)
    unfolding run
    run-Always text [] =
        if-Always (c.stdin_terminal && c.stdout_terminal) _ _ (interactive-Always text)
          (raise-Always _)
    run-Always text (command ∷ remaining) =
        if-Always (is_utf8 command) _ _
          (bind-Always _ _ (lift-Always _) λ paths. dispatch-Always paths command remaining)
          (raise-Always _)

    ended-Always : (text : IoText) (o : Result (Unit {0})) → Always F (ended p os c text o)
    ended-Always text (ok _) = pure-Always 0
    ended-Always text (err e) = bind-Always _ _ (say _) λ _. pure-Always 1

    pub run_main-Always : (text : IoText) (args : List Bytes) → Always F (run_main p os c text args)
    unfolding run_main
    run_main-Always text args =
        bind-Always _ _ (attempt-Always _ (run-Always text args))
          λ outcome. ended-Always text outcome
