-- ===== src/Cli/Guided.antt =====
-- What every wizard of src/cli.rs respects, if each operation that it is made of does.
use article.Base.{List, [], ◌∷◌}
use article.Base.Bytes.{Bytes}
use article.Exec.Always.{Frame, Always, always_rules, pure-Always, bind-Always}
use article.Primitives.{Primitives}
use article.Contact.{Contact}
use article.Message.{OpenedLetter}
use article.System.Paths.{FilePath}
use article.System.Files.{Os}
use article.Storage.State.{StatePaths}
use article.Cli.Terminal.{Console, Session, eprint, flush}
use article.Cli.Style.{TerminalStyle}
use article.Cli.Calm.{
  eprint-Always, flush-Always, write_out-Always, prompt-Always, prompt_path-Always,
  prompt_unlock_path-Always, prompt_yes_no-Always, read_multiline_letter-Always,
}
use article.Cli.Prompts.{read_multiline_letter}
use article.Cli.Respect.{IsRespected, print_letter_status-Always}
use article.Cli.Wizards.{
  prepare_parent, wizard_init, wizard_export, wizard_trust, wizard_seal, present_letter,
  show_contacts, wizard_show,
}

module _ (p : Primitives) (os : Os) (c : Console) (F : Frame Session)
    (r : IsRespected p os c F) where
  abbrev say : (text : Bytes) → Always F (eprint text)
  say = eprint-Always F r.calm

  flushed : Always F (flush c)
  flushed = flush-Always F r.calm c

  letter_typed : Always F (read_multiline_letter c)
  letter_typed = read_multiline_letter-Always F r.calm c

  show_contacts-Always :
      (contacts : List Contact) (style : TerminalStyle)
      → Always F (show_contacts p os c contacts style)
  unfolding show_contacts
  show_contacts-Always [] style = pure-Always tt
  show_contacts-Always (friend ∷ contacts) style =
      bind-Always _ _ (say _) λ _. bind-Always _ _ (say _) λ _. show_contacts-Always contacts style

  pub present_letter-Always :
      (letter : OpenedLetter) (style : TerminalStyle)
      → Always F (present_letter p os c letter style)
  unfolding present_letter
  present_letter-Always letter style =
      search
        (
          say,
          print_letter_status-Always F r.calm,
          write_out-Always F r.calm c,
          flushed,
          always_rules,
        )
        depth 20

  prepare_parent-Always :
      (style : TerminalStyle) (unlock_path default_unlock_path : FilePath)
      → Always F (prepare_parent p os c style unlock_path default_unlock_path)
  unfolding prepare_parent
  prepare_parent-Always style unlock_path default_unlock_path =
      search (say, r.exists_ok, r.create_dir_all_ok, prompt_yes_no-Always F r.calm c, always_rules)
        depth 20

  pub wizard_init-Always :
      (paths : StatePaths) (style : TerminalStyle) → Always F (wizard_init p os c paths style)
  unfolding wizard_init
  wizard_init-Always paths style =
      search
        (say, prompt_path-Always F r.calm c, prepare_parent-Always, r.initialize_ok, always_rules)
        depth 40

  pub wizard_export-Always :
      (paths : StatePaths) (style : TerminalStyle) → Always F (wizard_export p os c paths style)
  unfolding wizard_export
  wizard_export-Always paths style =
      search (say, r.export_ok, prompt_path-Always F r.calm c, r.write_ok, always_rules) depth 30

  pub wizard_trust-Always :
      (paths : StatePaths) (style : TerminalStyle) → Always F (wizard_trust p os c paths style)
  unfolding wizard_trust
  wizard_trust-Always paths style =
      search
        (say, r.trust_ok, prompt_path-Always F r.calm c, prompt-Always F r.calm c, always_rules)
        depth 30

  pub wizard_seal-Always :
      (paths : StatePaths) (style : TerminalStyle) → Always F (wizard_seal p os c paths style)
  unfolding wizard_seal
  wizard_seal-Always paths style =
      search
        (
          say,
          r.contacts_ok,
          r.choose,
          prompt_unlock_path-Always F r.calm c,
          prompt_path-Always F r.calm c,
          letter_typed,
          r.load_ok,
          r.draw_ok,
          r.write_ok,
          always_rules,
        )
        depth 60

  pub wizard_show-Always :
      (paths : StatePaths) (style : TerminalStyle) → Always F (wizard_show p os c paths style)
  unfolding wizard_show
  wizard_show-Always paths style =
      search (say, r.export_ok, r.contacts_ok, show_contacts-Always, always_rules) depth 30
