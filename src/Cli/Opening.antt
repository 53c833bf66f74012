-- ===== src/Cli/Opening.antt =====
-- The commands and wizards of src/cli.rs that open letters, for relations that `consume_blob` respects.
use article.Base.{Bool, true, false, List}
use article.Base.Bytes.{Bytes}
use article.Exec.Always.{Frame, Always, always_rules, pure-Always}
use article.Primitives.{Primitives}
use article.System.Paths.{FilePath}
use article.System.Files.{Os}
use article.Storage.Access.{consume_blob}
use article.Storage.State.{StatePaths}
use article.Cli.Terminal.{Console, Session, fs, eprint}
use article.Cli.Style.{TerminalStyle}
use article.Cli.Calm.{
  eprint-Always, prompt_path-Always, prompt_unlock_path-Always, prompt_yes_no-Always,
  resolve_unlock_path-Always,
}
use article.Cli.Commands.{dispose, command_open}
use article.Cli.Respect.{IsRespected, fetch_letter-Always, print_letter-Always}
use article.Cli.Guided.{present_letter-Always}
use article.Cli.Wizards.{conclude, wizard_open}

module _ (p : Primitives) (os : Os) (c : Console) (F : Frame Session)
    (r : IsRespected p os c F) where
  abbrev say : (text : Bytes) → Always F (eprint text)
  say = eprint-Always F r.calm

  module _ (consume_ok : (path : FilePath) → Always F (fs (consume_blob os path))) where
    conclude-Always :
        (blob_path : FilePath) (style : TerminalStyle) (consume : Bool)
        → Always F (conclude p os c blob_path style consume)
    unfolding conclude
    conclude-Always blob_path style true = search (say, consume_ok, always_rules)
    conclude-Always blob_path style false = say _

    pub wizard_open-Always :
        (paths : StatePaths) (style : TerminalStyle) → Always F (wizard_open p os c paths style)
    unfolding wizard_open
    wizard_open-Always paths style =
        search
          (
            say,
            prompt_path-Always F r.calm c,
            prompt_unlock_path-Always F r.calm c,
            prompt_yes_no-Always F r.calm c,
            fetch_letter-Always p os c F r,
            present_letter-Always p os c F r,
            conclude-Always,
            always_rules,
          )
          depth 30

    dispose-Always : (blob_path : FilePath) (keep : Bool) → Always F (dispose p os c blob_path keep)
    unfolding dispose
    dispose-Always blob_path true = pure-Always tt
    dispose-Always blob_path false = search (say, consume_ok, always_rules)

    pub command_open-Always :
        (paths : StatePaths) (args : List Bytes) → Always F (command_open p os c paths args)
    unfolding command_open
    command_open-Always paths args =
        search
          (
            resolve_unlock_path-Always F r.calm c,
            fetch_letter-Always p os c F r,
            print_letter-Always p os c F r.calm,
            dispose-Always,
            always_rules,
          )
          depth 20
