-- ===== src/Cli/Respect.antt =====
-- What every command and wizard of src/cli.rs respects, if each operation that it is made of does.
use article.Base.{ℕ, sym, subst, Option, none, some, List}
use article.Base.Bytes.{Bytes}
use article.Exec.{Exec}
use article.Exec.Always.{Frame, Always, always_rules}
use article.Primitives.{Primitives}
use article.Message.{OpenedLetter}
use article.System.Paths.{FilePath}
use article.System.Files.{Os, World, exists}
use article.System.Directories.{create_dir_all}
use article.Storage.Access.{read_blob, write_new_private}
use article.Storage.State.{
  StatePaths, draw, initialize, export_profile, load_identity, trust_profile, contact, all_contacts,
}
use article.Cli.Terminal.{Console, Session, fs, eprint, flush}
use article.Cli.Style.{TerminalStyle}
use article.Cli.Calm.{
  IsCalm, eprint-Always, flush-Always, write_out-Always, read_stdin-Always,
  resolve_unlock_path-Always,
}
use article.Cli.Picker.{choose_from_list}
use article.Cli.Commands.{
  command_init, command_identity, command_trust, deliver, command_seal, print_letter, fetch_letter,
}
use article.Cli.Wizards.{print_letter_status}

-- A relation between worlds, for sessions.
abbrev pub onto : Frame World → Frame Session
onto G = record {
  rel = λ s t. G.rel s.world t.world;
  rel_refl = λ s. G.rel_refl s.world;
  rel_trans = λ h k. G.rel_trans h k;
}

pub onto-IsCalm : (G : Frame World) → IsCalm (onto G)
onto-IsCalm G s t h = subst (G.rel s.world) (sym h.world) (G.rel_refl s.world)

pub fs-onto :
    {A : Type 0} {G : Frame World} {m : Exec World A} → Always G m → Always (onto G) (fs m)
unfolding fs
fs-onto h = record { at = λ s. h.at s.world }

-- The operations that respect the relation. `consume_blob` is not among them.
pub record IsRespected (p : Primitives) (os : Os) (c : Console) (F : Frame Session) : Type 0 where
  pub calm : IsCalm F
  pub choose :
      (title : Bytes) (choices : List Bytes) (style : TerminalStyle)
      → Always F (choose_from_list c title choices style)
  pub exists_ok : (path : FilePath) → Always F (fs (exists os path))
  pub create_dir_all_ok : (path : FilePath) → Always F (fs (create_dir_all os path))
  pub initialize_ok :
      (paths : StatePaths) (unlock_path : FilePath)
      → Always F (fs (initialize p os paths unlock_path))
  pub export_ok : (paths : StatePaths) → Always F (fs (export_profile p os paths))
  pub load_ok :
      (paths : StatePaths) (unlock_path : FilePath)
      → Always F (fs (load_identity p os paths unlock_path))
  pub trust_ok :
      (paths : StatePaths) (source : FilePath) (alias : Bytes)
      → Always F (fs (trust_profile p os paths source alias))
  pub contact_ok : (paths : StatePaths) (alias : Bytes) → Always F (fs (contact p os paths alias))
  pub contacts_ok : (paths : StatePaths) → Always F (fs (all_contacts p os paths))
  pub blob_ok : (path : FilePath) → Always F (fs (read_blob os path))
  pub write_ok : (path : FilePath) (bytes : Bytes) → Always F (fs (write_new_private os path bytes))
  pub draw_ok : (m : Exec ℕ Bytes) → Always F (fs (draw m))

module _ (F : Frame Session) (calm : IsCalm F) where
  pub print_letter_status-Always :
      (letter : OpenedLetter) (style : TerminalStyle) → Always F (print_letter_status letter style)
  unfolding print_letter_status
  print_letter_status-Always letter style = search (eprint-Always F calm, always_rules) depth 12

module _ (p : Primitives) (os : Os) (c : Console) (F : Frame Session) (calm : IsCalm F) where
  said : (text : Bytes) → Always F (eprint text)
  said = eprint-Always F calm

  shown : Always F (flush c)
  shown = flush-Always F calm c

  pub print_letter-Always : (letter : OpenedLetter) → Always F (print_letter p os c letter)
  unfolding print_letter
  print_letter-Always letter =
      search (said, write_out-Always F calm c, shown, always_rules) depth 16

module _ (p : Primitives) (os : Os) (c : Console) (F : Frame Session)
    (r : IsRespected p os c F) where
  abbrev say : (text : Bytes) → Always F (eprint text)
  say = eprint-Always F r.calm

  flushed : Always F (flush c)
  flushed = flush-Always F r.calm c

  pub command_init-Always :
      (paths : StatePaths) (args : List Bytes) → Always F (command_init p os c paths args)
  unfolding command_init
  command_init-Always paths args =
      search (resolve_unlock_path-Always F r.calm c, say, r.initialize_ok, always_rules) depth 24

  pub command_identity-Always :
      (paths : StatePaths) (args : List Bytes) → Always F (command_identity p os c paths args)
  unfolding command_identity
  command_identity-Always paths args =
      search (r.export_ok, write_out-Always F r.calm c, always_rules) depth 12

  pub command_trust-Always :
      (paths : StatePaths) (args : List Bytes) → Always F (command_trust p os c paths args)
  unfolding command_trust
  command_trust-Always paths args = search (say, r.trust_ok, always_rules) depth 24

  deliver-Always : (output : Option FilePath) (blob : Bytes) → Always F (deliver p os c output blob)
  unfolding deliver
  deliver-Always (some path) blob = search (r.write_ok, say, always_rules) depth 12
  deliver-Always none blob =
      search (write_out-Always F r.calm c, flushed, say, always_rules) depth 12

  pub command_seal-Always :
      (paths : StatePaths) (args : List Bytes) → Always F (command_seal p os c paths args)
  unfolding command_seal
  command_seal-Always paths args =
      search
        (
          r.contact_ok,
          resolve_unlock_path-Always F r.calm c,
          r.load_ok,
          say,
          read_stdin-Always F r.calm c,
          r.draw_ok,
          deliver-Always,
          always_rules,
        )
        depth 30

  pub fetch_letter-Always :
      (paths : StatePaths) (unlock_path blob_path : FilePath)
      → Always F (fetch_letter p os c paths unlock_path blob_path)
  unfolding fetch_letter
  fetch_letter-Always paths unlock_path blob_path =
      search (r.load_ok, r.contacts_ok, r.blob_ok, always_rules) depth 12
