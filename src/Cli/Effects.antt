-- ===== src/Cli/Effects.antt =====
-- What the operations behind src/cli.rs do to the terminal, and to the files.
use article.Base.{refl, sym, append-nil, [], ◌≤◌, List, length, arith}
use article.Base.Bytes.{Bytes}
use article.Exec.{Exec}
use article.Exec.Always.{Frame, Always}
use article.Primitives.{Primitives}
use article.System.Files.{Os, World}
use article.System.Kept.{IsAlone, Kept-refl, exists-Keeps}
use article.System.Created.{kept, Always-kept, unchanged-kept, create_dir_all-kept}
use article.Storage.Fresh.{IsHonest, initialize-Keeps}
use article.Storage.Keeps.{trust_profile-Keeps, write_new_private-Keeps}
use article.Storage.Unchanged.{
  draw-unchanged, export_profile-unchanged, load_identity-unchanged, contact-unchanged,
  all_contacts-unchanged, read_blob-unchanged,
}
use article.Cli.Terminal.{Console, Session, fs, run_stty}
use article.Cli.Style.{TerminalStyle}
use article.Cli.Picker.{choose_from_list}
use article.Cli.Calm.{IsCalm}
use article.Cli.Picking.{choose_from_list-Always}
use article.Cli.Respect.{IsRespected, onto, onto-IsCalm, fs-onto}
use article.Cli.Safe.{safe, safe-IsCalm, IsSafe-Kept}
use article.Cli.Settings.{IsStty, same_settings, same_settings-IsCalm, choose_from_list-settings}

-- Nothing is put back into the terminal's input.
abbrev pub tty_shrinks : Frame Session
tty_shrinks = record {
  rel = λ s t. length t.tty ≤ length s.tty;
  rel_refl = λ s. omega arith;
  rel_trans = λ h k. omega (arith, h, k);
}

pub tty_shrinks-IsCalm : IsCalm tty_shrinks
tty_shrinks-IsCalm s t h = h.tty

pub fs-shrinks : {A : Type 0} (m : Exec World A) → Always tty_shrinks (fs m)
unfolding fs
fs-shrinks m = record { at = λ s. omega arith }

pub fs-settings : {A : Type 0} (m : Exec World A) → Always same_settings (fs m)
unfolding fs
fs-settings m = record { at = λ s. refl }

pub stty-shrinks :
    (c : Console) (arguments : List Bytes) → Always tty_shrinks (run_stty c arguments)
unfolding run_stty
stty-shrinks c arguments = record { at = λ s. omega arith }

stty-onto :
    (G : Frame World) (c : Console) (arguments : List Bytes)
    → Always (onto G) (run_stty c arguments)
unfolding run_stty
stty-onto G c arguments = record { at = λ s. G.rel_refl s.world }

pub fs-safe :
    {A : Type 0} {p : Primitives} {m : Exec World A} → Always kept m → Always (safe p) (fs m)
unfolding fs
fs-safe h = record { at = λ s. IsSafe-Kept [] (sym (append-nil _)) (h.at s.world) }

stty-safe :
    {p : Primitives} (c : Console) (arguments : List Bytes) → Always (safe p) (run_stty c arguments)
unfolding run_stty
stty-safe c arguments = record {
  at = λ s. IsSafe-Kept [] (sym (append-nil _)) (Kept-refl s.world.entries);
}

module _ (p : Primitives) (os : Os) (c : Console) where
  -- For relations that do not look at the files.
  respected :
      (F : Frame Session)
      → IsCalm F
      → ((A : Type 0) (m : Exec World A) → Always F (fs m))
      → ((title : Bytes) (choices : List Bytes) (style : TerminalStyle)
          → Always F (choose_from_list c title choices style))
      → IsRespected p os c F
  respected F calm files choose = record {
    calm = calm;
    choose = choose;
    exists_ok = λ path. files _ _;
    create_dir_all_ok = λ path. files _ _;
    initialize_ok = λ paths unlock_path. files _ _;
    export_ok = λ paths. files _ _;
    load_ok = λ paths unlock_path. files _ _;
    trust_ok = λ paths source alias. files _ _;
    contact_ok = λ paths alias. files _ _;
    contacts_ok = λ paths. files _ _;
    blob_ok = λ path. files _ _;
    write_ok = λ path bytes. files _ _;
    draw_ok = λ m. files _ _;
  }

  pub tty_shrinks-IsRespected : IsRespected p os c tty_shrinks
  tty_shrinks-IsRespected =
      respected tty_shrinks tty_shrinks-IsCalm (λ A m. fs-shrinks m)
        (choose_from_list-Always tty_shrinks tty_shrinks-IsCalm c (stty-shrinks c))

  pub settings-IsRespected : IsStty c → IsRespected p os c same_settings
  settings-IsRespected h =
      respected same_settings same_settings-IsCalm (λ A m. fs-settings m)
        (choose_from_list-settings c h)

  -- For relations that hold wherever the files are kept.
  keeping :
      (F : Frame Session)
      → IsCalm F
      → ((A : Type 0) (m : Exec World A) → Always kept m → Always F (fs m))
      → ((arguments : List Bytes) → Always F (run_stty c arguments))
      → IsAlone os
      → IsHonest os
      → IsRespected p os c F
  keeping F calm files stty_ok alone honest = record {
    calm = calm;
    choose = choose_from_list-Always F calm c stty_ok;
    exists_ok = λ path. files _ _ (Always-kept (exists-Keeps os alone path));
    create_dir_all_ok = λ path. files _ _ (create_dir_all-kept os alone path);
    initialize_ok = λ paths unlock_path.
        files _ _ (Always-kept (initialize-Keeps os alone p honest paths unlock_path));
    export_ok = λ paths. files _ _ (unchanged-kept (export_profile-unchanged os alone p paths));
    load_ok = λ paths unlock_path.
        files _ _ (unchanged-kept (load_identity-unchanged os alone p paths unlock_path));
    trust_ok = λ paths source alias.
        files _ _ (Always-kept (trust_profile-Keeps os alone p paths source alias));
    contact_ok =
        λ paths alias. files _ _ (unchanged-kept (contact-unchanged os alone p paths alias));
    contacts_ok = λ paths. files _ _ (unchanged-kept (all_contacts-unchanged os alone p paths));
    blob_ok = λ path. files _ _ (unchanged-kept (read_blob-unchanged os alone path));
    write_ok = λ path bytes. files _ _ (Always-kept (write_new_private-Keeps os alone path bytes));
    draw_ok = λ m. files _ _ (unchanged-kept (draw-unchanged m));
  }

  pub kept-IsRespected : IsAlone os → IsHonest os → IsRespected p os c (onto kept)
  kept-IsRespected = keeping (onto kept) (onto-IsCalm kept) (λ A m h. fs-onto h) (stty-onto kept c)

  pub safe-IsRespected : IsAlone os → IsHonest os → IsRespected p os c (safe p)
  safe-IsRespected = keeping (safe p) (safe-IsCalm p) (λ A m h. fs-safe h) (stty-safe c)
