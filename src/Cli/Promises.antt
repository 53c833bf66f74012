-- ===== src/Cli/Promises.antt =====
-- Whole runs of src/cli.rs and src/main.rs: the files and the terminal.
use article.Base.{
  ◌≡◌, sym, ap, subst, ◌∙◌, ◌⊎◌, inl, inr, refl, Bool, true, false, List, [], ◌∷◌, ◌++◌,
  if◌then◌else◌, some,
}
use article.Base.Bytes.{Bytes, bytes_eq, utf8}
use article.Error.{IoText}
use article.Exec.{Exec, ◌>>=◌, ◌>>◌}
use article.Exec.Always.{Frame, Always, always_rules, pure-Always, bind-Always, lift-Always}
use article.Primitives.{Primitives}
use article.System.Paths.{FilePath, path_of}
use article.System.Files.{Os}
use article.System.Kept.{IsAlone, Kept, content}
use article.System.Created.{kept}
use article.Storage.Consumed.{consume_blob-all_but}
use article.Storage.Fresh.{IsHonest}
use article.Storage.Keeps.{KeptBut-refl}
use article.Storage.State.{StatePaths}
use article.Cli.Terminal.{Console, Session, fs, eprint}
use article.Cli.Calm.{
  eprint-Always, prompt_path-Always, prompt_unlock_path-Always, prompt_yes_no-Always,
  resolve_unlock_path-Always,
}
use article.Cli.Style.{TerminalStyle}
use article.Storage.Access.{consume_blob}
use article.Cli.Commands.{fetch_letter, print_letter, dispose, command_open}
use article.Cli.Wizards.{present_letter, conclude, wizard_open, ends_line}
use article.Cli.Respect.{
  onto, print_letter-Always, command_init-Always, command_identity-Always, command_trust-Always,
  command_seal-Always,
}
use article.Cli.Guided.{present_letter-Always}
use article.Cli.Prints.{print_letter-Prints, present_letter-Prints}
use article.Cli.Opening
use article.Cli.Overall.{println-Always, run_main-Always}
use article.Cli.Run.{run_main, dispatch}
use article.Cli.Effects.{settings-IsRespected, safe-IsRespected, kept-IsRespected, fs-settings}
use article.Cli.Settings.{IsStty, same_settings}
use article.Cli.Safe.{IsShown, safe, safe-IsCalm}
use article.Cli.Shown.{finishing, opened-safe, fetch_letter-looked, fetch_letter-IsFetched}

-- A branch that is not taken.
other_branch :
    (F : Frame Session) (command : Bytes)
    → bytes_eq command (utf8 "open") ≡ false
    → (m n : Exec Session (Unit {0})) → Always F n
    → Always F (if bytes_eq command (utf8 "open") then m else n)
other_branch F command h m n k = rw h k

module _ (p : Primitives) (os : Os) (c : Console) where
  -- However a run of the program ends, the terminal's settings are as they were before it, if `stty`
  -- with "-g" leaves them as they are and prints what restores them.
  pub run_main-settings :
      IsStty c
      → (text : IoText) (args : List Bytes) (s : Session)
      → (run_main p os c text args s).1.settings ≡ s.settings
  run_main-settings h text args s =
      let r = settings-IsRespected p os c h in
      (run_main-Always p os c same_settings r
          (Opening.wizard_open-Always p os c same_settings r λ path. fs-settings _)
          (Opening.command_open-Always p os c same_settings r λ path. fs-settings _) text args).at
        s

  module _ (alone : IsAlone os) where
    consumed : (path : FilePath) → Always (finishing path) (fs (consume_blob os path))
    unfolding fs
    consumed path = record { at = λ s. ((consume_blob-all_but os alone path).at s.world, refl) }

    said : (path : FilePath) (text : Bytes) → Always (finishing path) (eprint text)
    unfolding eprint
    said path text = record { at = λ s. (KeptBut-refl path s.world.entries, refl) }

    dispose-finishing :
        (path : FilePath) (keep : Bool) → Always (finishing path) (dispose p os c path keep)
    unfolding dispose
    dispose-finishing path true = pure-Always tt
    dispose-finishing path false = bind-Always _ _ (consumed path) λ _. said path _

    conclude-finishing :
        (path : FilePath) (style : TerminalStyle) (consume : Bool)
        → Always (finishing path) (conclude p os c path style consume)
    unfolding conclude
    conclude-finishing path style true = bind-Always _ _ (consumed path) λ _. said path _
    conclude-finishing path style false = said path _

    opened :
        (paths : StatePaths) (unlock_path blob_path : FilePath) (keep : Bool)
        → Always (safe p) (
            fetch_letter p os c paths unlock_path blob_path >>= λ letter.
            print_letter p os c letter >> dispose p os c blob_path keep)
    opened paths unlock_path blob_path keep =
        opened-safe blob_path (print_letter p os c) (λ letter. []) (dispose p os c blob_path keep)
          (print_letter-Always p os c (safe p) (safe-IsCalm p)) (print_letter-Prints c p os)
          (dispose-finishing blob_path keep) _
          (fetch_letter-looked p os c alone paths unlock_path blob_path)
          (fetch_letter-IsFetched p os c alone paths unlock_path blob_path)

    command_open-safe :
        (paths : StatePaths) (args : List Bytes) → Always (safe p) (command_open p os c paths args)
    unfolding command_open
    command_open-safe paths args = bind-Always _ _ (lift-Always _) λ options.
        bind-Always _ _ (lift-Always _) λ argument.
          bind-Always _ _ (resolve_unlock_path-Always (safe p) (safe-IsCalm p) c _ false)
            λ unlock_path. opened paths unlock_path (path_of argument) options.1

    module _ (honest : IsHonest os) where
      presented :
          (paths : StatePaths) (style : TerminalStyle) (unlock_path blob_path : FilePath)
          (consume : Bool)
          → Always (safe p) (
              fetch_letter p os c paths unlock_path blob_path >>= λ letter.
              present_letter p os c letter style >> conclude p os c blob_path style consume)
      presented paths style unlock_path blob_path consume =
          opened-safe blob_path (λ letter. present_letter p os c letter style)
            (λ letter. (if ends_line letter.body then [] else b'\n' ∷ []) ++ [])
            (conclude p os c blob_path style consume)
            (λ letter.
              present_letter-Always p os c (safe p) (safe-IsRespected p os c alone honest) letter
                style)
            (λ letter. present_letter-Prints c p os letter style)
            (conclude-finishing blob_path style consume) _
            (fetch_letter-looked p os c alone paths unlock_path blob_path)
            (fetch_letter-IsFetched p os c alone paths unlock_path blob_path)

      wizard_open-safe :
          (paths : StatePaths) (style : TerminalStyle)
          → Always (safe p) (wizard_open p os c paths style)
      unfolding wizard_open
      wizard_open-safe paths style = bind-Always _ _ (eprint-Always (safe p) (safe-IsCalm p) _) λ _.
          bind-Always _ _ (prompt_path-Always (safe p) (safe-IsCalm p) c _ _) λ blob_path.
            bind-Always _ _ (prompt_unlock_path-Always (safe p) (safe-IsCalm p) c false)
              λ unlock_path.
                bind-Always _ _ (prompt_yes_no-Always (safe p) (safe-IsCalm p) c _ true)
                  λ consume. presented paths style unlock_path blob_path consume

      run_main-safe :
          (text : IoText) (args : List Bytes) → Always (safe p) (run_main p os c text args)
      run_main-safe =
          run_main-Always p os c (safe p) (safe-IsRespected p os c alone honest) wizard_open-safe
            command_open-safe

      -- No run of the program loses a file, unless it was a letter that opened and whose body the run
      -- wrote to the standard output: however the run ends, with no other process at work on the
      -- tree, no false report of a missing path, and nothing written before, every file is there in
      -- the end with its bytes, or its bytes opened to a letter whose body is part of the output.
      pub run_main-IsShown :
          (text : IoText) (args : List Bytes) (s : Session)
          → s.stdout ≡ []
          → (q : FilePath) (bytes : Bytes) → content q s.world.entries ≡ some bytes
          → (let t = (run_main p os c text args s).1 in
              (content q t.world.entries ≡ some bytes) ⊎ IsShown p bytes t.stdout)
      run_main-IsShown text args s fresh q bytes there =
          let h = (run_main-safe text args).at s in
          let t = (run_main p os c text args s).1 in
          let all = h.grown ∙ ap (λ x. x ++ h.written) fresh in
          elim (h.stays q bytes there) [
            | inl still ↦ inl still
            | inr shown ↦ inr (subst (IsShown p bytes) (sym all) shown)
          ]

      other-kept :
          (paths : StatePaths) (command : Bytes) (remaining : List Bytes)
          → bytes_eq command (utf8 "open") ≡ false
          → Always (onto kept) (dispatch p os c paths command remaining)
      unfolding dispatch
      other-kept paths command remaining h =
          let r = kept-IsRespected p os c alone honest in
          search
            (
              other_branch (onto kept) command h,
              command_init-Always p os c (onto kept) r,
              command_identity-Always p os c (onto kept) r,
              command_trust-Always p os c (onto kept) r,
              command_seal-Always p os c (onto kept) r,
              println-Always p os c (onto kept) r,
              always_rules,
            )
            depth 30

      -- However it ends, a command other than "open" leaves every file that was there with its
      -- contents, with no other process at work on the tree and no false report of a missing path.
      pub dispatch-Kept :
          (paths : StatePaths) (command : Bytes) (remaining : List Bytes) (s : Session)
          → bytes_eq command (utf8 "open") ≡ false
          → Kept s.world.entries (dispatch p os c paths command remaining s).1.world.entries
      dispatch-Kept paths command remaining s h = (other-kept paths command remaining h).at s
