-- ===== src/Cli/Untouched.antt =====
-- Opening a letter with "--keep" in src/cli.rs.
use article.Base.{
  ◌≡◌, refl, sym, ap, ap₂, ◌∙◌, Bool, true, false, List, [], ◌∷◌, ◌++◌, Bool-cases, inl, inr,
}
use article.Base.Bytes.{Bytes, bytes_eq, bytes_eq_refl, utf8}
use article.Error.{Result, ok, err, ok_injective, bind_ok}
use article.Exec.{Exec, lift, ◌>>=◌}
use article.Exec.Always.{Frame, Always, pure-Always, bind-Always, lift-Always}
use article.Primitives.{Primitives}
use article.System.Paths.{FilePath, path_of}
use article.System.Files.{Os}
use article.System.Kept.{IsAlone}
use article.System.Unchanged.{unchanged}
use article.Storage.State.{StatePaths}
use article.Cli.Terminal.{Console, Session}
use article.Cli.Calm.{resolve_unlock_path-Always}
use article.Cli.Options.{Options, filter_keep, parse_open_options}
use article.Cli.Commands.{fetch_letter, dispose, command_open}
use article.Cli.Respect.{onto, onto-IsCalm, print_letter-Always}
use article.Cli.Shown.{fetch_letter-looked}

-- Once "--keep" was met, the letter is kept.
filter_keep-true :
    (filtered args out : List Bytes) (keep : Bool)
    → filter_keep filtered true args ≡ ok (out, keep)
    → keep ≡ true
unfolding filter_keep
filter_keep-true filtered [] out keep e = sym (ap (λ q. q.1) (ok_injective _ _ e))
filter_keep-true filtered (arg ∷ args) out keep e =
    elim (Bool-cases (bytes_eq arg (utf8 "--keep"))) [
      | inl h ↦ absurd (cc (rw (h, filter_keep) at e))
      | inr h ↦ filter_keep-true (filtered ++ (arg ∷ [])) args out keep (rw (h, filter_keep) at e)
    ]

filter_keep_asked :
    (asked : Bool) (filtered before after out : List Bytes) (keep : Bool)
    → filter_keep filtered asked (before ++ (utf8 "--keep" ∷ after)) ≡ ok (out, keep)
    → keep ≡ true
unfolding filter_keep
filter_keep_asked true filtered before after out keep e =
    filter_keep-true filtered (before ++ (utf8 "--keep" ∷ after)) out keep e
filter_keep_asked false filtered [] after out keep e =
    filter_keep-true filtered after out keep (rw (bytes_eq_refl (utf8 "--keep"), filter_keep) at e)
filter_keep_asked false filtered (arg ∷ before) after out keep e =
    elim (Bool-cases (bytes_eq arg (utf8 "--keep"))) [
      | inl h ↦
          filter_keep-true filtered (before ++ (utf8 "--keep" ∷ after)) out keep
            (rw (h, filter_keep) at e)
      | inr h ↦
          filter_keep_asked false (filtered ++ (arg ∷ [])) before after out keep
            (rw (h, filter_keep) at e)
    ]

keeps_asked :
    (before after : List Bytes) (options : Options) (keep : Bool)
    → parse_open_options (before ++ (utf8 "--keep" ∷ after)) ≡ ok (options, keep)
    → keep ≡ true
unfolding parse_open_options
keeps_asked before after options keep e = bind_ok _ _ e λ split filtered rest.
    bind_ok _ _ rest λ parsed _ rest'. bind_ok _ _ rest' λ _ _ done.
      filter_keep_asked false [] before after split.0 keep
        (filtered ∙ ap ok (ap₂ (λ x y. (x, y)) refl (ap (λ q. q.1) (ok_injective _ _ done))))

-- What follows a parse may use its result.
parsed-Always :
    {S A B : Type 0} {F : Frame S} (f : A → Exec S B) (r : Result A)
    → ((a : A) → r ≡ ok a → Always F (f a))
    → Always F (lift r >>= f)
unfolding ◌>>=◌
parsed-Always f (ok a) h = record { at = λ s. (h a refl).at s }
parsed-Always {F} f (err e) h = record { at = λ s. F.rel_refl s }

module _ (p : Primitives) (os : Os) (c : Console) (alone : IsAlone os) where
  fetch_letter-unchanged :
      (paths : StatePaths) (unlock_path blob_path : FilePath)
      → Always (onto unchanged) (fetch_letter p os c paths unlock_path blob_path)
  fetch_letter-unchanged paths unlock_path blob_path = record {
    at = λ s. ((fetch_letter-looked p os c alone paths unlock_path blob_path).at s).0;
  }

  dispose-unchanged : (path : FilePath) → Always (onto unchanged) (dispose p os c path true)
  unfolding dispose
  dispose-unchanged path = pure-Always tt

  kept_open :
      (paths : StatePaths) (args : List Bytes)
      → ((options : Options) (keep : Bool)
          → parse_open_options args ≡ ok (options, keep)
          → keep ≡ true)
      → Always (onto unchanged) (command_open p os c paths args)
  unfolding command_open
  kept_open paths args h = parsed-Always _ (parse_open_options args) λ parsed e.
      bind-Always _ _ (lift-Always _) λ argument.
        bind-Always _ _
          (resolve_unlock_path-Always (onto unchanged) (onto-IsCalm unchanged) c _ false)
          λ unlock_path.
            bind-Always _ _ (fetch_letter-unchanged paths unlock_path (path_of argument)) λ letter.
              bind-Always _ _
                (print_letter-Always p os c (onto unchanged) (onto-IsCalm unchanged) letter)
                λ _. rw (h parsed.0 parsed.1 e) (dispose-unchanged (path_of argument))

  -- Opening a letter with "--keep" leaves the whole tree as it was: wherever among the arguments it
  -- stands, and however the command ends, with no other process at work on the tree.
  pub command_open_keep :
      (paths : StatePaths) (before after : List Bytes) (s : Session)
      → (command_open p os c paths (before ++ (utf8 "--keep" ∷ after)) s).1.world.entries
        ≡ s.world.entries
  command_open_keep paths before after s =
      (kept_open paths (before ++ (utf8 "--keep" ∷ after)) (keeps_asked before after)).at s
