-- ===== src/Cli/Streams.antt =====
-- What src/cli.rs does to the standard streams before `command_seal` reads its input.
use article.Base.{
  ℕ, suc, ◌≡◌, refl, sym, ap, ◌∙◌, Bool, Option, none, some, take, arith, Option-cases, inl, inr,
}
use article.Base.Bytes.{Bytes}
use article.Error.{Result, ok, ok_injective}
use article.Exec.{Exec}
use article.Exec.Always.{Frame, Always, always_rules, pure-Always}
use article.Cli.Takes.{call_done}
use article.System.Paths.{FilePath}
use article.System.Files.{World}
use article.Cli.Terminal.{
  Console, Session, fs, call, eprint, flush, read_line, terminal_input, read_stdin,
}
use article.Cli.Prompts.{read_terminal_line, read_path_from_terminal, resolve_unlock_path}

-- The standard streams are as they were.
abbrev pub streams : Frame Session
streams = record {
  rel = λ s t. (t.stdin ≡ s.stdin) × (t.stdout ≡ s.stdout);
  rel_refl = λ s. (refl, refl);
  rel_trans = λ h k. (k.0 ∙ h.0, k.1 ∙ h.1);
}

pub fs-streams : {A : Type 0} (m : Exec World A) → Always streams (fs m)
unfolding fs
fs-streams m = record { at = λ s. (refl, refl) }

pub eprint-streams : (text : Bytes) → Always streams (eprint text)
unfolding eprint
eprint-streams text = record { at = λ s. (refl, refl) }

module _ (c : Console) where
  call-streams :
      {A : Type 0} (f : Session → Result A × Session)
      → ((s : Session) → streams.rel s (f s).1)
      → Always streams (call c f)
  unfolding call
  call-streams f h = record {
    at = λ s. elim (Option-cases (c.fault s.uses)) [
      | inl e ↦ rw (e, call) (h (record s { uses = suc s.uses }))
      | inr (x, e) ↦ rw (e, call) (refl, refl)
    ];
  }

  flush-streams : Always streams (flush c)
  unfolding flush
  flush-streams = call-streams _ λ s. (refl, refl)

  terminal_input-streams : Always streams (terminal_input c)
  unfolding terminal_input
  terminal_input-streams = call-streams _ λ s. (refl, refl)

  read_line-streams : Always streams (read_line c)
  unfolding read_line
  read_line-streams = call-streams _ λ s. ground arith

  read_path-streams : (text : Bytes) → Always streams (read_path_from_terminal c text)
  unfolding read_path_from_terminal read_terminal_line
  read_path-streams text =
      search
        (eprint-streams, flush-streams, terminal_input-streams, read_line-streams, always_rules)
        depth 16

  pub resolve_unlock_path-streams :
      (supplied : Option FilePath) (initializing : Bool)
      → Always streams (resolve_unlock_path c supplied initializing)
  unfolding resolve_unlock_path
  resolve_unlock_path-streams (some path) initializing = pure-Always path
  resolve_unlock_path-streams none initializing =
      elim (Option-cases c.environment.sealed_unlock_key) [
        | inl h ↦ rw (h, resolve_unlock_path) (read_path-streams _)
        | inr (path, h) ↦ rw (h, resolve_unlock_path) (pure-Always _)
      ]

pub read_stdin_done :
    (c : Console) (n : ℕ) (s t : Session) (body : Bytes)
    → read_stdin c n s ≡ (ok body, t)
    → (take n s.stdin ≡ body) × (t.stdout ≡ s.stdout)
unfolding read_stdin
read_stdin_done c n s t body e =
    let got = call_done c _ s t body e in
    (ok_injective _ _ (ap (λ q. q.0) got), sym (ap (λ q. q.1.stdout) got))
