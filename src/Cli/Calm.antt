-- ===== src/Cli/Calm.antt =====
-- Relations that steps on the terminal and the streams respect, for the questions of src/cli.rs.
use article.Base.{
  ℕ, zero, suc, ◌≡◌, refl, sym, append-nil, ◌≤◌, length-drop, Bool, Option, none, some, [], ◌∷◌,
  ◌++◌, ◌==◌, ltb, length, arith, Option-cases, Bool-cases, inl, inr,
}
use article.Base.Bytes.{Bytes, bytes_eq, is_utf8}
use article.Error.{Result}
use article.Exec.Always.{
  Frame, Always, always_rules, pure-Always, bind-Always, if-Always, raise-Always,
}
use article.Protocol.{max_body_len}
use article.System.Paths.{FilePath}
use article.Cli.Terminal.{
  Console, Session, cut_line, eprint, call, terminal_input, read_line, read_exact, read_stdin,
  write_out, flush,
}
use article.Cli.Text.{trim_line_end}
use article.Cli.Prompts.{
  saturating_add, read_terminal_line, prompt, prompt_path, prompt_unlock_path, prompt_yes_no,
  wait_for_enter, read_letter, read_multiline_letter, read_path_from_terminal, resolve_unlock_path,
}

-- What does not touch the files or the settings, gives nothing back to the terminal, and takes
-- nothing back from the standard output.
pub record IsQuietStep (s t : Session) : Type 0 where
  pub world : t.world ≡ s.world
  pub settings : t.settings ≡ s.settings
  pub tty : length t.tty ≤ length s.tty
  pub out : Bytes
  pub stdout : t.stdout ≡ s.stdout ++ out

-- A relation that such steps respect.
abbrev pub IsCalm : Frame Session → Type 0
IsCalm F = (s t : Session) → IsQuietStep s t → F.rel s t

length-cut_line : (bs : Bytes) → length (cut_line bs).1 ≤ length bs
unfolding cut_line
length-cut_line [] = omega arith
length-cut_line (b ∷ bs) =
    let ih = length-cut_line bs in
    elim (Bool-cases (b == b'\n')) [ inl h ↦ rw h (omega arith) | inr h ↦ rw h (omega arith) ]

module _ (F : Frame Session) (calm : IsCalm F) where
  pub eprint-Always : (text : Bytes) → Always F (eprint text)
  unfolding eprint
  eprint-Always text = record {
    at = λ s. calm _ _ (record {
      world = refl;
      settings = refl;
      tty = omega arith;
      out = [];
      stdout = sym (append-nil _);
    });
  }

  module _ (c : Console) where
    pub call-Always :
        {A : Type 0} (f : Session → Result A × Session)
        → ((s : Session) → IsQuietStep s (f s).1)
        → Always F (call c f)
    unfolding call
    call-Always f h = record {
      at = λ s.
          let s' = record s { uses = suc s.uses } in
          elim (Option-cases (c.fault s.uses)) [
            | inl e ↦
                rw (e, call)
                  (calm _ _ (record {
                    world = (h s').world;
                    settings = (h s').settings;
                    tty = (h s').tty;
                    out = (h s').out;
                    stdout = (h s').stdout;
                  }))
            | inr (x, e) ↦
                rw (e, call)
                  (calm _ _ (record {
                    world = refl;
                    settings = refl;
                    tty = omega arith;
                    out = [];
                    stdout = sym (append-nil _);
                  }))
          ];
    }

    pub terminal_input-Always : Always F (terminal_input c)
    unfolding terminal_input
    terminal_input-Always = call-Always _ λ s. record {
      world = refl;
      settings = refl;
      tty = omega arith;
      out = [];
      stdout = sym (append-nil _);
    }

    pub flush-Always : Always F (flush c)
    unfolding flush
    flush-Always = call-Always _ λ s. record {
      world = refl;
      settings = refl;
      tty = omega arith;
      out = [];
      stdout = sym (append-nil _);
    }

    pub write_out-Always : (bytes : Bytes) → Always F (write_out c bytes)
    unfolding write_out
    write_out-Always bytes =
        call-Always _ λ s. record {
          world = refl;
          settings = refl;
          tty = omega arith;
          out = bytes;
          stdout = refl;
        }

    pub read_stdin-Always : (limit : ℕ) → Always F (read_stdin c limit)
    unfolding read_stdin
    read_stdin-Always limit = call-Always _ λ s. record {
      world = refl;
      settings = refl;
      tty = omega arith;
      out = [];
      stdout = sym (append-nil _);
    }

    pub read_line-Always : Always F (read_line c)
    unfolding read_line
    read_line-Always = call-Always _ λ s. elim (Bool-cases (is_utf8 (cut_line s.tty).0)) [
      | inl h ↦ rw h (record {
        world = refl;
        settings = refl;
        tty = length-cut_line s.tty;
        out = [];
        stdout = sym (append-nil _);
      })
      | inr h ↦ rw h (record {
        world = refl;
        settings = refl;
        tty = length-cut_line s.tty;
        out = [];
        stdout = sym (append-nil _);
      })
    ]

    pub read_exact-Always : (n : ℕ) → Always F (read_exact c n)
    unfolding read_exact
    read_exact-Always n = call-Always _ λ s. elim (Bool-cases (ltb (length s.tty) n)) [
      | inl h ↦ rw h (record {
        world = refl;
        settings = refl;
        tty = omega arith;
        out = [];
        stdout = sym (append-nil _);
      })
      | inr h ↦ rw h (record {
        world = refl;
        settings = refl;
        tty = omega (arith, length-drop n s.tty);
        out = [];
        stdout = sym (append-nil _);
      })
    ]

    pub ruleset console_rules = (
      eprint-Always, terminal_input-Always, flush-Always, write_out-Always, read_stdin-Always,
      read_line-Always, read_exact-Always, always_rules,
    )

    pub read_terminal_line-Always : Always F (read_terminal_line c)
    unfolding read_terminal_line
    read_terminal_line-Always = search console_rules

    pub prompt-Always : (label : Bytes) (default : Option Bytes) → Always F (prompt c label default)
    unfolding prompt
    prompt-Always label default = search (read_terminal_line-Always, console_rules)

    pub prompt_path-Always :
        (label : Bytes) (default : Option Bytes) → Always F (prompt_path c label default)
    unfolding prompt_path
    prompt_path-Always label default = search (prompt-Always, console_rules)

    pub prompt_unlock_path-Always :
        (initializing : Bool) → Always F (prompt_unlock_path c initializing)
    unfolding prompt_unlock_path
    prompt_unlock_path-Always initializing = elim (Option-cases c.environment.sealed_unlock_key) [
      | inl h ↦ rw (h, prompt_unlock_path) (prompt_path-Always _ none)
      | inr (path, h) ↦ rw (h, prompt_unlock_path) (pure-Always _)
    ]

    pub prompt_yes_no-Always :
        (label : Bytes) (default_yes : Bool) → Always F (prompt_yes_no c label default_yes)
    unfolding prompt_yes_no
    prompt_yes_no-Always label default_yes = search (prompt-Always, console_rules)

    pub wait_for_enter-Always : (label : Bytes) → Always F (wait_for_enter c label)
    unfolding wait_for_enter
    wait_for_enter-Always label = search (read_terminal_line-Always, console_rules)

    pub read_letter-Always : (fuel : ℕ) (body : Bytes) → Always F (read_letter c fuel body)
    unfolding read_letter
    read_letter-Always zero body = pure-Always none
    read_letter-Always (suc fuel) body = bind-Always _ _ read_line-Always λ line.
        elim (Bool-cases (length line == 0)) [
          | inl h ↦ rw h (raise-Always _)
          | inr h ↦ rw h (elim (Bool-cases (bytes_eq (trim_line_end line) (b'.' ∷ []))) [
            | inl k ↦ rw k (pure-Always (some body))
            | inr k ↦
                rw k
                  (elim (Bool-cases
                    (ltb max_body_len (saturating_add (length body) (length line)))) [
                      | inl l ↦ rw l (raise-Always _)
                      | inr l ↦ rw l (read_letter-Always fuel (body ++ line))
                    ])
          ])
        ]

    pub read_multiline_letter-Always : Always F (read_multiline_letter c)
    unfolding read_multiline_letter
    read_multiline_letter-Always = record {
      at = λ s.
          (bind-Always _ _ terminal_input-Always λ _. read_letter-Always (suc (length s.tty)) []).at
            s;
    }

    pub read_path_from_terminal-Always : (text : Bytes) → Always F (read_path_from_terminal c text)
    unfolding read_path_from_terminal
    read_path_from_terminal-Always text = search (read_terminal_line-Always, console_rules)

    pub resolve_unlock_path-Always :
        (supplied : Option FilePath) (initializing : Bool)
        → Always F (resolve_unlock_path c supplied initializing)
    unfolding resolve_unlock_path
    resolve_unlock_path-Always (some path) initializing = pure-Always path
    resolve_unlock_path-Always none initializing =
        elim (Option-cases c.environment.sealed_unlock_key) [
          | inl h ↦ rw (h, resolve_unlock_path) (read_path_from_terminal-Always _)
          | inr (path, h) ↦ rw (h, resolve_unlock_path) (pure-Always _)
        ]
