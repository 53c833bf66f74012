-- ===== src/Cli/Shown.antt =====
-- Opening a letter in src/cli.rs, and the relation of Cli/Safe.antt.
use article.Base.{◌≡◌, refl, sym, ap, subst, ◌∙◌, List, [], ◌++◌, append-nil, some}
use article.Base.Bytes.{Bytes}
use article.Error.{Error, Result, ok, err, cannot_open}
use article.Exec.{Exec, continue, exec_done, on_err, ◌>>=◌, ◌>>◌}
use article.Exec.Always.{Frame, Always, always_rules}
use article.Primitives.{Primitives}
use article.Contact.{Contact}
use article.Identity.{IdentitySecrets, PublicProfile}
use article.Message.{OpenedLetter}
use article.Message.Open.{open_letter}
use article.System.Paths.{FilePath}
use article.System.Files.{Os, World}
use article.System.Kept.{IsAlone, Kept, Kept-refl, KeptBut, content}
use article.System.Unchanged.{unchanged}
use article.Storage.Access.{read_blob}
use article.Storage.Consumed.{KeptBut-trans}
use article.Storage.Keeps.{KeptBut-refl}
use article.Storage.State.{StatePaths, load_identity, all_contacts}
use article.Storage.Taken.{content-read_regular_limited}
use article.Storage.Unchanged.{load_identity-unchanged, all_contacts-unchanged, read_blob-unchanged}
use article.Cli.Terminal.{Console, Session, fs}
use article.Cli.Commands.{fetch_letter}
use article.Cli.Prints.{Prints}
use article.Cli.Safe.{IsSafe, safe, IsSafe-Kept, IsSafe-shown, IsSafe-trans}

-- The files and the standard output are as they were.
abbrev pub looked : Frame Session
looked = record {
  rel = λ s t. (t.world.entries ≡ s.world.entries) × (t.stdout ≡ s.stdout);
  rel_refl = λ s. (refl, refl);
  rel_trans = λ h k. (k.0 ∙ h.0, k.1 ∙ h.1);
}

fs-looked : {A : Type 0} {m : Exec World A} → Always unchanged m → Always looked (fs m)
unfolding fs
fs-looked h = record { at = λ s. (h.at s.world, refl) }

-- What a successful step on the file system did.
pub fs_done :
    {A : Type 0} (m : Exec World A) (s t : Session) (a : A)
    → fs m s ≡ (ok a, t)
    → m s.world ≡ (ok a, t.world)
unfolding fs
fs_done m s t a e = ap (λ r. (r.0, r.1.world)) e

on_err_done :
    {S A : Type 0} (f : Error → Error) (m : Exec S A) (s t : S) (a : A)
    → on_err f m s ≡ (ok a, t)
    → m s ≡ (ok a, t)
on_err_done {S} {A} f m s t a e = go (m s) e
  where
    go : (r : Result A × S) → on_err f (λ _. r) s ≡ (ok a, t) → r ≡ (ok a, t)
    go (ok b, u) k = k
    go (err x, u) k = absurd (cc (ap (λ q. q.0) k))

-- A letter that was opened from the file at a path.
pub record IsFetched (p : Primitives) (path : FilePath) (letter : OpenedLetter) (s : Session)
    : Type 0 where
  pub owner : IdentitySecrets × PublicProfile
  pub contacts : List Contact
  pub blob : Bytes
  pub there : content path s.world.entries ≡ some blob
  pub opened : open_letter p owner.0 owner.1 contacts blob ≡ ok letter

IsSafe-looked : {p : Primitives} {s t : Session} → looked.rel s t → IsSafe p s t
IsSafe-looked {s = s} (same, quiet) =
    IsSafe-Kept [] (quiet ∙ sym (append-nil _))
      (subst (Kept s.world.entries) (sym same) (Kept-refl s.world.entries))

module _ (p : Primitives) (os : Os) (c : Console) (alone : IsAlone os) where
  pub fetch_letter-looked :
      (paths : StatePaths) (unlock_path blob_path : FilePath)
      → Always looked (fetch_letter p os c paths unlock_path blob_path)
  unfolding fetch_letter
  fetch_letter-looked paths unlock_path blob_path =
      search
        (
          fs-looked,
          load_identity-unchanged os alone p,
          all_contacts-unchanged os alone p,
          read_blob-unchanged os alone,
          always_rules,
        )
        depth 16

  pub fetch_letter-IsFetched :
      (paths : StatePaths) (unlock_path blob_path : FilePath) (s t : Session)
      (letter : OpenedLetter)
      → fetch_letter p os c paths unlock_path blob_path s ≡ (ok letter, t)
      → IsFetched p blob_path letter t
  unfolding fetch_letter read_blob
  fetch_letter-IsFetched paths unlock_path blob_path s t letter e =
      exec_done (fs (load_identity p os paths unlock_path)) _ s e λ owner s1 loaded e1.
        exec_done (fs (all_contacts p os paths)) _ s1 e1 λ contacts s2 listed e2.
          exec_done (on_err (λ _. cannot_open) (fs (read_blob os blob_path))) _ s2 e2
            λ blob s3 read e3.
              let taken =
                fs_done _ _ _ _ (on_err_done _ (fs (read_blob os blob_path)) s2 s3 blob read) in
              record {
                owner = owner;
                contacts = contacts;
                blob = blob;
                there =
                    subst (λ (u : Session). content blob_path u.world.entries ≡ some blob)
                      (ap (λ q. q.1) e3)
                      (content-read_regular_limited os alone blob_path _ blob s2.world s3.world
                        taken);
                opened = ap (λ q. q.0) e3;
              }

-- One file may go, and nothing is written to the standard output.
abbrev pub finishing : FilePath → Frame Session
finishing path = record {
  rel = λ s t. KeptBut path s.world.entries t.world.entries × (t.stdout ≡ s.stdout);
  rel_refl = λ s. (KeptBut-refl path s.world.entries, refl);
  rel_trans = λ h k. (KeptBut-trans h.0 k.0, k.1 ∙ h.1);
}

-- Showing a letter and then taking its file away, if at all.
module _ {p : Primitives} (path : FilePath) (show : OpenedLetter → Exec Session (Unit {0}))
    (after : OpenedLetter → Bytes) (finish : Exec Session (Unit {0}))
    (show_ok : (letter : OpenedLetter) → Always (safe p) (show letter))
    (shown : (letter : OpenedLetter) → Prints (show letter) (letter.body ++ after letter))
    (finish_ok : Always (finishing path) finish) where
  finished :
      (letter : OpenedLetter) (s : Session)
      → IsFetched p path letter s
      → (r : Result (Unit {0})) (t : Session) → show letter s ≡ (r, t)
      → IsSafe p s (continue r (λ _. finish) t).1
  finished letter s h (err e) t k =
      subst (λ (q : Result (Unit {0}) × Session). IsSafe p s q.1) k ((show_ok letter).at s)
  finished letter s h (ok _) t k =
      let (same, wrote) = (shown letter).at s t tt k in
      let (kept, quiet) = finish_ok.at t in
      IsSafe-shown path h.blob (letter.body ++ after letter) (quiet ∙ wrote)
        (subst (λ (w : World). KeptBut path w.entries (finish t).1.world.entries) same kept) h.there
        (record {
          owner = h.owner;
          contacts = h.contacts;
          letter = letter;
          opened = h.opened;
          before = [];
          after = after letter;
          shown = refl;
        })

  -- What was fetched in any way that leaves the files and the standard output.
  pub opened-safe :
      (fetch : Exec Session OpenedLetter)
      → Always looked fetch
      → ((s t : Session) (letter : OpenedLetter)
          → fetch s ≡ (ok letter, t)
          → IsFetched p path letter t)
      → Always (safe p) (fetch >>= λ letter. show letter >> finish)
  unfolding ◌>>=◌
  opened-safe fetch look fetched = record { at = λ s. go s (fetch s) (look.at s) refl }
    where
      go :
          (s : Session) (q : Result OpenedLetter × Session)
          → looked.rel s q.1
          → fetch s ≡ q
          → IsSafe p s (continue q.0 (λ letter. show letter >> finish) q.1).1
      go s (err e, t) h k = IsSafe-looked h
      go s (ok letter, t) h k =
          IsSafe-trans (IsSafe-looked h)
            (finished letter t (fetched s t letter k) (show letter t).0 _ refl)
