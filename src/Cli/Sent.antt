-- ===== src/Cli/Sent.antt =====
-- What `command_seal` of src/cli.rs sends, and who can read it.
use article.Base.{
  ℕ, suc, ◌≡◌, refl, sym, ap, subst, ◌∙◌, ◌≤◌, Bool, true, false, Option, none, some, List, ◌++◌,
  append-nil, ltb, ltb→ge, length, arith,
}
use article.Base.Bytes.{Bytes, AllBytes}
use article.Error.{Error, Result, ok, ok_injective, ok_or, invalid_input, refuse_if}
use article.Exec.{Exec, lift, exec_done, ◌>>=◌}
use article.Exec.Always.{Always, Always-step, always_rules}
use article.Primitives.{Primitives, IsLawful}
use article.Protocol.{max_body_len}
use article.Contact.{Contact}
use article.Identity.{PublicProfile, IdentitySecrets, public_profile}
use article.Message.Seal.{seal}
use article.Message.Open.{open_letter, classify}
use article.Message.Envelope.{HasEntropy, IsContributory}
use article.Message.Delivery.{open-seal}
use article.System.Paths.{FilePath, to_str}
use article.System.Files.{Os, World}
use article.System.Kept.{IsAlone, content}
use article.Storage.Access.{write_new_private}
use article.Storage.Loading.{load_identity_sound}
use article.Storage.Taken.{take_enough}
use article.Storage.Written.{content-write_new_private}
use article.Storage.State.{StatePaths, draw, contact, load_identity}
use article.Cli.Terminal.{Console, Session, fs, read_stdin}
use article.Cli.Options.{Options, parse_options}
use article.Cli.Prompts.{resolve_unlock_path}
use article.Cli.Commands.{only, usage_error, hint, deliver, command_seal}
use article.Cli.Prints.{bind-Prints, eprint-Prints, write_out-Prints, flush-Prints}
use article.Cli.Streams.{
  streams, fs-streams, eprint-streams, resolve_unlock_path-streams, read_stdin_done,
}
use article.Cli.Shown.{fs_done}

-- A known result goes into what follows.
known :
    {S A B : Type 0} {r : Result A} {a : A} (f : A → Exec S B) (s : S) {q : Result B × S}
    → r ≡ ok a
    → (lift r >>= f) s ≡ q
    → f a s ≡ q
unfolding ◌>>=◌
known f s h e = rw h at e

-- The blob is in the file that was asked for, or was appended to the standard output.
abbrev pub IsDelivered : Option FilePath → Bytes → Session → Session → Type 0
IsDelivered (some path) blob s t = content path t.world.entries ≡ some blob
IsDelivered none blob s t = t.stdout ≡ s.stdout ++ blob

-- What reaches the recipient.
pub record Reaches (p : Primitives) (output : Option FilePath) (recipient : IdentitySecrets)
    (contacts : List Contact) (body : Bytes) (s t : Session) : Type 0 where
  pub blob : Bytes
  pub sender : PublicProfile
  pub message_id : Bytes
  pub delivered : IsDelivered output blob s t
  pub opens :
      open_letter p recipient (public_profile p recipient) contacts blob
      ≡ ok (record {
        body = body;
        message_id = message_id;
        sender = sender;
        sender_trust = classify contacts sender;
      })

IsDelivered-later :
    (output : Option FilePath) (blob : Bytes) (s u t : Session)
    → u.stdout ≡ s.stdout
    → IsDelivered output blob u t
    → IsDelivered output blob s t
IsDelivered-later (some path) blob s u t e h = h
IsDelivered-later none blob s u t e h = h ∙ ap (λ x. x ++ blob) e

module _ (p : Primitives) (os : Os) (c : Console) (alone : IsAlone os) where
  deliver_done :
      (output : Option FilePath) (blob : Bytes) (s t : Session)
      → deliver p os c output blob s ≡ (ok tt, t)
      → IsDelivered output blob s t
  unfolding deliver
  deliver_done (some path) blob s t e =
      exec_done (fs (write_new_private os path blob)) _ s e λ _ u wrote said.
        let (same, _) = (eprint-Prints _).at u t tt said in
        subst (λ (w : World). content path w.entries ≡ some blob) (sym same)
          (content-write_new_private os alone path blob s.world u.world (fs_done _ s u tt wrote))
  deliver_done none blob s t e =
      let all =
        bind-Prints _ _ (write_out-Prints c blob)
          λ _. bind-Prints _ _ (flush-Prints c) λ _. eprint-Prints _ in
      (all.at s t tt e).1 ∙ ap (λ x. s.stdout ++ x) (append-nil blob)

  draw_done :
      (m : Exec ℕ Bytes) (s t : Session) (blob : Bytes)
      → fs (draw m) s ≡ (ok blob, t)
      → (m s.world.draws).0 ≡ ok blob
  unfolding draw
  draw_done m s t blob e = ap (λ r. r.0) (fs_done _ s t blob e)

  -- The end of `command_seal`, once the body was read.
  abbrev sealing :
      IdentitySecrets × PublicProfile
      → PublicProfile
      → Bytes
      → Option FilePath
      → Exec Session (Unit {0})
  sealing owner recipient body output =
      fs (draw (seal p owner.0 owner.1 recipient body)) >>= deliver p os c output

  sealing-Reaches :
      IsLawful p
      → HasEntropy p
      → (owner : IdentitySecrets × PublicProfile) (recipient : IdentitySecrets)
        (contacts : List Contact) (body : Bytes) (output : Option FilePath) (s t : Session)
      → public_profile p owner.0 ≡ owner.1
      → IsContributory p (public_profile p recipient).agreement_public
      → AllBytes body
      → length body ≤ max_body_len
      → sealing owner (public_profile p recipient) body output s ≡ (ok tt, t)
      → Reaches p output recipient contacts body s t
  sealing-Reaches lawful entropy owner recipient contacts body output s t own contributory bytes
        within e =
      exec_done (fs (draw (seal p owner.0 owner.1 (public_profile p recipient) body))) _ s e
        λ blob u drawn sent.
          let (sealed, message_id, done, _, opens) =
            open-seal p lawful owner.0 recipient contacts body s.world.draws entropy contributory
              bytes within in
          let drawn' = draw_done _ s u blob drawn in
          let same : sealed ≡ blob = ok_injective _ _ (
            sym done
            ∙ (ap (λ q. (seal p owner.0 q (public_profile p recipient) body s.world.draws).0) own
                ∙ drawn')) in
          record {
            blob = blob;
            sender = public_profile p owner.0;
            message_id = message_id;
            delivered =
                IsDelivered-later output blob s u t (Always-step streams (fs-streams _) drawn).1
                  (deliver_done output blob u t sent);
            opens =
                ap (open_letter p recipient (public_profile p recipient) contacts) (sym same)
                ∙ opens;
          }

  hint-streams : Always streams (hint p os c)
  hint-streams = search (eprint-streams, always_rules)

  Reaches-later :
      (output : Option FilePath) (recipient : IdentitySecrets) (contacts : List Contact)
      (body : Bytes) (s u t : Session)
      → u.stdout ≡ s.stdout
      → Reaches p output recipient contacts body u t
      → Reaches p output recipient contacts body s t
  Reaches-later output recipient contacts body s u t e h = record {
    blob = h.blob;
    sender = h.sender;
    message_id = h.message_id;
    delivered = IsDelivered-later output h.blob s u t e h.delivered;
    opens = h.opens;
  }

  refused_not : (b : Bool) (x : Error) → refuse_if b x ≡ ok tt → b ≡ false
  refused_not true x h = absurd (cc h)
  refused_not false x h = refl

  -- A letter that was sealed from the command line reaches its recipient: when the command returns
  -- without an error, all of the standard input was the body, and the blob, which is in the file
  -- that was asked for or was appended to the standard output, opens at the recipient to that body.
  -- The primitives are lawful, there is randomness, no other process is at work on the tree, and the
  -- contact that is named has the recipient's profile with a contributory key.
  pub command_seal-Reaches :
      IsLawful p
      → HasEntropy p
      → (recipient : IdentitySecrets) (contacts : List Contact) (paths : StatePaths)
        (args : List Bytes) (options : Options) (argument alias : Bytes) (friend : Contact)
        (s t : Session)
      → IsContributory p (public_profile p recipient).agreement_public
      → parse_options args false true ≡ ok options
      → only options.positionals ≡ some argument
      → to_str argument ≡ some alias
      → (contact p os paths alias s.world).0 ≡ ok friend
      → friend.profile ≡ public_profile p recipient
      → AllBytes s.stdin
      → command_seal p os c paths args s ≡ (ok tt, t)
      → Reaches p options.output recipient contacts s.stdin s t
  unfolding command_seal
  command_seal-Reaches lawful entropy recipient contacts paths args options argument alias friend s
        t contributory parsed one named pinned profile bytes e =
      let e1 = known _ s parsed e in
      let e2 = known _ s (ap (ok_or usage_error) one) e1 in
      let e3 = known _ s (ap (ok_or (invalid_input "contact name is not valid UTF-8")) named) e2 in
      exec_done (fs (contact p os paths alias)) _ s e3 λ friend' s1 found e4.
        exec_done (resolve_unlock_path c options.unlock_path false) _ s1 e4
          λ unlock_path s2 resolved e5.
            exec_done (fs (load_identity p os paths unlock_path)) _ s2 e5 λ owner s3 loaded e6.
              exec_done (hint p os c) _ s3 e6 λ _ s4 hinted e7.
                exec_done (read_stdin c (suc max_body_len)) _ s4 e7 λ body s5 read e8.
                  exec_done (lift (refuse_if (ltb max_body_len (length body)) _)) _ s5 e8
                    λ _ s6 small e9.
                      let same : friend' ≡ friend =
                        ok_injective _ _
                          (sym (ap (λ q. q.0) (fs_done _ s s1 friend' found)) ∙ pinned) in
                      let q1 = Always-step streams (fs-streams _) found in
                      let q2 =
                        Always-step streams
                          (resolve_unlock_path-streams c options.unlock_path false) resolved in
                      let q3 = Always-step streams (fs-streams _) loaded in
                      let q4 = Always-step streams hint-streams hinted in
                      let kept_in : s4.stdin ≡ s.stdin = q4.0 ∙ (q3.0 ∙ (q2.0 ∙ q1.0)) in
                      let kept_out : s4.stdout ≡ s.stdout = q4.1 ∙ (q3.1 ∙ (q2.1 ∙ q1.1)) in
                      let (taken, still) = read_stdin_done c (suc max_body_len) s4 s5 body read in
                      let fits =
                        ltb→ge max_body_len (length body) (refused_not _ _ (ap (λ q. q.0) small)) in
                      let whole : body ≡ s.stdin =
                        sym taken
                        ∙ (take_enough (suc max_body_len) s4.stdin
                              (omega (arith, fits, ap length taken))
                            ∙ kept_in) in
                      let own =
                        (load_identity_sound p os paths unlock_path s2.world owner.0 owner.1
                          (ap (λ q. q.0) (fs_done _ s2 s3 owner loaded))).0 in
                      let sent =
                        subst
                          (λ x.
                            sealing owner (public_profile p recipient) x options.output s6
                            ≡ (ok tt, t))
                          whole
                          (subst (λ x. sealing owner x body options.output s6 ≡ (ok tt, t))
                            (ap (λ f. f.profile) same ∙ profile) e9) in
                      Reaches-later options.output recipient contacts s.stdin s s6 t
                        (ap (λ q. q.1.stdout) (sym small) ∙ (still ∙ kept_out))
                        (sealing-Reaches lawful entropy owner recipient contacts s.stdin
                          options.output s6 t own contributory bytes
                          (subst (λ x. length x ≤ max_body_len) whole fits) sent)
