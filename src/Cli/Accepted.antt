-- ===== src/Cli/Accepted.antt =====
-- The argument lists that `parse_options` of src/cli.rs accepts.
use article.Base.{
  ◌≡◌, refl, sym, ap, ap₂, ◌⊎◌, inl, inr, Bool, true, false, List, [], ◌∷◌, ◌&&◌, Bool-cases, All,
}
use article.Base.Bytes.{Bytes, bytes_eq, bytes_eq_sound, utf8, is_utf8}
use article.Error.{ok, ok_injective}
use article.Cli.Options.{
  Options, no_options, Arm, unlock_key_arm, name_arm, output_arm, unknown_arm, positional_arm,
  starts_dash, arm_of, push_positional, parse_from, parse_options,
}
use article.Cli.Arguments.{
  Item, unlock_key_item, name_item, output_item, positional_item, render, meaning, IsAllowed,
}

-- What is known of an argument by its arm.
ArmFact : Bool → Bool → Bytes → Arm → Type 0
ArmFact n o arg unlock_key_arm = arg ≡ utf8 "--unlock-key"
ArmFact n o arg name_arm = (n ≡ true) × (arg ≡ utf8 "--name")
ArmFact n o arg output_arm = (o ≡ true) × (arg ≡ utf8 "--output")
ArmFact n o arg unknown_arm = Unit {0}
ArmFact n o arg positional_arm = (is_utf8 arg ≡ false) ⊎ (starts_dash arg ≡ false)

both_true : (b : Bool) (x y : Bytes) → b && bytes_eq x y ≡ true → (b ≡ true) × (x ≡ y)
both_true true x y h = (refl, bytes_eq_sound x y h)
both_true false x y h = absurd (cc h)

arm_of-ArmFact : (n o : Bool) (arg : Bytes) → ArmFact n o arg (arm_of n o arg)
unfolding arm_of ArmFact
arm_of-ArmFact n o arg = elim (Bool-cases (is_utf8 arg)) [
  | inr h ↦ rw h (inl h)
  | inl h ↦ rw h (elim (Bool-cases (bytes_eq arg (utf8 "--unlock-key"))) [
    | inl k ↦ rw k (bytes_eq_sound arg _ k)
    | inr k ↦ rw k (elim (Bool-cases (n && bytes_eq arg (utf8 "--name"))) [
      | inl l ↦ rw l (both_true n arg _ l)
      | inr l ↦ rw l (elim (Bool-cases (o && bytes_eq arg (utf8 "--output"))) [
        | inl m ↦ rw m (both_true o arg _ m)
        | inr m ↦
            rw m (elim (Bool-cases (starts_dash arg)) [ inl d ↦ rw d tt | inr d ↦ rw d (inr d) ])
      ])
    ])
  ])
]

-- Items that an argument list is written as, and what they mean.
pub record Reads (n o : Bool) (acc : Options) (args : List Bytes) (options : Options) : Type 0 where
  pub items : List Item
  pub written : render items ≡ args
  pub allowed : All (IsAllowed n o) items
  pub means : meaning items acc ≡ options

module _ (n o : Bool) where
  Reads-positional :
      (acc : Options) (arg : Bytes) (args : List Bytes) (options : Options)
      → (is_utf8 arg ≡ false) ⊎ (starts_dash arg ≡ false)
      → Reads n o (push_positional arg acc) args options
      → Reads n o acc (arg ∷ args) options
  Reads-positional acc arg args options h r = record {
    items = positional_item arg ∷ r.items;
    written = ap (λ x. arg ∷ x) r.written;
    allowed = (h, r.allowed);
    means = r.means;
  }

  abbrev Reader : List Bytes → Type 0
  Reader args =
      (acc options : Options) → parse_from n o acc args ≡ ok options → Reads n o acc args options

  last_argument :
      (acc : Options) (arg : Bytes) (options : Options) (a : Arm)
      → arm_of n o arg ≡ a
      → ArmFact n o arg a
      → parse_from n o acc (arg ∷ []) ≡ ok options
      → Reads n o acc (arg ∷ []) options
  unfolding ArmFact parse_from
  last_argument acc arg options positional_arm h fact e =
      Reads-positional acc arg [] options fact (record {
        items = [];
        written = refl;
        allowed = tt;
        means = ok_injective _ _ (rw (h, parse_from) at e);
      })
  last_argument acc arg options _ h fact e = absurd (cc (rw (h, parse_from) at e))

  next_argument :
      (acc : Options) (arg value : Bytes) (args : List Bytes) (options : Options) (a : Arm)
      → Reader args
      → Reader (value ∷ args)
      → arm_of n o arg ≡ a
      → ArmFact n o arg a
      → parse_from n o acc (arg ∷ value ∷ args) ≡ ok options
      → Reads n o acc (arg ∷ value ∷ args) options
  unfolding ArmFact parse_from
  next_argument acc arg value args options unlock_key_arm rest _ h fact e =
      let r = rest _ options (rw (h, parse_from) at e) in
      record {
        items = unlock_key_item value ∷ r.items;
        written = ap₂ (λ x y. x ∷ (value ∷ y)) (sym fact) r.written;
        allowed = (tt, r.allowed);
        means = r.means;
      }
  next_argument acc arg value args options name_arm rest _ h fact e =
      elim (Bool-cases (is_utf8 value)) [
        | inr k ↦ absurd (cc (rw k at (rw (h, parse_from) at e)))
        | inl k ↦
            let r = rest _ options (rw k at (rw (h, parse_from) at e)) in
            record {
              items = name_item value ∷ r.items;
              written = ap₂ (λ x y. x ∷ (value ∷ y)) (sym fact.1) r.written;
              allowed = ((fact.0, k), r.allowed);
              means = r.means;
            }
      ]
  next_argument acc arg value args options output_arm rest _ h fact e =
      let r = rest _ options (rw (h, parse_from) at e) in
      record {
        items = output_item value ∷ r.items;
        written = ap₂ (λ x y. x ∷ (value ∷ y)) (sym fact.1) r.written;
        allowed = (fact.0, r.allowed);
        means = r.means;
      }
  next_argument acc arg value args options unknown_arm rest _ h fact e =
      absurd (cc (rw (h, parse_from) at e))
  next_argument acc arg value args options positional_arm _ rest h fact e =
      Reads-positional acc arg (value ∷ args) options fact
        (rest _ options (rw (h, parse_from) at e))

  parse_from-Reads : (args : List Bytes) → Reader args
  unfolding parse_from
  parse_from-Reads [] acc options e = record {
    items = [];
    written = refl;
    allowed = tt;
    means = ok_injective _ _ e;
  }
  parse_from-Reads (arg ∷ []) acc options e =
      last_argument acc arg options _ refl (arm_of-ArmFact n o arg) e
  parse_from-Reads (arg ∷ value ∷ args) acc options e =
      next_argument acc arg value args options _ (parse_from-Reads args)
        (parse_from-Reads (value ∷ args)) refl (arm_of-ArmFact n o arg) e

-- An argument list that `parse_options` accepts is written out of options and positional arguments
-- that the command takes, and its result is what they mean.
pub parse_options-Reads :
    (args : List Bytes) (allow_name allow_output : Bool) (options : Options)
    → parse_options args allow_name allow_output ≡ ok options
    → Reads allow_name allow_output no_options args options
unfolding parse_options
parse_options-Reads args allow_name allow_output options =
    parse_from-Reads allow_name allow_output args no_options options
