-- ===== src/Cli/Arguments.antt =====
-- What `parse_options` of src/cli.rs reads from argument lists that are written out of options and
-- positional arguments.
use article.Base.{
  ◌≡◌, refl, ◌∙◌, ◌⊎◌, inl, inr, Bool, true, false, some, List, [], ◌∷◌, ◌++◌, ◌&&◌, Bool-cases,
  All,
}
use article.Base.Bytes.{Bytes, bytes_eq, utf8, is_utf8}
use article.Error.{ok}
use article.System.Paths.{path_of}
use article.Cli.Options.{
  Options, no_options, unlock_key_arm, name_arm, output_arm, positional_arm, starts_dash, arm_of,
  push_positional, parse_from, parse_options,
}

-- An option with its value, or a positional argument.
pub data Item : Type 0 where
  unlock_key_item name_item output_item positional_item : Bytes → Item

-- The arguments that items are written as.
abbrev pub render : List Item → List Bytes
render [] = []
render (unlock_key_item value ∷ items) = utf8 "--unlock-key" ∷ (value ∷ render items)
render (name_item value ∷ items) = utf8 "--name" ∷ (value ∷ render items)
render (output_item value ∷ items) = utf8 "--output" ∷ (value ∷ render items)
render (positional_item arg ∷ items) = arg ∷ render items

-- What items mean, after others: the last value of an option counts, positional arguments add up.
abbrev pub meaning : List Item → Options → Options
meaning [] options = options
meaning (unlock_key_item value ∷ items) options =
    meaning items (record options { unlock_path = some (path_of value) })
meaning (name_item value ∷ items) options = meaning items (record options { alias = some value })
meaning (output_item value ∷ items) options =
    meaning items (record options { output = some (path_of value) })
meaning (positional_item arg ∷ items) options =
    meaning items (record options { positionals = options.positionals ++ (arg ∷ []) })

-- An item that a command takes: a name is text, and a positional argument that is text does not
-- begin with a dash.
abbrev pub IsAllowed : Bool → Bool → Item → Type 0
IsAllowed allow_name allow_output (unlock_key_item value) = Unit {0}
IsAllowed allow_name allow_output (name_item value) = (allow_name ≡ true) × (is_utf8 value ≡ true)
IsAllowed allow_name allow_output (output_item value) = allow_output ≡ true
IsAllowed allow_name allow_output (positional_item arg) =
    (is_utf8 arg ≡ false) ⊎ (starts_dash arg ≡ false)

and_false : (b : Bool) → b && false ≡ false
and_false true = refl
and_false false = refl

plain : (n o : Bool) (arg : Bytes) → starts_dash arg ≡ false → arm_of n o arg ≡ positional_arm
unfolding arm_of bytes_eq utf8
plain n o [] h = elim (Bool-cases (is_utf8 [])) [
  | inl k ↦ rw k (rw (and_false n) (rw (and_false o) refl))
  | inr k ↦ rw k refl
]
plain n o (b ∷ bs) h = elim (Bool-cases (is_utf8 (b ∷ bs))) [
  | inl k ↦ rw k (rw h (rw (and_false n) (rw (and_false o) refl)))
  | inr k ↦ rw k refl
]

arm_unlock_key : (n o : Bool) → arm_of n o (utf8 "--unlock-key") ≡ unlock_key_arm
unfolding arm_of is_utf8 bytes_eq utf8
arm_unlock_key n o = refl

arm_name : (o : Bool) → arm_of true o (utf8 "--name") ≡ name_arm
unfolding arm_of is_utf8 bytes_eq utf8
arm_name o = refl

arm_output : (n : Bool) → arm_of n true (utf8 "--output") ≡ output_arm
unfolding arm_of is_utf8 bytes_eq utf8
arm_output true = refl
arm_output false = refl

positional_ok :
    (n o : Bool) (arg : Bytes)
    → (is_utf8 arg ≡ false) ⊎ (starts_dash arg ≡ false)
    → arm_of n o arg ≡ positional_arm
unfolding arm_of
positional_ok n o arg (inl h) = rw h refl
positional_ok n o arg (inr h) = plain n o arg h

parse_from-positional :
    (n o : Bool) (acc : Options) (arg : Bytes) (args : List Bytes)
    → arm_of n o arg ≡ positional_arm
    → parse_from n o acc (arg ∷ args) ≡ parse_from n o (push_positional arg acc) args
unfolding parse_from
parse_from-positional n o acc arg [] h = rw (h, parse_from) refl
parse_from-positional n o acc arg (value ∷ args) h = rw (h, parse_from) refl

parse_from-render :
    (n o : Bool) (items : List Item) (acc : Options)
    → All (IsAllowed n o) items
    → parse_from n o acc (render items) ≡ ok (meaning items acc)
unfolding parse_from
parse_from-render n o [] acc h = refl
parse_from-render n o (unlock_key_item value ∷ items) acc h =
    rw (arm_unlock_key n o, parse_from) (parse_from-render n o items _ h.1)
parse_from-render true o (name_item value ∷ items) acc ((allowed, text), h) =
    rw (arm_name o, parse_from) (rw text (parse_from-render true o items _ h))
parse_from-render false o (name_item value ∷ items) acc ((allowed, text), h) = absurd (cc allowed)
parse_from-render n true (output_item value ∷ items) acc (allowed, h) =
    rw (arm_output n, parse_from) (parse_from-render n true items _ h)
parse_from-render n false (output_item value ∷ items) acc (allowed, h) = absurd (cc allowed)
parse_from-render n o (positional_item arg ∷ items) acc (allowed, h) =
    parse_from-positional n o acc arg (render items) (positional_ok n o arg allowed)
    ∙ parse_from-render n o items _ h

-- An argument list that is written out of options and positional arguments that the command takes
-- is read as what they mean: `parse_options` succeeds, the last value of an option counts, whatever
-- the value looks like, and positional arguments are kept in order.
pub parse_options-render :
    (items : List Item) (allow_name allow_output : Bool)
    → All (IsAllowed allow_name allow_output) items
    → parse_options (render items) allow_name allow_output ≡ ok (meaning items no_options)
unfolding parse_options
parse_options-render items allow_name allow_output h =
    parse_from-render allow_name allow_output items no_options h
