-- ===== src/Cli/Options.antt =====
-- `parse_options` and `parse_open_options` of src/cli.rs.
use article.Base.{
  Bool, true, false, Option, none, some, List, [], ◌∷◌, ◌++◌, ◌==◌, ◌&&◌, String, if◌then◌else◌,
}
use article.Base.Bytes.{Bytes, bytes_eq, utf8, is_utf8}
use article.Error.{Result, ok, err, usage, refuse_if, ◌>>=◌, ◌>>◌}
use article.System.Paths.{FilePath, path_of, to_str}

abbrev pub usage_text : String
usage_text =
    "Usage:\n  sealed                         Interactive terminal\n  sealed init [--unlock-key PATH]\n  sealed identity export\n  sealed trust PROFILE [--name NAME]\n  sealed seal CONTACT [--unlock-key PATH] [--output BLOB]\n  sealed open BLOB [--unlock-key PATH] [--keep]"

-- The tuple that `parse_options` returns.
pub record Options : Type 0 where
  pub positionals : List Bytes
  pub unlock_path : Option FilePath
  pub alias : Option Bytes
  pub output : Option FilePath

abbrev pub no_options : Options
no_options = record { positionals = []; unlock_path = none; alias = none; output = none }

-- The arms of the `match` on one argument.
pub data Arm : Type 0 where
  unlock_key_arm name_arm output_arm unknown_arm positional_arm : Arm

abbrev pub starts_dash : Bytes → Bool
starts_dash [] = false
starts_dash (b ∷ bs) = b == b'-'

unfoldable pub arm_of : Bool → Bool → Bytes → Arm
arm_of allow_name allow_output arg =
    if is_utf8 arg
    then (if bytes_eq arg (utf8 "--unlock-key")
        then unlock_key_arm
        else if allow_name && bytes_eq arg (utf8 "--name")
        then name_arm
        else if allow_output && bytes_eq arg (utf8 "--output")
        then output_arm
        else if starts_dash arg
        then unknown_arm
        else positional_arm)
    else positional_arm

abbrev pub push_positional : Bytes → Options → Options
push_positional arg options = record options { positionals = options.positionals ++ (arg ∷ []) }

-- The loop of `parse_options`. An option's value is the argument after it, whatever it is.
unfoldable pub parse_from : Bool → Bool → Options → List Bytes → Result Options
parse_from n o acc [] = ok acc
parse_from n o acc (arg ∷ []) = elim (arm_of n o arg) [
  | positional_arm ↦ ok (push_positional arg acc)
  | _ ↦ err (usage usage_text)
]
parse_from n o acc (arg ∷ value ∷ args) = elim (arm_of n o arg) [
  | unlock_key_arm ↦ parse_from n o (record acc { unlock_path = some (path_of value) }) args
  | name_arm ↦ elim (to_str value) [
    | some name ↦ parse_from n o (record acc { alias = some name }) args
    | none ↦ err (usage usage_text)
  ]
  | output_arm ↦ parse_from n o (record acc { output = some (path_of value) }) args
  | unknown_arm ↦ err (usage usage_text)
  | positional_arm ↦ parse_from n o (push_positional arg acc) (value ∷ args)
]

unfoldable pub parse_options : List Bytes → Bool → Bool → Result Options
parse_options args allow_name allow_output = parse_from allow_name allow_output no_options args

-- The loop of `parse_open_options`: the arguments without "--keep", and whether it was there.
unfoldable pub filter_keep : List Bytes → Bool → List Bytes → Result (List Bytes × Bool)
filter_keep filtered keep [] = ok (filtered, keep)
filter_keep filtered keep (arg ∷ args) = elim (bytes_eq arg (utf8 "--keep")) [
  | true ↦ elim keep [ true ↦ err (usage usage_text) | false ↦ filter_keep filtered true args ]
  | false ↦ filter_keep (filtered ++ (arg ∷ [])) keep args
]

abbrev is_some : Option FilePath → Bool
is_some none = false
is_some (some path) = true

unfoldable pub parse_open_options : List Bytes → Result (Options × Bool)
parse_open_options args = do
  split ← filter_keep [] false args
  options ← parse_options split.0 false false
  refuse_if (is_some options.output) (usage usage_text)
  ok (options, split.1)
