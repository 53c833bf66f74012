-- ===== src/System/Paths.antt =====
-- `std::path`: a path is its list of components, as `Path::components` gives them. Two spellings
-- with one list of components are one path.
use Prim.Native.Nat.{compare, Ordering}
use article.Base.{
  ℕ, ◌≡◌, refl, Bool, true, false, Option, none, some, List, [], ◌∷◌, ◌++◌, ◌==◌, ◌&&◌,
  if◌then◌else◌, arith, ◌↔◌, ap,
}
use article.Base.Bytes.{Bytes, bytes_eq, bytes_eq_sound, bytes_eq_refl, bytes_le, is_utf8}

pub data Component : Type 0 where
  root_dir cur_dir parent_dir : Component
  normal : Bytes → Component

abbrev pub FilePath : Type 0
FilePath = List Component

unfoldable pub component_eq : Component → Component → Bool
component_eq root_dir root_dir = true
component_eq cur_dir cur_dir = true
component_eq parent_dir parent_dir = true
component_eq (normal a) (normal b) = bytes_eq a b
component_eq _ _ = false

-- `==` of paths.
unfoldable pub path_eq : FilePath → FilePath → Bool
unfolding component_eq
path_eq [] [] = true
path_eq (c ∷ p) (d ∷ q) = component_eq c d && path_eq p q
path_eq _ _ = false

-- `path.starts_with(base)`: whole components.
unfoldable pub starts_with : FilePath → FilePath → Bool
unfolding component_eq
starts_with path [] = true
starts_with [] (d ∷ base) = false
starts_with (c ∷ path) (d ∷ base) = component_eq c d && starts_with path base

-- The text between the slashes.
unfoldable pub pieces : Bytes → List Bytes
pieces [] = [] ∷ []
pieces (c ∷ cs) =
    let rest = pieces cs in
    if c == b'/' then [] ∷ rest else elim rest [ [] ↦ (c ∷ []) ∷ [] | p ∷ ps ↦ (c ∷ p) ∷ ps ]

-- Empty pieces and single dots in the middle are no components.
components : List Bytes → FilePath
components [] = []
components (p ∷ ps) =
    let rest = components ps in
    if bytes_eq p []
    then rest
    else if bytes_eq p (b'.' ∷ [])
    then rest
    else if bytes_eq p (b'.' ∷ b'.' ∷ [])
    then parent_dir ∷ rest
    else normal p ∷ rest

relative_components : List Bytes → FilePath
relative_components [] = []
relative_components (p ∷ ps) =
    if bytes_eq p (b'.' ∷ []) then cur_dir ∷ components ps else components (p ∷ ps)

-- `PathBuf::from`
unfoldable pub path_of : Bytes → FilePath
unfolding pieces components relative_components bytes_eq
path_of [] = []
path_of (c ∷ cs) =
    if c == b'/' then root_dir ∷ components (pieces cs) else relative_components (pieces (c ∷ cs))

-- `path.join(other)`
unfoldable pub join : FilePath → FilePath → FilePath
join [] other = other
join (c ∷ path) (root_dir ∷ other) = root_dir ∷ other
join (c ∷ path) (cur_dir ∷ other) = c ∷ (path ++ other)
join (c ∷ path) other = c ∷ (path ++ other)

-- `path.join(name)` for a name of one component.
abbrev pub child : FilePath → Bytes → FilePath
child path name = path ++ (normal name ∷ [])

-- `path.parent()`
unfoldable pub parent : FilePath → Option FilePath
parent [] = none
parent (root_dir ∷ []) = none
parent (c ∷ []) = some []
parent (c ∷ d ∷ path) = elim (parent (d ∷ path)) [ none ↦ none | some p ↦ some (c ∷ p) ]

-- `path.file_name()`
unfoldable pub file_name : FilePath → Option Bytes
file_name [] = none
file_name (normal name ∷ []) = some name
file_name (root_dir ∷ []) = none
file_name (cur_dir ∷ []) = none
file_name (parent_dir ∷ []) = none
file_name (c ∷ d ∷ path) = file_name (d ∷ path)

-- The parts before and after the last dot.
last_dot : Bytes → Option (Bytes × Bytes)
last_dot [] = none
last_dot (c ∷ cs) = elim (last_dot cs) [
  | some (before, after) ↦ some (c ∷ before, after)
  | none ↦ if c == b'.' then some ([], cs) else none
]

stem_of : Bytes → Option (Bytes × Bytes) → Bytes
stem_of name none = name
stem_of name (some ([], after)) = name
stem_of name (some (c ∷ before, after)) = c ∷ before

extension_of : Option (Bytes × Bytes) → Option Bytes
extension_of none = none
extension_of (some ([], after)) = none
extension_of (some (c ∷ before, after)) = some after

-- `path.file_stem()` and `path.extension()`
unfoldable pub file_stem : FilePath → Option Bytes
unfolding file_name last_dot stem_of
file_stem path = elim (file_name path) [
  | none ↦ none
  | some name ↦ some (stem_of name (last_dot name))
]

unfoldable pub extension : FilePath → Option Bytes
unfolding file_name last_dot extension_of
extension path = elim (file_name path) [ none ↦ none | some name ↦ extension_of (last_dot name) ]

-- `OsStr::to_str`
abbrev pub to_str : Bytes → Option Bytes
to_str bytes = if is_utf8 bytes then some bytes else none

abbrev rank : Component → ℕ
rank root_dir = 0
rank cur_dir = 1
rank parent_dir = 2
rank (normal name) = 3

component_le : Component → Component → Bool
component_le (normal a) (normal b) = bytes_le a b
component_le c d = elim (compare (rank c) (rank d)) [ Ordering.gt ↦ false | _ ↦ true ]

-- The order of paths.
path_le : FilePath → FilePath → Bool
unfolding component_le component_eq
path_le [] q = true
path_le (c ∷ p) [] = false
path_le (c ∷ p) (d ∷ q) = if component_eq c d then path_le p q else component_le c d

insert_path : FilePath → List FilePath → List FilePath
unfolding path_le
insert_path p [] = p ∷ []
insert_path p (q ∷ qs) = if path_le p q then p ∷ (q ∷ qs) else q ∷ insert_path p qs

-- `paths.sort()`
unfoldable pub sort : List FilePath → List FilePath
unfolding insert_path
sort [] = []
sort (p ∷ ps) = insert_path p (sort ps)

-- `path.display()`: the components with their separators.
unfoldable pub show : FilePath → Bytes
show [] = []
show (root_dir ∷ path) = b'/' ∷ show path
show (cur_dir ∷ []) = b'.' ∷ []
show (cur_dir ∷ path) = b'.' ∷ (b'/' ∷ show path)
show (parent_dir ∷ []) = b'.' ∷ b'.' ∷ []
show (parent_dir ∷ path) = b'.' ∷ b'.' ∷ b'/' ∷ show path
show (normal name ∷ []) = name
show (normal name ∷ path) = name ++ (b'/' ∷ show path)

component_eq_sound : (c d : Component) → component_eq c d ≡ true → c ≡ d
unfolding component_eq
component_eq_sound (normal a) (normal b) h = ap normal (bytes_eq_sound a b h)
component_eq_sound root_dir root_dir h = refl
component_eq_sound cur_dir cur_dir h = refl
component_eq_sound parent_dir parent_dir h = refl
component_eq_sound _ _ h = cc

component_eq_refl : (c : Component) → component_eq c c ≡ true
unfolding component_eq
component_eq_refl (normal a) = bytes_eq_refl a
component_eq_refl _ = refl

pub path_eq_sound : (p q : FilePath) → path_eq p q ≡ true → p ≡ q
unfolding path_eq
path_eq_sound [] [] h = refl
path_eq_sound [] (d ∷ q) h = cc
path_eq_sound (c ∷ p) [] h = cc
path_eq_sound (c ∷ p) (d ∷ q) h = ground (arith, component_eq_sound c d, path_eq_sound p q)

pub path_eq_refl : (p : FilePath) → path_eq p p ≡ true
unfolding path_eq
path_eq_refl [] = refl
path_eq_refl (c ∷ p) = ground (arith, component_eq_refl c, path_eq_refl p)

pub path_eq_iff : (p q : FilePath) → (path_eq p q ≡ true) ↔ (p ≡ q)
path_eq_iff p q = (path_eq_sound p q, λ e. rw e (path_eq_refl q))
