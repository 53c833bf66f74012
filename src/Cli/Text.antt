-- ===== src/Cli/Text.antt =====
-- What src/cli.rs uses of `str`: `trim`, `trim_end_matches`, `parse::<usize>` and
-- `to_ascii_lowercase`, on the UTF-8 bytes of a text.
use mathlib.Core.List.{reverse}
use article.Base.{
  ℕ, ◌+◌, ◌-◌, ◌*◌, Bool, true, false, Option, none, some, [], ◌∷◌, ◌==◌, ◌&&◌, ◌||◌, leb,
  if◌then◌else◌, map,
}
use article.Base.Bytes.{Bytes, lower}
use article.Protocol.{usize_max}

-- `char::is_whitespace`, by the one, two or three bytes of the character.
abbrev is_space : ℕ → Bool
is_space a = (leb 9 a && leb a 13) || a == 32

abbrev is_space_pair : ℕ → ℕ → Bool
is_space_pair a b = a == 0xc2 && (b == 0x85 || b == 0xa0)

abbrev is_space_triple : ℕ → ℕ → ℕ → Bool
is_space_triple a b c =
    (a == 0xe1 && b == 0x9a && c == 0x80)
    || (a == 0xe2
        && b == 0x80
        && ((leb 0x80 c && leb c 0x8a) || c == 0xa8 || c == 0xa9 || c == 0xaf))
    || (a == 0xe2 && b == 0x81 && c == 0x9f)
    || (a == 0xe3 && b == 0x80 && c == 0x80)

trim_start : Bytes → Bytes
trim_start [] = []
trim_start (a ∷ []) = if is_space a then [] else a ∷ []
trim_start (a ∷ b ∷ []) = elim (is_space a) [
  | true ↦ trim_start (b ∷ [])
  | false ↦ if is_space_pair a b then [] else a ∷ b ∷ []
]
trim_start (a ∷ b ∷ c ∷ rest) = elim (is_space a) [
  | true ↦ trim_start (b ∷ c ∷ rest)
  | false ↦ elim (is_space_pair a b) [
    | true ↦ trim_start (c ∷ rest)
    | false ↦ elim (is_space_triple a b c) [ true ↦ trim_start rest | false ↦ a ∷ b ∷ c ∷ rest ]
  ]
]

-- The same on the reversed text.
trim_back : Bytes → Bytes
trim_back [] = []
trim_back (a ∷ []) = if is_space a then [] else a ∷ []
trim_back (b ∷ a ∷ []) = elim (is_space b) [
  | true ↦ trim_back (a ∷ [])
  | false ↦ if is_space_pair a b then [] else b ∷ a ∷ []
]
trim_back (c ∷ b ∷ a ∷ rest) = elim (is_space c) [
  | true ↦ trim_back (b ∷ a ∷ rest)
  | false ↦ elim (is_space_pair b c) [
    | true ↦ trim_back (a ∷ rest)
    | false ↦ elim (is_space_triple a b c) [ true ↦ trim_back rest | false ↦ c ∷ b ∷ a ∷ rest ]
  ]
]

unfoldable pub trim : Bytes → Bytes
unfolding trim_start trim_back
trim text = reverse (trim_back (reverse (trim_start text)))

unfoldable pub drop_endings : Bytes → Bytes
drop_endings [] = []
drop_endings (b ∷ bs) = elim (b == b'\r' || b == b'\n') [ true ↦ drop_endings bs | false ↦ b ∷ bs ]

-- `trim_end_matches(['\r', '\n'])`
unfoldable pub trim_line_end : Bytes → Bytes
unfolding drop_endings
trim_line_end line = reverse (drop_endings (reverse line))

parse_digits : ℕ → Bytes → Option ℕ
parse_digits acc [] = some acc
parse_digits acc (b ∷ bs) =
    let next = acc * 10 + (b - b'0') in
    elim (leb b'0' b && leb b b'9' && leb next usize_max) [
      | true ↦ parse_digits next bs
      | false ↦ none
    ]

-- `parse::<usize>().ok()`: digits, perhaps after a plus sign, whose value fits.
unfoldable pub parse_usize : Bytes → Option ℕ
unfolding parse_digits
parse_usize [] = none
parse_usize (b ∷ []) = if b == b'+' then none else parse_digits 0 (b ∷ [])
parse_usize (b ∷ d ∷ bs) =
    if b == b'+' then parse_digits 0 (d ∷ bs) else parse_digits 0 (b ∷ d ∷ bs)

abbrev pub to_ascii_lowercase : Bytes → Bytes
to_ascii_lowercase = map lower
