-- ===== src/Base/Bytes.antt =====
-- Byte sequences: `[u8]`, `[u8; N]`, `Vec<u8>` and the UTF-8 bytes of a `str` are lists of numbers.
use Prim.Native.Nat.{ℕ, zero, suc, ◌+◌, ◌-◌, ◌*◌, ◌/◌, ◌%◌, ◌^◌, ◌<◌}
use Prim.Native.Char.{code}
use Prim.Native.String.{String}
use mathlib.Core.Path.{◌≡◌, refl}
use mathlib.Core.Logic.{◌↔◌}
use mathlib.Core.Bool.{Bool, true, false, ◌&&◌, ◌||◌}
use mathlib.Core.List.{List, [], ◌∷◌, ◌++◌}
use mathlib.Core.Option.{Option, none, some}
use native.Mathlib.Omega.{arith}
use native.Mathlib.Decide.{ℕ_discrete}
use article.Base.Tests.{ltb, leb, ◌==◌, ==_refl, if◌then◌else◌}
use article.Base.Lists.{length, All}

abbrev pub Bytes : Type 0
Bytes = List ℕ

abbrev pub AllBytes : Bytes → Type 0
AllBytes = All (λ b. b < 256)

-- An array `[u8; n]`.
pub record IsArray (n : ℕ) (bytes : Bytes) : Type 0 where
  pub size : length bytes ≡ n
  pub all_bytes : AllBytes bytes

pub Bytes-discrete : Discrete Bytes
Bytes-discrete = hlevel ℕ_discrete

-- `==` on slices, arrays, vectors and strings.
unfoldable pub bytes_eq : Bytes → Bytes → Bool
bytes_eq [] [] = true
bytes_eq (x ∷ xs) (y ∷ ys) = x == y && bytes_eq xs ys
bytes_eq _ _ = false

pub bytes_eq_sound : (xs ys : Bytes) → bytes_eq xs ys ≡ true → xs ≡ ys
unfolding bytes_eq
bytes_eq_sound [] [] h = refl
bytes_eq_sound [] (y ∷ ys) h = cc
bytes_eq_sound (x ∷ xs) [] h = cc
bytes_eq_sound (x ∷ xs) (y ∷ ys) h = ground (arith, bytes_eq_sound xs ys)

pub bytes_eq_refl : (xs : Bytes) → bytes_eq xs xs ≡ true
unfolding bytes_eq
bytes_eq_refl [] = refl
bytes_eq_refl (x ∷ xs) = ground (arith, bytes_eq_refl xs)

pub bytes_eq_iff : (xs ys : Bytes) → (bytes_eq xs ys ≡ true) ↔ (xs ≡ ys)
bytes_eq_iff xs ys = (bytes_eq_sound xs ys, λ e. rw e (bytes_eq_refl ys))

-- The order of arrays and slices, `<=`: lexicographic by unsigned bytes.
unfoldable pub bytes_le : Bytes → Bytes → Bool
bytes_le [] ys = true
bytes_le (x ∷ xs) [] = false
bytes_le (x ∷ xs) (y ∷ ys) = ltb x y || (x == y && bytes_le xs ys)

pub bytes_le_antisymm : (xs ys : Bytes) → bytes_le xs ys ≡ true → bytes_le ys xs ≡ true → xs ≡ ys
unfolding bytes_le
bytes_le_antisymm [] [] h k = refl
bytes_le_antisymm [] (y ∷ ys) h k = cc
bytes_le_antisymm (x ∷ xs) [] h k = cc
bytes_le_antisymm (x ∷ xs) (y ∷ ys) h k = ground (arith, bytes_le_antisymm xs ys)

pub bytes_le_total : (xs ys : Bytes) → bytes_le xs ys ≡ false → bytes_le ys xs ≡ true
unfolding bytes_le
bytes_le_total [] ys h = cc
bytes_le_total (x ∷ xs) [] h = refl
bytes_le_total (x ∷ xs) (y ∷ ys) h = ground (arith, bytes_le_total xs ys)

-- The UTF-8 bytes of one character.
encode_char : ℕ → Bytes
encode_char c =
    if ltb c 0x80
    then c ∷ []
    else if ltb c 0x800
    then (0xc0 + c / 64) ∷ (0x80 + c % 64) ∷ []
    else if ltb c 0x10000
    then (0xe0 + c / 4096) ∷ (0x80 + c / 64 % 64) ∷ (0x80 + c % 64) ∷ []
    else (0xf0 + c / 262144) ∷ (0x80 + c / 4096 % 64) ∷ (0x80 + c / 64 % 64) ∷ (0x80 + c % 64) ∷ []

-- The bytes of a string literal.
unfoldable pub utf8 : String → Bytes
unfolding encode_char
utf8 String.[] = []
utf8 (String.◌∷◌ c s) = encode_char (code c) ++ utf8 s

-- `u32::to_be_bytes` and `u64::to_be_bytes`: `width` bytes, the highest first.
unfoldable pub be_bytes : ℕ → ℕ → Bytes
be_bytes zero n = []
be_bytes (suc width) n = (n / 256 ^ width % 256) ∷ be_bytes width n

-- `u32::from_be_bytes`.
unfoldable pub from_be : ℕ → Bytes → ℕ
from_be acc [] = acc
from_be acc (b ∷ bs) = from_be (acc * 256 + b) bs

pub from_be-be_bytes : (n : ℕ) → n < 2 ^ 32 → from_be 0 (be_bytes 4 n) ≡ n
unfolding from_be be_bytes
from_be-be_bytes n h = omega arith

pub be_bytes-from_be :
    (a b c d : ℕ)
    → AllBytes (a ∷ b ∷ c ∷ d ∷ [])
    → be_bytes 4 (from_be 0 (a ∷ b ∷ c ∷ d ∷ [])) ≡ a ∷ b ∷ c ∷ d ∷ []
unfolding from_be be_bytes
be_bytes-from_be a b c d h = ap₄ (omega arith) (omega arith) (omega arith) (omega arith)
  where
    ap₄ :
        {x y z w x' y' z' w' : ℕ}
        → x ≡ x'
        → y ≡ y'
        → z ≡ z'
        → w ≡ w'
        → ◌≡◌ {A = Bytes} (x ∷ y ∷ z ∷ w ∷ []) (x' ∷ y' ∷ z' ∷ w' ∷ [])
    ap₄ p q r s = cc

pub length-be_bytes : (width n : ℕ) → length (be_bytes width n) ≡ width
unfolding be_bytes
length-be_bytes zero n = refl
length-be_bytes (suc width) n = omega (arith, length-be_bytes width n)

pub be_bytes-AllBytes : (width n : ℕ) → AllBytes (be_bytes width n)
unfolding be_bytes
be_bytes-AllBytes zero n = tt
be_bytes-AllBytes (suc width) n = (omega arith, be_bytes-AllBytes width n)

-- The check that `std::str::from_utf8` makes, as an automaton over the bytes.
pub data Utf8State : Type 0 where
  ready broken : Utf8State
  -- how many continuation bytes follow
  tail_one tail_two tail_three : Utf8State
  -- after 0xe0, 0xed, 0xf0 and 0xf4 the next byte has a smaller range
  after_e0 after_ed after_f0 after_f4 : Utf8State

abbrev within : ℕ → ℕ → ℕ → Bool
within low high b = leb low b && leb b high

abbrev lead : ℕ → Utf8State
lead b =
    if ltb b 0x80
    then ready
    else if within 0xc2 0xdf b
    then tail_one
    else if b == 0xe0
    then after_e0
    else if b == 0xed
    then after_ed
    else if within 0xe1 0xef b
    then tail_two
    else if b == 0xf0
    then after_f0
    else if within 0xf1 0xf3 b
    then tail_three
    else if b == 0xf4
    then after_f4
    else broken

abbrev utf8_step : Utf8State → ℕ → Utf8State
utf8_step ready b = lead b
utf8_step broken b = broken
utf8_step tail_one b = if within 0x80 0xbf b then ready else broken
utf8_step tail_two b = if within 0x80 0xbf b then tail_one else broken
utf8_step tail_three b = if within 0x80 0xbf b then tail_two else broken
utf8_step after_e0 b = if within 0xa0 0xbf b then tail_one else broken
utf8_step after_ed b = if within 0x80 0x9f b then tail_one else broken
utf8_step after_f0 b = if within 0x90 0xbf b then tail_two else broken
utf8_step after_f4 b = if within 0x80 0x8f b then tail_two else broken

utf8_run : Utf8State → Bytes → Bool
utf8_run ready [] = true
utf8_run _ [] = false
utf8_run s (b ∷ bs) = utf8_run (utf8_step s b) bs

unfoldable pub is_utf8 : Bytes → Bool
unfolding utf8_run
is_utf8 = utf8_run ready

abbrev pub AllAscii : Bytes → Type 0
AllAscii = All (λ b. b < 128)

pub is_utf8_of_ascii : (bs : Bytes) → AllAscii bs → is_utf8 bs ≡ true
unfolding is_utf8
is_utf8_of_ascii [] h = refl
is_utf8_of_ascii (b ∷ bs) h = ground (arith, is_utf8_of_ascii bs h.1)

-- `str::strip_prefix`.
unfoldable pub strip_prefix : Bytes → Bytes → Option Bytes
strip_prefix [] bs = some bs
strip_prefix (p ∷ ps) [] = none
strip_prefix (p ∷ ps) (b ∷ bs) = elim (p == b) [ true ↦ strip_prefix ps bs | false ↦ none ]

pub strip_prefix-append : (ps bs : Bytes) → strip_prefix ps (ps ++ bs) ≡ some bs
unfolding strip_prefix
strip_prefix-append [] bs = refl
strip_prefix-append (p ∷ ps) bs = rw (==_refl p, strip_prefix) (strip_prefix-append ps bs)

-- `to_ascii_lowercase` and `to_ascii_uppercase` on one byte.
unfoldable pub lower : ℕ → ℕ
lower c = if within b'A' b'Z' c then c + 32 else c

unfoldable pub upper : ℕ → ℕ
upper c = if within b'a' b'z' c then c - 32 else c
