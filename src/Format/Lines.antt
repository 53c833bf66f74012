-- ===== src/Format/Lines.antt =====
-- `str::lines`: a line ends at "\n" or "\r\n", and a last line may lack its ending.
use article.Base.{
  ℕ, ◌+◌, ◌≡◌, refl, Bool, true, false, List, [], ◌∷◌, ◌++◌, arith, ◌==◌, not, ◌&&◌, if◌then◌else◌,
  All, all, length, All-append, length-append,
}
use article.Base.Bytes.{Bytes, AllBytes, AllAscii}
use article.Format.Hex.{IsDigitByte, hex_encode, hex_encode-AllDigits}

abbrev pub line_feed : ℕ
line_feed = 10

abbrev pub carriage_return : ℕ
carriage_return = 13

abbrev starts_line_feed : Bytes → Bool
starts_line_feed [] = false
starts_line_feed (b ∷ bs) = b == line_feed

-- One more character in front of the first line.
abbrev push : ℕ → List Bytes → List Bytes
push b [] = (b ∷ []) ∷ []
push b (line ∷ rest) = (b ∷ line) ∷ rest

unfoldable pub lines : Bytes → List Bytes
lines [] = []
lines (b ∷ bs) =
    let rest = lines bs in
    if b == line_feed
    then [] ∷ rest
    else if b == carriage_return && starts_line_feed bs
    then rest
    else push b rest

-- A character that ends no line.
abbrev pub is_plain : ℕ → Bool
is_plain c = not (c == line_feed) && not (c == carriage_return)

abbrev pub AllPlain : Bytes → Type 0
AllPlain = All (λ c. is_plain c ≡ true)

-- A text of one line and what follows it.
abbrev pub line : Bytes → Bytes → Bytes
line text rest = text ++ (line_feed ∷ rest)

pub lines-line : (text rest : Bytes) → AllPlain text → lines (line text rest) ≡ text ∷ lines rest
unfolding lines
lines-line [] rest h = refl
lines-line (c ∷ text) rest h = ground (arith, lines-line text rest h.1, h.0)

pub AllPlain-append : (xs ys : Bytes) → AllPlain xs → AllPlain ys → AllPlain (xs ++ ys)
AllPlain-append [] ys h k = k
AllPlain-append (x ∷ xs) ys h k = (h.0, AllPlain-append xs ys h.1 k)

digits-AllPlain : (cs : Bytes) → All IsDigitByte cs → AllPlain cs
digits-AllPlain [] h = tt
digits-AllPlain (c ∷ cs) h = (ground (arith, h.0), digits-AllPlain cs h.1)

pub hex_encode-AllPlain : (bytes : Bytes) → AllBytes bytes → AllPlain (hex_encode bytes)
hex_encode-AllPlain bytes h = digits-AllPlain (hex_encode bytes) (hex_encode-AllDigits bytes h)

pub AllPlain-of_test : (cs : Bytes) → all is_plain cs ≡ true → AllPlain cs
AllPlain-of_test [] h = tt
AllPlain-of_test (c ∷ cs) h = (ground arith, AllPlain-of_test cs (ground arith))

pub line-AllAscii : (text rest : Bytes) → AllAscii text → AllAscii rest → AllAscii (line text rest)
line-AllAscii text rest h k = All-append _ text _ h (omega arith, k)

pub length-line : (text rest : Bytes) → length (line text rest) ≡ length text + 1 + length rest
length-line text rest = omega (arith, length-append text (10 ∷ rest))
