-- ===== src/Format/Hex.antt =====
-- `hex_encode`, `hex_decode` and `hex_nibble` of src/format.rs.
use Prim.Native.Nat.{bit_and, bit_or}
use article.Base.{
  ℕ, zero, suc, ◌+◌, ◌-◌, ◌*◌, ◌/◌, ◌%◌, ◌^◌, ◌<◌, ◌≡◌, refl, ap, subst, ◌∙◌, Bool, true, false, [],
  ◌∷◌, arith, ltb, leb, ◌==◌, ◌&&◌, ◌||◌, not, if◌then◌else◌, ==_iff, all_below, all_below_sound,
  length, get_or, map, All, Bool-cases, inl, inr,
}
use article.Base.Bytes.{Bytes, AllBytes, AllAscii, IsArray, utf8, lower}
use article.Error.{Result, ok, err, invalid_input, ◌>>=◌, bind_ok, ok_injective}

alphabet : Bytes
unfolding utf8
alphabet = utf8 "0123456789abcdef"

-- `ALPHABET[index]`; the index is a nibble, so it is never out of range.
digit : ℕ → ℕ
unfolding alphabet
digit index = get_or alphabet index 0

unfoldable pub hex_encode : Bytes → Bytes
unfolding digit
hex_encode [] = []
hex_encode (byte ∷ bytes) = digit (byte / 2 ^ 4) ∷ digit (bit_and byte 0x0f) ∷ hex_encode bytes

unfoldable pub hex_nibble : ℕ → Result ℕ
hex_nibble byte =
    if leb b'0' byte && leb byte b'9'
    then ok (byte - b'0')
    else if leb b'a' byte && leb byte b'f'
    then ok (byte - b'a' + 10)
    else if leb b'A' byte && leb byte b'F'
    then ok (byte - b'A' + 10)
    else err (invalid_input "invalid hexadecimal character")

-- `(high << 4) | low` on `u8`.
join_nibbles : ℕ → ℕ → ℕ
join_nibbles high low = bit_or (high * 2 ^ 4 % 256) low

-- The loop over the `n` output bytes. Byte `index` is read from the places `index * 2` and
-- `index * 2 + 1`, which are the next two of the input.
decode_pairs : ℕ → Bytes → Result Bytes
unfolding join_nibbles
decode_pairs zero encoded = ok []
decode_pairs (suc n) (h ∷ l ∷ rest) = do
  high ← hex_nibble h
  low ← hex_nibble l
  decoded ← decode_pairs n rest
  ok (join_nibbles high low ∷ decoded)
decode_pairs (suc n) _ = err (invalid_input "invalid hexadecimal length")

-- `hex_decode::<n>`
unfoldable pub hex_decode : ℕ → Bytes → Result Bytes
unfolding decode_pairs hex_nibble
hex_decode n encoded =
    if not (length encoded == n * 2)
    then err (invalid_input "invalid hexadecimal length")
    else decode_pairs n encoded

sample_encode : hex_encode (0x4f ∷ 0 ∷ 0xff ∷ []) ≡ utf8 "4f00ff"
unfolding hex_encode utf8
sample_encode = refl

sample_decode : hex_decode 2 (utf8 "4F0a") ≡ ok (0x4f ∷ 0x0a ∷ [])
unfolding hex_decode utf8 ◌>>=◌
sample_decode = refl

pub length-hex_encode : (bytes : Bytes) → length (hex_encode bytes) ≡ length bytes * 2
unfolding hex_encode
length-hex_encode [] = refl
length-hex_encode (byte ∷ bytes) = omega (arith, length-hex_encode bytes)

abbrev is_ok_with : ℕ → Result ℕ → Bool
is_ok_with n (ok m) = n == m
is_ok_with n (err e) = false

is_ok_with_sound : (n : ℕ) (r : Result ℕ) → is_ok_with n r ≡ true → r ≡ ok n
is_ok_with_sound n (ok m) h = ap ok (ground (arith, ==_iff n m))
is_ok_with_sound n (err e) h = cc

-- What the loop does with the two digits of one byte, over all bytes.
abbrev byte_check : ℕ → Bool
byte_check b =
    is_ok_with (b / 16) (hex_nibble (digit (b / 2 ^ 4)))
    && is_ok_with (bit_and b 0x0f) (hex_nibble (digit (bit_and b 0x0f)))
    && join_nibbles (b / 16) (bit_and b 0x0f) == b

byte_table : all_below 256 byte_check ≡ true
unfolding all_below hex_nibble digit join_nibbles
byte_table = refl

-- No character of an encoding is a line break, and all are ASCII.
abbrev is_digit_byte : ℕ → Bool
is_digit_byte c = leb b'0' c && leb c b'9' || leb b'a' c && leb c b'f'

digit_check : all_below 16 (λ i. is_digit_byte (digit i)) ≡ true
unfolding all_below digit
digit_check = refl

digit_bounds : (i : ℕ) → i < 16 → is_digit_byte (digit i) ≡ true
digit_bounds i h = all_below_sound 16 (λ i. is_digit_byte (digit i)) i digit_check h

-- A character that text encodings of bytes are made of.
abbrev pub IsDigitByte : ℕ → Type 0
IsDigitByte c = is_digit_byte c ≡ true

bit_and-lt : (b : ℕ) → b < 256 → ltb (bit_and b 0x0f) 16 ≡ true
bit_and-lt b h = all_below_sound 256 (λ b. ltb (bit_and b 0x0f) 16) b (unfold all_below in refl) h

pub hex_encode-AllDigits : (bytes : Bytes) → AllBytes bytes → All IsDigitByte (hex_encode bytes)
unfolding hex_encode
hex_encode-AllDigits [] h = tt
hex_encode-AllDigits (b ∷ bytes) h = (
  digit_bounds (b / 16) (let small = h.0 in omega arith),
  (
    digit_bounds (bit_and b 0x0f) (let low = bit_and-lt b h.0 in ground arith),
    hex_encode-AllDigits bytes h.1,
  ),
)

pub ascii_of_digits : (cs : Bytes) → All IsDigitByte cs → AllAscii cs
ascii_of_digits [] h = tt
ascii_of_digits (c ∷ cs) h = (ground (arith, h.0), ascii_of_digits cs h.1)

decode_byte :
    (b : ℕ) (k : ℕ → ℕ → Result Bytes)
    → b < 256
    → (hex_nibble (digit (b / 2 ^ 4)) >>= λ high.
        hex_nibble (digit (bit_and b 0x0f)) >>= λ low. k high low)
      ≡ k (b / 16) (bit_and b 0x0f)
unfolding ◌>>=◌
decode_byte b k h =
    let t = all_below_sound 256 byte_check b byte_table h in
    let high = is_ok_with_sound (b / 16) (hex_nibble (digit (b / 2 ^ 4))) (ground arith) in
    let low =
      is_ok_with_sound (bit_and b 0x0f) (hex_nibble (digit (bit_and b 0x0f))) (ground arith) in
    rw (high, low)

decode_pairs-hex_encode :
    (bs : Bytes) → AllBytes bs → decode_pairs (length bs) (hex_encode bs) ≡ ok bs
unfolding decode_pairs hex_encode ◌>>=◌
decode_pairs-hex_encode [] h = refl
decode_pairs-hex_encode (b ∷ bs) h =
    let t = all_below_sound 256 byte_check b byte_table h.0 in
    let joined : join_nibbles (b / 16) (bit_and b 0x0f) ≡ b = ground arith in
    decode_byte b _ h.0 ∙ rw (decode_pairs-hex_encode bs h.1) (ap (λ x. ok (x ∷ bs)) joined)

-- Decoding reads back every string of bytes that was encoded.
pub hex_decode-hex_encode :
    (bs : Bytes) → AllBytes bs → hex_decode (length bs) (hex_encode bs) ≡ ok bs
unfolding hex_decode
hex_decode-hex_encode bs h =
    let size = length-hex_encode bs in ground (arith, decode_pairs-hex_encode bs h)

-- What `hex_nibble` returns for a byte: a nibble, whose digit is the byte in lower case.
abbrev nibble_check : ℕ → Result ℕ → Bool
nibble_check c (ok n) = ltb n 16 && digit n == lower c
nibble_check c (err e) = true

nibble_table : all_below 256 (λ c. nibble_check c (hex_nibble c)) ≡ true
unfolding all_below hex_nibble digit lower
nibble_table = refl

hex_nibble-lt : (c n : ℕ) → hex_nibble c ≡ ok n → c < 256
unfolding hex_nibble
hex_nibble-lt c n e = ground arith

hex_nibble_sound : (c n : ℕ) → hex_nibble c ≡ ok n → (n < 16) × (digit n ≡ lower c)
hex_nibble_sound c n e =
    let h = hex_nibble-lt c n e in
    let t : nibble_check c (ok n) ≡ true =
      subst (λ r. nibble_check c r ≡ true) e
        (all_below_sound 256 (λ c. nibble_check c (hex_nibble c)) c nibble_table h) in
    (ground arith, ground arith)

-- Joining two nibbles and cutting the byte again, over all nibbles.
abbrev join_check : ℕ → Bool
join_check k =
    let b = join_nibbles (k / 16) (k % 16) in
    b / 16 == k / 16 && bit_and b 0x0f == k % 16 && ltb b 256

join_table : all_below 256 join_check ≡ true
unfolding all_below join_nibbles
join_table = refl

join_nibbles_lem :
    (high low : ℕ)
    → high < 16
    → low < 16
    → let b = join_nibbles high low in (b / 2 ^ 4 ≡ high) × (bit_and b 0x0f ≡ low) × (b < 256)
join_nibbles_lem high low p q =
    let t = all_below_sound 256 join_check (high * 16 + low) join_table (omega arith) in
    let e : (high * 16 + low) / 16 ≡ high = omega arith in
    let f : (high * 16 + low) % 16 ≡ low = omega arith in
    let u : join_check' high low ≡ true = rw (e, f) at t in
    (ground arith, ground arith, ground arith)
  where
    join_check' : ℕ → ℕ → Bool
    join_check' high low =
        let b = join_nibbles high low in b / 16 == high && bit_and b 0x0f == low && ltb b 256

decode_pairs_sound :
    (n : ℕ) (encoded : Bytes) {bs : Bytes}
    → length encoded ≡ n * 2
    → decode_pairs n encoded ≡ ok bs
    → IsArray n bs × (hex_encode bs ≡ map lower encoded)
unfolding decode_pairs hex_encode
decode_pairs_sound zero [] size e =
    subst (λ bs. IsArray 0 bs × (hex_encode bs ≡ [])) (ok_injective [] _ e)
      (record { size = refl; all_bytes = tt }, refl)
decode_pairs_sound zero (x ∷ xs) size e = absurd (omega arith)
decode_pairs_sound (suc n) [] size e = absurd (omega arith)
decode_pairs_sound (suc n) (x ∷ []) size e = absurd (omega arith)
decode_pairs_sound (suc n) (h ∷ l ∷ rest) size e0 = bind_ok (hex_nibble h) _ e0 λ high p e1.
    bind_ok (hex_nibble l) _ e1 λ low q e2. bind_ok (decode_pairs n rest) _ e2 λ tail r e.
      let (p1, p2) = hex_nibble_sound h high p in
      let (q1, q2) = hex_nibble_sound l low q in
      let (a, t) = decode_pairs_sound n rest (omega arith) r in
      let (j1, j2, j3) = join_nibbles_lem high low p1 q1 in
      subst (λ bs. IsArray (suc n) bs × (hex_encode bs ≡ map lower (h ∷ l ∷ rest)))
        (ok_injective (join_nibbles high low ∷ tail) _ e)
        (record { size = ap suc a.size; all_bytes = (j3, a.all_bytes) }, cc (j1, j2, p2, q2, t))

-- A decoded text has `n` bytes, and encoding them gives the text back, in lower case.
pub hex_decode_sound :
    (n : ℕ) (encoded : Bytes) {bs : Bytes}
    → hex_decode n encoded ≡ ok bs
    → IsArray n bs × (hex_encode bs ≡ map lower encoded)
unfolding hex_decode
hex_decode_sound n encoded e = elim (Bool-cases (length encoded == n * 2)) [
  | inl t ↦ decode_pairs_sound n encoded ((==_iff _ _).0 t) (rw t at e)
  | inr t ↦ absurd (ground (arith, t))
]
