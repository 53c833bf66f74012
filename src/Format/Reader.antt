-- ===== src/Format/Reader.antt =====
-- `Reader` of src/format.rs: a cursor over binary input, whose offset is the state.
use article.Base
use article.Base.{
  ℕ, zero, suc, ◌+◌, ◌-◌, ◌^◌, ◌≤◌, ◌<◌, ◌≡◌, refl, sym, ap, ◌∙◌, subst, Bool, true, false, Option,
  none, some, List, [], ◌∷◌, ◌++◌, arith, ltb, ◌==◌, if◌then◌else◌, length, drop, get_or,
  length-append, length-drop, ==_refl, lt→ltb, ltb→lt, ltb→ge, ◌≢◌, take-append, drop-append,
  take-append-drop, length-take, Bool-cases, inl, inr, leb,
}
use article.Base.Bytes.{
  Bytes, AllBytes, from_be, be_bytes, length-be_bytes, from_be-be_bytes, be_bytes-from_be,
}
use article.Error.{ok, err, invalid_input}
use article.Exec.{Exec, pure, raise, ◌>>=◌, exec_done}
use article.Protocol.{checked_add, usize_max}

pub record Reader : Type 0 where
  pub input : Bytes
  pub offset : ℕ

abbrev pub new : Bytes → Reader
new input = record { input = input; offset = 0 }

-- `&input[from..to]`
abbrev pub slice : Bytes → ℕ → ℕ → Bytes
slice input from to = Base.take (to - from) (drop from input)

unfoldable pub take : ℕ → Exec Reader Bytes
take count reader = elim (checked_add reader.offset count) [
  | none ↦ (err (invalid_input "malformed binary input"), reader)
  | some end ↦
      if ltb (length reader.input) end
      then (err (invalid_input "truncated binary input"), reader)
      else (ok (slice reader.input reader.offset end), record reader { offset = end })
]

unfoldable pub array : ℕ → Exec Reader Bytes
array n = do
  bytes ← take n
  if length bytes == n then pure bytes else raise (invalid_input "malformed binary input")

unfoldable pub byte : Exec Reader ℕ
byte = do bytes ← take 1; pure (get_or bytes 0 0)

unfoldable pub u32_be : Exec Reader ℕ
u32_be = do bytes ← array 4; pure (from_be 0 bytes)

unfoldable pub remaining : Reader → ℕ
remaining reader = length reader.input - reader.offset

-- What is left to read.
pub record IsAt (reader : Reader) (rest : Bytes) : Type 0 where
  pub unread : drop reader.offset reader.input ≡ rest
  pub inside : reader.offset ≤ length reader.input
  pub addressable : length reader.input ≤ usize_max

pub IsAt-new : (input : Bytes) → length input ≤ usize_max → IsAt (new input) input
IsAt-new input h = record { unread = refl; inside = omega arith; addressable = h }

pub remaining_lem :
    (reader : Reader) (rest : Bytes) → IsAt reader rest → remaining reader ≡ length rest
unfolding remaining
remaining_lem reader rest h = sym (length-drop reader.offset reader.input) ∙ ap length h.unread

abbrev pub advance : ℕ → Reader → Reader
advance n reader = record reader { offset = reader.offset + n }

drop-nil : {A : Type 0} (k : ℕ) → drop {A = A} k [] ≡ []
drop-nil zero = refl
drop-nil (suc k) = refl

drop_add : {A : Type 0} (n m : ℕ) (xs : List A) → drop (n + m) xs ≡ drop m (drop n xs)
drop_add zero m xs = ap (λ k. drop k xs) (omega arith)
drop_add (suc n) m [] = drop-nil (suc n + m) ∙ sym (drop-nil m)
drop_add (suc n) m (x ∷ xs) =
    let e : suc n + m ≡ suc (n + m) = omega arith in rw e (drop_add n m xs)

module _ (reader : Reader) (xs rest : Bytes) (h : IsAt reader (xs ++ rest)) where
  room : reader.offset + length xs + length rest ≡ length reader.input
  room =
      let inside = h.inside in
      omega
        (arith, length-drop reader.offset reader.input, ap length h.unread, length-append xs rest)

  -- A read that fits returns the next bytes and moves past them.
  pub take_lem : take (length xs) reader ≡ (ok xs, advance (length xs) reader)
  unfolding take
  take_lem =
      let r = room in
      let a = h.addressable in
      let sum : checked_add reader.offset (length xs) ≡ some (reader.offset + length xs) =
        ground arith in
      let fits : ltb (length reader.input) (reader.offset + length xs) ≡ false = ground arith in
      let count : reader.offset + length xs - reader.offset ≡ length xs = omega arith in
      rw (sum, take)
        (rw fits (
          rw (count, h.unread)
            (ap (λ t. (ok t, advance (length xs) reader)) (take-append xs rest))))

  pub advance-IsAt : IsAt (advance (length xs) reader) rest
  advance-IsAt = record {
    unread =
        drop_add reader.offset (length xs) reader.input
        ∙ ap (drop (length xs)) h.unread
        ∙ drop-append xs rest;
    inside = let r = room in omega arith;
    addressable = h.addressable;
  }

-- The same, with the size that is asked for.
module _ (n : ℕ) (reader : Reader) (xs rest : Bytes) (size : length xs ≡ n)
    (h : IsAt reader (xs ++ rest)) where
  pub take_exact : take n reader ≡ (ok xs, advance n reader)
  take_exact =
      subst (λ k. take k reader ≡ (ok xs, advance k reader)) size (take_lem reader xs rest h)

  pub array_lem : array n reader ≡ (ok xs, advance n reader)
  unfolding array ◌>>=◌
  array_lem = rw (take_exact, size) (rw (==_refl n))

  pub advance-IsAt_exact : IsAt (advance n reader) rest
  advance-IsAt_exact =
      subst (λ k. IsAt (advance k reader) rest) size (advance-IsAt reader xs rest h)

pub byte_lem :
    (reader : Reader) (b : ℕ) (rest : Bytes)
    → IsAt reader (b ∷ rest)
    → byte reader ≡ (ok b, advance 1 reader)
unfolding byte ◌>>=◌
byte_lem reader b rest h = rw (take_exact 1 reader (b ∷ []) rest refl h)

pub u32_be_lem :
    (reader : Reader) (n : ℕ) (rest : Bytes)
    → n < 2 ^ 32
    → IsAt reader (be_bytes 4 n ++ rest)
    → u32_be reader ≡ (ok n, advance 4 reader)
unfolding u32_be ◌>>=◌
u32_be_lem reader n rest small h =
    rw (array_lem 4 reader (be_bytes 4 n) rest (length-be_bytes 4 n) h)
      (rw (from_be-be_bytes n small))

take_fails :
    (count : ℕ) (reader : Reader) (unread xs : Bytes)
    → IsAt reader unread
    → length unread < count
    → (take count reader).0 ≢ ok xs
unfolding take
take_fails count reader unread xs h short =
    let size = remaining_lem reader unread h in
    let size' = length-drop reader.offset reader.input in
    let e = ap length h.unread in let inside = h.inside in ground arith

-- A read that succeeds returned the next `count` bytes and moved past them.
pub take_sound :
    (count : ℕ) (reader reader' : Reader) (unread xs : Bytes)
    → IsAt reader unread
    → take count reader ≡ (ok xs, reader')
    → (length xs ≡ count) × (unread ≡ xs ++ drop count unread) × IsAt reader' (drop count unread)
take_sound count reader reader' unread xs h e = elim (Bool-cases (ltb (length unread) count)) [
  | inl short ↦ absurd (take_fails count reader unread xs h (ltb→lt _ _ short) (ap (λ p. p.0) e))
  | inr long ↦
      let first = Base.take count unread in
      let size : length first ≡ count =
        omega (arith, length-take count unread, ltb→ge (length unread) count long) in
      let cut = take-append-drop count unread in
      let h' : IsAt reader (first ++ drop count unread) = subst (IsAt reader) (sym cut) h in
      let step = take_lem reader first (drop count unread) h' in
      let e' : take (length first) reader ≡ (ok xs, reader') =
        subst (λ n. take n reader ≡ (ok xs, reader')) (sym size) e in
      let same : first ≡ xs = cc (step, e') in
      let there : advance (length first) reader ≡ reader' = cc (step, e') in
      (
        subst (λ t. length t ≡ count) same size,
        subst (λ t. unread ≡ t ++ drop count unread) same (sym cut),
        subst (λ r. IsAt r (drop count unread)) there
            (advance-IsAt reader first (drop count unread) h'),
      )
]

array_take :
    (n : ℕ) (reader reader' : Reader) (xs : Bytes)
    → array n reader ≡ (ok xs, reader')
    → take n reader ≡ (ok xs, reader')
unfolding array
array_take n reader reader' xs e = exec_done (take n) _ reader e λ ys r f g.
    elim (Bool-cases (length ys == n)) [ inl t ↦ f ∙ (rw t at g) | inr t ↦ absurd (cc (rw t at g)) ]

byte-take :
    (reader reader' : Reader) (b : ℕ)
    → byte reader ≡ (ok b, reader')
    → (xs : Bytes) × (take 1 reader ≡ (ok xs, reader')) × (get_or xs 0 0 ≡ b)
unfolding byte
byte-take reader reader' b e = exec_done (take 1) _ reader e λ xs r f g. (xs, f ∙ cc g, cc g)

singleton : (xs : Bytes) (b : ℕ) → length xs ≡ 1 → get_or xs 0 0 ≡ b → xs ≡ b ∷ []
singleton [] b size e = absurd (omega arith)
singleton (x ∷ []) b size e = cc
singleton (x ∷ y ∷ xs) b size e = absurd (omega arith)

-- The same for the other methods.
pub array_sound :
    (n : ℕ) (reader reader' : Reader) (unread xs : Bytes)
    → IsAt reader unread
    → array n reader ≡ (ok xs, reader')
    → (length xs ≡ n) × (unread ≡ xs ++ drop n unread) × IsAt reader' (drop n unread)
array_sound n reader reader' unread xs h e =
    take_sound n reader reader' unread xs h (array_take n reader reader' xs e)

pub byte_sound :
    (reader reader' : Reader) (unread : Bytes) (b : ℕ)
    → IsAt reader unread
    → byte reader ≡ (ok b, reader')
    → (unread ≡ b ∷ drop 1 unread) × IsAt reader' (drop 1 unread)
byte_sound reader reader' unread b h e =
    let (xs, f, g) = byte-take reader reader' b e in
    let (size, cut, there) = take_sound 1 reader reader' unread xs h f in
    (cut ∙ ap (λ t. t ++ drop 1 unread) (singleton xs b size g), there)

four_bytes : (xs : Bytes) → length xs ≡ 4 → AllBytes xs → be_bytes 4 (from_be 0 xs) ≡ xs
four_bytes (a ∷ b ∷ c ∷ d ∷ []) size h = be_bytes-from_be a b c d h
four_bytes [] size h = absurd (omega arith)
four_bytes (a ∷ []) size h = absurd (omega arith)
four_bytes (a ∷ b ∷ []) size h = absurd (omega arith)
four_bytes (a ∷ b ∷ c ∷ []) size h = absurd (omega arith)
four_bytes (a ∷ b ∷ c ∷ d ∷ e ∷ xs) size h = absurd (omega arith)

pub All-append_left : (xs ys : Bytes) → AllBytes (xs ++ ys) → AllBytes xs
All-append_left [] ys h = tt
All-append_left (x ∷ xs) ys h = (h.0, All-append_left xs ys h.1)

pub All-drop : (n : ℕ) (xs : Bytes) → AllBytes xs → AllBytes (drop n xs)
All-drop zero xs h = h
All-drop (suc n) [] h = tt
All-drop (suc n) (x ∷ xs) h = All-drop n xs h.1

pub u32_be_sound :
    (reader reader' : Reader) (unread : Bytes) (n : ℕ)
    → AllBytes unread
    → IsAt reader unread
    → u32_be reader ≡ (ok n, reader')
    → (unread ≡ be_bytes 4 n ++ drop 4 unread) × IsAt reader' (drop 4 unread)
unfolding u32_be
u32_be_sound reader reader' unread n bytes h e = exec_done (array 4) _ reader e λ xs r f g.
    let (size, cut, there) = array_sound 4 reader r unread xs h f in
    let value : from_be 0 xs ≡ n = cc g in
    let last : r ≡ reader' = cc g in
    (
      cut
          ∙ ap (λ t. t ++ drop 4 unread)
              (sym (
                  four_bytes xs size
                    (All-append_left xs (drop 4 unread) (subst AllBytes cut bytes)))
                ∙ ap (be_bytes 4) value),
      subst (λ r. IsAt r (drop 4 unread)) last there,
    )
