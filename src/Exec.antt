-- ===== src/Exec.antt =====
-- Code that works on a state and may fail. What was done before a failure stays done, so the state
-- comes back beside an error too.
pub mod Always
use mathlib.Core.Path.{◌≡◌, refl}
use mathlib.Core.Bool.{Bool, true, false}
use article.Error.{Error, Result, ok, err, map_err, refuse_if}

abbrev pub Exec : Type 0 → Type 0 → Type 0
Exec S A = S → Result A × S

module _ {S A : Type 0} where
  abbrev pub pure : A → Exec S A
  pure a s = (ok a, s)

  abbrev pub raise : Error → Exec S A
  raise e s = (err e, s)

  -- A pure computation that may fail.
  abbrev pub lift : Result A → Exec S A
  lift r s = (r, s)

  -- A value that is computed from the state.
  abbrev pub gets : (S → A) → Exec S A
  gets f s = (ok (f s), s)

  -- A step whose failure the caller looks at.
  abbrev pub attempt : Exec S A → Exec S (Result A)
  attempt m s = let (r, s') = m s in (ok r, s')

  -- `map_err`
  abbrev pub on_err : (Error → Error) → Exec S A → Exec S A
  on_err f m s = let (r, s') = m s in (map_err f r, s')

module _ {S A B : Type 0} where
  -- What follows a result: the next step after a value, nothing after an error.
  abbrev pub continue : Result A → (A → Exec S B) → Exec S B
  continue (err e) next state = (err e, state)
  continue (ok value) next state = next value state

  infixl 5 ◌>>=◌ ◌>>◌
  unfoldable pub ◌>>=◌ : Exec S A → (A → Exec S B) → Exec S B
  ◌>>=◌ step next state = let (outcome, reached) = step state in continue outcome next reached

  -- A step whose value is not used.
  abbrev pub ◌>>◌ : Exec S A → Exec S B → Exec S B
  first >> second = first >>= λ _. second

-- Inversion of a successful chain: both steps succeed, the second from the state that the first
-- leaves.
pub exec_ok {ℓ} :
    {S A B : Type 0} {P : Type ℓ} (m : Exec S A) (f : A → Exec S B) (s : S) {b : B}
    → ((m >>= f) s).0 ≡ ok b
    → ((a : A) (s' : S) → m s ≡ (ok a, s') → (f a s').0 ≡ ok b → P)
    → P
unfolding ◌>>=◌
exec_ok {S} {A} {B} {P} m f s {b} h k = go (m s) refl h
  where
    go : (r : Result A × S) → m s ≡ r → (continue r.0 f r.1).0 ≡ ok b → P
    go (ok a, s') e h = k a s' e h
    go (err e, s') _ h = absurd (cc)

-- Inversion of an early return, and of a step that only looks at the state.
pub exec_refuse {ℓ} :
    {S B : Type 0} {P : Type ℓ} (test : Bool) (e : Error) (f : Exec S B) (s : S) {b : B}
    → ((lift (refuse_if test e) >> f) s).0 ≡ ok b
    → (test ≡ false → (f s).0 ≡ ok b → P)
    → P
unfolding ◌>>=◌
exec_refuse true e f s h k = absurd (cc)
exec_refuse false e f s h k = k refl h

pub exec_gets :
    {S A B : Type 0} (g : S → A) (f : A → Exec S B) (s : S) {r : Result B}
    → ((gets g >>= f) s).0 ≡ r
    → (f (g s) s).0 ≡ r
unfolding ◌>>=◌
exec_gets g f s h = h

-- The same, with the final state.
pub exec_done {ℓ} :
    {S A B : Type 0} {P : Type ℓ} (m : Exec S A) (f : A → Exec S B) (s : S) {b : B} {t : S}
    → (m >>= f) s ≡ (ok b, t)
    → ((a : A) (s' : S) → m s ≡ (ok a, s') → f a s' ≡ (ok b, t) → P)
    → P
unfolding ◌>>=◌
exec_done {S} {A} {B} {P} m f s {b} {t} h k = go (m s) refl h
  where
    go : (r : Result A × S) → m s ≡ r → continue r.0 f r.1 ≡ (ok b, t) → P
    go (ok a, s') e h = k a s' e h
    go (err e, s') _ h = absurd (cc)

-- A chain whose first step is known goes on from its result.
pub exec_step :
    {S A B : Type 0} (m : Exec S A) (f : A → Exec S B) (s : S) (a : A) (s' : S) {r : Result B}
    → m s ≡ (ok a, s')
    → (f a s').0 ≡ r
    → ((m >>= f) s).0 ≡ r
unfolding ◌>>=◌
exec_step m f s a s' e k = rw e k

pub exec_refuse_step :
    {S B : Type 0} (test : Bool) (e : Error) (f : Exec S B) (s : S) {r : Result B}
    → test ≡ false
    → (f s).0 ≡ r
    → ((lift (refuse_if test e) >> f) s).0 ≡ r
unfolding ◌>>=◌
exec_refuse_step test e f s h k = rw h k

pub refuse_if_step :
    {S : Type 0} (b : Bool) (e : Error) (s : S) → b ≡ false → lift (refuse_if b e) s ≡ (ok tt, s)
refuse_if_step b e s h = rw h
