-- ===== src/Exec/Always.antt =====
-- Relations between the state before and the state after, however the code ends: one rule for each
-- way to build code.
use article.Base.{◌≡◌, subst, Bool, true, false, if◌then◌else◌}
use article.Error.{Error, Result, ok, err}
use article.Exec.{Exec, pure, raise, lift, gets, attempt, on_err, continue, ◌>>=◌}

-- A relation that one may chain.
pub record Frame (S : Type 0) : Type 1 where
  pub rel : S → S → Type 0
  pub rel_refl : (s : S) → rel s s
  pub rel_trans : {s t u : S} → rel s t → rel t u → rel s u

pub record Always {S A : Type 0} (F : Frame S) (m : Exec S A) : Type 0 where
  pub at : (s : S) → F.rel s (m s).1

module _ {S A : Type 0} {F : Frame S} where
  pub pure-Always : (a : A) → Always F (pure a)
  pure-Always a = record { at = λ s. F.rel_refl s }

  pub raise-Always : (e : Error) → Always F (raise {A = A} e)
  raise-Always e = record { at = λ s. F.rel_refl s }

  pub lift-Always : (r : Result A) → Always F (lift r)
  lift-Always r = record { at = λ s. F.rel_refl s }

  pub gets-Always : (f : S → A) → Always F (gets f)
  gets-Always f = record { at = λ s. F.rel_refl s }

  pub on_err-Always : (f : Error → Error) (m : Exec S A) → Always F m → Always F (on_err f m)
  on_err-Always f m h = record { at = λ s. h.at s }

  pub attempt-Always : (m : Exec S A) → Always F m → Always F (attempt m)
  attempt-Always m h = record { at = λ s. h.at s }

  pub if-Always :
      (b : Bool) (m n : Exec S A) → Always F m → Always F n → Always F (if b then m else n)
  if-Always true m n h k = h
  if-Always false m n h k = k

module _ {S A B : Type 0} {F : Frame S} where
  pub bind-Always :
      (m : Exec S A) (f : A → Exec S B)
      → Always F m
      → ((a : A) → Always F (f a))
      → Always F (m >>= f)
  unfolding ◌>>=◌
  bind-Always m f h k = record { at = λ s. go s (m s) (h.at s) }
    where
      go : (s : S) (r : Result A × S) → F.rel s r.1 → F.rel s (continue r.0 f r.1).1
      go s (ok a, s') e = F.rel_trans e ((k a).at s')
      go s (err x, s') e = e

-- What a known step did.
pub Always-step :
    {S A : Type 0} (F : Frame S) {m : Exec S A} {s t : S} {r : Result A}
    → Always F m
    → m s ≡ (r, t)
    → F.rel s t
Always-step {S} {A} F {s = s} h e = subst (λ (q : Result A × S). F.rel s q.1) e (h.at s)

pub Always-weaken :
    {S A : Type 0} {F G : Frame S} {m : Exec S A}
    → ((s t : S) → F.rel s t → G.rel s t)
    → Always F m
    → Always G m
Always-weaken h k = record { at = λ s. h s _ (k.at s) }

pub ruleset always_rules = (
  pure-Always, raise-Always, lift-Always, gets-Always, on_err-Always, attempt-Always, if-Always,
  bind-Always,
)
