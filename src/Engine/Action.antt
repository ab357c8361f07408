-- ===== src/Engine/Action.antt =====
-- A call on an object: it changes the state and answers with a status, or does not come back.
-- What was written before an error stays written.
use aster_vec.Base.{◌≡◌, refl, Option, none, some}
use aster_vec.Base.Status.{Code, Result, ok, err}

-- `none`: a call of the operating system has not returned, or an exception leaves the call.
abbrev pub Action : Type 0 → Type 0 → Type 0
Action E A = E → Option (Result A × E)

module _ {E A : Type 0} where
  abbrev pub pure : A → Action E A
  pure a e = some (ok a, e)

  abbrev pub raise : Code → Action E A
  raise c e = some (err c, e)

  abbrev pub gets : (E → A) → Action E A
  gets f e = some (ok (f e), e)

  abbrev pub check : Result A → Action E A
  check s e = some (s, e)

  -- `f` by the state in which the call begins.
  abbrev pub at_start : (E → Action E A) → Action E A
  at_start f e = f e e

  abbrev pub returned : E → Option A → Option (Result A × E)
  returned e none = none
  returned e (some a) = some (ok a, e)

abbrev pub modify : {E : Type 0} → (E → E) → Action E (Unit {0})
modify f e = some (ok tt, f e)

abbrev pub follow :
    {E A B : Type 0} → (A → Action E B) → Option (Result A × E) → Option (Result B × E)
follow k none = none
follow k (some (err c, e)) = some (err c, e)
follow k (some (ok a, e)) = k a e

infixl 5 ◌>>=◌ ◌>>◌
abbrev pub ◌>>=◌ : {E A B : Type 0} → Action E A → (A → Action E B) → Action E B
◌>>=◌ m k e = follow k (m e)

abbrev pub ◌>>◌ : {E A B : Type 0} → Action E A → Action E B → Action E B
m >> k = m >>= λ _. k

-- What an `ok` of a chain says of its first step.
pub follow_ok :
    {E A B : Type 0} (k : A → Action E B) (o : Option (Result A × E)) (b : B) (e' : E)
    → follow k o ≡ some (ok b, e')
    → (a : A) × (d : E) × (o ≡ some (ok a, d)) × (k a d ≡ some (ok b, e'))
follow_ok k none b e' h = cc
follow_ok k (some (err c, e)) b e' h = cc
follow_ok k (some (ok a, d)) b e' h = (a, d, refl, h)

pub some_injective : {A : Type 0} {a b : A} → ◌≡◌ {A = Option A} (some a) (some b) → a ≡ b
some_injective h = cc

pub check_ok :
    {E A B : Type 0} (s : Result A) (k : A → Action E B) (e : E) (b : B) (e' : E)
    → follow k (some (s, e)) ≡ some (ok b, e')
    → (a : A) × (s ≡ ok a) × (k a e ≡ some (ok b, e'))
check_ok (err c) k e b e' h = cc
check_ok (ok a) k e b e' h = (a, refl, h)

-- Two continuations that agree behind a check.
pub check_path :
    {E A B : Type 0} (s : Result A) (k k' : A → Action E B) (e : E)
    → ((a : A) → k a e ≡ k' a e)
    → follow k (some (s, e)) ≡ follow k' (some (s, e))
check_path (err c) k k' e same = refl
check_path (ok a) k k' e same = same a
