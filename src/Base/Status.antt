-- ===== src/Base/Status.antt =====
-- The status that the storage calls return: OK with a value, or one of the error codes. The text
-- of a message is left out.
use mathlib.Core.Path.{◌≡◌, refl}
use mathlib.Core.Bool.{Bool, true, false}
use aster_vec.Base.Tests.{if◌then◌else◌}

pub data Code : Type 0 where
  not_found corruption not_supported invalid_argument io_error : Code

pub data Result {ℓ} (A : Type ℓ) : Type ℓ where
  ok : A → Result A
  err : Code → Result A

infixl 5 ◌>>=◌ ◌>>◌
abbrev pub ◌>>=◌ {ℓ κ} : {A : Type ℓ} {B : Type κ} → Result A → (A → Result B) → Result B
ok a >>= f = f a
err c >>= f = err c

abbrev pub ◌>>◌ {ℓ} : {B : Type ℓ} → Result (Unit {0}) → Result B → Result B
m >> k = m >>= λ _. k

-- What an `ok` of a chain says of its first step.
pub bind_ok {ℓ κ} :
    {A : Type ℓ} {B : Type κ} (m : Result A) (f : A → Result B) (b : B)
    → (m >>= f) ≡ ok b
    → (a : A) × (m ≡ ok a) × (f a ≡ ok b)
bind_ok (ok a) f b h = (a, refl, h)
bind_ok (err c) f b h = cc

pub ok_injective {ℓ} : {A : Type ℓ} {a b : A} → ◌≡◌ {A = Result A} (ok a) (ok b) → a ≡ b
ok_injective h = cc

pub err_absurd {ℓ} : {A : Type ℓ} {c : Code} {a : A} → ◌≡◌ {A = Result A} (err c) (ok a) → ⊥
err_absurd h = cc

-- What an `ok` says of a test that guards it.
pub guard_ok {ℓ} :
    {A : Type ℓ} (b : Bool) (m : Result A) (c : Code) (a : A)
    → (if b then m else err c) ≡ ok a
    → (b ≡ true) × (m ≡ ok a)
guard_ok true m c a h = (refl, h)
guard_ok false m c a h = absurd (err_absurd h)

pub refuse_ok {ℓ} :
    {A : Type ℓ} (b : Bool) (m : Result A) (c : Code) (a : A)
    → (if b then err c else m) ≡ ok a
    → (b ≡ false) × (m ≡ ok a)
refuse_ok false m c a h = (refl, h)
refuse_ok true m c a h = absurd (err_absurd h)
