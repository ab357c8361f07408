-- ===== src/Base/Bits.antt =====
-- Laws of `^`, `|` and `&` on words of any width, from one equation for the lowest digit.
use Prim.Native.Nat.{
  ℕ, zero, suc, ◌+◌, ◌*◌, ◌/◌, ◌%◌, ◌^◌, ◌≤◌, ◌<◌, min, max, digits, bitwise, differ, bit_and,
  bit_or, bit_xor, ◌-◌, bit_and-bitwise, bit_or-bitwise, bit_xor-bitwise,
}
use mathlib.Core.Path.{◌≡◌, refl, sym, ap, ap₂, ◌∙◌}
use native.Mathlib.Nat.{
  le_refl, pow-suc, div-one, div-div-eq-div-mul, div-add-mod, mod-one, one-le-pow,
}
use native.Mathlib.Omega.{arith}

-- `digits` stops at the number itself, so fuel beyond the number changes nothing.
module _ (rest : ℕ → ℕ) (digit : ℕ → ℕ → ℕ) where
  more_fuel :
      (fuel m n : ℕ) → m ≤ fuel → digits rest digit (suc fuel) m n ≡ digits rest digit fuel m n
  more_fuel fuel zero n le = outside fuel
    where
      outside : (k : ℕ) → digits rest digit (suc k) zero n ≡ digits rest digit k zero n
      outside zero = refl
      outside (suc k) = refl
  more_fuel zero (suc m) n le = absurd (omega (arith, le))
  more_fuel (suc fuel) (suc m) n le =
      ap (λ (high : ℕ). high * 2 + digit (suc m % 2) (n % 2))
        (more_fuel fuel (suc m / 2) (n / 2) (omega (arith, le)))

  extra_fuel : (extra m n : ℕ) → digits rest digit (extra + m) m n ≡ bitwise rest digit m n
  extra_fuel zero m n = ap (λ (fuel : ℕ). digits rest digit fuel m n) (omega arith)
  extra_fuel (suc extra) m n =
      ap (λ (fuel : ℕ). digits rest digit fuel m n) same
      ∙ more_fuel (extra + m) m n (omega arith)
      ∙ extra_fuel extra m n
    where
      same : suc extra + m ≡ suc (extra + m)
      same = omega arith

  lowest_digit :
      (m n : ℕ)
      → bitwise rest digit (suc m) n
        ≡ bitwise rest digit (suc m / 2) (n / 2) * 2 + digit (suc m % 2) (n % 2)
  lowest_digit m n =
      ap (λ (high : ℕ). high * 2 + digit (suc m % 2) (n % 2))
        (ap (λ (fuel : ℕ). digits rest digit fuel (suc m / 2) (n / 2)) split
          ∙ extra_fuel (m - suc m / 2) (suc m / 2) (n / 2))
    where
      split : m ≡ m - suc m / 2 + suc m / 2
      split = omega arith

pub bit_and_step : (m n : ℕ) → bit_and m n ≡ bit_and (m / 2) (n / 2) * 2 + min (m % 2) (n % 2)
bit_and_step zero n = simp bit_and-bitwise (omega arith)
bit_and_step (suc m) n = simp bit_and-bitwise (lowest_digit (λ d. 0) min m n)

pub bit_or_step : (m n : ℕ) → bit_or m n ≡ bit_or (m / 2) (n / 2) * 2 + max (m % 2) (n % 2)
bit_or_step zero n = simp bit_or-bitwise (omega arith)
bit_or_step (suc m) n = simp bit_or-bitwise (lowest_digit (λ d. d) max m n)

-- The sum of two binary digits without the carry.
differ_small : (x y : ℕ) → x < 2 → y < 2 → differ x y ≡ (x + y) % 2
differ_small zero zero p q = refl
differ_small zero (suc zero) p q = refl
differ_small (suc zero) zero p q = refl
differ_small (suc zero) (suc zero) p q = refl
differ_small zero (suc (suc y)) p q = absurd (omega arith)
differ_small (suc zero) (suc (suc y)) p q = absurd (omega arith)
differ_small (suc (suc x)) y p q = absurd (omega arith)

pub bit_xor_step : (a b : ℕ) → bit_xor a b ≡ bit_xor (a / 2) (b / 2) * 2 + (a % 2 + b % 2) % 2
bit_xor_step zero b = simp bit_xor-bitwise (omega arith)
bit_xor_step (suc a) b = simp bit_xor-bitwise (
    lowest_digit (λ y. y) differ a b
    ∙ ap (λ (t : ℕ). bitwise (λ y. y) differ (suc a / 2) (b / 2) * 2 + t)
        (differ_small (suc a % 2) (b % 2) (omega arith) (omega arith)))

xor_half : (a b : ℕ) → bit_xor a b / 2 ≡ bit_xor (a / 2) (b / 2)
xor_half a b = omega (arith, bit_xor_step a b)

xor_digit : (a b : ℕ) → bit_xor a b % 2 ≡ (a % 2 + b % 2) % 2
xor_digit a b = omega (arith, bit_xor_step a b)

zero-bit_xor : (b : ℕ) → bit_xor 0 b ≡ b
zero-bit_xor b = bit_xor-bitwise 0 b

xor_cancel_step :
    (c a : ℕ) → bit_xor (c / 2) (bit_xor (c / 2) (a / 2)) ≡ a / 2 → bit_xor c (bit_xor c a) ≡ a
xor_cancel_step c a h =
    bit_xor_step c (bit_xor c a) ∙ rw (xor_half c a, xor_digit c a, h) (omega arith)

xor_cancel_fuel : (n c a : ℕ) → c ≤ n → bit_xor c (bit_xor c a) ≡ a
xor_cancel_fuel n zero a p = zero-bit_xor _ ∙ zero-bit_xor a
xor_cancel_fuel zero (suc c) a p = absurd (omega arith)
xor_cancel_fuel (suc n) (suc c) a p =
    xor_cancel_step (suc c) a (xor_cancel_fuel n (suc c / 2) (a / 2) (omega arith))

-- `^` is undone by a second `^`.
pub xor_cancel : (c a : ℕ) → bit_xor c (bit_xor c a) ≡ a
xor_cancel c a = xor_cancel_fuel c c a (le_refl c)

pub xor_injective : (c a b : ℕ) → bit_xor c a ≡ bit_xor c b → a ≡ b
xor_injective c a b h = sym (xor_cancel c a) ∙ ap (bit_xor c) h ∙ xor_cancel c b

xor_comm_fuel : (n a b : ℕ) → a ≤ n → b ≤ n → bit_xor a b ≡ bit_xor b a
xor_comm_fuel n zero zero p q = refl
xor_comm_fuel zero (suc a) b p q = absurd (omega arith)
xor_comm_fuel zero zero (suc b) p q = absurd (omega arith)
xor_comm_fuel (suc n) a b p q = omega (
  arith,
  bit_xor_step a b,
  bit_xor_step b a,
  xor_comm_fuel n (a / 2) (b / 2) (omega arith) (omega arith),
)

pub xor_comm : (a b : ℕ) → bit_xor a b ≡ bit_xor b a
xor_comm a b = xor_comm_fuel (a + b) a b (omega arith) (omega arith)

pub xor-zero : (a : ℕ) → bit_xor a 0 ≡ a
xor-zero a = xor_comm a 0 ∙ zero-bit_xor a

pub xor_injective_left : (c a b : ℕ) → bit_xor a c ≡ bit_xor b c → a ≡ b
xor_injective_left c a b h = xor_injective c a b (xor_comm c a ∙ h ∙ xor_comm b c)

pub xor-lt : (k a b : ℕ) → a < 2 ^ k → b < 2 ^ k → bit_xor a b < 2 ^ k
xor-lt zero zero zero p q = omega arith
xor-lt zero (suc a) b p q = absurd (omega arith)
xor-lt zero zero (suc b) p q = absurd (omega arith)
xor-lt (suc k) a b p q = omega (
  arith,
  bit_xor_step a b,
  pow-suc 2 k,
  xor-lt k (a / 2) (b / 2) (omega (arith, pow-suc 2 k)) (omega (arith, pow-suc 2 k)),
)

-- Shifting by one digit more.
div-pow_suc : (n k : ℕ) → n / 2 ^ suc k ≡ n / 2 / 2 ^ k
div-pow_suc n k = rw (pow-suc 2 k) (rw div-div-eq-div-mul (ap (λ (t : ℕ). n / t) (omega arith)))

mod-double : (m n : ℕ) → n % (m * 2) ≡ n / 2 % m * 2 + n % 2
mod-double m n = omega (arith, whole, div-add-mod (n / 2) m)
  where
    halves : n / (m * 2) ≡ n / 2 / m
    halves = sym (div-div-eq-div-mul n 2 m ∙ ap (λ (t : ℕ). n / t) (omega arith))

    whole : m * 2 * (n / 2 / m) + n % (m * 2) ≡ n
    whole = ap (λ (t : ℕ). m * 2 * t + n % (m * 2)) (sym halves) ∙ div-add-mod n (m * 2)

mod-pow_suc : (n k : ℕ) → n % 2 ^ suc k ≡ n / 2 % 2 ^ k * 2 + n % 2
mod-pow_suc n k = rw (pow-suc 2 k) (mod-double (2 ^ k) n)

-- The digits above the lowest `k`, and the lowest `k` themselves.
pub xor_shift : (k a b : ℕ) → bit_xor a b / 2 ^ k ≡ bit_xor (a / 2 ^ k) (b / 2 ^ k)
xor_shift zero a b = div-one (bit_xor a b) ∙ sym (ap₂ bit_xor (div-one a) (div-one b))
xor_shift (suc k) a b =
    div-pow_suc (bit_xor a b) k
    ∙ ap (λ (t : ℕ). t / 2 ^ k) (xor_half a b)
    ∙ xor_shift k (a / 2) (b / 2)
    ∙ rw (← div-pow_suc a k, ← div-pow_suc b k) refl

low_half : (n k : ℕ) → n % 2 ^ suc k / 2 ≡ n / 2 % 2 ^ k
low_half n k = omega (arith, mod-pow_suc n k)

pub xor_low : (k a b : ℕ) → bit_xor a b % 2 ^ k ≡ bit_xor (a % 2 ^ k) (b % 2 ^ k)
xor_low zero a b = mod-one (bit_xor a b) ∙ sym (ap₂ bit_xor (mod-one a) (mod-one b))
xor_low (suc k) a b = omega (
  arith,
  mod-pow_suc (bit_xor a b) k,
  mod-pow_suc a k,
  mod-pow_suc b k,
  ap (λ (t : ℕ). t % 2 ^ k) (xor_half a b),
  xor_digit a b,
  xor_low k (a / 2) (b / 2),
  bit_xor_step (a % 2 ^ suc k) (b % 2 ^ suc k),
  ap₂ bit_xor (low_half a k) (low_half b k),
)

and-zero_fuel : (fuel m : ℕ) → m ≤ fuel → bit_and m 0 ≡ 0
and-zero_fuel fuel zero le = refl
and-zero_fuel zero (suc m) le = absurd (omega (arith, le))
and-zero_fuel (suc fuel) (suc m) le =
    omega (arith, bit_and_step (suc m) 0, and-zero_fuel fuel (suc m / 2) (omega (arith, le)))

and-zero : (m : ℕ) → bit_and m 0 ≡ 0
and-zero m = and-zero_fuel m m (omega arith)

half_mask : (k : ℕ) → (2 ^ suc k - 1) / 2 ≡ 2 ^ k - 1
half_mask k = omega (arith, pow-suc 2 k, one-le-pow k 2 (omega arith))

-- A mask of `k` ones is the remainder by `2 ^ k`.
pub and_low : (k a : ℕ) → bit_and a (2 ^ k - 1) ≡ a % 2 ^ k
and_low zero a = and-zero a ∙ omega arith
and_low (suc k) a = omega (
  arith,
  bit_and_step a (2 ^ suc k - 1),
  ap (bit_and (a / 2)) (half_mask k),
  and_low k (a / 2),
  mod-pow_suc a k,
  pow-suc 2 k,
  one-le-pow k 2 (omega arith),
)

or-zero_fuel : (fuel m : ℕ) → m ≤ fuel → bit_or m 0 ≡ m
or-zero_fuel fuel zero le = refl
or-zero_fuel zero (suc m) le = absurd (omega (arith, le))
or-zero_fuel (suc fuel) (suc m) le =
    omega (arith, bit_or_step (suc m) 0, or-zero_fuel fuel (suc m / 2) (omega (arith, le)))

or-zero : (m : ℕ) → bit_or m 0 ≡ m
or-zero m = or-zero_fuel m m (omega arith)

-- `|` of a number shifted by `k` digits and one below `2 ^ k` is their sum.
pub or_fields : (k q r : ℕ) → r < 2 ^ k → bit_or (q * 2 ^ k) r ≡ q * 2 ^ k + r
or_fields zero q zero fits = or-zero _ ∙ omega arith
or_fields zero q (suc r) fits = absurd (omega arith)
or_fields (suc k) q r fits = omega (
  arith,
  bit_or_step (q * 2 ^ suc k) r,
  ap (λ (t : ℕ). bit_or t (r / 2)) half,
  twice,
  or_fields k q (r / 2) (omega (arith, pow-suc 2 k)),
)
  where
    twice : q * 2 ^ suc k ≡ q * 2 ^ k * 2
    twice = omega (arith, ap (λ (t : ℕ). q * t) (pow-suc 2 k))

    half : q * 2 ^ suc k / 2 ≡ q * 2 ^ k
    half = omega (arith, twice)

-- A mask meets a union in at least what it meets in one of the two.
-- The step on the union.
and-or_step :
    (m n t : ℕ)
    → bit_and (bit_or m n) t
      ≡ bit_and (bit_or (m / 2) (n / 2)) (t / 2) * 2 + min (max (m % 2) (n % 2)) (t % 2)
and-or_step m n t =
    bit_and_step (bit_or m n) t
    ∙ ap₂ (λ (h d : ℕ). bit_and h (t / 2) * 2 + min d (t % 2)) (omega (arith, bit_or_step m n))
        (omega (arith, bit_or_step m n))

and-or_fuel :
    (fuel m n t : ℕ)
    → t ≤ fuel
    → (bit_and m t ≤ bit_and (bit_or m n) t) × (bit_and n t ≤ bit_and (bit_or m n) t)
and-or_fuel fuel m n zero le = (omega (arith, and-zero m), omega (arith, and-zero n))
and-or_fuel zero m n (suc t) le = absurd (omega (arith, le))
and-or_fuel (suc fuel) m n (suc t) le =
    let lower = and-or_fuel fuel (m / 2) (n / 2) (suc t / 2) (omega (arith, le)) in
    (
      omega (arith, bit_and_step m (suc t), and-or_step m n (suc t), lower.0),
      omega (arith, bit_and_step n (suc t), and-or_step m n (suc t), lower.1),
    )

pub and-or_left : (m n t : ℕ) → bit_and m t ≤ bit_and (bit_or m n) t
and-or_left m n t = (and-or_fuel t m n t (le_refl t)).0

pub and-or_right : (m n t : ℕ) → bit_and n t ≤ bit_and (bit_or m n) t
and-or_right m n t = (and-or_fuel t m n t (le_refl t)).1

and_self_fuel : (fuel m : ℕ) → m ≤ fuel → bit_and m m ≡ m
and_self_fuel fuel zero le = and-zero 0
and_self_fuel zero (suc m) le = absurd (omega (arith, le))
and_self_fuel (suc fuel) (suc m) le =
    omega (arith, bit_and_step (suc m) (suc m), and_self_fuel fuel (suc m / 2) (omega (arith, le)))

pub and_self : (m : ℕ) → bit_and m m ≡ m
and_self m = and_self_fuel m m (le_refl m)
