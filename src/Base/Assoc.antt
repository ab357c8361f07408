-- ===== src/Base/Assoc.antt =====
-- Association lists over numbers as maps, for the source's hash maps: the order of entries has no
-- meaning there.
use mathlib.Core.Path.{◌≡◌, ap, sym, ◌∙◌}
use mathlib.Core.Logic.{◌≢◌, ◌⊎◌, inl, inr}
use mathlib.Core.Option.{Option, none, some}
use mathlib.Core.List.{List, [], ◌∷◌}
use native.Mathlib.Omega.{arith}
use Prim.Native.Nat.{ℕ}
use aster_vec.Base.Tests.{
  ◌==◌, if◌then◌else◌, if_true, if_false, ==_refl, ==_iff, ne→==, Bool-cases,
}

module _ {ℓ} {A : Type ℓ} where
  unfoldable pub lookup : ℕ → List (ℕ × A) → Option A
  lookup k [] = none
  lookup k ((j, a) ∷ m) = if j == k then some a else lookup k m

  unfoldable pub erase : ℕ → List (ℕ × A) → List (ℕ × A)
  erase k [] = []
  erase k ((j, a) ∷ m) = let rest = erase k m in if j == k then rest else (j, a) ∷ rest

  -- `m[k] = a`.
  unfoldable pub assign : ℕ → A → List (ℕ × A) → List (ℕ × A)
  assign k a m = (k, a) ∷ erase k m

  pub lookup-erase :
      (k j : ℕ) (m : List (ℕ × A)) → lookup j (erase k m) ≡ (if j == k then none else lookup j m)
  unfolding lookup erase
  lookup-erase k j [] = ground arith
  lookup-erase k j ((i, a) ∷ m) = ground (arith, lookup-erase k j m)

  pub lookup-assign :
      (k j : ℕ) (a : A) (m : List (ℕ × A))
      → lookup j (assign k a m) ≡ (if j == k then some a else lookup j m)
  unfolding lookup assign
  lookup-assign k j a m = ground (arith, lookup-erase k j m)

  pub lookup-assign_same : (k : ℕ) (a : A) (m : List (ℕ × A)) → lookup k (assign k a m) ≡ some a
  lookup-assign_same k a m = lookup-assign k k a m ∙ if_true _ _ (==_refl k)

  pub lookup-assign_other :
      (k j : ℕ) (a : A) (m : List (ℕ × A)) → j ≢ k → lookup j (assign k a m) ≡ lookup j m
  lookup-assign_other k j a m h = lookup-assign k j a m ∙ if_false _ _ (ne→== j k h)

  pub lookup-assign_cases :
      (k j : ℕ) (a b : A) (m : List (ℕ × A))
      → lookup j (assign k a m) ≡ some b
      → ((j ≡ k) × (a ≡ b)) ⊎ ((j ≢ k) × (lookup j m ≡ some b))
  lookup-assign_cases k j a b m h = elim (Bool-cases (j == k)) [
    | inl same ↦ inl (
      (==_iff j k).0 same,
      cc (sym (if_true (some a) (lookup j m) same) ∙ sym (lookup-assign k j a m) ∙ h),
    )
    | inr other ↦ inr (
      (λ e. cc (sym (==_refl k) ∙ ap (λ (i : ℕ). i == k) (sym e) ∙ other)),
      sym (if_false (some a) (lookup j m) other) ∙ sym (lookup-assign k j a m) ∙ h,
    )
  ]
