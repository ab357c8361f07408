-- ===== src/Search/Heaps.antt =====
-- The priority queues of `searchLayer` in src/astervec_index.cc: what `push` holds, and that the top
-- is in front.
use mathlib.Core.Logic.{⊎_elim}
use mathlib.Core.List.{Memᴰ}
use mathlib.Core.List.Memᴰ
use aster_vec.Base.{
  suc, ◌≤◌, ◌≡◌, refl, Bool, true, false, ◌↔◌, ◌⊎◌, List, [], ◌∷◌, length, arith, if◌then◌else◌,
}
use aster_vec.Search.{Hit, closer, farther, push}

pub Memᴰ-cons : (a x : Hit) (xs : List Hit) → Memᴰ a (x ∷ xs) ↔ ((a ≡ x) ⊎ Memᴰ a xs)
Memᴰ-cons a x xs = (Memᴰ.cases_cons, ⊎_elim Memᴰ.head Memᴰ.tail)

-- Every hit stands in the relation to all behind it.
abbrev pub Ordered : (Hit → Hit → Type 0) → List Hit → Type 0
Ordered R [] = Unit
Ordered R (h ∷ hs) = ((g : Hit) → Memᴰ g hs → R h g) × Ordered R hs

abbrev pub NotFarther : Hit → Hit → Type 0
NotFarther h g = h.distance ≤ g.distance

abbrev pub NotCloser : Hit → Hit → Type 0
NotCloser h g = g.distance ≤ h.distance

module _ (above : Hit → Hit → Bool) where
  pub length-push : (h : Hit) (l : List Hit) → length (push above h l) ≡ suc (length l)
  unfolding push
  length-push h [] = refl
  length-push h (g ∷ l) = ground (arith, length-push h l)

  pub mem-push : (h : Hit) (l : List Hit) (g : Hit) → Memᴰ g (push above h l) ↔ ((g ≡ h) ⊎ Memᴰ g l)
  unfolding push
  mem-push h [] g = Memᴰ-cons g h []
  mem-push h (k ∷ l) g = ground (
    arith,
    mem-push h l g,
    Memᴰ-cons g k l,
    Memᴰ-cons g k (push above h l),
    Memᴰ-cons g h (k ∷ l),
  )

  module _ (R : Hit → Hit → Type 0) (trans : (a b c : Hit) → R a b → R b c → R a c)
      (first : (a b : Hit) → above a b ≡ true → R a b)
      (second : (a b : Hit) → above a b ≡ false → R b a) where
    pub push-Ordered : (h : Hit) (l : List Hit) → Ordered R l → Ordered R (push above h l)
    unfolding push
    push-Ordered h [] o = (λ g m. absurd (Memᴰ.not-nil m), tt)
    push-Ordered h (k ∷ l) o =
        elim (above h k)
            as (λ b. above h k ≡ b → Ordered R (if b then h ∷ k ∷ l else k ∷ push above h l)) [
              | true ↦ λ e. (
                λ g m.
                    ⊎_elim (λ (p : g ≡ k). rw p (first h k e))
                      (λ n. trans h k g (first h k e) (o.0 g n)) ((Memᴰ-cons g k l).0 m),
                o,
              )
              | false ↦ λ e. (
                λ g m. ⊎_elim (λ (p : g ≡ h). rw p (second h k e)) (o.0 g) ((mem-push h l g).0 m),
                push-Ordered h l o.1,
              )
            ]
          refl

pub push-closer :
    (h : Hit) (l : List Hit) → Ordered NotFarther l → Ordered NotFarther (push closer h l)
unfolding closer
push-closer h l o =
    push-Ordered closer NotFarther (λ a b c p q. omega arith) (λ a b e. ground arith)
      (λ a b e. ground arith) h l o

pub push-farther :
    (h : Hit) (l : List Hit) → Ordered NotCloser l → Ordered NotCloser (push farther h l)
unfolding farther
push-farther h l o =
    push-Ordered farther NotCloser (λ a b c p q. omega arith) (λ a b e. ground arith)
      (λ a b e. ground arith) h l o
