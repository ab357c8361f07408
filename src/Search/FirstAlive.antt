-- ===== src/Search/FirstAlive.antt =====
-- The live hits that `knnSearchK` of src/astervec_index.cc takes from the hits of a layer.
use mathlib.Core.Logic.{⊎_elim}
use mathlib.Core.Path.{subst}
use mathlib.Core.List.{Memᴰ}
use mathlib.Core.List.Memᴰ
use aster_vec.Base.{
  ℕ, zero, suc, ◌≤◌, ◌≡◌, ◌≢◌, refl, sym, ap, ◌∙◌, Bool, false, ◌⊎◌, inl, inr, List, [], ◌∷◌,
  length, arith, ◌==◌, ==_iff, if◌then◌else◌, if_true, if_false, Bool-cases,
}
use aster_vec.Search.{Hit, first_alive}
use aster_vec.Search.Heaps.{Memᴰ-cons, Ordered, NotFarther}
use aster_vec.Search.Keep.{Apart}

-- A list without the first place of an id.
drop_id : ℕ → List ℕ → List ℕ
drop_id i [] = []
drop_id i (k ∷ ks) = if k == i then ks else k ∷ drop_id i ks

length-drop_id : (i : ℕ) (ks : List ℕ) → Memᴰ i ks → suc (length (drop_id i ks)) ≡ length ks
unfolding drop_id
length-drop_id i [] m = absurd (Memᴰ.not-nil m)
length-drop_id i (k ∷ ks) m = elim (Memᴰ.cases_cons m) [
  | inl e ↦ ground (arith, e)
  | inr n ↦ ground (arith, length-drop_id i ks n)
]

mem-drop_id : (i j : ℕ) (ks : List ℕ) → Memᴰ j ks → j ≢ i → Memᴰ j (drop_id i ks)
unfolding drop_id
mem-drop_id i j [] m other = absurd (Memᴰ.not-nil m)
mem-drop_id i j (k ∷ ks) m other = elim (Bool-cases (k == i)) [
  | inl same ↦
      rw (if_true ks (k ∷ drop_id i ks) same)
        (⊎_elim (λ e. absurd (other (e ∙ (==_iff k i).0 same))) (λ n. n) (Memᴰ.cases_cons m))
  | inr differs ↦
      rw (if_false ks (k ∷ drop_id i ks) differs)
        (⊎_elim Memᴰ.head (λ n. Memᴰ.tail (mem-drop_id i j ks n other)) (Memᴰ.cases_cons m))
]

-- Hits without a repeated id, all of whose ids are in a list, are no more than it has ids.
pub length-Apart :
    (l : List Hit) (known : List ℕ)
    → Apart l
    → ((h : Hit) → Memᴰ h l → Memᴰ h.id known)
    → length l ≤ length known
length-Apart [] known a inside = omega arith
length-Apart (h ∷ l) known a inside =
    let there = inside h (Memᴰ.head refl) in
    omega (
      arith,
      length-drop_id h.id known there,
      length-Apart l (drop_id h.id known) a.1
          (λ g m. mem-drop_id h.id g.id known (inside g (Memᴰ.tail m)) (a.0 g m)),
    )

module _ (dead : ℕ → Bool) where
  -- The first `k` hits that are alive, of hits by ascending distance.
  pub record IsFirst (k : ℕ) (l r : List Hit) : Type 0 where
    pub alive : (h : Hit) → Memᴰ h r → Memᴰ h l × (dead h.id ≡ false)
    pub at_most : length r ≤ k
    pub apart : Apart r
    pub ascending : Ordered NotFarther r
    pub best :
        (h : Hit)
        → Memᴰ h l
        → dead h.id ≡ false
        → Memᴰ h r ⊎ ((length r ≡ k) × ((g : Hit) → Memᴰ g r → g.distance ≤ h.distance))

  pub first_alive_lem :
      (k : ℕ) (l : List Hit) → Apart l → Ordered NotFarther l → IsFirst k l (first_alive dead k l)
  unfolding first_alive
  first_alive_lem zero l a o = record {
    alive = λ h m. absurd (Memᴰ.not-nil m);
    at_most = omega arith;
    apart = tt;
    ascending = tt;
    best = λ h m live. inr (refl, λ g n. absurd (Memᴰ.not-nil n));
  }
  first_alive_lem (suc k) [] a o = record {
    alive = λ h m. absurd (Memᴰ.not-nil m);
    at_most = omega arith;
    apart = tt;
    ascending = tt;
    best = λ h m. absurd (Memᴰ.not-nil m);
  }
  first_alive_lem (suc k) (h ∷ l) a o =
      let skip = first_alive dead (suc k) l in
      let rest = first_alive dead k l in
      elim (Bool-cases (dead h.id)) [
        | inl gone ↦
            let f = first_alive_lem (suc k) l a.1 o.1 in
            subst (IsFirst (suc k) (h ∷ l)) (sym (if_true skip (h ∷ rest) gone)) (record {
              alive = λ g m. let (n, live) = f.alive g m in (Memᴰ.tail n, live);
              at_most = f.at_most;
              apart = f.apart;
              ascending = f.ascending;
              best = λ g m live.
                  ⊎_elim (λ e. absurd (cc (live, gone, ap (λ (t : Hit). dead t.id) e)))
                    (λ n. f.best g n live) ((Memᴰ-cons g h l).0 m);
            })
        | inr living ↦
            let f = first_alive_lem k l a.1 o.1 in
            subst (IsFirst (suc k) (h ∷ l)) (sym (if_false skip (h ∷ rest) living)) (record {
              alive = λ g m.
                  ⊎_elim (λ e. (Memᴰ.head e, ap (λ (t : Hit). dead t.id) e ∙ living))
                    (λ n. let (n', live) = f.alive g n in (Memᴰ.tail n', live))
                    ((Memᴰ-cons g h rest).0 m);
              at_most = omega (arith, f.at_most);
              apart = (λ g m. a.0 g (f.alive g m).0, f.apart);
              ascending = (λ g m. o.0 g (f.alive g m).0, f.ascending);
              best = λ g m live.
                  ⊎_elim (λ e. inl (Memᴰ.head e))
                    (λ n.
                      ⊎_elim (λ r. inl (Memᴰ.tail r))
                        (λ full. inr (
                          ap suc full.0,
                          λ g' m'.
                              ⊎_elim (λ e'. omega (arith, o.0 g n, ap (λ (t : Hit). t.distance) e'))
                                (full.1 g') ((Memᴰ-cons g' h rest).0 m'),
                        ))
                        (f.best g n live))
                    ((Memᴰ-cons g h l).0 m);
            })
      ]
