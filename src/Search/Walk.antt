-- ===== src/Search/Walk.antt =====
-- What the queues and the visited set hold while `searchLayer` of src/astervec_index.cc runs.
use mathlib.Core.Logic.{⊎_elim}
use mathlib.Core.Path.{subst}
use mathlib.Core.List.{Memᴰ}
use aster_vec.Base.{
  ℕ, ◌≤◌, ◌≡◌, ◌≢◌, refl, sym, ap, ◌∙◌, true, false, ◌||◌, ◌↔◌, ◌⊎◌, inl, inr, List, [], ◌∷◌,
  length, arith, ltb, ==_iff, if◌then◌else◌, if_true, if_false, Bool-cases,
}
use aster_vec.Search.{
  Hit, GraphIndex, Search, closer, farther, push, trim, top_exceeds, is_visited, mark, consider,
  offer_each, get_distance,
}
use aster_vec.Search.Heaps.{Ordered, NotFarther, NotCloser, mem-push, push-closer}
use aster_vec.Search.Keep.{Apart, Full, Grown, taken-Grown, refused-Grown}

-- The ids that are reached from `entry` along `next`.
pub data Reach (next : ℕ → List ℕ) (entry : ℕ) : ℕ → Type 0 where
  here : Reach next entry entry
  step : {i j : ℕ} → Reach next entry i → Memᴰ j (next i) → Reach next entry j

pub is_visited-cons :
    (i j : ℕ) (visited : List ℕ)
    → (is_visited i (j ∷ visited) ≡ true) ↔ ((i ≡ j) ⊎ (is_visited i visited ≡ true))
unfolding is_visited
is_visited-cons i j visited = ground (arith, ==_iff j i)

module _ (x : GraphIndex) (layer ef entry : ℕ) (next : ℕ → List ℕ) where
  abbrev pub hit : ℕ → Hit
  hit i = record { id = i; distance = get_distance x layer i }

  abbrev pub Visited : Search → ℕ → Type 0
  Visited s i = is_visited i s.visited ≡ true

  abbrev pub Covered : List Hit → ℕ → Type 0
  Covered l i = Memᴰ (hit i) l ⊎ Full ef l (get_distance x layer i)

  -- `Handled` holds of the ids that need not wait: all their neighbours were offered.
  pub record IsWalk (Handled : ℕ → Type 0) (s : Search) : Type 0 where
    pub entered : Visited s entry
    pub reached : (i : ℕ) → Visited s i → Reach next entry i
    pub exact : (h : Hit) → Memᴰ h s.nearest → h ≡ hit h.id
    pub known : (h : Hit) → Memᴰ h s.nearest → Visited s h.id
    pub waits : (h : Hit) → Memᴰ h s.candidates → Visited s h.id
    pub short : length s.nearest ≤ ef
    pub covered : (i : ℕ) → Visited s i → Covered s.nearest i
    pub opens : (h : Hit) → Memᴰ h s.nearest → Memᴰ h s.candidates ⊎ Handled h.id
    pub queue : Ordered NotFarther s.candidates
    pub heap : Ordered NotCloser s.nearest
    pub apart : Apart s.nearest

  module _ (Handled : ℕ → Type 0) where
    abbrev taken : ℕ → Search → Search
    taken i s = record s {
      visited = i ∷ s.visited;
      candidates = push closer (hit i) s.candidates;
      nearest = trim ef (push farther (hit i) s.nearest);
    }

    module _ (i : ℕ) (s : Search) (w : IsWalk Handled s) (new : is_visited i s.visited ≡ false)
        (there : Reach next entry i) where
      grows : (j : ℕ) → Visited s j → is_visited j (i ∷ s.visited) ≡ true
      grows j v = (is_visited-cons j i s.visited).1 (inr v)

      itself : is_visited i (i ∷ s.visited) ≡ true
      itself = (is_visited-cons i i s.visited).1 (inl refl)

      fresh : (g : Hit) → Memᴰ g s.nearest → g.id ≢ i
      fresh g m e = cc (w.known g m, new)

      reaches : (j : ℕ) → is_visited j (i ∷ s.visited) ≡ true → Reach next entry j
      reaches j v =
          ⊎_elim (λ e. subst (Reach next entry) (sym e) there) (w.reached j)
            ((is_visited-cons j i s.visited).0 v)

      covers :
          (l : List Hit)
          → Grown ef (hit i) s.nearest l
          → (j : ℕ) → is_visited j (i ∷ s.visited) ≡ true
          → Covered l j
      covers l g j v =
          ⊎_elim (λ e. subst (Covered l) (sym e) g.self)
            (λ old.
              ⊎_elim (g.stays (hit j)) (λ f. inr (g.full (get_distance x layer j) f))
                (w.covered j old))
            ((is_visited-cons j i s.visited).0 v)

      taken-IsWalk :
          Grown ef (hit i) s.nearest (trim ef (push farther (hit i) s.nearest))
          → IsWalk Handled (taken i s)
      taken-IsWalk g =
          let both = λ (h : Hit) (m : Memᴰ h s.candidates).
            (mem-push closer (hit i) s.candidates h).1 (inr m) in
          record {
            entered = grows entry w.entered;
            reached = reaches;
            exact = λ h m.
                ⊎_elim (λ e. e ∙ ap (λ (t : Hit). hit t.id) (sym e)) (w.exact h) (g.from h m);
            known = λ h m.
                ⊎_elim (λ e. (is_visited-cons h.id i s.visited).1 (inl (ap (λ (t : Hit). t.id) e)))
                  (λ old. grows h.id (w.known h old)) (g.from h m);
            waits = λ h m.
                ⊎_elim (λ e. (is_visited-cons h.id i s.visited).1 (inl (ap (λ (t : Hit). t.id) e)))
                  (λ old. grows h.id (w.waits h old))
                  ((mem-push closer (hit i) s.candidates h).0 m);
            short = g.short;
            covered = covers (trim ef (push farther (hit i) s.nearest)) g;
            opens = λ h m.
                ⊎_elim (λ e. inl ((mem-push closer (hit i) s.candidates h).1 (inl e)))
                  (λ old. ⊎_elim (λ c. inl (both h c)) inr (w.opens h old)) (g.from h m);
            queue = push-closer (hit i) s.candidates w.queue;
            heap = g.heap;
            apart = g.apart fresh w.apart;
          }

      refused-IsWalk : Grown ef (hit i) s.nearest s.nearest → IsWalk Handled (mark i s)
      unfolding mark
      refused-IsWalk g = record {
        entered = grows entry w.entered;
        reached = reaches;
        exact = w.exact;
        known = λ h m. grows h.id (w.known h m);
        waits = λ h m. grows h.id (w.waits h m);
        short = w.short;
        covered = covers s.nearest g;
        opens = w.opens;
        queue = w.queue;
        heap = w.heap;
        apart = w.apart;
      }

      consider-IsWalk : IsWalk Handled (consider x layer ef i (mark i s))
      unfolding consider mark
      consider-IsWalk =
          elim (Bool-cases
            (ltb (length s.nearest) ef || top_exceeds s.nearest (get_distance x layer i))) [
              | inl yes_ ↦
                  subst (IsWalk Handled) (sym (if_true (taken i s) (mark i s) yes_))
                    (taken-IsWalk (taken-Grown ef (hit i) s.nearest w.heap w.short yes_))
              | inr no_ ↦
                  subst (IsWalk Handled) (sym (if_false (taken i s) (mark i s) no_))
                    (refused-IsWalk (refused-Grown ef (hit i) s.nearest w.heap w.short no_))
            ]

    -- The neighbours of a node that is reached are offered one by one.
    pub offer_each-IsWalk :
        (ids : List ℕ) (s : Search)
        → IsWalk Handled s
        → ((j : ℕ) → Memᴰ j ids → Reach next entry j)
        → IsWalk Handled (offer_each x layer ef ids s)
    unfolding offer_each
    offer_each-IsWalk [] s w there = w
    offer_each-IsWalk (i ∷ ids) s w there =
        offer_each-IsWalk ids
          (if is_visited i s.visited then s else consider x layer ef i (mark i s))
          (elim (Bool-cases (is_visited i s.visited)) [
            | inl seen ↦
                subst (IsWalk Handled) (sym (if_true s (consider x layer ef i (mark i s)) seen)) w
            | inr new ↦
                subst (IsWalk Handled) (sym (if_false s (consider x layer ef i (mark i s)) new))
                  (consider-IsWalk i s w new (there i (Memᴰ.head refl)))
          ])
          (λ j m. there j (Memᴰ.tail m))
