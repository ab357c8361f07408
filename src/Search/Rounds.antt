-- ===== src/Search/Rounds.antt =====
-- One round of `searchLayer` in src/astervec_index.cc: which neighbours it reads and visits.
use mathlib.Core.Logic.{⊎_elim}
use mathlib.Core.Path.{subst}
use mathlib.Core.List.{Memᴰ}
use mathlib.Core.List.Memᴰ
use aster_vec.Base.{
  ℕ, zero, suc, ◌≡◌, refl, sym, ◌∙◌, Bool, true, false, ◌⊎◌, inl, inr, List, [], ◌∷◌, Option, none,
  some, arith, ==_iff, if◌then◌else◌, if_true, if_false, Bool-cases,
}
use aster_vec.Search.{
  GraphIndex, Search, Outcome, done, threw, out_of_fuel, and_then, filter_located, is_visited, mark,
  consider, get_edges, layer_neighbors, offer_each, expand,
}
use aster_vec.Search.Batch.{consider-visited, offer_batch-offer_each}
use aster_vec.Search.Walk.{is_visited-cons}

-- The neighbours that a search goes on to from a node.
abbrev pub targets : GraphIndex → ℕ → ℕ → List ℕ
targets x zero i = elim (x.edges i) [ none ↦ [] | some ids ↦ filter_located x.has_location ids ]
targets x (suc layer) i = layer_neighbors x (suc layer) i

-- The state behind the read of the neighbours of a node.
abbrev pub after_read : GraphIndex → ℕ → ℕ → Search → Search
after_read x zero i s = elim (x.edges i) [ none ↦ record s { corrupt = true } | some ids ↦ s ]
after_read x (suc layer) i s = s

module _ (x : GraphIndex) (layer ef : ℕ) where
  pub offer_each-visited :
      (ids : List ℕ) (s : Search) (j : ℕ)
      → (is_visited j s.visited ≡ true) ⊎ Memᴰ j ids
      → is_visited j (offer_each x layer ef ids s).visited ≡ true
  unfolding offer_each
  offer_each-visited [] s j there = ⊎_elim (λ v. v) (λ m. absurd (Memᴰ.not-nil m)) there
  offer_each-visited (i ∷ ids) s j there = offer_each-visited ids _ j (
      ⊎_elim (λ v. inl (at_first (inl v)))
        (λ m. ⊎_elim (λ e. inl (at_first (inr e))) inr (Memᴰ.cases_cons m)) there)
    where
      at_first :
          (is_visited j s.visited ≡ true) ⊎ (j ≡ i)
          → is_visited j
              (if is_visited i s.visited then s else consider x layer ef i (mark i s)).visited
            ≡ true
      at_first h = elim (Bool-cases (is_visited i s.visited)) [
        | inl seen ↦
            rw (if_true s (consider x layer ef i (mark i s)) seen)
              (⊎_elim (λ v. v) (λ e. subst (λ k. is_visited k s.visited ≡ true) (sym e) seen) h)
        | inr new ↦
            rw
              (
                if_false s (consider x layer ef i (mark i s)) new,
                consider-visited x layer ef i (mark i s),
              )
              (unfold mark in (is_visited-cons j i s.visited).1 (⊎_elim inr inl h))
      ]

-- One round reads the neighbours and offers them one by one.
pub expand_lem :
    (x : GraphIndex) (layer ef i : ℕ) (s : Search)
    → expand x layer ef i s ≡ offer_each x layer ef (targets x layer i) (after_read x layer i s)
unfolding expand get_edges
expand_lem x zero ef i s =
    read_lem x.batch _ _ (
      offer_batch-offer_each x zero ef (get_edges x i s.corrupt).0
        (record s { corrupt = (get_edges x i s.corrupt).1 }))
    ∙ edges_lem (x.edges i)
  where
    read_lem :
        (b : Bool) (at_once each : Search) → at_once ≡ each → (if b then at_once else each) ≡ each
    read_lem true at_once each e = e
    read_lem false at_once each e = refl

    edges_lem :
        (o : Option (List ℕ))
        → (let r = elim o as (λ _. List ℕ × Bool) [
          | none ↦ ([], true)
          | some ids ↦ (filter_located x.has_location ids, s.corrupt)
        ] in
            offer_each x zero ef r.0 (record s { corrupt = r.1 }))
          ≡ offer_each x zero ef
              (elim o as (λ _. List ℕ) [ none ↦ [] | some ids ↦ filter_located x.has_location ids ])
              (elim o as (λ _. Search) [ none ↦ record s { corrupt = true } | some ids ↦ s ])
    edges_lem none = refl
    edges_lem (some ids) = refl
expand_lem x (suc layer) ef i s = refl

pub after_read_rule :
    (x : GraphIndex) (layer i : ℕ) (s : Search) (P : Search → Type 0)
    → ((corrupt : Bool) → P (record s { corrupt = corrupt }))
    → P (after_read x layer i s)
after_read_rule x zero i s P each =
    elim (x.edges i) as (λ o. P (elim o [ none ↦ record s { corrupt = true } | some ids ↦ s ])) [
      | none ↦ each true
      | some ids ↦ each s.corrupt
    ]
after_read_rule x (suc layer) i s P each = each s.corrupt

pub is_visited_one : (i j : ℕ) → is_visited i (j ∷ []) ≡ true → i ≡ j
unfolding is_visited
is_visited_one i j v = ground (arith, ==_iff j i)

pub and_then_done :
    {A B : Type 0} (m : Outcome A) (f : A → Outcome B) (b : B)
    → and_then m f ≡ done b
    → (a : A) × (m ≡ done a) × (f a ≡ done b)
and_then_done (done a) f b h = (a, refl, h)
and_then_done threw f b h = cc
and_then_done out_of_fuel f b h = cc

pub done_injective : {A : Type 0} {a b : A} → ◌≡◌ {A = Outcome A} (done a) (done b) → a ≡ b
done_injective h = cc h

pub not_done : {A : Type 0} {a : A} → ◌≡◌ {A = Outcome A} out_of_fuel (done a) → ⊥
not_done h = cc h
