-- ===== src/Search/Batch.antt =====
-- The two ways of `searchLayer` in src/astervec_index.cc to read the neighbours of a node: one by one
-- and in a batch.
use aster_vec.Base.{
  ℕ, ◌≡◌, refl, sym, ap, ◌∙◌, Bool, true, false, ◌||◌, List, [], ◌∷◌, length, ltb, if◌then◌else◌,
}
use aster_vec.Search.{
  GraphIndex, Search, top_exceeds, is_visited, mark, consider, offer_each, collect, consider_all,
  offer_batch, get_distance,
}

visited_either :
    (b : Bool) (s t : Search) → t.visited ≡ s.visited → (if b then t else s).visited ≡ s.visited
visited_either true s t e = e
visited_either false s t e = refl

mark_either :
    (b : Bool) (j : ℕ) (s t : Search)
    → mark j (if b then t else s) ≡ (if b then mark j t else mark j s)
mark_either true j s t = refl
mark_either false j s t = refl

-- The rest of `collect`, behind the test of the first id.
abbrev behind : Bool → ℕ → List ℕ → Search → List ℕ × Search
behind seen i ids s = let (rest, s') = collect ids s in (if seen then rest else i ∷ rest, s')

module _ (x : GraphIndex) (layer ef : ℕ) where
  pub consider-visited : (i : ℕ) (s : Search) → (consider x layer ef i s).visited ≡ s.visited
  unfolding consider
  consider-visited i s =
      visited_either (ltb (length s.nearest) ef || top_exceeds s.nearest (get_distance x layer i)) s
        _ refl

  consider-mark :
      (i j : ℕ) (s : Search) → mark j (consider x layer ef i s) ≡ consider x layer ef i (mark j s)
  unfolding consider mark
  consider-mark i j s =
      mark_either (ltb (length s.nearest) ef || top_exceeds s.nearest (get_distance x layer i)) j s
        _

  consider_either :
      (b : Bool) (i k : ℕ) (s : Search)
      → (if b then consider x layer ef i s else mark k (consider x layer ef i s))
        ≡ consider x layer ef i (if b then s else mark k s)
  consider_either true i k s = refl
  consider_either false i k s = consider-mark i k s

  -- The batch reads the same ids, in the same order.
  collect-consider :
      (ids : List ℕ) (i : ℕ) (s : Search)
      → collect ids (consider x layer ef i s)
        ≡ ((collect ids s).0, consider x layer ef i (collect ids s).1)
  unfolding collect
  collect-consider [] i s = refl
  collect-consider (k ∷ ids) i s =
      let b = is_visited k s.visited in
      ap
        (λ (v : List ℕ).
          behind (is_visited k v) k ids
            (if is_visited k v then consider x layer ef i s else mark k (consider x layer ef i s)))
        (consider-visited i s)
      ∙ ap (behind b k ids) (consider_either b i k s)
      ∙ ap (λ (r : List ℕ × Search). (if b then r.0 else k ∷ r.0, r.1))
          (collect-consider ids i (if b then s else mark k s))

  -- Read in a batch or one by one, the neighbours leave the same queues.
  pub offer_batch-offer_each :
      (ids : List ℕ) (s : Search) → offer_batch x layer ef ids s ≡ offer_each x layer ef ids s
  unfolding offer_batch offer_each collect consider_all
  offer_batch-offer_each [] s = refl
  offer_batch-offer_each (i ∷ ids) s =
      elim (is_visited i s.visited)
        as (λ b.
          (let (fresh, s') = behind b i ids (if b then s else mark i s) in
            consider_all x layer ef fresh s')
          ≡ offer_each x layer ef ids (if b then s else consider x layer ef i (mark i s))) [
            | true ↦ offer_batch-offer_each ids s
            | false ↦
                ap (λ (r : List ℕ × Search). consider_all x layer ef r.0 r.1)
                  (sym (collect-consider ids i (mark i s)))
                ∙ offer_batch-offer_each ids (consider x layer ef i (mark i s))
          ]
