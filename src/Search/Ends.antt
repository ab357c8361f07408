-- ===== src/Search/Ends.antt =====
-- The loop of `searchLayer` in src/astervec_index.cc ends.
use mathlib.Core.List.{Memᴰ}
use mathlib.Core.List.Memᴰ
use aster_vec.Base.{
  ℕ, zero, suc, ◌+◌, ◌≤◌, ◌<◌, ◌≡◌, refl, ap, ◌∙◌, Bool, true, false, ◌||◌, inl, inr, List, [], ◌∷◌,
  length, arith, ltb, ◌==◌, if◌then◌else◌, if_true, if_false, Bool-cases,
}
use aster_vec.Search.{
  Hit, GraphIndex, Search, done, and_then, closer, below_top, top_exceeds, is_visited, mark,
  consider, offer_each, expand, search_loop, start_search, search_layer, get_distance,
}
use aster_vec.Search.Heaps.{length-push}
use aster_vec.Search.Batch.{consider-visited}
use aster_vec.Search.Walk.{is_visited-cons}
use aster_vec.Search.Rounds.{targets, after_read_rule, expand_lem}

-- How many ids are not visited.
abbrev pub unseen : List ℕ → List ℕ → ℕ
unseen [] visited = 0
unseen (k ∷ known) visited = (if is_visited k visited then 0 else 1) + unseen known visited

pub unseen-le-length : (known visited : List ℕ) → unseen known visited ≤ length known
unseen-le-length [] v = omega arith
unseen-le-length (k ∷ known) v = ground (arith, unseen-le-length known v)

pub unseen_mono :
    (known visited : List ℕ) (i : ℕ) → unseen known (i ∷ visited) ≤ unseen known visited
unseen_mono [] v i = omega arith
unseen_mono (k ∷ known) v i = ground (arith, unseen_mono known v i, is_visited-cons k i v)

pub unseen_falls :
    (known visited : List ℕ) (i : ℕ)
    → Memᴰ i known
    → is_visited i visited ≡ false
    → suc (unseen known (i ∷ visited)) ≤ unseen known visited
unseen_falls [] v i m new = absurd (Memᴰ.not-nil m)
unseen_falls (k ∷ known) v i m new = elim (Memᴰ.cases_cons m) [
  | inl e ↦ ground (arith, unseen_mono known v i, is_visited-cons k i v, e)
  | inr there ↦ ground (arith, unseen_falls known v i there new, is_visited-cons k i v)
]

module _ (x : GraphIndex) (layer ef : ℕ) (known : List ℕ) where
  -- What is left to do: ids to visit and candidates to expand.
  abbrev work : Search → ℕ
  work s = unseen known s.visited + length s.candidates

  length-consider :
      (i : ℕ) (s : Search) → length (consider x layer ef i s).candidates ≤ suc (length s.candidates)
  unfolding consider
  length-consider i s =
      either (ltb (length s.nearest) ef || top_exceeds s.nearest (get_distance x layer i)) s _ (
        omega (
          arith,
          length-push closer (record { id = i; distance = get_distance x layer i }) s.candidates,
        ))
    where
      either :
          (b : Bool) (s t : Search)
          → length t.candidates ≤ suc (length s.candidates)
          → length (if b then t else s).candidates ≤ suc (length s.candidates)
      either true s t h = h
      either false s t h = omega arith

  next-work :
      (i : ℕ) (s : Search)
      → Memᴰ i known
      → work (if is_visited i s.visited then s else consider x layer ef i (mark i s)) ≤ work s
  unfolding mark
  next-work i s there =
      let t = consider x layer ef i (mark i s) in
      elim (Bool-cases (is_visited i s.visited)) [
        | inl seen ↦ rw (if_true s t seen) (omega arith)
        | inr new ↦
            let same = ap (unseen known) (consider-visited x layer ef i (mark i s)) in
            let falls = unseen_falls known s.visited i there new in
            let longer = length-consider i (mark i s) in
            rw (if_false s t new) (omega (arith, same, falls, longer))
      ]

  offer_each-work :
      (ids : List ℕ) (s : Search)
      → ((j : ℕ) → Memᴰ j ids → Memᴰ j known)
      → work (offer_each x layer ef ids s) ≤ work s
  unfolding offer_each
  offer_each-work [] s in_known = omega arith
  offer_each-work (i ∷ ids) s in_known =
      let next = if is_visited i s.visited then s else consider x layer ef i (mark i s) in
      omega (
        arith,
        offer_each-work ids next (λ j m. in_known j (Memᴰ.tail m)),
        next-work i s (in_known i (Memᴰ.head refl)),
      )

  module _ (inside : (i j : ℕ) → Memᴰ j (targets x layer i) → Memᴰ j known) where
    expand-work : (i : ℕ) (s : Search) → work (expand x layer ef i s) ≤ work s
    expand-work i s = rw (expand_lem x layer ef i s) (
        after_read_rule x layer i s
          (λ t. work (offer_each x layer ef (targets x layer i) t) ≤ work s)
          (λ c. offer_each-work (targets x layer i) (record s { corrupt = c }) (inside i)))

    loop_ends :
        (fuel : ℕ) (s : Search)
        → work s < fuel
        → (t : Search) × (search_loop x fuel layer ef s ≡ done t)
    unfolding search_loop
    loop_ends zero s h = absurd (omega arith)
    loop_ends (suc fuel) s h = by_queue s.candidates h (loop_ends fuel)
      where
        by_queue :
            (q : List Hit)
            → unseen known s.visited + length q < suc fuel
            → ((s' : Search)
                → work s' < fuel
                → (t : Search) × (search_loop x fuel layer ef s' ≡ done t))
            → (t : Search) × (search_loop x (suc fuel) layer ef (record s { candidates = q })
                ≡ done t)
        by_queue [] h' next = (record s { candidates = [] }, refl)
        by_queue (c ∷ rest) h' next =
            let s' : Search = record s { candidates = rest } in
            let s'' = expand x layer ef c.id s' in
            let e' = search_loop x fuel layer ef s'' in
            elim (Bool-cases (below_top s.nearest c.distance)) [
              | inl stop ↦ (s', if_true (done s') e' stop)
              | inr more ↦
                  let (t, ends) = next s'' (omega (arith, expand-work c.id s')) in
                  (t, if_false (done s') e' more ∙ ends)
            ]

    -- With two rounds more than the ids that lead anywhere, a search ends, whatever the distances.
    pub search_layer_ends :
        (fuel entry : ℕ) (corrupt : Bool)
        → suc (length known) < fuel
        → (hits : List Hit) × (corrupt' : Bool) × (search_layer x fuel entry ef layer corrupt
            ≡ done (hits, corrupt'))
    unfolding search_layer start_search
    search_layer_ends fuel entry corrupt room = elim (Bool-cases (ef == 0)) [
      | inl none_ ↦ ([], corrupt, if_true _ _ none_)
      | inr some_ ↦
          let bound = unseen-le-length known (entry ∷ []) in
          let (t, ends) = loop_ends fuel (start_search x layer entry corrupt) (omega arith) in
          (
            x.sort t.nearest,
            t.corrupt,
            if_false _ _ some_
                ∙ ap (λ m. and_then m (λ (s : Search). done (x.sort s.nearest, s.corrupt))) ends,
          )
    ]
