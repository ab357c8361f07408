-- ===== src/Search/FilteredEnds.antt =====
-- The filtered `searchLayer` of src/astervec_index.cc ends, and what it returns.
use mathlib.Core.List.{Memᴰ}
use aster_vec.Base.{
  ℕ, zero, suc, ◌+◌, ◌*◌, ◌≤◌, ◌<◌, ◌≡◌, refl, ap, ◌∙◌, Bool, true, false, ◌&&◌, ◌||◌, ◌⊎◌, inl,
  inr, List, [], ◌∷◌, length, arith, ltb, leb, ◌==◌, if◌then◌else◌, if_true, if_false, Bool-cases,
}
use aster_vec.Search.{
  Hit, GraphIndex, Outcome, done, and_then, closer, push, below_top, top_exceeds, is_visited,
}
use aster_vec.Search.Filtered.{
  FilterSearch, disk_hit, take_in, offer_filtered, expand_filtered, filtered_loop, start_filtered,
  drain, search_layer_filtered,
}
use aster_vec.Search.Heaps.{Ordered, NotFarther, length-push}
use aster_vec.Search.Rounds.{targets}
use aster_vec.Search.Ends.{unseen, unseen-le-length, unseen_falls}
use aster_vec.Search.Nearest.{pos→==}
use aster_vec.Search.FilteredRuns.{loop_lem, start-Filtering, drained}
use aster_vec.Search.FilteredFound.{IsMatched, expand_rule}

module _ (x : GraphIndex) (fits : ℕ → Bool) (k : ℕ) (known : List ℕ) where
  abbrev work : FilterSearch → ℕ
  work s = unseen known s.visited + length s.candidates

  take_in-work :
      (i : ℕ) (s : FilterSearch)
      → Memᴰ i known
      → is_visited i s.visited ≡ false
      → work (take_in x fits k i s) ≤ work s
  unfolding take_in
  take_in-work i s there new = omega (
    arith,
    unseen_falls known s.visited i there new,
    longer (ltb (length s.results) k || top_exceeds s.results (x.disk i)),
  )
    where
      longer :
          (b : Bool)
          → length (if b then push closer (disk_hit x fits k i) s.candidates else s.candidates)
            ≤ suc (length s.candidates)
      longer true = omega (arith, length-push closer (disk_hit x fits k i) s.candidates)
      longer false = omega arith

  offer_filtered-work :
      (ids : List ℕ) (s : FilterSearch)
      → ((j : ℕ) → Memᴰ j ids → Memᴰ j known)
      → work (offer_filtered x fits k ids s) ≤ work s
  unfolding offer_filtered
  offer_filtered-work [] s inside = omega arith
  offer_filtered-work (i ∷ ids) s inside =
      let next = if is_visited i s.visited then s else take_in x fits k i s in
      omega (
        arith,
        offer_filtered-work ids next (λ j m. inside j (Memᴰ.tail m)),
        next-work (Bool-cases (is_visited i s.visited)),
      )
    where
      next-work :
          ((is_visited i s.visited ≡ true) ⊎ (is_visited i s.visited ≡ false))
          → work (if is_visited i s.visited then s else take_in x fits k i s) ≤ work s
      next-work (inl seen) = rw (if_true s (take_in x fits k i s) seen) (omega arith)
      next-work (inr new) =
          rw (if_false s (take_in x fits k i s) new)
            (take_in-work i s (inside i (Memᴰ.head refl)) new)

  module _ (inside : (i j : ℕ) → Memᴰ j (targets x zero i) → Memᴰ j known) where
    loop_ends :
        (fuel cap : ℕ) (s : FilterSearch)
        → work s < fuel
        → (r : FilterSearch × Bool) × (filtered_loop x fits k fuel cap s ≡ done r)
    unfolding filtered_loop
    loop_ends zero cap s h = absurd (omega arith)
    loop_ends (suc fuel) cap s h = by_queue s.candidates h (loop_ends fuel cap)
      where
        by_queue :
            (q : List Hit)
            → unseen known s.visited + length q < suc fuel
            → ((s' : FilterSearch)
                → work s' < fuel
                → (r : FilterSearch × Bool) × (filtered_loop x fits k fuel cap s' ≡ done r))
            → (r : FilterSearch × Bool) × (filtered_loop x fits k
                  (suc fuel)
                  cap
                  (record s { candidates = q })
                ≡ done r)
        by_queue [] h' next = ((record s { candidates = [] }, false), refl)
        by_queue (c ∷ rest) h' next =
            let s' : FilterSearch = record s { candidates = rest } in
            let s'' = expand_filtered x fits k c.id s' in
            let e' = filtered_loop x fits k fuel cap s'' in
            let at_cap : Outcome (FilterSearch × Bool) =
              if leb cap s.scanned then done (s', true) else e' in
            let no_more =
              expand_rule x fits k c.id s' (λ t. work t ≤ work s')
                (λ b.
                  offer_filtered-work (targets x zero c.id) (record s' { corrupt = b })
                    (inside c.id)) in
            let stop = leb k (length s.results) && below_top s.results c.distance in
            elim (Bool-cases stop) [
              | inl yes_ ↦ ((s', false), if_true (done (s', false)) at_cap yes_)
              | inr no_ ↦ elim (Bool-cases (leb cap s.scanned)) [
                | inl capped ↦ (
                  (s', true),
                  if_false (done (s', false)) at_cap no_ ∙ if_true (done (s', true)) e' capped,
                )
                | inr more ↦
                    let (r, ends) = next s'' (omega (arith, no_more)) in
                    (
                      r,
                      if_false (done (s', false)) at_cap no_
                          ∙ if_false (done (s', true)) e' more
                          ∙ ends,
                    )
              ]
            ]

    -- With two rounds more than the ids that edges lead to, a filtered search with room for a hit
    -- ends, with hits nearest first that are `IsMatched`.
    pub search_layer_filtered_lem :
        (fuel entry max_scan : ℕ) (corrupt : Bool)
        → 0 < k
        → suc (length known) < fuel
        → (hits : List Hit) × (corrupt' : Bool) × (capped : Bool) × (search_layer_filtered x fits k
              fuel entry max_scan corrupt
            ≡ done (hits, corrupt', capped))
          × IsMatched x fits k entry capped hits
          × Ordered NotFarther hits
    unfolding search_layer_filtered
    search_layer_filtered_lem fuel entry max_scan corrupt room enough =
        let cap = if max_scan == 0 then k * 50 else max_scan in
        let s = start_filtered x fits k entry corrupt in
        let bound = unseen-le-length known (entry ∷ []) in
        let (r, ends) = loop_ends fuel cap s (unfold start_filtered in (omega arith)) in
        let (f, o) =
          loop_lem x fits k entry cap fuel s r (start-Filtering x fits k entry cap corrupt room)
            ends in
        let (f', o') = drained x fits k entry cap r.1 r.0.results f o in
        (
          drain r.0.results [],
          r.0.corrupt,
          r.1,
          if_false (done ([], corrupt, false)) _ (pos→== k room)
              ∙ ap
                  (λ (m : Outcome (FilterSearch × Bool)).
                    and_then m (λ t. done (drain t.0.results [], t.0.corrupt, t.1)))
                  ends,
          f',
          o',
        )
