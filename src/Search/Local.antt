-- ===== src/Search/Local.antt =====
-- What `searchLayer` of src/astervec_index.cc finds on one layer, without a filter.
use mathlib.Core.Logic.{⊎_elim}
use mathlib.Core.Path.{subst}
use mathlib.Core.List.{Memᴰ}
use mathlib.Core.List.Memᴰ
use aster_vec.Base.{
  ℕ, zero, suc, ◌≤◌, ◌<◌, ◌≡◌, refl, sym, ap, ◌∙◌, Bool, true, false, ◌↔◌, ◌⊎◌, inl, inr, List, [],
  ◌∷◌, length, arith, ◌==◌, if_true, if_false, Bool-cases,
}
use aster_vec.Search.{
  Hit, GraphIndex, Search, done, below_top, is_visited, offer_each, get_distance, expand,
  search_loop, start_search, search_layer,
}
use aster_vec.Search.Heaps.{Memᴰ-cons, Ordered, NotFarther, NotCloser}
use aster_vec.Search.Keep.{Apart}
use aster_vec.Search.Walk.{
  Reach, here, step, IsWalk, Covered, hit, is_visited-cons, offer_each-IsWalk,
}
use aster_vec.Search.Rounds.{
  offer_each-visited, targets, expand_lem, after_read_rule, is_visited_one, and_then_done,
  done_injective, not_done,
}

-- A sort that the standard library may use: the hits by ascending distance, the same ones.
pub record IsSort (sort : List Hit → List Hit) : Type 0 where
  pub kept : (l : List Hit) (h : Hit) → Memᴰ h (sort l) ↔ Memᴰ h l
  pub size : (l : List Hit) → length (sort l) ≡ length l
  pub ascending : (l : List Hit) → Ordered NotFarther (sort l)
  pub distinct : (l : List Hit) → Apart l → Apart (sort l)

module _ (x : GraphIndex) (layer ef entry : ℕ) where
  abbrev Walk : (ℕ → Type 0) → Search → Type 0
  Walk = IsWalk x layer ef entry (targets x layer)

  -- All neighbours of a node are visited.
  abbrev Expanded : Search → ℕ → Type 0
  Expanded s i = (j : ℕ) → Memᴰ j (targets x layer i) → is_visited j s.visited ≡ true

  -- The hits of a search that has ended, farthest first: each is reached from the entry point with
  -- its own distance, none stands twice, and the entry point and every neighbour of a hit is a hit
  -- or found no room.
  pub record IsFound (l : List Hit) : Type 0 where
    pub reached : (h : Hit) → Memᴰ h l → Reach (targets x layer) entry h.id
    pub exact : (h : Hit) → Memᴰ h l → h ≡ hit x layer ef entry (targets x layer) h.id
    pub short : length l ≤ ef
    pub apart : Apart l
    pub entered : Covered x layer ef entry (targets x layer) l entry
    pub closed :
        (h : Hit) (j : ℕ)
        → Memᴰ h l
        → Memᴰ j (targets x layer h.id)
        → Covered x layer ef entry (targets x layer) l j

  -- A change of what need not wait, of the queue of candidates and of the flag.
  module _ (P Q : ℕ → Type 0) (s : Search) (w : Walk P s) where
    with_candidates :
        (candidates : List Hit) (corrupt : Bool)
        → ((h : Hit) → Memᴰ h candidates → Memᴰ h s.candidates)
        → Ordered NotFarther candidates
        → ((h : Hit) → Memᴰ h s.nearest → Memᴰ h candidates ⊎ Q h.id)
        → Walk Q (record s { candidates = candidates; corrupt = corrupt })
    with_candidates candidates corrupt fewer order opens = record {
      entered = w.entered;
      reached = w.reached;
      exact = w.exact;
      known = w.known;
      waits = λ h m. w.waits h (fewer h m);
      short = w.short;
      covered = w.covered;
      opens = opens;
      queue = order;
      heap = w.heap;
      apart = w.apart;
    }

  found :
      (s : Search) (w : Walk (Expanded s) s)
      → ((h : Hit) → Memᴰ h s.nearest → Memᴰ h s.candidates → ⊥)
      → IsFound s.nearest
  found s w none_waits = record {
    reached = λ h m. w.reached h.id (w.known h m);
    exact = w.exact;
    short = w.short;
    apart = w.apart;
    entered = w.covered entry w.entered;
    closed =
        λ h j m n. w.covered j (⊎_elim (λ c. absurd (none_waits h m c)) (λ e. e j n) (w.opens h m));
  }

  -- Where the closest candidate is farther than the farthest hit, no hit waits.
  stopped :
      (l rest : List Hit) (c : Hit)
      → Ordered NotCloser l
      → Ordered NotFarther (c ∷ rest)
      → below_top l c.distance ≡ true
      → (h : Hit) → Memᴰ h l
      → Memᴰ h (c ∷ rest)
      → ⊥
  unfolding below_top
  stopped [] rest c heap queue below h m n = Memᴰ.not-nil m
  stopped (g ∷ l) rest c heap queue below h m n =
      let far : h.distance ≤ g.distance =
        ⊎_elim (λ (e : h ≡ g). omega (arith, ap (λ (t : Hit). t.distance) e)) (heap.0 h)
          ((Memᴰ-cons h g l).0 m) in
      let near : c.distance ≤ h.distance =
        ⊎_elim (λ (e : h ≡ c). omega (arith, ap (λ (t : Hit). t.distance) e)) (queue.0 h)
          ((Memᴰ-cons h c rest).0 n) in
      ground arith

  module _ (s : Search) (c : Hit) (rest : List Hit) (e : s.candidates ≡ c ∷ rest)
      (w : Walk (Expanded s) s) where
    -- Behind the pop of `c` only `c` is left to expand.
    abbrev IsPopped : ℕ → Type 0
    IsPopped i = (i ≡ c.id) ⊎ Expanded s i

    pop-Walk : (corrupt : Bool) → Walk IsPopped (record s { candidates = rest; corrupt = corrupt })
    pop-Walk corrupt =
        with_candidates (Expanded s) IsPopped s w rest corrupt
          (λ h m. subst (Memᴰ h) (sym e) (Memᴰ.tail m)) (subst (Ordered NotFarther) e w.queue).1
          (λ h m.
            ⊎_elim
              (λ q.
                ⊎_elim (λ same. inr (inl (ap (λ (t : Hit). t.id) same))) inl
                  ((Memᴰ-cons h c rest).0 (subst (Memᴰ h) e q)))
              (λ old. inr (inr old)) (w.opens h m))

    offered-Walk :
        (corrupt : Bool)
        → (let next =
              offer_each x layer ef
                (targets x layer c.id)
                (record s { candidates = rest; corrupt = corrupt }) in
            Walk (Expanded next) next)
    offered-Walk corrupt =
        let s' : Search = record s { candidates = rest; corrupt = corrupt } in
        let next = offer_each x layer ef (targets x layer c.id) s' in
        let to_c = w.reached c.id (w.waits c (subst (Memᴰ c) (sym e) (Memᴰ.head refl))) in
        let w' =
          offer_each-IsWalk x layer ef entry (targets x layer) IsPopped (targets x layer c.id) s'
            (pop-Walk corrupt) (λ j m. step to_c m) in
        let seen = offer_each-visited x layer ef (targets x layer c.id) s' in
        with_candidates IsPopped (Expanded next) next w' next.candidates next.corrupt (λ h m. m)
          w'.queue
          (λ h m.
            ⊎_elim inl
              (λ p. inr (λ j n.
                ⊎_elim (λ same. seen j (inr (subst (λ k. Memᴰ j (targets x layer k)) same n)))
                  (λ old. seen j (inl (old j n))) p))
              (w'.opens h m))

    -- One round keeps the invariant.
    round :
        let next = expand x layer ef c.id (record s { candidates = rest }) in
        Walk (Expanded next) next
    round =
        subst (λ t. Walk (Expanded t) t)
          (sym (expand_lem x layer ef c.id (record s { candidates = rest })))
          (after_read_rule x layer c.id (record s { candidates = rest })
            (λ t.
              (let next = offer_each x layer ef (targets x layer c.id) t in
                Walk (Expanded next) next))
            offered-Walk)

  -- The next round, or the end.
  loop_step :
      (fuel : ℕ) (s t : Search) (q : List Hit)
      → s.candidates ≡ q
      → Walk (Expanded s) s
      → ((s' : Search)
          → Walk (Expanded s') s'
          → search_loop x fuel layer ef s' ≡ done t
          → IsFound t.nearest)
      → search_loop x (suc fuel) layer ef (record s { candidates = q }) ≡ done t
      → IsFound t.nearest
  unfolding search_loop
  loop_step fuel s t [] e w rest_lem h =
      subst IsFound (ap (λ (r : Search). r.nearest) (done_injective h))
        (found s w (λ g m n. Memᴰ.not-nil (subst (Memᴰ g) e n)))
  loop_step fuel s t (c ∷ rest) e w rest_lem h =
      let s' : Search = record s { candidates = rest } in
      let next = search_loop x fuel layer ef (expand x layer ef c.id s') in
      elim (Bool-cases (below_top s.nearest c.distance)) [
        | inl stop ↦
            subst IsFound
              (ap (λ (r : Search). r.nearest)
                (done_injective (sym (if_true (done s') next stop) ∙ h)))
              (found s w (λ g m n.
                stopped s.nearest rest c w.heap (subst (Ordered NotFarther) e w.queue) stop g m
                  (subst (Memᴰ g) e n)))
        | inr more ↦
            rest_lem (expand x layer ef c.id s') (round s c rest e w)
              (sym (if_false (done s') next more) ∙ h)
      ]

  loop_lem :
      (fuel : ℕ) (s t : Search)
      → Walk (Expanded s) s
      → search_loop x fuel layer ef s ≡ done t
      → IsFound t.nearest
  loop_lem zero s t w h = unfold search_loop in absurd (not_done h)
  loop_lem (suc fuel) s t w h =
      loop_step fuel s t s.candidates refl w (λ s' w' h'. loop_lem fuel s' t w' h') h

  start_search-Walk :
      (corrupt : Bool)
      → 0 < ef
      → Walk (Expanded (start_search x layer entry corrupt)) (start_search x layer entry corrupt)
  unfolding start_search
  start_search-Walk corrupt room =
      let h : Hit = record { id = entry; distance = get_distance x layer entry } in
      let only = λ (i : ℕ) (v : is_visited i (entry ∷ []) ≡ true). is_visited_one i entry v in
      let first = (is_visited-cons entry entry []).1 (inl refl) in
      let seen = λ (g : Hit) (m : Memᴰ g (h ∷ [])).
        subst (λ i. is_visited i (entry ∷ []) ≡ true)
          (sym (ap (λ (t : Hit). t.id) (Memᴰ.eq_of_singleton m))) first in
      record {
        entered = first;
        reached = λ i v. subst (Reach (targets x layer) entry) (sym (only i v)) here;
        exact = λ g m.
            let e = Memᴰ.eq_of_singleton m in
            e ∙ ap (λ (t : Hit). hit x layer ef entry (targets x layer) t.id) (sym e);
        known = seen;
        waits = seen;
        short = omega arith;
        covered = λ i v. inl (Memᴰ.head (ap (hit x layer ef entry (targets x layer)) (only i v)));
        opens = λ g m. inl m;
        queue = (λ g m. absurd (Memᴰ.not-nil m), tt);
        heap = (λ g m. absurd (Memᴰ.not-nil m), tt);
        apart = (λ g m. absurd (Memᴰ.not-nil m), tt);
      }

  sorted_found : IsSort x.sort → (l : List Hit) → IsFound l → IsFound (x.sort l)
  sorted_found sorts l f =
      let covers = λ (i : ℕ) (c : Covered x layer ef entry (targets x layer) l i).
        ⊎_elim {C = Covered x layer ef entry (targets x layer) (x.sort l) i}
          (λ m. inl ((sorts.kept l (hit x layer ef entry (targets x layer) i)).1 m))
          (λ full. inr (sorts.size l ∙ full.0, λ g m. full.1 g ((sorts.kept l g).0 m))) c in
      record {
        reached = λ h m. f.reached h ((sorts.kept l h).0 m);
        exact = λ h m. f.exact h ((sorts.kept l h).0 m);
        short = omega (arith, f.short, sorts.size l);
        apart = sorts.distinct l f.apart;
        entered = covers entry f.entered;
        closed = λ h j m n. covers j (f.closed h j ((sorts.kept l h).0 m) n);
      }

  -- A search with room for a hit that returns has found hits, nearest first, that are a local
  -- optimum: each is reached from the entry point, stands once and has its own distance, and the
  -- entry point and every neighbour of a hit is a hit, unless there are `ef` hits and none is farther.
  pub search_layer_found :
      (sorts : IsSort x.sort) (fuel : ℕ) (corrupt corrupt' : Bool) (hits : List Hit)
      → 0 < ef
      → search_layer x fuel entry ef layer corrupt ≡ done (hits, corrupt')
      → IsFound hits × Ordered NotFarther hits
  unfolding search_layer
  search_layer_found sorts fuel corrupt corrupt' hits room h =
      let some_room : (ef == 0) ≡ false = ground arith in
      let (s, ends, gives) =
        and_then_done _ _ (hits, corrupt') (sym (if_false _ _ some_room) ∙ h) in
      let same : x.sort s.nearest ≡ hits =
        ap (λ (r : List Hit × Bool). r.0) (done_injective gives) in
      let f =
        loop_lem fuel (start_search x layer entry corrupt) s (start_search-Walk corrupt room)
          ends in
      subst (λ l. IsFound l × Ordered NotFarther l) same
        (sorted_found sorts s.nearest f, sorts.ascending s.nearest)

  -- Where there is room left, the hits are the nodes that are reached.
  pub found_all :
      (hits : List Hit)
      → IsFound hits
      → length hits < ef
      → {i : ℕ} → Reach (targets x layer) entry i
      → Memᴰ (hit x layer ef entry (targets x layer) i) hits
  found_all hits f room here = ⊎_elim (λ m. m) (λ full. absurd (omega (arith, full.0))) f.entered
  found_all hits f room (step {i} {j} r n) =
      ⊎_elim (λ m. m) (λ full. absurd (omega (arith, full.0)))
        (f.closed (hit x layer ef entry (targets x layer) i) j (found_all hits f room r) n)
