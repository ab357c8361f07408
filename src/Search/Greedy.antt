-- ===== src/Search/Greedy.antt =====
-- The descent of `greedySearchUpperLayer` in src/astervec_index.cc ends, at a node that none of its
-- neighbours is nearer than.
use mathlib.Core.Logic.{⊎_elim}
use mathlib.Core.Path.{subst}
use mathlib.Core.List.{Memᴰ}
use mathlib.Core.List.Memᴰ
use aster_vec.Base.{
  ℕ, zero, suc, ◌≤◌, ◌<◌, ◌≡◌, refl, sym, ap, ◌∙◌, Bool, true, false, ◌⊎◌, inl, inr, List, [], ◌∷◌,
  Option, none, some, length, arith, ltb, if◌then◌else◌, if_true, if_false, Bool-cases, ltb→lt,
}
use aster_vec.Base.Assoc.{lookup}
use aster_vec.Search.{
  Hit, MemNode, GraphIndex, Outcome, done, layer_neighbors, point_distance, greedy_step,
  greedy_pass, greedy_loop, greedy_search_upper_layer, threw, and_then,
}
use aster_vec.Engine.Action.{some_injective}
use aster_vec.Search.Nearer.{nearer, nearer_falls, nearer-le-length}

module _ (x : GraphIndex) where
  -- From the best hit `b` to `b'`, over the neighbours `ids`.
  record IsPass (b b' : Hit) (improved improved' : Bool) (ids : List ℕ) : Type 0 where
    no_worse : b'.distance ≤ b.distance
    optimum : (j d : ℕ) → Memᴰ j ids → point_distance x j ≡ some d → b'.distance ≤ d
    moved :
        ((b' ≡ b) × (improved' ≡ improved))
        ⊎ ((b'.distance < b.distance)
            × (improved' ≡ true)
            × (point_distance x b'.id ≡ some b'.distance))

  -- The node that is looked at is not nearer.
  no_step :
      (b : Hit) (improved : Bool) (i : ℕ)
      → ((d : ℕ) → point_distance x i ≡ some d → b.distance ≤ d)
      → IsPass b b improved improved (i ∷ [])
  no_step b improved i far = record {
    no_worse = omega arith;
    optimum =
        λ j d m p. far d (subst (λ k. point_distance x k ≡ some d) (Memᴰ.eq_of_singleton m) p);
    moved = inl (refl, refl);
  }

  abbrev stepped : Hit → Bool → ℕ → Option ℕ → Hit × Bool
  stepped b improved i none = (b, improved)
  stepped b improved i (some d) =
      if ltb d b.distance then (record { id = i; distance = d }, true) else (b, improved)

  step_at :
      (b : Hit) (improved : Bool) (i : ℕ) (o : Option ℕ)
      → point_distance x i ≡ o
      → (let r = stepped b improved i o in IsPass b r.0 improved r.1 (i ∷ []))
  step_at b improved i none e = no_step b improved i (λ d p. absurd (cc p))
  step_at b improved i (some d) e = elim (Bool-cases (ltb d b.distance)) [
    | inl closer_ ↦
        let r : Hit × Bool = (record { id = i; distance = d }, true) in
        let less : d < b.distance = ltb→lt d b.distance closer_ in
        subst (λ (t : Hit × Bool). IsPass b t.0 improved t.1 (i ∷ []))
          (sym (if_true r (b, improved) closer_))
          (record {
            no_worse = omega (arith, less);
            optimum = λ j c m p.
                let q = subst (λ k. point_distance x k ≡ some c) (Memᴰ.eq_of_singleton m) p in
                ground (arith, some_injective (sym e ∙ q));
            moved = inr (less, refl, e);
          })
    | inr far ↦
        let r : Hit × Bool = (record { id = i; distance = d }, true) in
        subst (λ (t : Hit × Bool). IsPass b t.0 improved t.1 (i ∷ []))
          (sym (if_false r (b, improved) far))
          (no_step b improved i (λ c p. ground (arith, some_injective (sym e ∙ p))))
  ]

  step_lem :
      (b : Hit) (improved : Bool) (i : ℕ)
      → (let (b', improved') = greedy_step x (b, improved) i in
          IsPass b b' improved improved' (i ∷ []))
  unfolding greedy_step
  step_lem b improved i =
      elim (point_distance x i)
          as (λ o.
            point_distance x i ≡ o
            → (let r : Hit × Bool = elim o [
              | none ↦ (b, improved)
              | some d ↦
                  if ltb d b.distance
                  then (record { id = i; distance = d }, true)
                  else (b, improved)
            ] in
                IsPass b r.0 improved r.1 (i ∷ []))) [
                  | none ↦ step_at b improved i none
                  | some d ↦ step_at b improved i (some d)
                ]
        refl

  -- A pass over two parts of the neighbours.
  then_lem :
      (b b' b'' : Hit) (f f' f'' : Bool) (i : ℕ) (ids : List ℕ)
      → IsPass b b' f f' (i ∷ [])
      → IsPass b' b'' f' f'' ids
      → IsPass b b'' f f'' (i ∷ ids)
  then_lem b b' b'' f f' f'' i ids one two = record {
    no_worse = omega (arith, one.no_worse, two.no_worse);
    optimum = λ j d m p.
        ⊎_elim (λ e. omega (arith, two.no_worse, one.optimum j d (Memᴰ.head e) p))
          (λ n. two.optimum j d n p) (Memᴰ.cases_cons m);
    moved = elim two.moved [
      | inr (less, set, there) ↦ inr (omega (arith, less, one.no_worse), set, there)
      | inl (same, kept) ↦ elim one.moved [
        | inl (same', kept') ↦ inl (same ∙ same', kept ∙ kept')
        | inr (less, set, there) ↦ inr (
          subst (λ (t : Hit). t.distance < b.distance) (sym same) less,
          kept ∙ set,
          subst (λ (t : Hit). point_distance x t.id ≡ some t.distance) (sym same) there,
        )
      ]
    ];
  }

  pass_lem :
      (ids : List ℕ) (b : Hit) (improved : Bool)
      → (let (b', improved') = greedy_pass x (b, improved) ids in
          IsPass b b' improved improved' ids)
  unfolding greedy_pass
  pass_lem [] b improved = record {
    no_worse = omega arith;
    optimum = λ j d m. absurd (Memᴰ.not-nil m);
    moved = inl (refl, refl);
  }
  pass_lem (i ∷ ids) b improved =
      let r = greedy_step x (b, improved) i in
      let t = greedy_pass x r ids in
      then_lem b r.0 t.0 improved r.1 t.1 i ids (step_lem b improved i) (pass_lem ids r.0 r.1)

  -- Where the loop ends: it came no farther from the query, and no neighbour in memory is nearer.
  record IsOptimum (layer : ℕ) (b b' : Hit) : Type 0 where
    no_worse : b'.distance ≤ b.distance
    there : point_distance x b'.id ≡ some b'.distance
    optimum :
        (j d : ℕ)
        → Memᴰ j (layer_neighbors x layer b'.id)
        → point_distance x j ≡ some d
        → b'.distance ≤ d

  -- With one round more than there are nearer nodes in memory, the loop ends.
  greedy_loop_lem :
      (layer fuel : ℕ) (b : Hit)
      → nearer x.nodes b.distance < fuel
      → point_distance x b.id ≡ some b.distance
      → (b' : Hit) × (greedy_loop x fuel layer b ≡ done b') × IsOptimum layer b b'
  unfolding greedy_loop point_distance
  greedy_loop_lem layer zero b h there = absurd (omega arith)
  greedy_loop_lem layer (suc fuel) b h there =
      let r = greedy_pass x (b, false) (layer_neighbors x layer b.id) in
      let p = pass_lem (layer_neighbors x layer b.id) b false in
      let next = greedy_loop x fuel layer r.0 in
      elim p.moved [
        | inl (same, kept) ↦ (
          r.0,
          if_false next (done r.0) kept,
          record {
            no_worse = p.no_worse;
            there = subst (λ (t : Hit). point_distance x t.id ≡ some t.distance) (sym same) there;
            optimum = λ j d m.
                p.optimum j d (subst (λ (t : Hit). Memᴰ j (layer_neighbors x layer t.id)) same m);
          },
        )
        | inr (less, set, there') ↦
            let falls = nearer_falls x.nodes r.0.id r.0.distance b.distance there' less in
            let (b', ends, o) = greedy_loop_lem layer fuel r.0 (omega arith) there' in
            (
              b',
              if_true next (done r.0) set ∙ ends,
              record {
                no_worse = omega (arith, o.no_worse, less);
                there = o.there;
                optimum = o.optimum;
              },
            )
      ]

  -- With more rounds than there are nodes in memory, the descent on a layer from a node whose point
  -- is in memory ends, at a node in memory that is no farther from the query than the entry point
  -- and no farther than any of its neighbours in memory on that layer.
  pub greedy_search_upper_layer_lem :
      (fuel entry layer d : ℕ)
      → length x.nodes < fuel
      → point_distance x entry ≡ some d
      → (near e : ℕ) × (greedy_search_upper_layer x fuel entry layer ≡ done near)
        × (point_distance x near ≡ some e)
        × (e ≤ d)
        × ((j c : ℕ) → Memᴰ j (layer_neighbors x layer near) → point_distance x j ≡ some c → e ≤ c)
  unfolding greedy_search_upper_layer point_distance
  greedy_search_upper_layer_lem fuel entry layer d room there =
      let b : Hit = record { id = entry; distance = d } in
      let count = nearer-le-length x.nodes d in
      let (b', ends, o) = greedy_loop_lem layer fuel b (omega arith) there in
      (
        b'.id,
        b'.distance,
        at_entry b' (lookup entry x.nodes) there ends,
        o.there,
        o.no_worse,
        o.optimum,
      )
    where
      at_point :
          (b' : Hit) (o : Option ℕ)
          → o ≡ some d
          → greedy_loop x fuel layer (record { id = entry; distance = d }) ≡ done b'
          → (elim o as (λ _. Outcome ℕ) [
            | none ↦ threw
            | some c ↦
                and_then
                  (greedy_loop x fuel layer (record { id = entry; distance = c }))
                  (λ best. done best.id)
          ])
            ≡ done b'.id
      at_point b' none p ends = cc
      at_point b' (some c) p ends =
          ap
            (λ (k : ℕ).
              and_then (greedy_loop x fuel layer (record { id = entry; distance = k }))
                (λ (best : Hit). done best.id))
            (some_injective p)
          ∙ ap (λ (m : Outcome Hit). and_then m (λ (best : Hit). done best.id)) ends

      at_entry :
          (b' : Hit) (found : Option MemNode)
          → (elim found as (λ _. Option ℕ) [ none ↦ none | some n ↦ n.point ]) ≡ some d
          → greedy_loop x fuel layer (record { id = entry; distance = d }) ≡ done b'
          → (elim found as (λ _. Outcome ℕ) [
            | none ↦ done entry
            | some n ↦ elim n.point [
              | none ↦ threw
              | some c ↦
                  and_then
                    (greedy_loop x fuel layer (record { id = entry; distance = c }))
                    (λ best. done best.id)
            ]
          ])
            ≡ done b'.id
      at_entry b' none p ends = cc
      at_entry b' (some n) p ends = at_point b' n.point p ends
