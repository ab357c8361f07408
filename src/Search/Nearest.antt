-- ===== src/Search/Nearest.antt =====
-- `knnSearchK` of src/astervec_index.cc against the exact nearest neighbours.
use mathlib.Core.List.{Memᴰ}
use aster_vec.Base.{
  ℕ, zero, suc, ◌≤◌, ◌<◌, ◌≡◌, refl, ap, ◌∙◌, Bool, false, ◌⊎◌, inl, inr, List, [], ◌∷◌, Option,
  none, some, length, arith, max, ◌==◌, if_false, Option-cases,
}
use aster_vec.Base.Assoc.{lookup}
use aster_vec.Search.{
  Hit, MemNode, GraphIndex, Outcome, done, threw, and_then, greedy_loop, point_distance,
  greedy_search_upper_layer, get_distance, descend, search_layer, first_alive, knn_search_k,
}
use aster_vec.Search.Heaps.{Ordered, NotFarther}
use aster_vec.Search.Keep.{Apart}
use aster_vec.Search.Walk.{Reach, here, step}
use aster_vec.Search.Local.{IsFound, IsSort, search_layer_found, found_all}
use aster_vec.Search.Rounds.{targets}
use aster_vec.Search.Ends.{search_layer_ends}
use aster_vec.Search.Greedy.{greedy_search_upper_layer_lem}
use aster_vec.Search.FirstAlive.{first_alive_lem, length-Apart}

-- Each node in memory holds a point.
abbrev pub HasPoints : GraphIndex → Type 0
HasPoints x = (i : ℕ) (n : MemNode) → lookup i x.nodes ≡ some n → (d : ℕ) × (n.point ≡ some d)

pub descend_ends :
    (x : GraphIndex) (fuel top entry : ℕ)
    → HasPoints x
    → length x.nodes < fuel
    → (near : ℕ) × (descend x fuel top entry ≡ done near)
unfolding descend
descend_ends x fuel zero entry points room = (entry, refl)
descend_ends x fuel (suc layer) entry points room =
    let (next, ends) = one in
    let (near, ends') = descend_ends x fuel layer next points room in
    (near, ap (λ m. and_then m (descend x fuel layer)) ends ∙ ends')
  where
    point_of :
        (n : MemNode) (d : ℕ)
        → lookup entry x.nodes ≡ some n
        → n.point ≡ some d
        → point_distance x entry ≡ some d
    point_of n d e p =
        unfold point_distance in
        ap (λ (o : Option MemNode). elim o as (λ _. Option ℕ) [ none ↦ none | some m ↦ m.point ]) e
        ∙ p

    absent_lem :
        (o : Option MemNode)
        → o ≡ none
        → (elim o as (λ _. Outcome ℕ) [
          | none ↦ done entry
          | some n ↦ elim n.point [
            | none ↦ threw
            | some d ↦
                and_then
                  (greedy_loop x fuel (suc layer) (record { id = entry; distance = d }))
                  (λ best. done best.id)
          ]
        ])
          ≡ done entry
    absent_lem none e = refl
    absent_lem (some n) e = cc

    one : (next : ℕ) × (greedy_search_upper_layer x fuel entry (suc layer) ≡ done next)
    one = elim (Option-cases (lookup entry x.nodes)) [
      | inl absent ↦
          (entry, unfold greedy_search_upper_layer in (absent_lem (lookup entry x.nodes) absent))
      | inr (n, e) ↦
          let (d, p) = points entry n e in
          let r =
            greedy_search_upper_layer_lem x fuel entry (suc layer) d room (point_of n d e p) in
          (r.0, r.2)
    ]

module _ (x : GraphIndex) (dead : ℕ → Bool) (k near : ℕ) where
  -- The `k` nearest of the nodes that are reached from `near` on layer 0 and alive: no other such
  -- node is nearer than one of these, and there are fewer than `k` only where that is all of them.
  pub record AreNearest (hits : List Hit) : Type 0 where
    pub alive : (h : Hit) → Memᴰ h hits → dead h.id ≡ false
    pub reached : (h : Hit) → Memᴰ h hits → Reach (targets x zero) near h.id
    pub exact : (h : Hit) → Memᴰ h hits → h.distance ≡ x.disk h.id
    pub at_most : length hits ≤ k
    pub apart : Apart hits
    pub ascending : Ordered NotFarther hits
    pub best :
        (i : ℕ)
        → Reach (targets x zero) near i
        → dead i ≡ false
        → Memᴰ (record { id = i; distance = x.disk i }) hits
          ⊎ ((length hits ≡ k) × ((g : Hit) → Memᴰ g hits → g.distance ≤ x.disk i))

pub pos→== : (k : ℕ) → 0 < k → (k == 0) ≡ false
pos→== k h = ground arith

module _ (x : GraphIndex) (dead : ℕ → Bool) (known : List ℕ)
    (inside : (i j : ℕ) → Memᴰ j (targets x zero i) → Memᴰ j known) where
  Reach-known : (near i : ℕ) → Reach (targets x zero) near i → Memᴰ i (near ∷ known)
  Reach-known near i here = Memᴰ.head refl
  Reach-known near _ (step {i} {j} r m) = Memᴰ.tail (inside i j m)

  nearest_lem :
      (near ef k : ℕ) (l : List Hit)
      → suc (length known) < ef
      → IsFound x zero ef near l
      → Ordered NotFarther l
      → AreNearest x dead k near (first_alive dead k l)
  unfolding get_distance
  nearest_lem near ef k l room f o =
      let few =
        length-Apart l (near ∷ known) f.apart (λ h m. Reach-known near h.id (f.reached h m)) in
      let r = first_alive_lem dead k l f.apart o in
      record {
        alive = λ h m. (r.alive h m).1;
        reached = λ h m. f.reached h (r.alive h m).0;
        exact = λ h m. ap (λ (t : Hit). t.distance) (f.exact h (r.alive h m).0);
        at_most = r.at_most;
        apart = r.apart;
        ascending = r.ascending;
        best = λ i reach live.
            r.best (record { id = i; distance = x.disk i })
              (found_all x zero ef near l f (omega (arith, few)) reach) live;
      }

  -- With fuel for the nodes in memory and the ids that edges lead to, in an index whose nodes in
  -- memory hold their points, a search from an entry point returns, and where the width of the
  -- search is above the number of those ids by two or more it returns exactly the nearest points.
  pub knn_search_k_lem :
      (sorts : IsSort x.sort) (entry top fuel k ef_search : ℕ) (corrupt : Bool)
      → HasPoints x
      → length x.nodes < fuel
      → suc (length known) < fuel
      → 0 < k
      → suc (length known) < max ef_search k
      → (near : ℕ) × (hits : List Hit) × (corrupt' : Bool) × (descend x fuel top entry ≡ done near)
        × (knn_search_k x dead (some entry) top fuel k ef_search corrupt ≡ done (hits, corrupt'))
        × AreNearest x dead k near hits
  unfolding knn_search_k
  knn_search_k_lem sorts entry top fuel k ef_search corrupt points room room' some_k wide =
      let (near, ends) = descend_ends x fuel top entry points room in
      let ef = max ef_search k in
      let (l, corrupt', ends') = search_layer_ends x zero ef known inside fuel near corrupt room' in
      let (f, o) =
        search_layer_found x zero ef near sorts fuel corrupt corrupt' l (omega arith) ends' in
      let some_ : (k == 0) ≡ false = pos→== k some_k in
      (
        near,
        first_alive dead k l,
        corrupt',
        ends,
        if_false (done ([], corrupt)) _ some_
            ∙ ap
                (λ (m : Outcome ℕ). and_then m (λ near'.
                  and_then (search_layer x fuel near' ef zero corrupt)
                    (λ found. done (first_alive dead k found.0, found.1))))
                ends
            ∙ ap
                (λ (m : Outcome (List Hit × Bool)).
                  and_then m (λ found. done (first_alive dead k found.0, found.1)))
                ends',
        nearest_lem near ef k l wide f o,
      )
