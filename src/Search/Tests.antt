-- ===== src/Search/Tests.antt =====
-- Runs of the search of src/astervec_index.cc on a small index, and the theorems at its inputs.
use mathlib.Core.List.{Memᴰ}
use mathlib.Core.List.Memᴰ
use mathlib.Core.Logic.{⊎_elim}
use aster_vec.Base.{
  ℕ, zero, suc, ◌%◌, ◌≤◌, ◌≡◌, refl, ap, ◌∙◌, Bool, true, false, List, [], ◌∷◌, Option, none, some,
  length, get_or, arith, leb, ◌==◌, ◌↔◌,
}
use aster_vec.Base.Assoc.{lookup}
use aster_vec.Search.{
  Hit, GraphIndex, done, push, pop, trim, top_exceeds, below_top, closer, farther, is_visited, mark,
  get_edges, filter_located, layer_neighbors, point_distance, get_distance, greedy_step,
  greedy_pass, greedy_loop, greedy_search_upper_layer, consider, offer_each, collect, consider_all,
  offer_batch, expand, search_loop, start_search, search_layer, descend, first_alive, knn_search_k,
}
use aster_vec.Search.Heaps.{Ordered, NotFarther, Memᴰ-cons, mem-push, length-push, push-Ordered}
use aster_vec.Search.Keep.{Apart, push-Apart}
use aster_vec.Search.Local.{IsFound, IsSort, search_layer_found}
use aster_vec.Search.Rounds.{targets}
use aster_vec.Search.Batch.{offer_batch-offer_each}
use aster_vec.Search.Greedy.{greedy_search_upper_layer_lem}
use aster_vec.Search.Nearest.{HasPoints, AreNearest, knn_search_k_lem}
use aster_vec.Search.Filtered.{search_layer_filtered}
use aster_vec.Search.FilteredFound.{IsMatched}
use aster_vec.Search.FilteredEnds.{search_layer_filtered_lem}

-- Insertion sort.
abbrev nearer_first : Hit → Hit → Bool
nearer_first a b = leb a.distance b.distance

pub insertion_sort : List Hit → List Hit
insertion_sort [] = []
insertion_sort (h ∷ l) = push nearer_first h (insertion_sort l)

mem-insertion_sort : (l : List Hit) (g : Hit) → Memᴰ g (insertion_sort l) ↔ Memᴰ g l
unfolding insertion_sort
mem-insertion_sort [] g = (λ m. m, λ m. m)
mem-insertion_sort (h ∷ l) g =
    ground
      (arith, mem-push nearer_first h (insertion_sort l) g, mem-insertion_sort l g, Memᴰ-cons g h l)

length-insertion_sort : (l : List Hit) → length (insertion_sort l) ≡ length l
unfolding insertion_sort
length-insertion_sort [] = refl
length-insertion_sort (h ∷ l) =
    length-push nearer_first h (insertion_sort l) ∙ ap suc (length-insertion_sort l)

insertion_sort-Ordered : (l : List Hit) → Ordered NotFarther (insertion_sort l)
unfolding insertion_sort
insertion_sort-Ordered [] = tt
insertion_sort-Ordered (h ∷ l) =
    push-Ordered nearer_first NotFarther (λ a b c p q. omega arith) (λ a b e. ground arith)
      (λ a b e. ground arith) h (insertion_sort l) (insertion_sort-Ordered l)

insertion_sort-Apart : (l : List Hit) → Apart l → Apart (insertion_sort l)
unfolding insertion_sort
insertion_sort-Apart [] o = tt
insertion_sort-Apart (h ∷ l) o =
    push-Apart nearer_first h (insertion_sort l) (λ g m. o.0 g ((mem-insertion_sort l g).0 m))
      (insertion_sort-Apart l o.1)

pub insertion_sort-IsSort : IsSort insertion_sort
insertion_sort-IsSort = record {
  kept = mem-insertion_sort;
  size = length-insertion_sort;
  ascending = insertion_sort-Ordered;
  distinct = insertion_sort-Apart;
}

-- Five points; 0 and 3 are also on layer 1, and 0 leads to 1 and 3 only.
abbrev pub ids : List ℕ
ids = 0 ∷ 1 ∷ 2 ∷ 3 ∷ 4 ∷ []

abbrev pub five_edges : ℕ → Option (List ℕ)
five_edges zero = some (1 ∷ 3 ∷ [])
five_edges (suc i) = some ids

abbrev pub five : GraphIndex
five = record {
  nodes =
      (0, record { point = some 9; layers = (1, 3 ∷ []) ∷ [] })
      ∷ (3, record { point = some 4; layers = (1, 0 ∷ []) ∷ [] })
      ∷ [];
  disk = λ i. get_or (9 ∷ 7 ∷ 2 ∷ 4 ∷ 1 ∷ []) i 0;
  edges = five_edges;
  has_location = λ i. true;
  batch = true;
  sort = insertion_sort;
}

pub five_inside : (i j : ℕ) → Memᴰ j (targets five zero i) → Memᴰ j ids
unfolding filter_located
five_inside zero j m =
    ⊎_elim (λ e. Memᴰ.tail (Memᴰ.head e))
      (λ n. Memᴰ.tail (Memᴰ.tail (Memᴰ.tail (Memᴰ.head (Memᴰ.eq_of_singleton n)))))
      (Memᴰ.cases_cons m)
five_inside (suc i) j m = m

pub five-HasPoints : HasPoints five
unfolding lookup
five-HasPoints i n h =
    elim n.point as (λ o. n.point ≡ o → (d : ℕ) × (o ≡ some d)) [
      | none ↦ λ e. absurd (ground arith)
      | some d ↦ λ e. (d, refl)
    ]
      refl

abbrev fourth_dead : ℕ → Bool
fourth_dead i = i == 4

two_nearest :
    knn_search_k five fourth_dead (some 0) 1 20 2 10 false
    ≡ done ((record { id = 2; distance = 2 }) ∷ (record { id = 3; distance = 4 }) ∷ [], false)
unfolding knn_search_k descend greedy_search_upper_layer greedy_loop greedy_pass greedy_step
    point_distance layer_neighbors lookup search_layer start_search search_loop expand get_edges
    filter_located offer_batch collect consider_all consider get_distance mark is_visited push pop
    trim top_exceeds below_top closer farther first_alive insertion_sort
two_nearest = refl

knn_search_k_lem_example :
    (near : ℕ) × (hits : List Hit) × (corrupt' : Bool) × (descend five 20 1 0 ≡ done near)
    × (knn_search_k five fourth_dead (some 0) 1 20 2 10 false ≡ done (hits, corrupt'))
    × AreNearest five fourth_dead 2 near hits
knn_search_k_lem_example =
    knn_search_k_lem five fourth_dead ids five_inside insertion_sort-IsSort 0 1 20 2 10 false
      five-HasPoints (omega arith) (omega arith) (omega arith) (omega arith)

abbrev two_hits : List Hit
two_hits = (record { id = 4; distance = 1 }) ∷ (record { id = 2; distance = 2 }) ∷ []

two_found : search_layer five 20 0 2 0 false ≡ done (two_hits, false)
unfolding search_layer start_search search_loop expand get_edges filter_located offer_batch collect
    consider_all consider get_distance mark is_visited push pop trim top_exceeds below_top closer
    farther insertion_sort
two_found = refl

search_layer_found_example : IsFound five 0 2 0 two_hits × Ordered NotFarther two_hits
search_layer_found_example =
    search_layer_found five 0 2 0 insertion_sort-IsSort 20 false false two_hits (omega arith)
      two_found

first_point : point_distance five 0 ≡ some 9
unfolding point_distance lookup
first_point = refl

abbrev even : ℕ → Bool
even i = i % 2 == 0

offer_batch-offer_each_example :
    offer_batch five 0 2 (1 ∷ 3 ∷ 1 ∷ []) (start_search five 0 0 false)
    ≡ offer_each five 0 2 (1 ∷ 3 ∷ 1 ∷ []) (start_search five 0 0 false)
offer_batch-offer_each_example =
    offer_batch-offer_each five 0 2 (1 ∷ 3 ∷ 1 ∷ []) (start_search five 0 0 false)

greedy_search_upper_layer_lem_example :
    (near e : ℕ) × (greedy_search_upper_layer five 20 0 1 ≡ done near)
    × (point_distance five near ≡ some e)
    × (e ≤ 9)
    × ((j c : ℕ) → Memᴰ j (layer_neighbors five 1 near) → point_distance five j ≡ some c → e ≤ c)
greedy_search_upper_layer_lem_example =
    greedy_search_upper_layer_lem five 20 0 1 9 (omega arith) first_point

search_layer_filtered_lem_example :
    (hits : List Hit) × (corrupt' : Bool) × (capped : Bool) × (search_layer_filtered five even 2 20
        0 0 false
      ≡ done (hits, corrupt', capped))
    × IsMatched five even 2 0 capped hits
    × Ordered NotFarther hits
search_layer_filtered_lem_example =
    search_layer_filtered_lem five even 2 ids five_inside 20 0 0 false (omega arith) (omega arith)
