-- ===== src/Search.antt =====
-- The search of src/astervec_index.cc: `greedySearchUpperLayer`, both `searchLayer`, `knnSearchK`
-- and `knnSearchKFiltered`, for one query. A distance is the place of its float in the order of
-- floats, since the search only compares distances. Priority queues are lists, the top in front. A
-- vector that a search reads can be read: where the storage throws, the source's search throws.
pub mod Heaps
pub mod Keep
pub mod Walk
pub mod Batch
pub mod Rounds
pub mod Local
pub mod Ends
pub mod Nearer
pub mod Greedy
pub mod FirstAlive
pub mod Nearest
pub mod Filtered
pub mod FilteredWalk
pub mod FilteredFound
pub mod FilteredRuns
pub mod FilteredEnds
pub mod Tests
use aster_vec.Base.{
  ℕ, zero, suc, ◌+◌, ◌*◌, max, Bool, true, false, not, ◌&&◌, ◌||◌, List, [], ◌∷◌, Option, none,
  some, length, ltb, leb, ◌==◌, if◌then◌else◌,
}
use aster_vec.Base.Assoc.{lookup}

pub record Hit : Type 0 where
  pub id : ℕ
  pub distance : ℕ

-- A node in memory: the distance of the query to its point, `none` where it holds no point, and
-- its neighbours on each layer.
pub record MemNode : Type 0 where
  pub point : Option ℕ
  pub layers : List (ℕ × List ℕ)

-- `nodes` is `nodes_`, `disk` the distance of the query to the vector that is read from disk,
-- `edges` what the graph store answers, `none` where it fails, `has_location` that of the vector
-- storage, `batch` is `enable_batch_read_`. `sort` is `std::sort` by ascending distance.
pub record GraphIndex : Type 0 where
  pub nodes : List (ℕ × MemNode)
  pub disk : ℕ → ℕ
  pub edges : ℕ → Option (List ℕ)
  pub has_location : ℕ → Bool
  pub batch : Bool
  pub sort : List Hit → List Hit

-- How a search ends.
pub data Outcome (A : Type 0) : Type 0 where
  done : A → Outcome A
  threw : Outcome A
  out_of_fuel : Outcome A

abbrev pub and_then : {A B : Type 0} → Outcome A → (A → Outcome B) → Outcome B
and_then (done a) f = f a
and_then threw f = threw
and_then out_of_fuel f = out_of_fuel

-- The orders of the two queues, on pairs of a distance and an id: `closer` by -distance.
unfoldable pub closer : Hit → Hit → Bool
closer a b = ltb a.distance b.distance || (a.distance == b.distance && ltb b.id a.id)

unfoldable pub farther : Hit → Hit → Bool
farther a b = ltb b.distance a.distance || (a.distance == b.distance && ltb b.id a.id)

unfoldable pub push : (Hit → Hit → Bool) → Hit → List Hit → List Hit
push above h [] = h ∷ []
push above h (g ∷ heap) = if above h g then h ∷ g ∷ heap else g ∷ push above h heap

unfoldable pub pop : List Hit → List Hit
pop [] = []
pop (h ∷ heap) = heap

unfoldable pub trim : ℕ → List Hit → List Hit
trim ef heap = if ltb ef (length heap) then pop heap else heap

unfoldable pub top_exceeds : List Hit → ℕ → Bool
top_exceeds [] d = false
top_exceeds (h ∷ heap) d = ltb d h.distance

unfoldable pub below_top : List Hit → ℕ → Bool
below_top [] d = false
below_top (h ∷ heap) d = ltb h.distance d

-- The set behind `visitedInsert`, new for each search.
unfoldable pub is_visited : ℕ → List ℕ → Bool
is_visited i [] = false
is_visited i (j ∷ visited) = j == i || is_visited i visited

-- What one search changes; `corrupt` is `graph_corrupt_`.
pub record Search : Type 0 where
  pub visited : List ℕ
  pub candidates : List Hit
  pub nearest : List Hit
  pub corrupt : Bool

unfoldable pub mark : ℕ → Search → Search
mark i s = record s { visited = i ∷ s.visited }

unfoldable pub filter_located : (ℕ → Bool) → List ℕ → List ℕ
filter_located has [] = []
filter_located has (i ∷ ids) = let rest = filter_located has ids in if has i then i ∷ rest else rest

-- The neighbours that were not visited, for a read at once.
unfoldable pub collect : List ℕ → Search → List ℕ × Search
collect [] s = ([], s)
collect (i ∷ ids) s =
    let seen = is_visited i s.visited in
    let (rest, s') = collect ids (if seen then s else mark i s) in
    (if seen then rest else i ∷ rest, s')

module _ (x : GraphIndex) where
  -- `getEdgesCached`, with `graph_corrupt_`; the cache answers what the store would.
  unfoldable pub get_edges : ℕ → Bool → List ℕ × Bool
  get_edges i corrupt = elim (x.edges i) [
    | none ↦ ([], true)
    | some ids ↦ (filter_located x.has_location ids, corrupt)
  ]

  unfoldable pub layer_neighbors : ℕ → ℕ → List ℕ
  layer_neighbors layer i = elim (lookup i x.nodes) [
    | none ↦ []
    | some n ↦ elim (lookup layer n.layers) [ none ↦ [] | some ids ↦ ids ]
  ]

  -- The distance of the query to the point of a node in memory, if it is there and holds one.
  unfoldable pub point_distance : ℕ → Option ℕ
  point_distance i = elim (lookup i x.nodes) [ none ↦ none | some n ↦ n.point ]

  -- The distance of a node: on upper layers the one in memory, if it is there.
  unfoldable pub get_distance : ℕ → ℕ → ℕ
  get_distance zero i = x.disk i
  get_distance (suc layer) i = elim (point_distance i) [ none ↦ x.disk i | some d ↦ d ]

  -- One neighbour in the loop of `greedySearchUpperLayer`: the nearest node so far and its distance.
  unfoldable pub greedy_step : Hit × Bool → ℕ → Hit × Bool
  greedy_step (best, improved) i = elim (point_distance i) [
    | none ↦ (best, improved)
    | some d ↦
        if ltb d best.distance then (record { id = i; distance = d }, true) else (best, improved)
  ]

  unfoldable pub greedy_pass : Hit × Bool → List ℕ → Hit × Bool
  greedy_pass found [] = found
  greedy_pass found (i ∷ ids) = greedy_pass (greedy_step found i) ids

  unfoldable pub greedy_loop : ℕ → ℕ → Hit → Outcome Hit
  greedy_loop zero layer best = out_of_fuel
  greedy_loop (suc fuel) layer best =
      let (next, improved) = greedy_pass (best, false) (layer_neighbors layer best.id) in
      let rest = greedy_loop fuel layer next in if improved then rest else done next

  unfoldable pub greedy_search_upper_layer : ℕ → ℕ → ℕ → Outcome ℕ
  greedy_search_upper_layer fuel entry layer = elim (lookup entry x.nodes) [
    | none ↦ done entry
    | some n ↦ elim n.point [
      | none ↦ threw
      | some d ↦
          and_then (greedy_loop fuel layer (record { id = entry; distance = d }))
            (λ best. done best.id)
    ]
  ]

  module _ (layer ef : ℕ) where
    -- A neighbour with its distance goes into the queues if there is room or it is nearer than
    -- the farthest of the nearest.
    unfoldable pub consider : ℕ → Search → Search
    consider i s =
        let h : Hit = record { id = i; distance = get_distance layer i } in
        if ltb (length s.nearest) ef || top_exceeds s.nearest h.distance
        then (record s {
          candidates = push closer h s.candidates;
          nearest = trim ef (push farther h s.nearest);
        })
        else s

    -- The neighbours one by one.
    unfoldable pub offer_each : List ℕ → Search → Search
    offer_each [] s = s
    offer_each (i ∷ ids) s =
        offer_each ids (if is_visited i s.visited then s else consider i (mark i s))

    -- The neighbours at once: collected, then read.
    unfoldable pub consider_all : List ℕ → Search → Search
    consider_all [] s = s
    consider_all (i ∷ ids) s = consider_all ids (consider i s)

    unfoldable pub offer_batch : List ℕ → Search → Search
    offer_batch ids s = let (fresh, s') = collect ids s in consider_all fresh s'

  unfoldable pub expand : ℕ → ℕ → ℕ → Search → Search
  expand zero ef i s =
      let (ids, corrupt) = get_edges i s.corrupt in
      let s' : Search = record s { corrupt = corrupt } in
      if x.batch then offer_batch zero ef ids s' else offer_each zero ef ids s'
  expand (suc layer) ef i s = offer_each (suc layer) ef (layer_neighbors (suc layer) i) s

  -- The loop of `searchLayer`.
  unfoldable pub search_loop : ℕ → ℕ → ℕ → Search → Outcome Search
  search_loop zero layer ef s = out_of_fuel
  search_loop (suc fuel) layer ef s = elim s.candidates [
    | [] ↦ done s
    | c ∷ rest ↦
        let s' : Search = record s { candidates = rest } in
        let next = search_loop fuel layer ef (expand layer ef c.id s') in
        if below_top s.nearest c.distance then done s' else next
  ]

  unfoldable pub start_search : ℕ → ℕ → Bool → Search
  start_search layer entry corrupt =
      let h : Hit = record { id = entry; distance = get_distance layer entry } in
      record { visited = entry ∷ []; candidates = h ∷ []; nearest = h ∷ []; corrupt = corrupt }

  -- The hits, nearest first, and whether a read of the graph failed.
  unfoldable pub search_layer : ℕ → ℕ → ℕ → ℕ → Bool → Outcome (List Hit × Bool)
  search_layer fuel entry ef layer corrupt =
      if ef == 0
      then done ([], corrupt)
      else (and_then (search_loop fuel layer ef (start_search layer entry corrupt))
          (λ s. done (x.sort s.nearest, s.corrupt)))

  -- The descent through the layers above 0.
  unfoldable pub descend : ℕ → ℕ → ℕ → Outcome ℕ
  descend fuel zero entry = done entry
  descend fuel (suc layer) entry =
      and_then (greedy_search_upper_layer fuel entry (suc layer)) (descend fuel layer)

-- The first `k` hits that are not tombstoned.
unfoldable pub first_alive : (ℕ → Bool) → ℕ → List Hit → List Hit
first_alive dead zero hits = []
first_alive dead (suc k) [] = []
first_alive dead (suc k) (h ∷ hits) =
    let skip = first_alive dead (suc k) hits in
    let keep = h ∷ first_alive dead k hits in if dead h.id then skip else keep

-- `entry` is `entry_point_`, `none` where it is invalid, `top` is `max_layer_`.
unfoldable pub knn_search_k :
    GraphIndex
    → (dead : ℕ → Bool) (entry : Option ℕ) (top fuel k ef_search : ℕ) → Bool
    → Outcome (List Hit × Bool)
knn_search_k x dead none top fuel k ef_search corrupt = done ([], corrupt)
knn_search_k x dead (some entry) top fuel k ef_search corrupt =
    if k == 0
    then done ([], corrupt)
    else (and_then (descend x fuel top entry) (λ near.
        and_then (search_layer x fuel near (max ef_search k) zero corrupt)
          (λ found. done (first_alive dead k found.0, found.1))))
