-- ===== src/Search/Filtered.antt =====
-- The filtered search of src/astervec_index.cc: `searchLayer` with a predicate and
-- `knnSearchKFiltered`, for one query. The counters of the statistics are left out.
-- `k * 50` is an `int` in the source and taken to fit one here.
use aster_vec.Base.{
  ℕ, zero, suc, ◌+◌, ◌*◌, Bool, true, false, ◌&&◌, ◌||◌, List, [], ◌∷◌, Option, none, some, length,
  ltb, leb, ◌==◌, if◌then◌else◌,
}
use aster_vec.Base.Status.{Result, ok, err, not_found}
use aster_vec.Predicate.Json.{JsonValue}
use aster_vec.Predicate.Kinds.{Predicate}
use aster_vec.Predicate.{matches}
use aster_vec.Search.{
  Hit, GraphIndex, Outcome, done, out_of_fuel, and_then, closer, farther, push, trim, top_exceeds,
  below_top, is_visited, get_edges, descend,
}

-- The document of a node: `get` is `none` without a metadata store, `object` is an empty object. A
-- node without a row has an empty document; where the row cannot be read there is none.
unfoldable pub fetch_meta : {J : Type 0} → J → Option (ℕ → Result J) → ℕ → Option J
fetch_meta object none i = some object
fetch_meta object (some get) i = elim (get i) [
  | ok doc ↦ some doc
  | err c ↦ elim c [ not_found ↦ some object | _ ↦ none ]
]

unfoldable pub node_matches :
    {J : Type 0} → JsonValue J → Predicate J → J → Option (ℕ → Result J) → ℕ → Bool
node_matches values pred object get i = elim (fetch_meta object get i) [
  | none ↦ false
  | some doc ↦ matches values pred doc
]

pub record FilterSearch : Type 0 where
  pub visited : List ℕ
  pub candidates : List Hit
  pub results : List Hit
  pub scanned : ℕ
  pub corrupt : Bool

-- The results are popped from the farthest on, and reversed.
unfoldable pub drain : List Hit → List Hit → List Hit
drain [] out = out
drain (h ∷ heap) out = drain heap (h ∷ out)

-- `fits` is `node_matches`.
module _ (x : GraphIndex) (fits : ℕ → Bool) (k : ℕ) where
  abbrev pub disk_hit : ℕ → Hit
  disk_hit i = record { id = i; distance = x.disk i }

  -- A neighbour that was not visited: every node may lead on, only those that fit are results.
  unfoldable pub take_in : ℕ → FilterSearch → FilterSearch
  take_in i s =
      let near = ltb (length s.results) k || top_exceeds s.results (x.disk i) in
      record s {
        visited = i ∷ s.visited;
        scanned = s.scanned + 1;
        candidates = if near then push closer (disk_hit i) s.candidates else s.candidates;
        results =
            if fits i && near then trim k (push farther (disk_hit i) s.results) else s.results;
      }

  unfoldable pub offer_filtered : List ℕ → FilterSearch → FilterSearch
  offer_filtered [] s = s
  offer_filtered (i ∷ ids) s =
      offer_filtered ids (if is_visited i s.visited then s else take_in i s)

  unfoldable pub expand_filtered : ℕ → FilterSearch → FilterSearch
  expand_filtered i s =
      let (ids, corrupt) = get_edges x i s.corrupt in
      offer_filtered ids (record s { corrupt = corrupt })

  -- The loop, and whether it ended at the cap of scanned nodes.
  unfoldable pub filtered_loop : ℕ → ℕ → FilterSearch → Outcome (FilterSearch × Bool)
  filtered_loop zero cap s = out_of_fuel
  filtered_loop (suc fuel) cap s = elim s.candidates [
    | [] ↦ done (s, false)
    | c ∷ rest ↦
        let s' : FilterSearch = record s { candidates = rest } in
        let next = filtered_loop fuel cap (expand_filtered c.id s') in
        if leb k (length s.results) && below_top s.results c.distance
        then done (s', false)
        else if leb cap s.scanned
        then done (s', true)
        else next
  ]

  unfoldable pub start_filtered : ℕ → Bool → FilterSearch
  start_filtered entry corrupt = record {
    visited = entry ∷ [];
    candidates = disk_hit entry ∷ [];
    results = if fits entry then disk_hit entry ∷ [] else [];
    scanned = 0;
    corrupt = corrupt;
  }

  -- The hits, nearest first, whether a read of the graph failed, and whether the cap was hit. A cap
  -- of 0 stands for none given.
  unfoldable pub search_layer_filtered : ℕ → ℕ → ℕ → Bool → Outcome (List Hit × Bool × Bool)
  search_layer_filtered fuel entry max_scan corrupt =
      let cap = if max_scan == 0 then k * 50 else max_scan in
      if k == 0
      then done ([], corrupt, false)
      else (and_then (filtered_loop fuel cap (start_filtered entry corrupt))
          (λ r. done (drain r.0.results [], r.0.corrupt, r.1)))

  unfoldable pub knn_search_k_filtered :
      Option ℕ → ℕ → ℕ → ℕ → Bool → Outcome (List Hit × Bool × Bool)
  knn_search_k_filtered none top fuel max_scan corrupt = done ([], corrupt, false)
  knn_search_k_filtered (some entry) top fuel max_scan corrupt =
      if k == 0
      then done ([], corrupt, false)
      else (and_then (descend x fuel top entry)
          (λ near. search_layer_filtered fuel near max_scan corrupt))
