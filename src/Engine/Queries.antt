-- ===== src/Engine/Queries.antt =====
-- The queries of src/astervec_db.cc: `searchUnfilteredDense`, `searchDense`, `toIntIds`,
-- `toPointHits`, `SearchKnn` and `SearchPoints`. The output is never null; `k` and `ef_search` below
-- 1 are 0.
use aster_vec.Base.{
  ℕ, zero, suc, Bool, true, false, List, [], ◌∷◌, Option, none, some, ◌==◌, if◌then◌else◌,
}
use aster_vec.Base.Bytes.{Bytes}
use aster_vec.Base.Status.{Result, ok, err, ◌>>=◌, not_found, corruption, invalid_argument}
use aster_vec.Bloom.{Rate}
use aster_vec.IdMap.{IdMap, is_tombstoned, resolve_real}
use aster_vec.MetadataStore.Store.{Kv, Json}
use aster_vec.MetadataStore.{get_doc, reverse_lookup}
use aster_vec.PointId.{PointId, int, str, decode}
use aster_vec.Predicate.Json.{JsonValue}
use aster_vec.Predicate.Kinds.{Predicate}
use aster_vec.Predicate.Parse.{trim_start, trim_end, is_empty_filter, parse_predicate}
use aster_vec.Resolving.{Resolver}
use aster_vec.Search.{Hit, GraphIndex, Outcome, done, and_then, knn_search_k}
use aster_vec.Search.Filtered.{node_matches, knn_search_k_filtered}
use aster_vec.Engine.{Graph, Engine}
use aster_vec.Engine.Writing.{Options, ensure_metric_supported, validate_vector, andthen}
use aster_vec.Engine.Public.{Db}

-- How the graph looks to a query: its index, entry point and top layer.
pub record View (G V : Type 0) : Type 0 where
  pub index : V → G → GraphIndex
  pub entry : G → Option ℕ
  pub top : G → ℕ

pub record SearchOptions : Type 0 where
  pub k : ℕ
  pub ef_search : ℕ
  pub max_scan_candidates : ℕ

pub record PointHit : Type 0 where
  pub id : PointId
  pub distance : ℕ

-- Results with the caller's dense ids; tombstoned ones are left out.
unfoldable pub translate : IdMap → List Hit → List Hit
translate ids [] = []
translate ids (h ∷ hits) =
    let rest = translate ids hits in
    if is_tombstoned ids h.id
    then rest
    else (record { id = resolve_real ids h.id; distance = h.distance }) ∷ rest

-- The same, which ends with `k` results.
unfoldable pub translate_first : ℕ → IdMap → List Hit → List Hit
translate_first zero ids hits = []
translate_first (suc k) ids [] = []
translate_first (suc k) ids (h ∷ hits) =
    let skip = translate_first (suc k) ids hits in
    let keep =
      (record { id = resolve_real ids h.id; distance = h.distance }) ∷ translate_first k ids hits in
    if is_tombstoned ids h.id then skip else keep

-- The status of a query and `graph_corrupt_`, or the way in which it does not return.
abbrev pub Answer : Type 0 → Type 0
Answer A = Outcome (Result A × Bool)

-- The answer, unless the graph is corrupt.
abbrev pub unless_corrupt : {A : Type 0} → A → Bool → Answer A
unless_corrupt a true = done (err corruption, true)
unless_corrupt a false = done (ok a, false)

abbrev pub when_valid : {A : Type 0} → Result (Unit {0}) → Bool → Answer A → Answer A
when_valid (ok _) corrupt go = go
when_valid (err c) corrupt go = done (err c, corrupt)

unfoldable pub is_blank : Bytes → Bool
is_blank filter = is_empty_filter (trim_end (trim_start filter))

-- From dense ids to point ids, with the contents of the metadata store.
module _ {D : Type 0} (kv : Kv D) where
  abbrev pub int_key : Option PointId → Result ℕ
  int_key none = err corruption
  int_key (some (str s)) = err invalid_argument
  int_key (some (int v)) = ok v

  abbrev pub add_int : Hit → Result Bytes → Result (List Hit) → Result (List Hit)
  add_int h (err not_found) rest = rest
  add_int h (err c) rest = err c
  add_int h (ok key) rest =
      int_key (decode key)
      >>= (λ v. rest >>= (λ hits. ok ((record { id = v; distance = h.distance }) ∷ hits)))

  -- The rows of the id map.
  abbrev pub mapped_rows : Option (Option D) → Option D
  mapped_rows none = none
  mapped_rows (some rows) = rows

  unfoldable pub keyed_ints : Option D → List Hit → Result (List Hit)
  keyed_ints rows [] = ok []
  keyed_ints rows (h ∷ hits) = add_int h (reverse_lookup kv h.id rows) (keyed_ints rows hits)

  unfoldable pub to_int_ids : Resolver D → List Hit → Result (List Hit)
  to_int_ids st hits = if st.keyed then keyed_ints (mapped_rows st.store) hits else ok hits

  abbrev pub point_key : Option PointId → Result PointId
  point_key none = err corruption
  point_key (some id) = ok id

  abbrev pub add_point : Hit → Result Bytes → Result (List PointHit) → Result (List PointHit)
  add_point h (err not_found) rest = rest
  add_point h (err c) rest = err c
  add_point h (ok key) rest =
      point_key (decode key)
      >>= (λ id. rest >>= (λ hits. ok ((record { id = id; distance = h.distance }) ∷ hits)))

  unfoldable pub keyed_points : Option D → List Hit → Result (List PointHit)
  keyed_points rows [] = ok []
  keyed_points rows (h ∷ hits) = add_point h (reverse_lookup kv h.id rows) (keyed_points rows hits)

  unfoldable pub dense_points : List Hit → List PointHit
  dense_points [] = []
  dense_points (h ∷ hits) = (record { id = int h.id; distance = h.distance }) ∷ dense_points hits

  unfoldable pub to_point_hits : Resolver D → List Hit → Result (List PointHit)
  to_point_hits st hits =
      if st.keyed then keyed_points (mapped_rows st.store) hits else ok (dense_points hits)

module _ {G D V J : Type 0} (graph : Graph G V) (kv : Kv D) (json : Json J) (values : JsonValue J)
    (rate : Rate) (options : Options) (view : View G V) (fuel : ℕ) where
  unfoldable pub validate_query : ℕ → V → Result (Unit {0})
  validate_query k query =
      if k == 0
      then err invalid_argument
      else (andthen (ensure_metric_supported options)
          (validate_vector graph kv json rate options query))

  unfoldable pub search_unfiltered_dense : V → SearchOptions → Engine G D → Bool → Answer (List Hit)
  search_unfiltered_dense query search e corrupt =
      when_valid (validate_query search.k query) corrupt (
        and_then
          (knn_search_k (view.index query e.graph) (is_tombstoned e.ids) (view.entry e.graph)
            (view.top e.graph) fuel search.k search.ef_search corrupt)
          (λ r. unless_corrupt (translate_first search.k e.ids r.0) r.1))

  abbrev pub docs : Option D → Option (ℕ → Result J)
  docs none = none
  docs (some rows) = some (λ i. get_doc kv json i rows)

  abbrev pub with_predicate :
      V → SearchOptions → Engine G D → Bool → Result (Predicate J) → Answer (List Hit)
  with_predicate query search e corrupt (err c) = done (err c, corrupt)
  with_predicate query search e corrupt (ok pred) =
      and_then
        (knn_search_k_filtered (view.index query e.graph)
          (node_matches values pred json.object (docs e.rows)) search.k (view.entry e.graph)
          (view.top e.graph) fuel search.max_scan_candidates corrupt)
        (λ r. unless_corrupt (translate e.ids r.0) r.1)

  unfoldable pub search_dense : V → SearchOptions → Bytes → Engine G D → Bool → Answer (List Hit)
  search_dense query search filter e corrupt = when_valid (validate_query search.k query) corrupt (
      if is_blank filter
      then search_unfiltered_dense query search e corrupt
      else with_predicate query search e corrupt (parse_predicate values filter))

  abbrev pub answered : {A B : Type 0} → (A → Result B) → Result A × Bool → Answer B
  answered f (s, corrupt) = done (s >>= f, corrupt)

  unfoldable pub search_knn : V → SearchOptions → Db G D → Bool → Answer (List Hit)
  search_knn query search db corrupt =
      and_then (search_unfiltered_dense query search db.engine corrupt)
        (answered (to_int_ids kv db.ids))

  unfoldable pub search_knn_filtered : V → SearchOptions → Bytes → Db G D → Bool → Answer (List Hit)
  search_knn_filtered query search filter db corrupt =
      and_then (search_dense query search filter db.engine corrupt)
        (answered (to_int_ids kv db.ids))

  unfoldable pub search_points : V → SearchOptions → Bytes → Db G D → Bool → Answer (List PointHit)
  search_points query search filter db corrupt =
      and_then (search_dense query search filter db.engine corrupt)
        (answered (to_point_hits kv db.ids))
