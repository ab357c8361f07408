-- ===== src/Engine/Answers.antt =====
-- What the queries of src/astervec_db.cc answer.
use mathlib.Core.Logic.{⊎_elim}
use mathlib.Core.List.{Memᴰ}
use aster_vec.Base.{
  ℕ, zero, suc, ◌≤◌, ◌<◌, ◌≡◌, refl, ap, ◌∙◌, Bool, true, false, List, [], ◌∷◌, ◌++◌, Option, some,
  length, max, map, arith, if◌then◌else◌, if_true, if_false, ◌⊎◌, All,
}
use aster_vec.Base.Bytes.{Bytes, same_bytes}
use aster_vec.Base.Status.{Result, ok, err, ◌>>=◌, corruption}
use aster_vec.Bloom.{Rate}
use aster_vec.IdMap.{IdMap, is_tombstoned, resolve_real}
use aster_vec.MetadataStore.Store.{Kv, Json}
use aster_vec.MetadataStore.{reverse_lookup}
use aster_vec.PointId.{PointId, encode, IsId}
use aster_vec.PointId.RoundTrip.{decode-encode}
use aster_vec.Predicate.Json.{JsonValue}
use aster_vec.Predicate.Parse.{is_space, trim_start, trim_end, is_empty_filter, keep_unless_last}
use aster_vec.Resolving.{Resolver}
use aster_vec.Search.{Hit, GraphIndex, Outcome, done, and_then, descend, knn_search_k}
use aster_vec.Search.Local.{IsSort}
use aster_vec.Search.Rounds.{targets}
use aster_vec.Search.Nearest.{HasPoints, AreNearest, knn_search_k_lem}
use aster_vec.Engine.{Graph, Engine}
use aster_vec.Engine.Writing.{Options}
use aster_vec.Engine.Queries.{
  View, SearchOptions, PointHit, translate_first, unless_corrupt, when_valid, is_blank,
  validate_query, search_unfiltered_dense, search_dense, keyed_points, to_point_hits, mapped_rows,
  add_point, point_key,
}

-- A hit under the caller's dense id.
abbrev pub real_hit : IdMap → Hit → Hit
real_hit ids h = record { id = resolve_real ids h.id; distance = h.distance }

-- Hits that are alive and no more than `k` are all translated.
translate_all :
    (k : ℕ) (ids : IdMap) (hits : List Hit)
    → length hits ≤ k
    → ((h : Hit) → Memᴰ h hits → is_tombstoned ids h.id ≡ false)
    → translate_first k ids hits ≡ map (real_hit ids) hits
unfolding translate_first
translate_all zero ids [] short alive = refl
translate_all zero ids (h ∷ hits) short alive = absurd (omega arith)
translate_all (suc k) ids [] short alive = refl
translate_all (suc k) ids (h ∷ hits) short alive =
    if_false (translate_first (suc k) ids hits) (real_hit ids h ∷ translate_first k ids hits)
      (alive h (Memᴰ.head refl))
    ∙ ap (λ t. real_hit ids h ∷ t)
        (translate_all k ids hits (omega arith) (λ g m. alive g (Memᴰ.tail m)))

unless_corrupt_lem :
    {A : Type 0} (a : A) (corrupt : Bool)
    → unless_corrupt a corrupt ≡ done (if corrupt then err corruption else ok a, corrupt)
unless_corrupt_lem a true = refl
unless_corrupt_lem a false = refl

when_valid_twice :
    {A : Type 0} (s : Result (Unit {0})) (corrupt : Bool) (go : Outcome (Result A × Bool))
    → when_valid s corrupt (when_valid s corrupt go) ≡ when_valid s corrupt go
when_valid_twice (ok u) corrupt go = refl
when_valid_twice (err c) corrupt go = refl

-- White space.
abbrev pub IsSpaces : Bytes → Type 0
IsSpaces = All (λ c. is_space c ≡ true)

trim_start-spaces :
    (front text : Bytes) → IsSpaces front → trim_start (front ++ text) ≡ trim_start text
unfolding trim_start
trim_start-spaces [] text h = refl
trim_start-spaces (c ∷ front) text h =
    if_true (trim_start (front ++ text)) (c ∷ front ++ text) h.0 ∙ trim_start-spaces front text h.1

trim_end-spaces : (back : Bytes) → IsSpaces back → trim_end back ≡ []
unfolding trim_end
trim_end-spaces [] h = refl
trim_end-spaces (c ∷ back) h =
    ap (keep_unless_last c) (trim_end-spaces back h.1) ∙ if_true [] (c ∷ []) h.0

trim_start-all : (front : Bytes) → IsSpaces front → trim_start front ≡ []
unfolding trim_start
trim_start-all [] h = refl
trim_start-all (c ∷ front) h = if_true (trim_start front) (c ∷ front) h.0 ∙ trim_start-all front h.1

abbrev pub braces : Bytes
braces = b'{' ∷ b'}' ∷ []

is_blank-spaces : (front : Bytes) → IsSpaces front → is_blank front ≡ true
unfolding is_blank
is_blank-spaces front h =
    ap (λ t. is_empty_filter (trim_end t)) (trim_start-all front h)
    ∙ (unfold trim_end is_empty_filter in refl)

braces_lem :
    (back : Bytes)
    → trim_end back ≡ []
    → is_empty_filter (trim_end (trim_start (braces ++ back))) ≡ true
unfolding trim_start is_space trim_end is_empty_filter same_bytes
braces_lem back h = ap (λ t. is_empty_filter (keep_unless_last b'{' (keep_unless_last b'}' t))) h

is_blank-braces :
    (front back : Bytes)
    → IsSpaces front
    → IsSpaces back
    → is_blank (front ++ (braces ++ back)) ≡ true
unfolding is_blank
is_blank-braces front back hf hb =
    ap (λ t. is_empty_filter (trim_end t)) (trim_start-spaces front (braces ++ back) hf)
    ∙ braces_lem back (trim_end-spaces back hb)

module _ {G D V J : Type 0} (graph : Graph G V) (kv : Kv D) (json : Json J) (values : JsonValue J)
    (rate : Rate) (options : Options) (view : View G V) (fuel : ℕ) where
  module _ (query : V) (search : SearchOptions) (e : Engine G D) (corrupt : Bool)
      (valid : validate_query graph kv json values rate options view fuel search.k query
        ≡ ok tt) where
    abbrev seen : GraphIndex
    seen = view.index query e.graph

    answer : List Hit × Bool → Outcome (Result (List Hit) × Bool)
    answer r = unless_corrupt (translate_first search.k e.ids r.0) r.1

    -- A valid query of a store with an entry point, whose graph reads without an error, returns the
    -- nearest points under the caller's ids, where the search is wide enough.
    pub search_unfiltered_dense_lem :
        (known : List ℕ) (inside : (i j : ℕ) → Memᴰ j (targets seen zero i) → Memᴰ j known)
        (sorts : IsSort seen.sort) (entry : ℕ)
        → view.entry e.graph ≡ some entry
        → HasPoints seen
        → length seen.nodes < fuel
        → suc (length known) < fuel
        → 0 < search.k
        → suc (length known) < max search.ef_search search.k
        → (near : ℕ) × (hits : List Hit) × (corrupt' : Bool) × (descend seen fuel
              (view.top e.graph)
              entry
            ≡ done near)
          × AreNearest seen (is_tombstoned e.ids) search.k near hits
          × (search_unfiltered_dense graph kv json values rate options view fuel query search e
                corrupt
              ≡ done
                  (if corrupt' then err corruption else ok (map (real_hit e.ids) hits), corrupt'))
    unfolding search_unfiltered_dense answer
    search_unfiltered_dense_lem known inside sorts entry there points room room' some_k wide =
        let (near, hits, corrupt', ends, runs, nearest) =
          knn_search_k_lem seen (is_tombstoned e.ids) known inside sorts entry (view.top e.graph)
            fuel search.k search.ef_search corrupt points room room' some_k wide in
        (
          near,
          hits,
          corrupt',
          ends,
          nearest,
          ap
                (λ (r : Result (Unit {0})). when_valid r corrupt (
                  and_then
                    (knn_search_k seen (is_tombstoned e.ids) (view.entry e.graph) (view.top e.graph)
                      fuel search.k search.ef_search corrupt)
                    answer))
                valid
              ∙ ap
                  (λ (o : Option ℕ).
                    and_then
                      (knn_search_k seen (is_tombstoned e.ids) o (view.top e.graph) fuel search.k
                        search.ef_search corrupt)
                      answer)
                  there
              ∙ ap (λ (m : Outcome (List Hit × Bool)). and_then m answer) runs
              ∙ ap (λ (l : List Hit). unless_corrupt l corrupt')
                  (translate_all search.k e.ids hits nearest.at_most nearest.alive)
              ∙ unless_corrupt_lem (map (real_hit e.ids) hits) corrupt',
        )

module _ {G D V J : Type 0} (graph : Graph G V) (kv : Kv D) (json : Json J) (values : JsonValue J)
    (rate : Rate) (options : Options) (view : View G V) (fuel : ℕ) where
  -- A filter that is white space, or `{}` between white space, is no filter.
  pub search_dense-blank :
      (query : V) (search : SearchOptions) (e : Engine G D) (corrupt : Bool)
      (filter front back : Bytes)
      → IsSpaces front
      → IsSpaces back
      → (filter ≡ front) ⊎ (filter ≡ front ++ (braces ++ back))
      → search_dense graph kv json values rate options view fuel query search filter e corrupt
        ≡ search_unfiltered_dense graph kv json values rate options view fuel query search e corrupt
  unfolding search_dense search_unfiltered_dense
  search_dense-blank query search e corrupt filter front back hf hb which =
      let unfiltered =
        search_unfiltered_dense graph kv json values rate options view fuel query search e
          corrupt in
      let blank =
        ⊎_elim {C = is_blank filter ≡ true} (λ e'. ap is_blank e' ∙ is_blank-spaces front hf)
          (λ e'. ap is_blank e' ∙ is_blank-braces front back hf hb) which in
      ap
        (λ t.
          when_valid (validate_query graph kv json values rate options view fuel search.k query)
            corrupt t)
        (if_true unfiltered _ blank)
      ∙ when_valid_twice (validate_query graph kv json values rate options view fuel search.k query)
          corrupt _

module _ {D : Type 0} (kv : Kv D) where
  abbrev pub point_hit : (ℕ → PointId) → Hit → PointHit
  point_hit id h = record { id = id h.id; distance = h.distance }

  keyed_points-mapped :
      (rows : Option D) (hits : List Hit) (id : ℕ → PointId)
      → ((h : Hit) → Memᴰ h hits → reverse_lookup kv h.id rows ≡ ok (encode (id h.id)))
      → ((h : Hit) → Memᴰ h hits → IsId (id h.id))
      → keyed_points kv rows hits ≡ ok (map (point_hit id) hits)
  unfolding keyed_points
  keyed_points-mapped rows [] id mapped valid = refl
  keyed_points-mapped rows (h ∷ hits) id mapped valid =
      let rest = keyed_points kv rows hits in
      ap (λ (s : Result Bytes). add_point kv h s rest) (mapped h (Memᴰ.head refl))
      ∙ ap
          (λ (o : Option PointId).
            point_key kv o
            >>= (λ i. rest >>= (λ out. ok ((record { id = i; distance = h.distance }) ∷ out))))
          (decode-encode (id h.id) (valid h (Memᴰ.head refl)))
      ∙ ap (λ (r : Result (List PointHit)). r >>= (λ out. ok (point_hit id h ∷ out)))
          (keyed_points-mapped rows hits id (λ g m. mapped g (Memᴰ.tail m))
            (λ g m. valid g (Memᴰ.tail m)))

  -- In a keyed store, hits whose dense ids are mapped from point ids are reported under these.
  pub to_point_hits-mapped :
      (st : Resolver D) (hits : List Hit) (id : ℕ → PointId)
      → st.keyed ≡ true
      → ((h : Hit)
          → Memᴰ h hits
          → reverse_lookup kv h.id (mapped_rows kv st.store) ≡ ok (encode (id h.id)))
      → ((h : Hit) → Memᴰ h hits → IsId (id h.id))
      → to_point_hits kv st hits ≡ ok (map (point_hit id) hits)
  unfolding to_point_hits
  to_point_hits-mapped st hits id keyed mapped valid =
      if_true (keyed_points kv (mapped_rows kv st.store) hits) _ keyed
      ∙ keyed_points-mapped (mapped_rows kv st.store) hits id mapped valid
