-- ===== src/Engine/QueryTests.antt =====
-- Queries of src/astervec_db.cc over a small graph.
use mathlib.Core.Path.{subst}
use mathlib.Core.List.{Memᴰ}
use mathlib.Core.List.Memᴰ
use aster_vec.Base.{
  ℕ, ◌≡◌, refl, sym, Bool, true, false, List, [], ◌∷◌, ◌++◌, none, some, map, arith, if◌then◌else◌,
  inr,
}
use aster_vec.Base.Bytes.{Bytes, same_bytes}
use aster_vec.Base.Status.{ok, err, corruption}
use aster_vec.IdMap.{is_tombstoned}
use aster_vec.MetadataStore.{reverse_key, reverse_lookup}
use aster_vec.BigEndian.{be_bytes}
use aster_vec.MetadataStore.ListStore.{Rows, list_kv, search_rows}
use aster_vec.PointId.{int, encode, IsId}
use aster_vec.Predicate.Json.{JsonValue}
use aster_vec.Predicate.Parse.{is_space}
use aster_vec.Resolving.{Resolver}
use aster_vec.Search.{Hit, done, descend}
use aster_vec.Search.Nearest.{AreNearest}
use aster_vec.Search.Tests.{five, ids, five_inside, five-HasPoints, insertion_sort-IsSort}
use aster_vec.Engine.Writing.{ensure_metric_supported, validate_vector}
use aster_vec.Engine.Queries.{
  View, SearchOptions, validate_query, search_unfiltered_dense, search_dense, to_point_hits,
  mapped_rows,
}
use aster_vec.Engine.Answers.{
  IsSpaces, real_hit, point_hit, braces, search_unfiltered_dense_lem, search_dense-blank,
  to_point_hits-mapped,
}
use aster_vec.Engine.WriteTests.{listed, easy_rate, any_json, options, with_three}

abbrev any_values : JsonValue ℕ
any_values = record {
  null = 0;
  parse = λ text. some 0;
  is_object = λ j. true;
  is_array = λ j. false;
  is_number = λ j. false;
  is_string = λ j. false;
  is_boolean = λ j. false;
  as_boolean = λ j. false;
  items = λ j. [];
  find = λ j k. none;
  elements = λ j. [];
  equal = λ a b. true;
  greater = λ a b. false;
  greater_equal = λ a b. true;
  less = λ a b. false;
  less_equal = λ a b. true;
}

abbrev five_view : View (List ℕ) ℕ
five_view = record { index = λ v g. five; entry = λ g. some 0; top = λ g. 1 }

abbrev two_wide : SearchOptions
two_wide = record { k = 2; ef_search = 10; max_scan_candidates = 0 }

two_wide_valid :
    validate_query listed list_kv any_json any_values easy_rate options five_view 20 2 7 ≡ ok tt
unfolding validate_query ensure_metric_supported validate_vector
two_wide_valid = refl

search_unfiltered_dense_lem_example :
    (near : ℕ) × (hits : List Hit) × (corrupt' : Bool) × (descend five 20 1 0 ≡ done near)
    × AreNearest five (is_tombstoned with_three.ids) 2 near hits
    × (search_unfiltered_dense listed list_kv any_json any_values easy_rate options five_view 20 7
          two_wide with_three false
        ≡ done (
          if corrupt' then err corruption else ok (map (real_hit with_three.ids) hits),
          corrupt',
        ))
search_unfiltered_dense_lem_example =
    search_unfiltered_dense_lem listed list_kv any_json any_values easy_rate options five_view 20 7
      two_wide with_three false two_wide_valid ids five_inside insertion_sort-IsSort 0 refl
      five-HasPoints (omega arith) (omega arith) (omega arith) (omega arith)

abbrev spaces : Bytes
spaces = 32 ∷ 10 ∷ []

spaces_there : IsSpaces spaces
unfolding is_space
spaces_there = (refl, (refl, tt))

search_dense-blank_example :
    search_dense listed list_kv any_json any_values easy_rate options five_view 20 7 two_wide
      (spaces ++ (braces ++ spaces))
      with_three
      false
    ≡ search_unfiltered_dense listed list_kv any_json any_values easy_rate options five_view 20 7
        two_wide with_three false
search_dense-blank_example =
    search_dense-blank listed list_kv any_json any_values easy_rate options five_view 20 7 two_wide
      with_three false (spaces ++ (braces ++ spaces)) spaces spaces spaces_there spaces_there
      (inr refl)

abbrev keyed_store : Resolver Rows
keyed_store = record {
  keyed = true;
  store = some (some ((reverse_key 0, some (encode (int 70))) ∷ []));
  next_dense = 1;
}

abbrev one_hit : List Hit
one_hit = (record { id = 0; distance = 3 }) ∷ []

zero_mapped :
    reverse_lookup list_kv 0 (mapped_rows list_kv keyed_store.store) ≡ ok (encode (int 70))
unfolding reverse_lookup search_rows same_bytes be_bytes encode
zero_mapped = refl

one_mapped :
    (h : Hit)
    → Memᴰ h one_hit
    → reverse_lookup list_kv h.id (mapped_rows list_kv keyed_store.store) ≡ ok (encode (int 70))
one_mapped h m =
    subst
      (λ (g : Hit).
        reverse_lookup list_kv g.id (mapped_rows list_kv keyed_store.store) ≡ ok (encode (int 70)))
      (sym (Memᴰ.eq_of_singleton m)) zero_mapped

one_valid : (h : Hit) → Memᴰ h one_hit → IsId (int 70)
one_valid h m = omega arith

to_point_hits-mapped_example :
    to_point_hits list_kv keyed_store one_hit ≡ ok (map (point_hit list_kv (λ i. int 70)) one_hit)
to_point_hits-mapped_example =
    to_point_hits-mapped list_kv keyed_store one_hit (λ i. int 70) refl one_mapped one_valid
