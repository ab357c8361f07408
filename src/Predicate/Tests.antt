-- ===== src/Predicate/Tests.antt =====
-- The filters on a small library of documents.
use aster_vec.Base.{
  ℕ, ◌≡◌, ◌≤◌, refl, Bool, true, false, List, [], ◌∷◌, Option, none, some, ltb, leb, ◌==◌,
  if◌then◌else◌, arith,
}
use aster_vec.Base.Bytes.{Bytes, same_bytes}
use aster_vec.Base.Status.{ok}
use aster_vec.Predicate.Json.{JsonValue}
use aster_vec.Predicate.Kinds.{Predicate, predicate, nil, gt}
use aster_vec.Predicate.{matches, split_path, split_from, any_of}
use aster_vec.Predicate.Parse.{
  parse_object, parse_conjuncts, parse_leaves, operator_kind, logical_kind,
}
use aster_vec.Predicate.Kinded.{satisfies}
use aster_vec.Predicate.Meaning.{means}
use aster_vec.Predicate.Sound.{satisfies-parse_object}
use aster_vec.Predicate.Heights.{height, matches-parse_object}
use aster_vec.Predicate.Bounds.{parse_object-height}

mutual
  data Doc : Type 0 where
    num : ℕ → Doc
    obj : Fields → Doc

  data Fields : Type 0 where
    end : Fields
    field : Bytes → Doc → Fields → Fields

abbrev is_obj : Doc → Bool
is_obj (num n) = false
is_obj (obj fs) = true

abbrev is_num : Doc → Bool
is_num (num n) = true
is_num (obj fs) = false

abbrev field_items : Fields → List (Bytes × Doc)
field_items end = []
field_items (field k v fs) = (k, v) ∷ field_items fs

abbrev items_of : Doc → List (Bytes × Doc)
items_of (num n) = []
items_of (obj fs) = field_items fs

abbrev find_field : Fields → Bytes → Option Doc
find_field end key = none
find_field (field k v fs) key =
    let rest = find_field fs key in if same_bytes k key then some v else rest

abbrev find_in : Doc → Bytes → Option Doc
find_in (num n) key = none
find_in (obj fs) key = find_field fs key

abbrev compare_by : (ℕ → ℕ → Bool) → Doc → Doc → Bool
compare_by test (num a) (num b) = test a b
compare_by test a b = false

abbrev docs : JsonValue Doc
docs = record {
  null = num 0;
  parse = λ text. none;
  is_object = is_obj;
  is_array = λ d. false;
  is_number = is_num;
  is_string = λ d. false;
  is_boolean = λ d. false;
  as_boolean = λ d. false;
  items = items_of;
  find = find_in;
  elements = λ d. [];
  equal = compare_by (λ a b. a == b);
  greater = compare_by (λ a b. ltb b a);
  greater_equal = compare_by (λ a b. leb b a);
  less = compare_by ltb;
  less_equal = compare_by leb;
}

-- `{"a": {"$gt": 1}}` and `{"a": 2}`.
abbrev above_one : Doc
above_one = obj (field (b'a' ∷ []) (obj (field (b'$' ∷ b'g' ∷ b't' ∷ []) (num 1) end)) end)

abbrev two : Doc
two = obj (field (b'a' ∷ []) (num 2) end)

abbrev above_one_predicate : Predicate Doc
above_one_predicate = predicate gt ((b'a' ∷ []) ∷ []) (num 1) [] true nil

parsed : parse_object docs 33 above_one ≡ ok above_one_predicate
unfolding parse_object parse_conjuncts parse_leaves operator_kind logical_kind same_bytes any_of
    split_path split_from
parsed = refl

satisfies-parse_object_example :
    satisfies docs above_one_predicate two ≡ means docs 33 above_one two
satisfies-parse_object_example =
    satisfies-parse_object docs two 33 above_one above_one_predicate parsed

matches-parse_object_example : matches docs above_one_predicate two ≡ means docs 33 above_one two
matches-parse_object_example =
    matches-parse_object docs 33 above_one two above_one_predicate parsed
      (unfold height in omega arith)

parse_object-height_example : height above_one_predicate ≤ 35
parse_object-height_example = parse_object-height docs 33 above_one above_one_predicate parsed
