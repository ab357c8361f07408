-- ===== src/Predicate.antt =====
-- src/metadata.cc: the filters on payloads. The JSON library is a parameter. A filter is parsed
-- into a tree of predicates, and a predicate is matched against a document.
pub mod Json
pub mod Kinds
pub mod Parse
pub mod Meaning
pub mod Kinded
pub mod Named
pub mod Sound
pub mod Heights
pub mod Bounds
pub mod Paths
mod Tests
use aster_vec.Base.{
  ℕ, zero, suc, Bool, true, false, not, ◌&&◌, ◌||◌, List, [], ◌∷◌, ◌++◌, Option, none, some, ltb,
  ◌==◌, if◌then◌else◌,
}
use aster_vec.Base.Bytes.{Bytes}
use aster_vec.Predicate.Json.{JsonValue}
use aster_vec.Predicate.Kinds.{
  Kind, eq, ne, gt, gte, lt, lte, in_list, nin, exists, contains_any, contains_all, conjunction,
  disjunction, FieldPath, Predicate, predicate, Predicates, nil, cons,
}

abbrev pub max_predicate_depth : ℕ
max_predicate_depth = 32

unfoldable pub any_of : {A : Type 0} → (A → Bool) → List A → Bool
any_of test [] = false
any_of test (x ∷ xs) = test x || any_of test xs

unfoldable pub all_of : {A : Type 0} → (A → Bool) → List A → Bool
all_of test [] = true
all_of test (x ∷ xs) = test x && all_of test xs

-- The loop of `SplitPath`, with the segment that it is in.
unfoldable pub split_from : Bytes → Bytes → FieldPath
split_from seg [] = seg ∷ []
split_from seg (c ∷ cs) =
    let next = split_from [] cs in
    let on = split_from (seg ++ (c ∷ [])) cs in if c == b'.' then seg ∷ next else on

unfoldable pub split_path : Bytes → FieldPath
split_path key = split_from [] key

module _ {J : Type 0} (json : JsonValue J) where
  unfoldable pub resolve : J → FieldPath → Option J
  resolve doc [] = some doc
  resolve doc (seg ∷ path) =
      if json.is_object doc
      then elim (json.find doc seg) [ none ↦ none | some cur ↦ resolve cur path ]
      else none

  abbrev pub same_ordering_kind : J → J → Bool
  same_ordering_kind a b =
      (json.is_number a && json.is_number b) || (json.is_string a && json.is_string b)

  abbrev pub compare_ordered : Option J → J → (J → J → Bool) → Bool
  compare_ordered none rhs cmp = false
  compare_ordered (some v) rhs cmp = if same_ordering_kind v rhs then cmp v rhs else false

  abbrev pub is_element : J → List J → Bool
  is_element v xs = any_of (λ x. json.equal v x) xs

  -- The targets among the elements of an array.
  abbrev pub has_element : J → J → Bool
  has_element v target = any_of (λ el. json.equal el target) (json.elements v)

  -- The arms of the switch, from the value at the path and from what the loops over the children
  -- answer.
  abbrev pub match_kind : Kind → Option J → J → List J → Bool → Bool → Bool → Bool
  match_kind eq none value values expected every one = false
  match_kind eq (some v) value values expected every one = json.equal v value
  match_kind ne none value values expected every one = true
  match_kind ne (some v) value values expected every one = not (json.equal v value)
  match_kind gt v value values expected every one = compare_ordered v value json.greater
  match_kind gte v value values expected every one = compare_ordered v value json.greater_equal
  match_kind lt v value values expected every one = compare_ordered v value json.less
  match_kind lte v value values expected every one = compare_ordered v value json.less_equal
  match_kind in_list none value values expected every one = false
  match_kind in_list (some v) value values expected every one = is_element v values
  match_kind nin none value values expected every one = true
  match_kind nin (some v) value values expected every one = not (is_element v values)
  match_kind exists none value values expected every one = not expected
  match_kind exists (some v) value values expected every one = expected
  match_kind contains_any none value values expected every one = false
  match_kind contains_any (some v) value values expected every one =
      if json.is_array v then any_of (has_element v) values else false
  match_kind contains_all none value values expected every one = false
  match_kind contains_all (some v) value values expected every one =
      if json.is_array v then all_of (has_element v) values else false
  match_kind conjunction v value values expected every one = every
  match_kind disjunction v value values expected every one = one

  unfoldable mutual
    pub matches_with_depth : Predicate J → J → ℕ → Bool
    matches_with_depth (predicate kind path value values expected children) doc depth =
        let every = all_match children doc (suc depth) in
        let one = any_match children doc (suc depth) in
        if ltb max_predicate_depth depth
        then false
        else match_kind kind (resolve doc path) value values expected every one

    pub all_match : Predicates J → J → ℕ → Bool
    all_match nil doc depth = true
    all_match (cons p ps) doc depth = matches_with_depth p doc depth && all_match ps doc depth

    pub any_match : Predicates J → J → ℕ → Bool
    any_match nil doc depth = false
    any_match (cons p ps) doc depth = matches_with_depth p doc depth || any_match ps doc depth

  unfoldable pub matches : Predicate J → J → Bool
  matches p doc = matches_with_depth p doc 0
