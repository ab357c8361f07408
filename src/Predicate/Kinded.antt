-- ===== src/Predicate/Kinded.antt =====
-- What a predicate of src/metadata.cc says of a document whatever its depth, and what a filter says
-- by the kinds of its operators.
use aster_vec.Base.{
  ℕ, zero, suc, Bool, true, false, ◌&&◌, ◌||◌, List, [], Option, none, some, if◌then◌else◌,
}
use aster_vec.Base.Bytes.{Bytes}
use aster_vec.Predicate.Json.{JsonValue}
use aster_vec.Predicate.Kinds.{Kind, eq, disjunction, Predicate, predicate, Predicates, nil, cons}
use aster_vec.Predicate.{split_path, any_of, all_of, resolve, match_kind}
use aster_vec.Predicate.Parse.{operator_kind, logical_kind, has_operator}

module _ {J : Type 0} (json : JsonValue J) where
  -- A predicate on a document, whatever the depth.
  unfoldable mutual
    pub satisfies : Predicate J → J → Bool
    satisfies (predicate kind path value values expected children) doc =
        match_kind json kind (resolve json doc path) value values expected
          (satisfies_all children doc) (satisfies_any children doc)

    pub satisfies_all : Predicates J → J → Bool
    satisfies_all nil doc = true
    satisfies_all (cons p ps) doc = satisfies p doc && satisfies_all ps doc

    pub satisfies_any : Predicates J → J → Bool
    satisfies_any nil doc = false
    satisfies_any (cons p ps) doc = satisfies p doc || satisfies_any ps doc

  -- An operator with its argument, on the value at the path.
  abbrev pub operator_means : Option J → J → Option Kind → Bool
  operator_means v arg none = false
  operator_means v arg (some kind) =
      match_kind json kind v arg (json.elements arg) (json.as_boolean arg) false false

  abbrev pub operators_mean : Option J → List (Bytes × J) → Bool
  operators_mean v items = all_of (λ item. operator_means v item.1 (operator_kind item.0)) items

  -- A field of the filter: all its operators, or that the field is equal to the value.
  abbrev pub condition_means : Bytes → J → J → Bool
  condition_means key val doc =
      if has_operator json val
      then operators_mean (resolve json doc (split_path key)) (json.items val)
      else match_kind json eq (resolve json doc (split_path key)) val [] true true false

  abbrev pub field_means : (Kind → J → Bool) → J → Bytes → J → Option Kind → Bool
  field_means logical doc key val (some kind) = logical kind val
  field_means logical doc key val none = condition_means key val doc

  abbrev pub fields_mean : (Kind → J → Bool) → J → List (Bytes × J) → Bool
  fields_mean logical doc items =
      all_of (λ item. field_means logical doc item.0 item.1 (logical_kind item.0)) items

  -- All of the elements, or any of them.
  abbrev pub elements_mean : (J → Bool) → Kind → List J → Bool
  elements_mean object disjunction els = any_of object els
  elements_mean object kind els = all_of object els

  -- A filter object means that each of its fields holds, an array of filters that all or any hold.
  unfoldable mutual
    pub means_by_kind : ℕ → J → J → Bool
    means_by_kind zero obj doc = false
    means_by_kind (suc levels) obj doc =
        fields_mean (λ kind arr. logical_means levels kind arr doc) doc (json.items obj)

    pub logical_means : ℕ → Kind → J → J → Bool
    logical_means zero kind arr doc = false
    logical_means (suc levels) kind arr doc =
        elements_mean (λ el. means_by_kind levels el doc) kind (json.elements arr)
