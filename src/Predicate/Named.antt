-- ===== src/Predicate/Named.antt =====
-- The kinds, paths and tests of src/metadata.cc stand for what the names in a filter mean.
use aster_vec.Base.{
  ℕ, zero, suc, ◌≡◌, refl, ap, ap₂, sym, ◌∙◌, Bool, true, false, not, ◌&&◌, ◌||◌, List, [], ◌∷◌,
  ◌++◌, Option, none, some, if◌then◌else◌, if_true, if_false, Bool-cases, inl, inr, ◌==◌,
}
use aster_vec.Base.Bytes.{Bytes, same_bytes}
use aster_vec.Predicate.Json.{JsonValue}
use aster_vec.Predicate.Kinds.{
  Kind, eq, ne, gt, gte, lt, lte, in_list, nin, exists, contains_any, contains_all, conjunction,
  disjunction,
}
use aster_vec.Predicate.{split_path, split_from, any_of, all_of, resolve, match_kind, has_element}
use aster_vec.Predicate.Parse.{operator_kind, logical_kind, has_operator, is_operator_key}
use aster_vec.Predicate.Kinded.{
  operator_means, operators_mean, condition_means, field_means, means_by_kind, logical_means,
}
use aster_vec.Predicate.Meaning.{
  every, one_of, begins_with_dollar, value_along, value_at, is_present, equals, compares, is_listed,
  holds_value, holds_one, holds_every, operator_holds, names_operator, condition_holds, field_holds,
  means, all_mean, one_means,
}

module _ {A : Type 0} where
  all_of_lem : (f g : A → Bool) → ((x : A) → f x ≡ g x) → (xs : List A) → all_of f xs ≡ every g xs
  unfolding all_of every
  all_of_lem f g same [] = refl
  all_of_lem f g same (x ∷ xs) = ap₂ (λ a b. a && b) (same x) (all_of_lem f g same xs)

  any_of_lem : (f g : A → Bool) → ((x : A) → f x ≡ g x) → (xs : List A) → any_of f xs ≡ one_of g xs
  unfolding any_of one_of
  any_of_lem f g same [] = refl
  any_of_lem f g same (x ∷ xs) = ap₂ (λ a b. a || b) (same x) (any_of_lem f g same xs)

-- A function of the kind that a test chooses.
if_step :
    {A B : Type 0} (f : A → B) (b : Bool) {x y : A} {p q : B}
    → f x ≡ p
    → f y ≡ q
    → f (if b then x else y) ≡ (if b then p else q)
if_step f true hx hy = hx
if_step f false hx hy = hy

module _ {J : Type 0} (json : JsonValue J) where
  resolve_lem :
      (cs seg : Bytes) (doc : J)
      → resolve json doc (split_from seg cs) ≡ value_along json doc seg cs
  unfolding resolve split_from value_along
  resolve_lem [] seg doc =
      ap (λ o. if json.is_object doc then o else none) (same (json.find doc seg))
    where
      same : (o : Option J) → (elim o as (λ _. Option J) [ none ↦ none | some cur ↦ some cur ]) ≡ o
      same none = refl
      same (some cur) = refl
  resolve_lem (c ∷ cs) seg doc = elim (Bool-cases (c == b'.')) [
    | inl dot ↦
        ap (resolve json doc) (if_true _ _ dot)
        ∙ step (λ cur. resolve_lem cs [] cur) (json.is_object doc) (json.find doc seg)
        ∙ sym (if_true _ _ dot)
    | inr other ↦
        ap (resolve json doc) (if_false _ _ other)
        ∙ resolve_lem cs (seg ++ (c ∷ [])) doc
        ∙ sym (if_false _ _ other)
  ]
    where
      step :
          (inner : (cur : J) → resolve json cur (split_from [] cs) ≡ value_along json cur [] cs)
          (b : Bool) (o : Option J)
          → (if b
              then elim o as (λ _. Option J) [
                | none ↦ none
                | some cur ↦ resolve json cur (split_from [] cs)
              ]
              else none)
            ≡ (elim (if b then o else none) as (λ _. Option J) [
              | none ↦ none
              | some next ↦ value_along json next [] cs
            ])
      step inner true none = refl
      step inner true (some cur) = inner cur
      step inner false o = refl

  path_lem : (name : Bytes) (doc : J) → resolve json doc (split_path name) ≡ value_at json doc name
  unfolding split_path
  path_lem name doc = resolve_lem name [] doc

  module _ (v : Option J) (arg : J) where
    abbrev By : Kind → Bool → Type 0
    By kind b = operator_means json v arg (some kind) ≡ b

  equal_lem : (v : Option J) (arg : J) → By v arg eq (equals json v arg)
  equal_lem none arg = refl
  equal_lem (some x) arg = refl

  unequal_lem : (v : Option J) (arg : J) → By v arg ne (not (equals json v arg))
  unequal_lem none arg = refl
  unequal_lem (some x) arg = refl

  gt_lem : (v : Option J) (arg : J) → By v arg gt (compares json json.greater v arg)
  gt_lem none arg = refl
  gt_lem (some x) arg = refl

  gte_lem : (v : Option J) (arg : J) → By v arg gte (compares json json.greater_equal v arg)
  gte_lem none arg = refl
  gte_lem (some x) arg = refl

  lt_lem : (v : Option J) (arg : J) → By v arg lt (compares json json.less v arg)
  lt_lem none arg = refl
  lt_lem (some x) arg = refl

  lte_lem : (v : Option J) (arg : J) → By v arg lte (compares json json.less_equal v arg)
  lte_lem none arg = refl
  lte_lem (some x) arg = refl

  in_lem : (v : Option J) (arg : J) → By v arg in_list (is_listed json v arg)
  in_lem none arg = refl
  in_lem (some x) arg = any_of_lem _ _ (λ y. refl) (json.elements arg)

  nin_lem : (v : Option J) (arg : J) → By v arg nin (not (is_listed json v arg))
  nin_lem none arg = refl
  nin_lem (some x) arg = ap not (any_of_lem _ _ (λ y. refl) (json.elements arg))

  element_lem : (x target : J) → has_element json x target ≡ holds_value json x target
  element_lem x target = any_of_lem _ _ (λ y. refl) (json.elements x)

  one_lem : (v : Option J) (arg : J) → By v arg contains_any (holds_one json v arg)
  one_lem none arg = refl
  one_lem (some x) arg =
      ap (λ b. if json.is_array x then b else false)
        (any_of_lem _ _ (element_lem x) (json.elements arg))

  every_lem : (v : Option J) (arg : J) → By v arg contains_all (holds_every json v arg)
  every_lem none arg = refl
  every_lem (some x) arg =
      ap (λ b. if json.is_array x then b else false)
        (all_of_lem _ _ (element_lem x) (json.elements arg))

  exists_lem :
      (v : Option J) (arg : J)
      → By v arg exists (if json.as_boolean arg then is_present json v else not (is_present json v))
  exists_lem none arg = by_flag (json.as_boolean arg)
    where
      by_flag : (b : Bool) → not b ≡ (if b then false else true)
      by_flag true = refl
      by_flag false = refl
  exists_lem (some x) arg = by_flag (json.as_boolean arg)
    where
      by_flag : (b : Bool) → b ≡ (if b then true else false)
      by_flag true = refl
      by_flag false = refl

  operator_lem :
      (op : Bytes) (v : Option J) (arg : J)
      → operator_means json v arg (operator_kind op) ≡ operator_holds json op v arg
  unfolding operator_kind operator_holds
  operator_lem op v arg = step _ _ _ (equal_lem v arg) (
      step _ _ _ (unequal_lem v arg) (
        step _ _ _ (gt_lem v arg) (
          step _ _ _ (gte_lem v arg) (
            step _ _ _ (lt_lem v arg) (
              step _ _ _ (lte_lem v arg) (
                step _ _ _ (in_lem v arg) (
                  step _ _ _ (nin_lem v arg) (
                    step _ _ _ (one_lem v arg)
                      (step _ _ _ (every_lem v arg) (step _ _ _ (exists_lem v arg) refl))))))))))
    where
      step :
          (b : Bool) (x y : Option Kind) {p q : Bool}
          → operator_means json v arg x ≡ p
          → operator_means json v arg y ≡ q
          → operator_means json v arg (if b then x else y) ≡ (if b then p else q)
      step b x y hx hy = if_step (operator_means json v arg) b hx hy

  names_lem : (val : J) → has_operator json val ≡ names_operator json val
  unfolding any_of one_of
  names_lem val = by_object (json.is_object val)
    where
      key_lem : (item : Bytes × J) → is_operator_key item.0 ≡ begins_with_dollar item.0
      key_lem ([], x) = refl
      key_lem (c ∷ key, x) = refl

      by_object :
          (b : Bool)
          → any_of (λ item. is_operator_key item.0) (if b then json.items val else [])
            ≡ (if b then one_of (λ item. begins_with_dollar item.0) (json.items val) else false)
      by_object true = any_of_lem _ _ key_lem (json.items val)
      by_object false = refl

  condition_lem :
      (key : Bytes) (val doc : J)
      → condition_means json key val doc ≡ condition_holds json key val doc
  condition_lem key val doc =
      ap
        (λ b.
          if b
          then operators_mean json (resolve json doc (split_path key)) (json.items val)
          else match_kind json eq (resolve json doc (split_path key)) val [] true true false)
        (names_lem val)
      ∙ ap₂ (λ p q. if names_operator json val then p else q)
          (all_of_lem _ _
            (λ item.
              ap (λ v. operator_means json v item.1 (operator_kind item.0)) (path_lem key doc)
              ∙ operator_lem item.0 (value_at json doc key) item.1)
            (json.items val))
          (ap (λ v. match_kind json eq v val [] true true false) (path_lem key doc)
            ∙ equal_at (value_at json doc key))
    where
      equal_at : (v : Option J) → match_kind json eq v val [] true true false ≡ equals json v val
      equal_at none = refl
      equal_at (some x) = refl

  field_lem :
      (levels : ℕ) (doc : J) (key : Bytes) (val : J)
      → logical_means json levels conjunction val doc ≡ all_mean json levels val doc
      → logical_means json levels disjunction val doc ≡ one_means json levels val doc
      → field_means json
          (λ kind arr. logical_means json levels kind arr doc)
          doc
          key
          val
          (logical_kind key)
        ≡ field_holds json
            (λ arr. all_mean json levels arr doc)
            (λ arr. one_means json levels arr doc)
            doc
            key
            val
  unfolding logical_kind
  field_lem levels doc key val all one =
      step (same_bytes key (b'$' ∷ b'a' ∷ b'n' ∷ b'd' ∷ [])) _ _ all
        (step (same_bytes key (b'$' ∷ b'o' ∷ b'r' ∷ [])) _ _ one (condition_lem key val doc))
    where
      f : Option Kind → Bool
      f = field_means json (λ kind arr. logical_means json levels kind arr doc) doc key val

      step :
          (b : Bool) (x y : Option Kind) {p q : Bool}
          → f x ≡ p
          → f y ≡ q
          → f (if b then x else y) ≡ (if b then p else q)
      step b x y hx hy = if_step f b hx hy

  mutual
    unfolding means_by_kind means

    pub means_by_kind_lem :
        (levels : ℕ) (obj doc : J) → means_by_kind json levels obj doc ≡ means json levels obj doc
    means_by_kind_lem zero obj doc = refl
    means_by_kind_lem (suc levels) obj doc =
        all_of_lem _ _
          (λ item.
            field_lem levels doc item.0 item.1 (all_lem levels item.1 doc)
              (one_of_lem levels item.1 doc))
          (json.items obj)

    all_lem :
        (levels : ℕ) (arr doc : J)
        → logical_means json levels conjunction arr doc ≡ all_mean json levels arr doc
    all_lem zero arr doc = refl
    all_lem (suc levels) arr doc =
        all_of_lem _ _ (λ el. means_by_kind_lem levels el doc) (json.elements arr)

    one_of_lem :
        (levels : ℕ) (arr doc : J)
        → logical_means json levels disjunction arr doc ≡ one_means json levels arr doc
    one_of_lem zero arr doc = refl
    one_of_lem (suc levels) arr doc =
        any_of_lem _ _ (λ el. means_by_kind_lem levels el doc) (json.elements arr)
