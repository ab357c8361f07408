-- ===== src/Predicate/Bounds.antt =====
-- The predicates that the parser of src/metadata.cc makes are at most two levels higher than the
-- levels that it may go down.
use aster_vec.Base.{
  ℕ, zero, suc, ◌+◌, ◌≤◌, ◌≡◌, sym, ◌∙◌, Bool, true, ◌&&◌, List, [], ◌∷◌, Option, none, some,
  if_true, if_false, Bool-cases, inl, inr, arith,
}
use mathlib.Core.Path.{subst}
use aster_vec.Base.Bytes.{Bytes}
use aster_vec.Base.Status.{Result, ok, bind_ok, ok_injective, err_absurd, guard_ok, refuse_ok}
use aster_vec.Predicate.Json.{JsonValue}
use aster_vec.Predicate.Kinds.{
  Kind, eq, ne, gt, gte, lt, lte, in_list, nin, exists, contains_any, contains_all, conjunction,
  disjunction, FieldPath, Predicate, predicate, Predicates, nil, cons,
}
use aster_vec.Predicate.{split_path}
use aster_vec.Predicate.Parse.{
  operator_kind, logical_kind, collapse_with, leaf, list_leaf, operator_leaf, parse_leaves,
  parse_operator_object, has_operator, has_plain, parse_condition, parse_field, parse_conjuncts,
  parse_elements, parse_object, parse_logical_array,
}
use aster_vec.Predicate.Heights.{height, max_height}

module _ {J : Type 0} (json : JsonValue J) where
  height-collapse : (ps : Predicates J) → height (collapse_with json.null ps) ≤ suc (max_height ps)
  unfolding height
  height-collapse nil = omega arith
  height-collapse (cons p nil) = omega arith
  height-collapse (cons p (cons q ps)) = omega arith

  -- What is known of the made predicate holds of the returned one.
  height_at : (p q : Predicate J) (n : ℕ) → ok q ≡ ok p → height q ≤ n → height p ≤ n
  height_at p q n e h = subst (λ r. height r ≤ n) (ok_injective e) h

  max_height_at :
      (ps qs : Predicates J) (n : ℕ) → ok qs ≡ ok ps → max_height qs ≤ n → max_height ps ≤ n
  max_height_at ps qs n e h = subst (λ r. max_height r ≤ n) (ok_injective e) h

  collapse_at :
      (p : Predicate J) (ps : Predicates J) (n : ℕ)
      → ok (collapse_with json.null ps) ≡ ok p
      → max_height ps ≤ n
      → height p ≤ suc n
  collapse_at p ps n e h =
      height_at p (collapse_with json.null ps) (suc n) e (omega (arith, height-collapse ps, h))

  leaf-height :
      (kind : Kind) (path : FieldPath) (value : J) (values : List J) (expected : Bool)
      → height (predicate kind path value values expected nil) ≤ 1
  unfolding height
  leaf-height kind path value values expected = omega arith

  list_leaf-height :
      (kind : Kind) (path : FieldPath) (arg : J) (p : Predicate J)
      → list_leaf json kind path arg ≡ ok p
      → height p ≤ 1
  list_leaf-height kind path arg p h =
      let (array, e) = guard_ok (json.is_array arg) _ _ p h in
      height_at p _ 1 e (leaf-height kind path json.null (json.elements arg) true)

  operator_leaf-height :
      (path : FieldPath) (arg : J) (kind : Option Kind) (p : Predicate J)
      → operator_leaf json path arg kind ≡ ok p
      → height p ≤ 1
  operator_leaf-height path arg none p h = absurd (err_absurd h)
  operator_leaf-height path arg (some eq) p h = height_at p _ 1 h (leaf-height eq path arg [] true)
  operator_leaf-height path arg (some ne) p h = height_at p _ 1 h (leaf-height ne path arg [] true)
  operator_leaf-height path arg (some gt) p h = height_at p _ 1 h (leaf-height gt path arg [] true)
  operator_leaf-height path arg (some gte) p h =
      height_at p _ 1 h (leaf-height gte path arg [] true)
  operator_leaf-height path arg (some lt) p h = height_at p _ 1 h (leaf-height lt path arg [] true)
  operator_leaf-height path arg (some lte) p h =
      height_at p _ 1 h (leaf-height lte path arg [] true)
  operator_leaf-height path arg (some in_list) p h = list_leaf-height in_list path arg p h
  operator_leaf-height path arg (some nin) p h = list_leaf-height nin path arg p h
  operator_leaf-height path arg (some contains_any) p h = list_leaf-height contains_any path arg p h
  operator_leaf-height path arg (some contains_all) p h = list_leaf-height contains_all path arg p h
  operator_leaf-height path arg (some exists) p h =
      let (boolean, e) = guard_ok (json.is_boolean arg) _ _ p h in
      height_at p _ 1 e (leaf-height exists path json.null [] (json.as_boolean arg))
  operator_leaf-height path arg (some conjunction) p h = absurd (err_absurd h)
  operator_leaf-height path arg (some disjunction) p h = absurd (err_absurd h)

  parse_leaves-height :
      (path : FieldPath) (items : List (Bytes × J)) (ps : Predicates J)
      → parse_leaves json path items ≡ ok ps
      → max_height ps ≤ 1
  unfolding parse_leaves height
  parse_leaves-height path [] ps h = max_height_at ps nil 1 h (omega arith)
  parse_leaves-height path ((op, arg) ∷ items) ps h =
      let (p, hp, h1) = bind_ok (operator_leaf json path arg (operator_kind op)) _ ps h in
      let (qs, hq, h2) = bind_ok (parse_leaves json path items) _ ps h1 in
      max_height_at ps (cons p qs) 1 h2 (
        omega (
          arith,
          operator_leaf-height path arg (operator_kind op) p hp,
          parse_leaves-height path items qs hq,
        ))

  condition_height :
      (key : Bytes) (val : J) (p : Predicate J) → parse_condition json key val ≡ ok p → height p ≤ 2
  condition_height key val p h =
      let (alike, h1) = refuse_ok (has_operator json val && has_plain json val) _ _ p h in
      elim (Bool-cases (has_operator json val)) [
        | inl operators ↦ operators_height (sym (if_true _ _ operators) ∙ h1)
        | inr plain ↦
            height_at p (leaf json eq (split_path key) val) 2 (sym (if_false _ _ plain) ∙ h1)
              (omega (arith, leaf-height eq (split_path key) val [] true))
      ]
    where
      operators_height : parse_operator_object json (split_path key) val ≡ ok p → height p ≤ 2
      operators_height h1 =
          let (object, h2) = guard_ok (json.is_object val) _ _ p h1 in
          let (ps, hps, h3) =
            bind_ok (parse_leaves json (split_path key) (json.items val)) _ p h2 in
          collapse_at p ps 1 h3 (parse_leaves-height (split_path key) (json.items val) ps hps)

  fields_height :
      (logical : Kind → J → Result (Predicate J)) (n : ℕ)
      → ((kind : Kind) (arr : J) (p : Predicate J) → logical kind arr ≡ ok p → height p ≤ n + 2)
      → (items : List (Bytes × J)) (ps : Predicates J) → parse_conjuncts json logical items ≡ ok ps
      → max_height ps ≤ n + 2
  unfolding parse_conjuncts height
  fields_height logical n low [] ps h = max_height_at ps nil (n + 2) h (omega arith)
  fields_height logical n low ((key, val) ∷ items) ps h =
      let (p, hp, h1) = bind_ok (parse_field json logical key val (logical_kind key)) _ ps h in
      let (qs, hq, h2) = bind_ok (parse_conjuncts json logical items) _ ps h1 in
      max_height_at ps (cons p qs) (n + 2) h2
        (omega (arith, one (logical_kind key) p hp, fields_height logical n low items qs hq))
    where
      one :
          (kind : Option Kind) (p : Predicate J)
          → parse_field json logical key val kind ≡ ok p
          → height p ≤ n + 2
      one none p hp = omega (arith, condition_height key val p hp)
      one (some kind) p hp = low kind val p hp

  elements_height :
      (object : J → Result (Predicate J)) (n : ℕ)
      → ((el : J) (p : Predicate J) → object el ≡ ok p → height p ≤ n + 2)
      → (els : List J) (ps : Predicates J) → parse_elements json object els ≡ ok ps
      → max_height ps ≤ n + 2
  unfolding parse_elements height
  elements_height object n low [] ps h = max_height_at ps nil (n + 2) h (omega arith)
  elements_height object n low (el ∷ els) ps h =
      let (is_object, h0) = guard_ok (json.is_object el) _ _ ps h in
      let (p, hp, h1) = bind_ok (object el) _ ps h0 in
      let (qs, hq, h2) = bind_ok (parse_elements json object els) _ ps h1 in
      max_height_at ps (cons p qs) (n + 2) h2
        (omega (arith, low el p hp, elements_height object n low els qs hq))

  mutual
    unfolding parse_object height

    object_height :
        (levels : ℕ) (obj : J) (p : Predicate J)
        → parse_object json levels obj ≡ ok p
        → height p ≤ levels + 2
    object_height zero obj p h = absurd (err_absurd h)
    object_height (suc levels) obj p h =
        let (object, h1) = guard_ok (json.is_object obj) _ _ p h in
        let (ps, hps, h2) =
          bind_ok (parse_conjuncts json (parse_logical_array json levels) (json.items obj)) _ p
            h1 in
        let low : max_height ps ≤ levels + 2 =
          fields_height (parse_logical_array json levels) levels
            (λ kind arr q hq. logical_height levels kind arr q hq) (json.items obj) ps hps in
        omega (arith, collapse_at p ps (levels + 2) h2 low)

    logical_height :
        (levels : ℕ) (kind : Kind) (arr : J) (p : Predicate J)
        → parse_logical_array json levels kind arr ≡ ok p
        → height p ≤ levels + 2
    logical_height zero kind arr p h = absurd (err_absurd h)
    logical_height (suc levels) kind arr p h =
        let (array, h1) = guard_ok (json.is_array arr) _ _ p h in
        let (ps, hps, h2) =
          bind_ok (parse_elements json (parse_object json levels) (json.elements arr)) _ p h1 in
        let low : max_height ps ≤ levels + 2 =
          elements_height (parse_object json levels) levels
            (λ el q hq. object_height levels el q hq) (json.elements arr) ps hps in
        height_at p (predicate kind [] json.null [] true ps) (suc levels + 2) h2
          (omega (arith, low))

  -- The predicate that the parser makes of a filter object has at most two levels more than the
  -- parser may go down.
  pub parse_object-height :
      (levels : ℕ) (obj : J) (p : Predicate J)
      → parse_object json levels obj ≡ ok p
      → height p ≤ levels + 2
  parse_object-height levels obj p h = object_height levels obj p h
