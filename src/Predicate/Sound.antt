-- ===== src/Predicate/Sound.antt =====
-- The predicate that the parser of src/metadata.cc makes of a filter stands for what it means.
use aster_vec.Base.{
  ℕ, zero, suc, ◌≡◌, refl, ap, ap₂, sym, ◌∙◌, Bool, true, false, ◌&&◌, ◌||◌, List, [], ◌∷◌, Option,
  none, some, if_true, if_false, Bool-cases, inl, inr, ◌⊎◌,
}
use mathlib.Core.Path.{subst}
use aster_vec.Base.Bytes.{Bytes, same_bytes}
use aster_vec.Base.Status.{Result, ok, bind_ok, ok_injective, err_absurd, guard_ok, refuse_ok}
use aster_vec.Predicate.Json.{JsonValue}
use aster_vec.Predicate.Kinds.{
  Kind, eq, ne, gt, gte, lt, lte, in_list, nin, exists, contains_any, contains_all, conjunction,
  disjunction, FieldPath, Predicate, predicate, Predicates, nil, cons,
}
use aster_vec.Predicate.{split_path, any_of, all_of, resolve, match_kind}
use aster_vec.Predicate.Parse.{
  operator_kind, logical_kind, collapse_with, list_leaf, operator_leaf, parse_leaves,
  parse_operator_object, has_operator, has_plain, parse_condition, parse_field, parse_conjuncts,
  parse_elements, parse_object, parse_logical_array,
}
use aster_vec.Predicate.Meaning.{means}
use aster_vec.Predicate.Named.{means_by_kind_lem}
use aster_vec.Predicate.Kinded.{
  satisfies, satisfies_all, satisfies_any, operator_means, operators_mean, condition_means,
  field_means, fields_mean, elements_mean, means_by_kind, logical_means,
}

some_injective : {A : Type 0} {a b : A} → ◌≡◌ {A = Option A} (some a) (some b) → a ≡ b
some_injective h = cc

none_absurd : {A : Type 0} {a : A} → ◌≡◌ {A = Option A} none (some a) → ⊥
none_absurd h = cc

abbrev IsLogical : Kind → Type 0
IsLogical kind = (kind ≡ conjunction) ⊎ (kind ≡ disjunction)

logical_kind-IsLogical : (key : Bytes) (kind : Kind) → logical_kind key ≡ some kind → IsLogical kind
unfolding logical_kind
logical_kind-IsLogical key kind h =
    elim (Bool-cases (same_bytes key (b'$' ∷ b'a' ∷ b'n' ∷ b'd' ∷ []))) [
      | inl both ↦ inl (some_injective (sym h ∙ if_true _ _ both))
      | inr other ↦ elim (Bool-cases (same_bytes key (b'$' ∷ b'o' ∷ b'r' ∷ []))) [
        | inl one ↦ inr (some_injective (sym h ∙ if_false _ _ other ∙ if_true _ _ one))
        | inr neither ↦ absurd (none_absurd (sym (if_false _ _ other ∙ if_false _ _ neither) ∙ h))
      ]
    ]

module _ {J : Type 0} (json : JsonValue J) (doc : J) where
  and_true : (b : Bool) → (b && true) ≡ b
  and_true true = refl
  and_true false = refl

  satisfies-collapse :
      (ps : Predicates J)
      → satisfies json (collapse_with json.null ps) doc ≡ satisfies_all json ps doc
  unfolding satisfies
  satisfies-collapse nil = refl
  satisfies-collapse (cons p nil) = sym (and_true (satisfies json p doc))
  satisfies-collapse (cons p (cons q ps)) = refl

  -- A predicate made of its parts, by what the parts are.
  satisfies_at :
      (p q : Predicate J) (b : Bool) → q ≡ p → satisfies json q doc ≡ b → satisfies json p doc ≡ b
  satisfies_at p q b e h = ap (λ r. satisfies json r doc) (sym e) ∙ h

  list_leaf_lem :
      (kind : Kind) (path : FieldPath) (arg : J) (p : Predicate J)
      → list_leaf json kind path arg ≡ ok p
      → predicate kind path json.null (json.elements arg) true nil ≡ p
  list_leaf_lem kind path arg p h =
      let (array, e) = guard_ok (json.is_array arg) _ _ p h in ok_injective e

  -- A leaf on a document, by the value at its path.
  arm :
      (path : FieldPath) (kind : Kind) (value : J) (values : List J) (expected : Bool)
      {v : Option J}
      → resolve json doc path ≡ v
      → satisfies json (predicate kind path value values expected nil) doc
        ≡ match_kind json kind v value values expected true false
  unfolding satisfies
  arm path kind value values expected at =
      ap (λ o. match_kind json kind o value values expected true false) at

  operator_leaf_lem :
      (path : FieldPath) (arg : J) (kind : Option Kind) (p : Predicate J) (v : Option J)
      → resolve json doc path ≡ v
      → operator_leaf json path arg kind ≡ ok p
      → satisfies json p doc ≡ operator_means json v arg kind
  unfolding satisfies
  operator_leaf_lem path arg none p v at h = absurd (err_absurd h)
  operator_leaf_lem path arg (some eq) p none at h =
      satisfies_at p _ _ (ok_injective h) (arm path eq arg [] true at)
  operator_leaf_lem path arg (some eq) p (some x) at h =
      satisfies_at p _ _ (ok_injective h) (arm path eq arg [] true at)
  operator_leaf_lem path arg (some ne) p none at h =
      satisfies_at p _ _ (ok_injective h) (arm path ne arg [] true at)
  operator_leaf_lem path arg (some ne) p (some x) at h =
      satisfies_at p _ _ (ok_injective h) (arm path ne arg [] true at)
  operator_leaf_lem path arg (some gt) p v at h =
      satisfies_at p _ _ (ok_injective h) (arm path gt arg [] true at)
  operator_leaf_lem path arg (some gte) p v at h =
      satisfies_at p _ _ (ok_injective h) (arm path gte arg [] true at)
  operator_leaf_lem path arg (some lt) p v at h =
      satisfies_at p _ _ (ok_injective h) (arm path lt arg [] true at)
  operator_leaf_lem path arg (some lte) p v at h =
      satisfies_at p _ _ (ok_injective h) (arm path lte arg [] true at)
  operator_leaf_lem path arg (some in_list) p none at h =
      satisfies_at p _ _ (list_leaf_lem in_list path arg p h)
        (arm path in_list json.null (json.elements arg) true at)
  operator_leaf_lem path arg (some in_list) p (some x) at h =
      satisfies_at p _ _ (list_leaf_lem in_list path arg p h)
        (arm path in_list json.null (json.elements arg) true at)
  operator_leaf_lem path arg (some nin) p none at h =
      satisfies_at p _ _ (list_leaf_lem nin path arg p h)
        (arm path nin json.null (json.elements arg) true at)
  operator_leaf_lem path arg (some nin) p (some x) at h =
      satisfies_at p _ _ (list_leaf_lem nin path arg p h)
        (arm path nin json.null (json.elements arg) true at)
  operator_leaf_lem path arg (some contains_any) p none at h =
      satisfies_at p _ _ (list_leaf_lem contains_any path arg p h)
        (arm path contains_any json.null (json.elements arg) true at)
  operator_leaf_lem path arg (some contains_any) p (some x) at h =
      satisfies_at p _ _ (list_leaf_lem contains_any path arg p h)
        (arm path contains_any json.null (json.elements arg) true at)
  operator_leaf_lem path arg (some contains_all) p none at h =
      satisfies_at p _ _ (list_leaf_lem contains_all path arg p h)
        (arm path contains_all json.null (json.elements arg) true at)
  operator_leaf_lem path arg (some contains_all) p (some x) at h =
      satisfies_at p _ _ (list_leaf_lem contains_all path arg p h)
        (arm path contains_all json.null (json.elements arg) true at)
  operator_leaf_lem path arg (some exists) p none at h =
      let (boolean, e) = guard_ok (json.is_boolean arg) _ _ p h in
      satisfies_at p _ _ (ok_injective e) (arm path exists json.null [] (json.as_boolean arg) at)
  operator_leaf_lem path arg (some exists) p (some x) at h =
      let (boolean, e) = guard_ok (json.is_boolean arg) _ _ p h in
      satisfies_at p _ _ (ok_injective e) (arm path exists json.null [] (json.as_boolean arg) at)
  operator_leaf_lem path arg (some conjunction) p v at h = absurd (err_absurd h)
  operator_leaf_lem path arg (some disjunction) p v at h = absurd (err_absurd h)

  parse_leaves_lem :
      (path : FieldPath) (items : List (Bytes × J)) (ps : Predicates J)
      → parse_leaves json path items ≡ ok ps
      → satisfies_all json ps doc ≡ operators_mean json (resolve json doc path) items
  unfolding satisfies parse_leaves all_of
  parse_leaves_lem path [] ps h = ap (λ qs. satisfies_all json qs doc) (sym (ok_injective h))
  parse_leaves_lem path ((op, arg) ∷ items) ps h =
      let (p, hp, h1) = bind_ok (operator_leaf json path arg (operator_kind op)) _ ps h in
      let (qs, hq, h2) = bind_ok (parse_leaves json path items) _ ps h1 in
      ap (λ rs. satisfies_all json rs doc) (sym (ok_injective h2))
      ∙ ap₂ (λ a b. a && b) (operator_leaf_lem path arg (operator_kind op) p _ refl hp)
          (parse_leaves_lem path items qs hq)

  operator_object_lem :
      (path : FieldPath) (obj : J) (p : Predicate J)
      → parse_operator_object json path obj ≡ ok p
      → satisfies json p doc ≡ operators_mean json (resolve json doc path) (json.items obj)
  operator_object_lem path obj p h =
      let (object, h1) = guard_ok (json.is_object obj) _ _ p h in
      let (ps, hps, h2) = bind_ok (parse_leaves json path (json.items obj)) _ p h1 in
      satisfies_at p _ _ (ok_injective h2) (satisfies-collapse ps)
      ∙ parse_leaves_lem path (json.items obj) ps hps

  condition_lem :
      (key : Bytes) (val : J) (p : Predicate J)
      → parse_condition json key val ≡ ok p
      → satisfies json p doc ≡ condition_means json key val doc
  unfolding satisfies
  condition_lem key val p h =
      let (alike, h1) = refuse_ok (has_operator json val && has_plain json val) _ _ p h in
      elim (Bool-cases (has_operator json val)) [
        | inl operators ↦
            operator_object_lem (split_path key) val p (sym (if_true _ _ operators) ∙ h1)
            ∙ sym (if_true _ _ operators)
        | inr plain ↦
            satisfies_at p _ _ (ok_injective (sym (if_false _ _ plain) ∙ h1)) refl
            ∙ sym (if_false _ _ plain)
      ]

  module _ (logical : Kind → J → Result (Predicate J)) (logical_mean : Kind → J → Bool)
      (sound : (kind : Kind) (arr : J) (p : Predicate J)
        → IsLogical kind
        → logical kind arr ≡ ok p
        → satisfies json p doc ≡ logical_mean kind arr) where
    field_lem :
        (key : Bytes) (val : J) (kind : Option Kind) (p : Predicate J)
        → logical_kind key ≡ kind
        → parse_field json logical key val kind ≡ ok p
        → satisfies json p doc ≡ field_means json logical_mean doc key val kind
    field_lem key val none p named h = condition_lem key val p h
    field_lem key val (some kind) p named h =
        sound kind val p (logical_kind-IsLogical key kind named) h

    fields_lem :
        (items : List (Bytes × J)) (ps : Predicates J)
        → parse_conjuncts json logical items ≡ ok ps
        → satisfies_all json ps doc ≡ fields_mean json logical_mean doc items
    unfolding satisfies parse_conjuncts all_of
    fields_lem [] ps h = ap (λ qs. satisfies_all json qs doc) (sym (ok_injective h))
    fields_lem ((key, val) ∷ items) ps h =
        let (p, hp, h1) = bind_ok (parse_field json logical key val (logical_kind key)) _ ps h in
        let (qs, hq, h2) = bind_ok (parse_conjuncts json logical items) _ ps h1 in
        ap (λ rs. satisfies_all json rs doc) (sym (ok_injective h2))
        ∙ ap₂ (λ a b. a && b) (field_lem key val (logical_kind key) p refl hp)
            (fields_lem items qs hq)

  module _ (object : J → Result (Predicate J)) (object_means : J → Bool)
      (sound : (el : J) (p : Predicate J)
        → object el ≡ ok p
        → satisfies json p doc ≡ object_means el) where
    elements_lem :
        (els : List J) (ps : Predicates J)
        → parse_elements json object els ≡ ok ps
        → (satisfies_all json ps doc ≡ all_of object_means els)
          × (satisfies_any json ps doc ≡ any_of object_means els)
    unfolding satisfies parse_elements all_of any_of
    elements_lem [] ps h = (
      ap (λ qs. satisfies_all json qs doc) (sym (ok_injective h)),
      ap (λ qs. satisfies_any json qs doc) (sym (ok_injective h)),
    )
    elements_lem (el ∷ els) ps h =
        let (is_object, h0) = guard_ok (json.is_object el) _ _ ps h in
        let (p, hp, h1) = bind_ok (object el) _ ps h0 in
        let (qs, hq, h2) = bind_ok (parse_elements json object els) _ ps h1 in
        let rest = elements_lem els qs hq in
        (
          ap (λ rs. satisfies_all json rs doc) (sym (ok_injective h2))
              ∙ ap₂ (λ a b. a && b) (sound el p hp) rest.0,
          ap (λ rs. satisfies_any json rs doc) (sym (ok_injective h2))
              ∙ ap₂ (λ a b. a || b) (sound el p hp) rest.1,
        )

  array_lem :
      (levels : ℕ) (kind : Kind) (ps : Predicates J) (els : List J)
      → IsLogical kind
      → (satisfies_all json ps doc ≡ all_of (λ el. means_by_kind json levels el doc) els)
        × (satisfies_any json ps doc ≡ any_of (λ el. means_by_kind json levels el doc) els)
      → satisfies json (predicate kind [] json.null [] true ps) doc
        ≡ elements_mean json (λ el. means_by_kind json levels el doc) kind els
  unfolding satisfies
  array_lem levels kind ps els (inl both) h =
      subst
        (λ k.
          satisfies json (predicate k [] json.null [] true ps) doc
          ≡ elements_mean json (λ el. means_by_kind json levels el doc) k els)
        (sym both) h.0
  array_lem levels kind ps els (inr one) h =
      subst
        (λ k.
          satisfies json (predicate k [] json.null [] true ps) doc
          ≡ elements_mean json (λ el. means_by_kind json levels el doc) k els)
        (sym one) h.1

  mutual
    unfolding parse_object means_by_kind

    object_lem :
        (levels : ℕ) (obj : J) (p : Predicate J)
        → parse_object json levels obj ≡ ok p
        → satisfies json p doc ≡ means_by_kind json levels obj doc
    object_lem zero obj p h = absurd (err_absurd h)
    object_lem (suc levels) obj p h =
        let (object, h1) = guard_ok (json.is_object obj) _ _ p h in
        let (ps, hps, h2) =
          bind_ok (parse_conjuncts json (parse_logical_array json levels) (json.items obj)) _ p
            h1 in
        satisfies_at p _ _ (ok_injective h2) (satisfies-collapse ps)
        ∙ fields_lem (parse_logical_array json levels)
            (λ kind arr. logical_means json levels kind arr doc)
            (λ kind arr q named hq. logical_lem levels kind arr q named hq) (json.items obj) ps hps

    logical_lem :
        (levels : ℕ) (kind : Kind) (arr : J) (p : Predicate J)
        → IsLogical kind
        → parse_logical_array json levels kind arr ≡ ok p
        → satisfies json p doc ≡ logical_means json levels kind arr doc
    logical_lem zero kind arr p named h = absurd (err_absurd h)
    logical_lem (suc levels) kind arr p named h =
        let (array, h1) = guard_ok (json.is_array arr) _ _ p h in
        let (ps, hps, h2) =
          bind_ok (parse_elements json (parse_object json levels) (json.elements arr)) _ p h1 in
        satisfies_at p _ _ (ok_injective h2) (
          array_lem levels kind ps (json.elements arr) named (
            elements_lem (parse_object json levels) (λ el. means_by_kind json levels el doc)
              (λ el q hq. object_lem levels el q hq) (json.elements arr) ps hps))

  -- The predicate that the parser makes of a filter object is satisfied by a document exactly where
  -- the filter, read off the object itself, holds of the document.
  pub satisfies-parse_object :
      (levels : ℕ) (obj : J) (p : Predicate J)
      → parse_object json levels obj ≡ ok p
      → satisfies json p doc ≡ means json levels obj doc
  satisfies-parse_object levels obj p h =
      object_lem levels obj p h ∙ means_by_kind_lem json levels obj doc
