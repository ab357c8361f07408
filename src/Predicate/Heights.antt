-- ===== src/Predicate/Heights.antt =====
-- How deep the predicates of the parser of src/metadata.cc are, and where the depth limit of the
-- matcher does not matter.
use aster_vec.Base.{ℕ, suc, ◌+◌, ◌≤◌, max, ◌≡◌, refl, ap₂, ◌∙◌, ◌&&◌, ◌||◌, le→ltb, if_false, arith}
use aster_vec.Base.Status.{ok}
use aster_vec.Predicate.Json.{JsonValue}
use aster_vec.Predicate.Kinds.{Predicate, predicate, Predicates, nil, cons}
use aster_vec.Predicate.{
  match_kind, matches_with_depth, all_match, any_match, matches, max_predicate_depth, resolve,
}
use aster_vec.Predicate.Parse.{parse_object}
use aster_vec.Predicate.Kinded.{satisfies, satisfies_all, satisfies_any}
use aster_vec.Predicate.Meaning.{means}
use aster_vec.Predicate.Sound.{satisfies-parse_object}

unfoldable mutual
  pub height : {J : Type 0} → Predicate J → ℕ
  height (predicate kind path value values expected children) = suc (max_height children)

  pub max_height : {J : Type 0} → Predicates J → ℕ
  max_height nil = 0
  max_height (cons p ps) = max (height p) (max_height ps)

module _ {J : Type 0} (json : JsonValue J) where
  mutual
    unfolding matches_with_depth satisfies height

    shallow_lem :
        (p : Predicate J) (doc : J) (depth : ℕ)
        → depth + height p ≤ suc max_predicate_depth
        → matches_with_depth json p doc depth ≡ satisfies json p doc
    shallow_lem (predicate kind path value values expected children) doc depth h =
        let inner : suc depth + max_height children ≤ suc max_predicate_depth = omega (arith, h) in
        let (every, one) = shallow_children children doc (suc depth) inner in
        if_false _ _ (le→ltb max_predicate_depth depth (omega (arith, h)))
        ∙ ap₂ (λ a b. match_kind json kind (resolve json doc path) value values expected a b) every
            one

    shallow_children :
        (ps : Predicates J) (doc : J) (depth : ℕ)
        → depth + max_height ps ≤ suc max_predicate_depth
        → (all_match json ps doc depth ≡ satisfies_all json ps doc)
          × (any_match json ps doc depth ≡ satisfies_any json ps doc)
    shallow_children nil doc depth h = (refl, refl)
    shallow_children (cons p ps) doc depth h =
        let first = shallow_lem p doc depth (omega (arith, h)) in
        let (every, one) = shallow_children ps doc depth (omega (arith, h)) in
        (ap₂ (λ a b. a && b) first every, ap₂ (λ a b. a || b) first one)

  -- On a filter object that the parser accepts, a match says exactly what the filter means, where
  -- the predicate has at most 33 levels.
  pub matches-parse_object :
      (levels : ℕ) (obj doc : J) (p : Predicate J)
      → parse_object json levels obj ≡ ok p
      → height p ≤ suc max_predicate_depth
      → matches json p doc ≡ means json levels obj doc
  unfolding matches
  matches-parse_object levels obj doc p h low =
      shallow_lem p doc 0 (omega (arith, low)) ∙ satisfies-parse_object json doc levels obj p h
