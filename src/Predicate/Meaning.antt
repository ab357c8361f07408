-- ===== src/Predicate/Meaning.antt =====
-- What a filter on payloads means, read off the filter itself without the parser and the matcher of
-- src/metadata.cc: the dotted names, the operators by their names, `$and` and `$or`.
use aster_vec.Base.{
  ℕ, zero, suc, Bool, true, false, not, ◌&&◌, ◌||◌, List, [], ◌∷◌, ◌++◌, Option, none, some, ◌==◌,
  if◌then◌else◌,
}
use aster_vec.Base.Bytes.{Bytes, same_bytes}
use aster_vec.Predicate.Json.{JsonValue}

unfoldable pub every : {A : Type 0} → (A → Bool) → List A → Bool
every test [] = true
every test (x ∷ xs) = test x && every test xs

unfoldable pub one_of : {A : Type 0} → (A → Bool) → List A → Bool
one_of test [] = false
one_of test (x ∷ xs) = test x || one_of test xs

-- A name that begins with a dollar sign is that of an operator.
abbrev pub begins_with_dollar : Bytes → Bool
begins_with_dollar [] = false
begins_with_dollar (c ∷ name) = c == b'$'

module _ {J : Type 0} (json : JsonValue J) where
  abbrev pub member_of : J → Bytes → Option J
  member_of doc name = if json.is_object doc then json.find doc name else none

  -- The value under a dotted name, walked along its characters; `name` is the part since the last
  -- dot.
  unfoldable pub value_along : J → Bytes → Bytes → Option J
  value_along doc name [] = member_of doc name
  value_along doc name (c ∷ cs) =
      let inner = elim (member_of doc name) as (λ _. Option J) [
        | none ↦ none
        | some next ↦ value_along next [] cs
      ] in
      let on = value_along doc (name ++ (c ∷ [])) cs in if c == b'.' then inner else on

  abbrev pub value_at : J → Bytes → Option J
  value_at doc name = value_along doc [] name

  -- The operators, on the value at the name, which may be missing, and their argument.
  abbrev pub is_present : Option J → Bool
  is_present none = false
  is_present (some x) = true

  abbrev pub equals : Option J → J → Bool
  equals none arg = false
  equals (some x) arg = json.equal x arg

  -- Two numbers or two texts.
  abbrev pub comparable : J → J → Bool
  comparable x arg =
      (json.is_number x && json.is_number arg) || (json.is_string x && json.is_string arg)

  abbrev pub compares : (J → J → Bool) → Option J → J → Bool
  compares test none arg = false
  compares test (some x) arg = if comparable x arg then test x arg else false

  abbrev pub is_listed : Option J → J → Bool
  is_listed none arg = false
  is_listed (some x) arg = one_of (λ y. json.equal x y) (json.elements arg)

  -- Whether an array holds a value.
  abbrev pub holds_value : J → J → Bool
  holds_value x target = one_of (λ y. json.equal y target) (json.elements x)

  abbrev pub holds_one : Option J → J → Bool
  holds_one none arg = false
  holds_one (some x) arg =
      if json.is_array x then one_of (holds_value x) (json.elements arg) else false

  abbrev pub holds_every : Option J → J → Bool
  holds_every none arg = false
  holds_every (some x) arg =
      if json.is_array x then every (holds_value x) (json.elements arg) else false

  unfoldable pub operator_holds : Bytes → Option J → J → Bool
  operator_holds op v arg =
      if same_bytes op (b'$' ∷ b'e' ∷ b'q' ∷ [])
      then equals v arg
      else if same_bytes op (b'$' ∷ b'n' ∷ b'e' ∷ [])
      then not (equals v arg)
      else if same_bytes op (b'$' ∷ b'g' ∷ b't' ∷ [])
      then compares json.greater v arg
      else if same_bytes op (b'$' ∷ b'g' ∷ b't' ∷ b'e' ∷ [])
      then compares json.greater_equal v arg
      else if same_bytes op (b'$' ∷ b'l' ∷ b't' ∷ [])
      then compares json.less v arg
      else if same_bytes op (b'$' ∷ b'l' ∷ b't' ∷ b'e' ∷ [])
      then compares json.less_equal v arg
      else if same_bytes op (b'$' ∷ b'i' ∷ b'n' ∷ [])
      then is_listed v arg
      else if same_bytes op (b'$' ∷ b'n' ∷ b'i' ∷ b'n' ∷ [])
      then not (is_listed v arg)
      else if same_bytes op (
          b'$' ∷ b'c' ∷ b'o' ∷ b'n' ∷ b't' ∷ b'a' ∷ b'i' ∷ b'n' ∷ b's' ∷ b'_' ∷ b'a' ∷ b'n' ∷ b'y'
          ∷ [])
      then holds_one v arg
      else if same_bytes op (
          b'$' ∷ b'c' ∷ b'o' ∷ b'n' ∷ b't' ∷ b'a' ∷ b'i' ∷ b'n' ∷ b's' ∷ b'_' ∷ b'a' ∷ b'l' ∷ b'l'
          ∷ [])
      then holds_every v arg
      else if same_bytes op (b'$' ∷ b'e' ∷ b'x' ∷ b'i' ∷ b's' ∷ b't' ∷ b's' ∷ [])
      then (if json.as_boolean arg then is_present v else not (is_present v))
      else false

  -- A value that is an object with an operator in it.
  abbrev pub names_operator : J → Bool
  names_operator val =
      if json.is_object val
      then one_of (λ item. begins_with_dollar item.0) (json.items val)
      else false

  -- A field of the filter: all its operators hold, or it is equal to the value.
  abbrev pub condition_holds : Bytes → J → J → Bool
  condition_holds name val doc =
      if names_operator val
      then every (λ item. operator_holds item.0 (value_at doc name) item.1) (json.items val)
      else equals (value_at doc name) val

  -- `$and`, `$or`, or a condition on a name.
  abbrev pub field_holds : (J → Bool) → (J → Bool) → J → Bytes → J → Bool
  field_holds all any doc key val =
      if same_bytes key (b'$' ∷ b'a' ∷ b'n' ∷ b'd' ∷ [])
      then all val
      else if same_bytes key (b'$' ∷ b'o' ∷ b'r' ∷ [])
      then any val
      else condition_holds key val doc

  -- A filter object means that each of its fields holds; `$and` that all filters of its array hold,
  -- `$or` that one does. The levels are those that the filter may have.
  unfoldable mutual
    pub means : ℕ → J → J → Bool
    means zero obj doc = false
    means (suc levels) obj doc =
        every
          (λ item.
            field_holds (λ arr. all_mean levels arr doc) (λ arr. one_means levels arr doc) doc
              item.0 item.1)
          (json.items obj)

    pub all_mean : ℕ → J → J → Bool
    all_mean zero arr doc = false
    all_mean (suc levels) arr doc = every (λ el. means levels el doc) (json.elements arr)

    pub one_means : ℕ → J → J → Bool
    one_means zero arr doc = false
    one_means (suc levels) arr doc = one_of (λ el. means levels el doc) (json.elements arr)
