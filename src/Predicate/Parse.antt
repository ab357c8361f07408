-- ===== src/Predicate/Parse.antt =====
-- The parser of filters of src/metadata.cc. Where the source counts the depth up to its limit, the
-- functions here count down the levels that are left: depth and levels together are 33.
use aster_vec.Base.{
  ℕ, zero, suc, Bool, true, false, not, ◌&&◌, ◌||◌, List, [], ◌∷◌, Option, none, some, length, ltb,
  leb, ◌==◌, if◌then◌else◌,
}
use aster_vec.Base.Bytes.{Bytes, same_bytes}
use aster_vec.Base.Status.{Result, ok, err, ◌>>=◌, invalid_argument}
use aster_vec.Predicate.Json.{JsonValue}
use aster_vec.Predicate.Kinds.{
  Kind, eq, ne, gt, gte, lt, lte, in_list, nin, exists, contains_any, contains_all, conjunction,
  disjunction, FieldPath, Predicate, predicate, Predicates, nil, cons,
}
use aster_vec.Predicate.{split_path, max_predicate_depth, any_of}

abbrev pub max_filter_json_bytes : ℕ
max_filter_json_bytes = 8192

-- The operator that a key names, in the order in which the source compares it.
unfoldable pub operator_kind : Bytes → Option Kind
operator_kind op =
    if same_bytes op (b'$' ∷ b'e' ∷ b'q' ∷ [])
    then some eq
    else if same_bytes op (b'$' ∷ b'n' ∷ b'e' ∷ [])
    then some ne
    else if same_bytes op (b'$' ∷ b'g' ∷ b't' ∷ [])
    then some gt
    else if same_bytes op (b'$' ∷ b'g' ∷ b't' ∷ b'e' ∷ [])
    then some gte
    else if same_bytes op (b'$' ∷ b'l' ∷ b't' ∷ [])
    then some lt
    else if same_bytes op (b'$' ∷ b'l' ∷ b't' ∷ b'e' ∷ [])
    then some lte
    else if same_bytes op (b'$' ∷ b'i' ∷ b'n' ∷ [])
    then some in_list
    else if same_bytes op (b'$' ∷ b'n' ∷ b'i' ∷ b'n' ∷ [])
    then some nin
    else if same_bytes op (
        b'$' ∷ b'c' ∷ b'o' ∷ b'n' ∷ b't' ∷ b'a' ∷ b'i' ∷ b'n' ∷ b's' ∷ b'_' ∷ b'a' ∷ b'n' ∷ b'y'
        ∷ [])
    then some contains_any
    else if same_bytes op (
        b'$' ∷ b'c' ∷ b'o' ∷ b'n' ∷ b't' ∷ b'a' ∷ b'i' ∷ b'n' ∷ b's' ∷ b'_' ∷ b'a' ∷ b'l' ∷ b'l'
        ∷ [])
    then some contains_all
    else if same_bytes op (b'$' ∷ b'e' ∷ b'x' ∷ b'i' ∷ b's' ∷ b't' ∷ b's' ∷ [])
    then some exists
    else none

-- `$and` and `$or`.
unfoldable pub logical_kind : Bytes → Option Kind
logical_kind key =
    if same_bytes key (b'$' ∷ b'a' ∷ b'n' ∷ b'd' ∷ [])
    then some conjunction
    else if same_bytes key (b'$' ∷ b'o' ∷ b'r' ∷ [])
    then some disjunction
    else none

abbrev pub is_operator_key : Bytes → Bool
is_operator_key [] = false
is_operator_key (c ∷ key) = c == b'$'

unfoldable pub is_space : ℕ → Bool
is_space c = c == 32 || (leb 9 c && leb c 13)

unfoldable pub trim_start : Bytes → Bytes
trim_start [] = []
trim_start (c ∷ cs) = let rest = trim_start cs in if is_space c then rest else c ∷ cs

abbrev pub keep_unless_last : ℕ → Bytes → Bytes
keep_unless_last c [] = if is_space c then [] else c ∷ []
keep_unless_last c (d ∷ rest) = c ∷ d ∷ rest

unfoldable pub trim_end : Bytes → Bytes
trim_end [] = []
trim_end (c ∷ cs) = keep_unless_last c (trim_end cs)

-- Nothing, or the text `{}`, which both mean no filter.
unfoldable pub is_empty_filter : Bytes → Bool
is_empty_filter text = length text == 0 || same_bytes text (b'{' ∷ b'}' ∷ [])

abbrev pub collapse_with : {J : Type 0} → J → Predicates J → Predicate J
collapse_with null (cons p nil) = p
collapse_with null ps = predicate conjunction [] null [] true ps

module _ {J : Type 0} (json : JsonValue J) where
  abbrev pub leaf : Kind → FieldPath → J → Predicate J
  leaf kind path value = predicate kind path value [] true nil

  abbrev pub list_leaf : Kind → FieldPath → J → Result (Predicate J)
  list_leaf kind path arg =
      if json.is_array arg
      then ok (predicate kind path json.null (json.elements arg) true nil)
      else err invalid_argument

  -- One operator on a path. A logical kind is not an operator.
  abbrev pub operator_leaf : FieldPath → J → Option Kind → Result (Predicate J)
  operator_leaf path arg none = err invalid_argument
  operator_leaf path arg (some eq) = ok (leaf eq path arg)
  operator_leaf path arg (some ne) = ok (leaf ne path arg)
  operator_leaf path arg (some gt) = ok (leaf gt path arg)
  operator_leaf path arg (some gte) = ok (leaf gte path arg)
  operator_leaf path arg (some lt) = ok (leaf lt path arg)
  operator_leaf path arg (some lte) = ok (leaf lte path arg)
  operator_leaf path arg (some in_list) = list_leaf in_list path arg
  operator_leaf path arg (some nin) = list_leaf nin path arg
  operator_leaf path arg (some contains_any) = list_leaf contains_any path arg
  operator_leaf path arg (some contains_all) = list_leaf contains_all path arg
  operator_leaf path arg (some exists) =
      if json.is_boolean arg
      then ok (predicate exists path json.null [] (json.as_boolean arg) nil)
      else err invalid_argument
  operator_leaf path arg (some conjunction) = err invalid_argument
  operator_leaf path arg (some disjunction) = err invalid_argument

  unfoldable pub parse_leaves : FieldPath → List (Bytes × J) → Result (Predicates J)
  parse_leaves path [] = ok nil
  parse_leaves path ((op, arg) ∷ items) =
      operator_leaf path arg (operator_kind op)
      >>= (λ p. parse_leaves path items >>= (λ ps. ok (cons p ps)))

  abbrev pub parse_operator_object : FieldPath → J → Result (Predicate J)
  parse_operator_object path obj =
      if json.is_object obj
      then parse_leaves path (json.items obj) >>= (λ ps. ok (collapse_with json.null ps))
      else err invalid_argument

  abbrev pub members : J → List (Bytes × J)
  members val = if json.is_object val then json.items val else []

  abbrev pub has_operator : J → Bool
  has_operator val = any_of (λ item. is_operator_key item.0) (members val)

  abbrev pub has_plain : J → Bool
  has_plain val = any_of (λ item. not (is_operator_key item.0)) (members val)

  -- A field: an object of operators, or a value that the field has to be equal to.
  abbrev pub parse_condition : Bytes → J → Result (Predicate J)
  parse_condition key val =
      if has_operator val && has_plain val
      then err invalid_argument
      else if has_operator val
      then parse_operator_object (split_path key) val
      else ok (leaf eq (split_path key) val)

  abbrev pub parse_field :
      (Kind → J → Result (Predicate J)) → Bytes → J → Option Kind → Result (Predicate J)
  parse_field logical key val (some kind) = logical kind val
  parse_field logical key val none = parse_condition key val

  unfoldable pub parse_conjuncts :
      (Kind → J → Result (Predicate J)) → List (Bytes × J) → Result (Predicates J)
  parse_conjuncts logical [] = ok nil
  parse_conjuncts logical ((key, val) ∷ items) =
      parse_field logical key val (logical_kind key)
      >>= (λ p. parse_conjuncts logical items >>= (λ ps. ok (cons p ps)))

  unfoldable pub parse_elements : (J → Result (Predicate J)) → List J → Result (Predicates J)
  parse_elements object [] = ok nil
  parse_elements object (el ∷ els) =
      if json.is_object el
      then object el >>= (λ p. parse_elements object els >>= (λ ps. ok (cons p ps)))
      else err invalid_argument

  unfoldable mutual
    pub parse_object : ℕ → J → Result (Predicate J)
    parse_object zero obj = err invalid_argument
    parse_object (suc levels) obj =
        if json.is_object obj
        then parse_conjuncts (parse_logical_array levels) (json.items obj)
          >>= (λ ps. ok (collapse_with json.null ps))
        else err invalid_argument

    pub parse_logical_array : ℕ → Kind → J → Result (Predicate J)
    parse_logical_array zero kind arr = err invalid_argument
    parse_logical_array (suc levels) kind arr =
        if json.is_array arr
        then parse_elements (parse_object levels) (json.elements arr)
          >>= (λ ps. ok (predicate kind [] json.null [] true ps))
        else err invalid_argument

  abbrev pub parse_document : Option J → Result (Predicate J)
  parse_document none = err invalid_argument
  parse_document (some parsed) = parse_object (suc max_predicate_depth) parsed

  unfoldable pub parse_predicate : Bytes → Result (Predicate J)
  parse_predicate text =
      let trimmed = trim_end (trim_start text) in
      if is_empty_filter trimmed
      then ok (predicate conjunction [] json.null [] true nil)
      else if ltb max_filter_json_bytes (length trimmed)
      then err invalid_argument
      else parse_document (json.parse trimmed)
