-- ===== src/Predicate/Kinds.antt =====
-- The tree of predicates of src/include/metadata.h.
use aster_vec.Base.{Bool, List}
use aster_vec.Base.Bytes.{Bytes}

pub data Kind : Type 0 where
  eq ne gt gte lt lte in_list nin exists contains_any contains_all conjunction disjunction : Kind

abbrev pub FieldPath : Type 0
FieldPath = List Bytes

-- A predicate holds its kind, path, value, values, what `$exists` expects, and its children.
mutual
  pub data Predicate (J : Type 0) : Type 0 where
    predicate : Kind → FieldPath → J → List J → Bool → Predicates J → Predicate J

  pub data Predicates (J : Type 0) : Type 0 where
    nil : Predicates J
    cons : Predicate J → Predicates J → Predicates J
