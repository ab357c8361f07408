-- ===== src/Predicate/Json.antt =====
-- What the filters use of the JSON library.
use aster_vec.Base.{Bool, List, Option}
use aster_vec.Base.Bytes.{Bytes}

-- `items` are the members of an object in the order of its iterator; `parse` is `none` where the
-- library throws; `null` is a default-constructed value.
pub record JsonValue (J : Type 0) : Type 0 where
  pub null : J
  pub parse : Bytes → Option J
  pub is_object : J → Bool
  pub is_array : J → Bool
  pub is_number : J → Bool
  pub is_string : J → Bool
  pub is_boolean : J → Bool
  pub as_boolean : J → Bool
  pub items : J → List (Bytes × J)
  pub find : J → Bytes → Option J
  pub elements : J → List J
  pub equal : J → J → Bool
  pub greater : J → J → Bool
  pub greater_equal : J → J → Bool
  pub less : J → J → Bool
  pub less_equal : J → J → Bool
