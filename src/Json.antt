-- ===== src/Json.antt =====
-- What the code uses of `serde_json::Value`: how values are built, their kinds, members of objects,
-- and equality. `V` is the type of values.
use comptrol.Base.{◌≡◌, ◌↔◌, String, Bool, true, Option, Map, get}

pub record Json (V : Type 0) : Type 0 where
  pub null : V
  pub of_string : String → V
  pub of_bool : Bool → V
  pub object : Map V → V
  pub as_object : V → Option (Map V)
  pub as_bool : V → Option Bool
  pub is_null : V → Bool
  pub is_string : V → Bool
  pub is_number : V → Bool
  pub is_boolean : V → Bool
  pub member : V → String → Option V
  pub same : V → V → Bool
  pub same_iff : (a b : V) → (same a b ≡ true) ↔ (a ≡ b)
  pub member_object : (m : Map V) (key : String) → member (object m) key ≡ get m key
