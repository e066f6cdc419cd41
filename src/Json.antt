-- ===== src/Json.antt =====
-- The library serde_json, which is a parameter of the crates that read or write JSON: the values, how
-- they are made, and how they are looked into. A map of values is given by its entries.
pub mod Laws
pub mod Tree
use walastack_rs.Base.{ℕ, String, Bool, Option, List, Result}

pub record SerdeJson : Type 1 where
  pub Value : Type 0
  pub null : Value
  pub boolean : Bool → Value
  pub number : ℕ → Value
  pub text : String → Value
  pub array : List Value → Value
  pub object : List (String × Value) → Value
  pub from_str : String → Result Value String
  pub get : (key : String) → Value → Option Value
  pub as_str : Value → Option String
  pub as_array : Value → Option (List Value)
