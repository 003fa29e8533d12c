-- ===== src/Json.antt =====
-- What the program uses of `serde_json::Value`: its equality test, the object and string
-- constructors and the read of an object. The type itself is a parameter of the model.
pub mod Sample
use servcat.Prelude.{String, ◌≡◌, Bool, true, Option, none, some}
use servcat.Map.{Map}

pub record Json (V : Type 0) : Type 0 where
  -- `==` on values
  pub same : V → V → Bool
  pub object : Map V → V
  pub string : String → V
  pub as_object : V → Option (Map V)
  pub same_refl : (v : V) → same v v ≡ true
  pub as_object-object : (m : Map V) → as_object (object m) ≡ some m
  pub as_object-string : (s : String) → as_object (string s) ≡ none
