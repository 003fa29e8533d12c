-- ===== src/Json/Sample.antt =====
-- A small JSON type that meets the interface, for the tests and the witnesses.
use package.text.Mathlib.TextPositions.{eq_refl}
use servcat.Prelude.{
  String, ◌=ₛ◌, ◌≡◌, refl, ap, Bool, true, false, ◌&&◌, Option, none, some, [], ◌∷◌, arith,
}
use servcat.Map.{Map}
use servcat.Json.{Json}

mutual
  pub data Sample : Type 0 where
    null : Sample
    bool : Bool → Sample
    text : String → Sample
    obj : Fields → Sample

  pub data Fields : Type 0 where
    end : Fields
    field : String → Sample → Fields → Fields

same_bool : Bool → Bool → Bool
same_bool true b = b
same_bool false true = false
same_bool false false = true

mutual
  unfolding same_bool

  pub same : Sample → Sample → Bool
  same null null = true
  same (bool a) (bool b) = same_bool a b
  same (text s) (text t) = s =ₛ t
  same (obj f) (obj g) = same_fields f g
  same _ _ = false

  same_fields : Fields → Fields → Bool
  same_fields end end = true
  same_fields (field k v f) (field j w g) = k =ₛ j && same v w && same_fields f g
  same_fields _ _ = false

pub from_map : Map Sample → Fields
from_map [] = end
from_map ((k, v) ∷ m) = field k v (from_map m)

pub to_map : Fields → Map Sample
to_map end = []
to_map (field k v f) = (k, v) ∷ to_map f

pub as_object : Sample → Option (Map Sample)
unfolding to_map
as_object (obj f) = some (to_map f)
as_object _ = none

to_map-from_map : (m : Map Sample) → to_map (from_map m) ≡ m
unfolding to_map from_map
to_map-from_map [] = refl
to_map-from_map ((k, v) ∷ m) = ap (λ r. (k, v) ∷ r) (to_map-from_map m)

pub as_object-obj : (m : Map Sample) → as_object (obj (from_map m)) ≡ some m
unfolding as_object
as_object-obj m = ap some (to_map-from_map m)

pub as_object-text : (s : String) → as_object (text s) ≡ none
unfolding as_object
as_object-text s = refl

same_bool_refl : (b : Bool) → same_bool b b ≡ true
unfolding same_bool
same_bool_refl true = refl
same_bool_refl false = refl

mutual
  unfolding same

  pub same_refl : (v : Sample) → same v v ≡ true
  same_refl null = refl
  same_refl (bool b) = same_bool_refl b
  same_refl (text s) = eq_refl s
  same_refl (obj f) = same_fields_refl f

  same_fields_refl : (f : Fields) → same_fields f f ≡ true
  same_fields_refl end = refl
  same_fields_refl (field k v f) = ground (arith, eq_refl k, same_refl v, same_fields_refl f)

instance unfoldable pub sample_json : Json Sample
unfolding same from_map as_object
sample_json = record {
  same = same;
  object = λ m. obj (from_map m);
  string = text;
  as_object = as_object;
  same_refl = same_refl;
  as_object-object = as_object-obj;
  as_object-string = as_object-text;
}
