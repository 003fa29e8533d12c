-- ===== src/Map.antt =====
-- String-keyed maps: `serde_json::Map` and the `HashMap`s of the program, as association lists.
-- A write replaces the value in place or appends the key.
use text.Mathlib.TextEquality.{eq_iff}
use text.Mathlib.TextPositions.{eq_refl}
use servcat.Prelude.{
  String, ◌=ₛ◌, ◌≡◌, refl, ◌≢◌, Bool, true, false, Option, none, some, List, [], ◌∷◌, arith,
  if◌then◌else◌,
}

abbrev pub Map {ℓ} : Type ℓ → Type ℓ
Map V = List (String × V)

abbrev pub is_some {ℓ} : {V : Type ℓ} → Option V → Bool
is_some none = false
is_some (some v) = true

module _ {ℓ} {V : Type ℓ} where
  unfoldable pub get : Map V → String → Option V
  get [] k = none
  get ((j, v) ∷ m) k = if j =ₛ k then some v else get m k

  unfoldable pub contains_key : Map V → String → Bool
  unfolding get
  contains_key m k = is_some (get m k)

  unfoldable pub insert : Map V → String → V → Map V
  insert [] k v = (k, v) ∷ []
  insert ((j, w) ∷ m) k v = if j =ₛ k then (k, v) ∷ m else (j, w) ∷ insert m k v

  -- `remove`, without the removed value
  unfoldable pub remove : Map V → String → Map V
  remove [] k = []
  remove ((j, w) ∷ m) k = let rest = remove m k in if j =ₛ k then rest else (j, w) ∷ rest

  -- `retain(|_, v| p(v))`
  unfoldable pub retain : (V → Bool) → Map V → Map V
  retain p [] = []
  retain p ((j, w) ∷ m) = let rest = retain p m in if p w then (j, w) ∷ rest else rest

  pub get-insert :
      (m : Map V) (k j : String) (v : V)
      → get (insert m k v) j ≡ (if k =ₛ j then some v else get m j)
  unfolding get insert
  get-insert [] k j v = refl
  get-insert ((i, w) ∷ m) k j v =
      ground (arith, eq_iff k j, eq_iff i k, eq_iff i j, get-insert m k j v)

  pub get-insert_self : (m : Map V) (k : String) (v : V) → get (insert m k v) k ≡ some v
  get-insert_self m k v = simp (get-insert, eq_refl)

  pub get-insert_ne : (m : Map V) (k j : String) (v : V) → k ≢ j → get (insert m k v) j ≡ get m j
  get-insert_ne m k j v h = ground (arith, get-insert m k j v, eq_iff k j)

  pub get-remove :
      (m : Map V) (k j : String) → get (remove m k) j ≡ (if k =ₛ j then none else get m j)
  unfolding get remove
  get-remove [] k j = ground arith
  get-remove ((i, w) ∷ m) k j = ground (arith, eq_iff k j, eq_iff i k, eq_iff i j, get-remove m k j)
