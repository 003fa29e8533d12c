-- ===== src/Prelude/Sorting.antt =====
-- `Vec::sort_by`, a stable sort, with what such a sort promises, and the order of `str`.
use Prim.Native.Nat.{ℕ, suc, ◌+◌}
use Prim.Native.Char.{code}
use Prim.Native.String.{String}
use mathlib.Core.Path.{◌≡◌, refl}
use mathlib.Core.Bool.{Bool, true, false, not, ◌&&◌, ◌||◌}
use mathlib.Core.List.{List, [], ◌∷◌, ◌++◌}
use native.Mathlib.Omega.{arith}
use text.Mathlib.Text.{◌==◌ as ◌=ₛ◌}
use servcat.Prelude.Tests.{ltb, ◌==◌, if◌then◌else◌}
use servcat.Prelude.Lists.{keep}

-- `a <= b`, by the code points
abbrev pub leb_text : String → String → Bool
leb_text String.[] t = true
leb_text (String.◌∷◌ c s) String.[] = false
leb_text (String.◌∷◌ c s) (String.◌∷◌ d t) =
    ltb (code c) (code d) || code c == code d && leb_text s t

pub leb_text-total : (s t : String) → leb_text s t ≡ false → leb_text t s ≡ true
leb_text-total String.[] t h = ground arith
leb_text-total (String.◌∷◌ c s) String.[] h = refl
leb_text-total (String.◌∷◌ c s) (String.◌∷◌ d t) h = ground (arith, leb_text-total s t)

pub leb_text_refl : (s : String) → leb_text s s ≡ true
leb_text_refl String.[] = refl
leb_text_refl (String.◌∷◌ c s) = ground (arith, leb_text_refl s)

-- `ORDER BY` one key and then others: the two orders of the first key, and that of the others.
abbrev pub then_by : Bool → Bool → Bool → Bool
then_by le ge others = le && (not ge || others)

-- How often a text is in a list.
abbrev pub count : String → List String → ℕ
count n [] = 0
count n (x ∷ xs) = let rest = count n xs in if x =ₛ n then suc rest else rest

pub count-append : (n : String) (xs ys : List String) → count n (xs ++ ys) ≡ count n xs + count n ys
count-append n [] ys = omega arith
count-append n (x ∷ xs) ys = ground (arith, count-append n xs ys)

module _ {ℓ} {A : Type ℓ} (le : A → A → Bool) where
  abbrev pub insert_sorted : A → List A → List A
  insert_sorted x [] = x ∷ []
  insert_sorted x (y ∷ ys) =
      let rest = insert_sorted x ys in if le x y then x ∷ y ∷ ys else y ∷ rest

  unfoldable pub sort_by : List A → List A
  sort_by [] = []
  sort_by (x ∷ xs) = insert_sorted x (sort_by xs)

  -- The test of each element and the next one.
  abbrev pub heads_le : A → List A → Bool
  heads_le x [] = true
  heads_le x (y ∷ ys) = le x y

  abbrev pub is_sorted : List A → Bool
  is_sorted [] = true
  is_sorted (x ∷ xs) = heads_le x xs && is_sorted xs

  module _ (total : (x y : A) → le x y ≡ false → le y x ≡ true) where
    heads_le-insert_sorted :
        (x y : A) (ys : List A)
        → le y x ≡ true
        → heads_le y ys ≡ true
        → heads_le y (insert_sorted x ys) ≡ true
    heads_le-insert_sorted x y [] h k = h
    heads_le-insert_sorted x y (z ∷ ys) h k = ground arith

    is_sorted-insert_sorted :
        (x : A) (ys : List A) → is_sorted ys ≡ true → is_sorted (insert_sorted x ys) ≡ true
    is_sorted-insert_sorted x [] h = refl
    is_sorted-insert_sorted x (y ∷ ys) h =
        ground (arith, total x y, is_sorted-insert_sorted x ys, heads_le-insert_sorted x y ys)

    pub is_sorted-sort_by : (xs : List A) → is_sorted (sort_by xs) ≡ true
    unfolding sort_by
    is_sorted-sort_by [] = refl
    is_sorted-sort_by (x ∷ xs) = is_sorted-insert_sorted x (sort_by xs) (is_sorted-sort_by xs)

  -- Elements that are as good as each other keep their order.
  module _ (p : A → Bool) (alike : (x y : A) → p x ≡ true → p y ≡ true → le x y ≡ true) where
    keep-insert_sorted : (x : A) (ys : List A) → keep p (insert_sorted x ys) ≡ keep p (x ∷ ys)
    keep-insert_sorted x [] = refl
    keep-insert_sorted x (y ∷ ys) = ground (arith, alike x y, keep-insert_sorted x ys)

    pub keep-sort_by : (xs : List A) → keep p (sort_by xs) ≡ keep p xs
    unfolding sort_by
    keep-sort_by [] = refl
    keep-sort_by (x ∷ xs) = ground (arith, keep-insert_sorted x (sort_by xs), keep-sort_by xs)

count-insert_sorted :
    (le : String → String → Bool) (n x : String) (ys : List String)
    → count n (insert_sorted le x ys) ≡ count n (x ∷ ys)
count-insert_sorted le n x [] = refl
count-insert_sorted le n x (y ∷ ys) = ground (arith, count-insert_sorted le n x ys)

pub count-sort_by :
    (le : String → String → Bool) (n : String) (xs : List String)
    → count n (sort_by le xs) ≡ count n xs
unfolding sort_by
count-sort_by le n [] = refl
count-sort_by le n (x ∷ xs) =
    ground (arith, count-insert_sorted le n x (sort_by le xs), count-sort_by le n xs)
