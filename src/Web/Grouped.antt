-- ===== src/Web/Grouped.antt =====
-- The groups of the catalog page against what the page promises
-- (crates/server/src/web/pages/catalog.rs).
use text.Mathlib.TextEquality.{eq_iff}
use text.Mathlib.TextPositions.{eq_refl}
use servcat.Prelude.{
  ℕ, ◌+◌, ◌≤◌, String, ◌=ₛ◌, ◌≡◌, refl, ap, ◌∙◌, Bool, true, false, not, ◌&&◌, ◌||◌, List, [], ◌∷◌,
  ◌++◌, map, any, keep, All, arith, Bool-cases, inl, inr, if◌then◌else◌,
}
use servcat.Prelude.Sorting.{leb_text, count, count-append, sort_by, count-sort_by}
use servcat.Map.{Map, get, insert, remove, contains_key, get-insert, get-remove}
use servcat.Web.Groups.{
  category_order, CatalogCard, CategoryGroup, leb_card, or_empty, push, sort_values, keys, is_known,
  names_of, take_groups,
}

unfoldable pub one_if : Bool → ℕ
one_if true = 1
one_if false = 0

-- The cards that the map has under a name.
abbrev pub cards_in : Map (List CatalogCard) → String → List CatalogCard
cards_in m name = or_empty (get m name)

unfoldable pub IsKeyedOnce : Map (List CatalogCard) → Type 0
IsKeyedOnce m = (n : String) → count n (keys m) ≡ one_if (contains_key m n)

pub count-insert :
    (m : Map (List CatalogCard)) (k n : String) (cards : List CatalogCard)
    → count n (keys (insert m k cards))
      ≡ (if contains_key m k then count n (keys m) else count n (keys m) + one_if (k =ₛ n))
unfolding insert contains_key get one_if
count-insert [] k n cards = ground arith
count-insert ((j, w) ∷ m) k n cards =
    ground (arith, eq_iff j k, eq_iff j n, eq_iff k n, count-insert m k n cards)

pub contains_key-insert :
    (m : Map (List CatalogCard)) (k n : String) (cards : List CatalogCard)
    → contains_key (insert m k cards) n ≡ (k =ₛ n || contains_key m n)
unfolding contains_key
contains_key-insert m k n cards = ground (arith, get-insert m k n cards)

pub push-IsKeyedOnce :
    (m : Map (List CatalogCard)) (k : String) (card : CatalogCard)
    → IsKeyedOnce m
    → IsKeyedOnce (push m k card)
unfolding IsKeyedOnce one_if
push-IsKeyedOnce m k card once n = ground (
  arith,
  count-insert m k n (or_empty (get m k) ++ card ∷ []),
  contains_key-insert m k n (or_empty (get m k) ++ card ∷ []),
  eq_iff k n,
  once n,
)

pub cards_in-push :
    (m : Map (List CatalogCard)) (k n : String) (card : CatalogCard)
    → cards_in (push m k card) n ≡ (if k =ₛ n then cards_in m n ++ card ∷ [] else cards_in m n)
cards_in-push m k n card =
    ground (arith, get-insert m k n (or_empty (get m k) ++ card ∷ []), eq_iff k n)

pub get-sort_values :
    (m : Map (List CatalogCard)) (n : String)
    → cards_in (sort_values m) n ≡ sort_by leb_card (cards_in m n)
unfolding get sort_by
get-sort_values [] n = refl
get-sort_values ((j, cards) ∷ m) n = ground (arith, get-sort_values m n)

pub contains_key-sort_values :
    (m : Map (List CatalogCard)) (n : String) → contains_key (sort_values m) n ≡ contains_key m n
unfolding contains_key get
contains_key-sort_values [] n = refl
contains_key-sort_values ((j, cards) ∷ m) n = ground (arith, contains_key-sort_values m n)

pub keys-sort_values : (m : Map (List CatalogCard)) → keys (sort_values m) ≡ keys m
keys-sort_values [] = refl
keys-sort_values ((j, cards) ∷ m) = ap (◌∷◌ j) (keys-sort_values m)

-- No name comes twice.
unfoldable pub IsDistinct : List String → Type 0
IsDistinct names = (n : String) → count n names ≤ 1

tail-IsDistinct :
    (name : String) (names : List String) → IsDistinct (name ∷ names) → IsDistinct names
unfolding IsDistinct
tail-IsDistinct name names distinct n = let h = distinct n in ground arith

-- What the groups of these names have.
unfoldable pub HasCards : (String → List CatalogCard) → CategoryGroup → Type 0
HasCards cards group = group.cards ≡ cards group.name

pub names_taken :
    (m : Map (List CatalogCard)) (names : List String)
    → map (λ (g : CategoryGroup). g.name) (take_groups m names) ≡ names
names_taken m [] = refl
names_taken m (name ∷ names) = ap (◌∷◌ name) (names_taken (remove m name) names)

-- A name that does not come again is not missed by the others.
pub take_groups-HasCards :
    (m : Map (List CatalogCard)) (cards : String → List CatalogCard) (names : List String)
    → IsDistinct names
    → ((n : String) → (count n names ≡ 0 → ⊥) → cards_in m n ≡ cards n)
    → All (HasCards cards) (take_groups m names)
unfolding HasCards IsDistinct
take_groups-HasCards m cards [] distinct same = tt
take_groups-HasCards m cards (name ∷ names) distinct same = (
  same name (λ h. ground (arith, eq_refl name)),
  take_groups-HasCards (remove m name) cards names (tail-IsDistinct name names distinct)
      (λ n h. get_removed n h),
)
  where
    get_removed : (n : String) → (count n names ≡ 0 → ⊥) → cards_in (remove m name) n ≡ cards n
    get_removed n h =
        let d = distinct n in
        elim (Bool-cases (name =ₛ n)) [
          | inl e ↦ absurd (h (ground arith))
          | inr e ↦ rw (get-remove m name n, e) (same n (λ z. h (ground arith)))
        ]

count-keep :
    (p : String → Bool) (n : String) (names : List String)
    → count n (keep p names) ≡ (if p n then count n names else 0)
count-keep p n [] = ground arith
count-keep p n (x ∷ xs) = ground (arith, count-keep p n xs, eq_iff x n)

all_differ : List String → Bool
all_differ [] = true
all_differ (x ∷ xs) = not (any (λ y. y =ₛ x) xs) && all_differ xs

count-all_differ :
    (n : String) (xs : List String)
    → all_differ xs ≡ true
    → count n xs ≡ one_if (any (λ y. y =ₛ n) xs)
unfolding all_differ one_if
count-all_differ n [] h = refl
count-all_differ n (x ∷ xs) h = ground (arith, eq_iff x n, count-all_differ n xs)

category_order_once : all_differ category_order ≡ true
unfolding all_differ
category_order_once = refl

unfoldable pub leftover : Map (List CatalogCard) → List String
leftover m = sort_by leb_text (keep (λ c. not (is_known c)) (keys m))

module _ (m : Map (List CatalogCard)) (once : IsKeyedOnce m) where
  count-leftover :
      (n : String) → count n (leftover m) ≡ one_if (contains_key m n && not (is_known n))
  unfolding leftover one_if IsKeyedOnce
  count-leftover n =
      count-sort_by leb_text n (keep (λ c. not (is_known c)) (keys m))
      ∙ count-keep (λ c. not (is_known c)) n (keys m)
      ∙ only (is_known n) (contains_key m n) (count n (keys m)) (once n)
    where
      only :
          (known there : Bool) (k : ℕ)
          → k ≡ one_if there
          → (if not known then k else 0) ≡ one_if (there && not known)
      only true true k h = refl
      only true false k h = refl
      only false true k h = h
      only false false k h = h

  -- Each key of the map has one group.
  pub count-names_of : (n : String) → count n (names_of m) ≡ one_if (contains_key m n)
  unfolding one_if sort_by leftover
  count-names_of n =
      count-append n (keep (contains_key m) category_order) (leftover m)
      ∙ both (contains_key m n) (is_known n) _ _ _ (count-keep (contains_key m) n category_order)
          (count-all_differ n category_order category_order_once) (count-leftover n)
    where
      both :
          (there known : Bool) (a b k : ℕ)
          → a ≡ (if there then k else 0)
          → k ≡ one_if known
          → b ≡ one_if (there && not known)
          → a + b ≡ one_if there
      both true true a b k h i j = omega arith
      both true false a b k h i j = omega arith
      both false known a b k h i j = omega arith
