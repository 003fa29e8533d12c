-- ===== src/Web/Grouping.antt =====
-- The catalog page's contract: each service once, in the group of its category, in order
-- (crates/server/src/web/pages/catalog.rs).
use text.Mathlib.TextEquality.{eq_iff}
use mathlib.Core.List.{append_assoc, append-nil}
use servcat.Prelude.{
  ℕ, ◌≤◌, String, ◌=ₛ◌, ◌≡◌, refl, sym, ap, ◌∙◌, Bool, true, false, not, ◌&&◌, ◌||◌, List, [], ◌∷◌,
  ◌++◌, map, any, keep, All, arith, if◌then◌else◌,
}
use servcat.Prelude.Int.{ℤ, ltb_ℤ, leb_ℤ}
use servcat.Prelude.Sorting.{
  leb_text, leb_text-total, leb_text_refl, count, sort_by, is_sorted, is_sorted-sort_by,
  keep-sort_by,
}
use servcat.Map.{Map, get, contains_key}
use servcat.Model.Catalog.{ServiceCatalogItem}
use servcat.Web.Groups.{
  category_order, CatalogCard, CategoryGroup, category_of, in_category, leb_card, or_empty, push,
  sort_values, keys, is_known, names_of, take_groups, card_of, group_items, build_groups,
}
use servcat.Web.Grouped.{
  one_if, cards_in, IsKeyedOnce, contains_key-insert, push-IsKeyedOnce, cards_in-push,
  get-sort_values, contains_key-sort_values, keys-sort_values, IsDistinct, HasCards, names_taken,
  take_groups-HasCards, leftover, count-names_of,
}

leb_card-total : (a b : CatalogCard) → leb_card a b ≡ false → leb_card b a ≡ true
unfolding leb_ℤ ltb_ℤ
leb_card-total a b h = ground (arith, leb_text-total a.item.name b.item.name)

-- The card has this place and this name.
abbrev is_at : ℤ → String → CatalogCard → Bool
is_at place title card =
    leb_ℤ card.item.sort_order place && leb_ℤ place card.item.sort_order && card.item.name =ₛ title

is_at-leb_card :
    (place : ℤ) (title : String) (a b : CatalogCard)
    → is_at place title a ≡ true
    → is_at place title b ≡ true
    → leb_card a b ≡ true
unfolding leb_ℤ ltb_ℤ
is_at-leb_card place title a b h k =
    ground (arith, eq_iff a.item.name title, eq_iff b.item.name title, leb_text_refl title)

keep-same :
    (p q : String → Bool)
    → ((n : String) → p n ≡ q n)
    → (names : List String) → keep p names ≡ keep q names
keep-same p q same [] = refl
keep-same p q same (n ∷ names) = rw (same n, keep-same p q same names) refl

module _ (to_lowercase : String → String) where
  abbrev cards_of : List ServiceCatalogItem → String → List CatalogCard
  cards_of items name = map (card_of to_lowercase) (keep (in_category name) items)

  cards_in-group_items :
      (items : List ServiceCatalogItem) (m : Map (List CatalogCard)) (n : String)
      → cards_in (group_items to_lowercase items m) n ≡ cards_in m n ++ cards_of items n
  cards_in-group_items [] m n = sym (append-nil (cards_in m n))
  cards_in-group_items (item ∷ items) m n =
      let more = push m (category_of item) (card_of to_lowercase item) in
      cards_in-group_items items more n
      ∙ ap (λ cards. cards ++ cards_of items n)
          (cards_in-push m (category_of item) n (card_of to_lowercase item))
      ∙ put_first (in_category n item)
    where
      put_first :
          (b : Bool)
          → (if b then cards_in m n ++ card_of to_lowercase item ∷ [] else cards_in m n)
              ++ cards_of items n
            ≡ cards_in m n
              ++ map
                  (card_of to_lowercase)
                  (if b then item ∷ keep (in_category n) items else keep (in_category n) items)
      put_first true =
          append_assoc (cards_in m n) (card_of to_lowercase item ∷ []) (cards_of items n)
      put_first false = refl

  contains_key-group_items :
      (items : List ServiceCatalogItem) (m : Map (List CatalogCard)) (n : String)
      → contains_key (group_items to_lowercase items m) n
        ≡ (contains_key m n || any (in_category n) items)
  contains_key-group_items [] m n = ground arith
  contains_key-group_items (item ∷ items) m n =
      let more = push m (category_of item) (card_of to_lowercase item) in
      ground (
        arith,
        contains_key-group_items items more n,
        contains_key-insert m (category_of item) n
            (or_empty (get m (category_of item)) ++ card_of to_lowercase item ∷ []),
      )

  group_items-IsKeyedOnce :
      (items : List ServiceCatalogItem) (m : Map (List CatalogCard))
      → IsKeyedOnce m
      → IsKeyedOnce (group_items to_lowercase items m)
  group_items-IsKeyedOnce [] m once = once
  group_items-IsKeyedOnce (item ∷ items) m once =
      group_items-IsKeyedOnce items (push m (category_of item) (card_of to_lowercase item))
        (push-IsKeyedOnce m (category_of item) (card_of to_lowercase item) once)

  -- What the page promises of the groups and of the list of their names.
  pub record Grouping (items : List ServiceCatalogItem) (page : List CategoryGroup × List String)
      : Type 0 where
    pub named : map (λ (g : CategoryGroup). g.name) page.0 ≡ page.1
    pub each_once : (n : String) → count n page.1 ≡ one_if (any (in_category n) items)
    pub others : List String
    pub order : page.1 ≡ keep (λ n. any (in_category n) items) category_order ++ others
    pub others_sorted : is_sorted leb_text others ≡ true
    pub sorted : All (λ g. is_sorted leb_card g.cards ≡ true) page.0
    pub has_cards :
        All
          (λ g.
            (place : ℤ) (title : String)
            → keep (is_at place title) g.cards ≡ keep (is_at place title) (cards_of items g.name))
          page.0

  All-of {ℓ} :
      {P Q : CategoryGroup → Type ℓ} (groups : List CategoryGroup)
      → ((g : CategoryGroup) → P g → Q g)
      → All P groups
      → All Q groups
  All-of [] f all = tt
  All-of (g ∷ groups) f all = (f g all.0, All-of groups f all.1)

  module _ (items : List ServiceCatalogItem) where
    abbrev grouped : Map (List CatalogCard)
    grouped = sort_values (group_items to_lowercase items [])

    grouped-IsKeyedOnce : IsKeyedOnce grouped
    unfolding IsKeyedOnce contains_key get one_if
    grouped-IsKeyedOnce n =
        ap (count n) (keys-sort_values (group_items to_lowercase items []))
        ∙ group_items-IsKeyedOnce items [] (λ k. refl) n
        ∙ ap one_if (sym (contains_key-sort_values (group_items to_lowercase items []) n))

    contains_key-grouped : (n : String) → contains_key grouped n ≡ any (in_category n) items
    unfolding contains_key get
    contains_key-grouped n =
        contains_key-sort_values (group_items to_lowercase items []) n
        ∙ contains_key-group_items items [] n

    cards_in-grouped : (n : String) → cards_in grouped n ≡ sort_by leb_card (cards_of items n)
    unfolding get
    cards_in-grouped n =
        get-sort_values (group_items to_lowercase items []) n
        ∙ ap (sort_by leb_card) (cards_in-group_items items [] n)

    names-IsDistinct : IsDistinct (names_of grouped)
    unfolding IsDistinct one_if
    names-IsDistinct n =
        below (contains_key grouped n) _ (count-names_of grouped grouped-IsKeyedOnce n)
      where
        below : (b : Bool) (k : ℕ) → k ≡ one_if b → k ≤ 1
        below true k h = omega arith
        below false k h = omega arith

    groups-HasCards :
        All
          (HasCards (λ n. sort_by leb_card (cards_of items n)))
          (take_groups grouped (names_of grouped))
    groups-HasCards =
        take_groups-HasCards grouped (λ n. sort_by leb_card (cards_of items n)) (names_of grouped)
          names-IsDistinct (λ n h. cards_in-grouped n)

    -- `build_groups` has one group for each category of a service, and no other; a service without
    -- a category is in "Other". The categories of the display order come first, in that order, and
    -- the others behind them in the order of their texts. A group's cards are in the order of
    -- `sort_order` and name, and for each place and name they are the cards of the category's
    -- services there, in the order in which these were given: no service is lost or doubled.
    pub build_groups-Grouping : Grouping items (build_groups to_lowercase items)
    unfolding build_groups HasCards leftover
    build_groups-Grouping = record {
      named = names_taken grouped (names_of grouped);
      each_once =
          λ n. count-names_of grouped grouped-IsKeyedOnce n ∙ ap one_if (contains_key-grouped n);
      others = leftover grouped;
      order =
          ap (λ l. l ++ leftover grouped)
            (keep-same (contains_key grouped) (λ n. any (in_category n) items) contains_key-grouped
              category_order);
      others_sorted =
          is_sorted-sort_by leb_text leb_text-total (keep (λ c. not (is_known c)) (keys grouped));
      sorted =
          All-of _
            (λ g h.
              ap (is_sorted leb_card) h
              ∙ is_sorted-sort_by leb_card leb_card-total (cards_of items g.name))
            groups-HasCards;
      has_cards =
          All-of _
            (λ g h place title.
              ap (keep (is_at place title)) h
              ∙ keep-sort_by leb_card (is_at place title) (is_at-leb_card place title)
                  (cards_of items g.name))
            groups-HasCards;
    }
