-- ===== src/Web/Groups.antt =====
-- crates/server/src/web/pages/catalog.rs: the services of the catalog by category.
use Prim.Native.String.{◌++◌ as joined}
use servcat.Prelude.{
  String, ◌=ₛ◌, Bool, not, ◌&&◌, ◌||◌, Option, none, some, List, [], ◌∷◌, ◌++◌, any, keep,
}
use servcat.Prelude.Int.{ltb_ℤ, leb_ℤ}
use servcat.Prelude.Sorting.{leb_text, sort_by}
use servcat.Map.{Map, get, insert, remove, contains_key}
use servcat.Model.Catalog.{CatalogItemDetails, ServiceCatalogItem}

abbrev pub category_order : List String
category_order =
    "Accounts & Access" ∷ "Network & Connectivity" ∷ "Workstations & Devices" ∷ "Software"
    ∷ "Printing, Copying & Scanning" ∷ "Telephone & Mobile" ∷ "Audio/Visual & Collaboration"
    ∷ "Servers, Data & Infrastructure" ∷ "Security & Physical Access" ∷ "Other" ∷ []

pub record CatalogCard : Type 0 where
  pub item : ServiceCatalogItem
  pub search_blob : String

pub record CategoryGroup : Type 0 where
  pub name : String
  pub cards : List CatalogCard

abbrev pub or_default : Option CatalogItemDetails → CatalogItemDetails
or_default (some details) = details
or_default none = record { included = []; not_included = []; needed = []; keywords = [] }

-- `ServiceCatalogItem::details`
unfoldable pub details : ServiceCatalogItem → CatalogItemDetails
details item = or_default item.details_json

abbrev pub or_text : String → Option String → String
or_text default none = default
or_text default (some text) = text

-- `category.unwrap_or_else(|| "Other")`
abbrev pub category_of : ServiceCatalogItem → String
category_of item = or_text "Other" item.category

abbrev pub in_category : String → ServiceCatalogItem → Bool
in_category name item = category_of item =ₛ name

-- `[String]::join`
abbrev join : String → List String → String
join separator [] = ""
join separator (s ∷ []) = s
join separator (s ∷ t ∷ rest) = joined s (joined separator (join separator (t ∷ rest)))

-- The order of the cards: `sort_order`, then the name.
abbrev pub leb_card : CatalogCard → CatalogCard → Bool
leb_card a b =
    ltb_ℤ a.item.sort_order b.item.sort_order
    || leb_ℤ a.item.sort_order b.item.sort_order && leb_text a.item.name b.item.name

abbrev pub or_empty : Option (List CatalogCard) → List CatalogCard
or_empty none = []
or_empty (some cards) = cards

-- `by_category.entry(category).or_default().push(card)`
abbrev pub push : Map (List CatalogCard) → String → CatalogCard → Map (List CatalogCard)
push by_category name card = insert by_category name (or_empty (get by_category name) ++ card ∷ [])

-- `for cards in by_category.values_mut()`
abbrev pub sort_values : Map (List CatalogCard) → Map (List CatalogCard)
sort_values [] = []
sort_values ((name, cards) ∷ rest) = (name, sort_by leb_card cards) ∷ sort_values rest

abbrev pub keys : Map (List CatalogCard) → List String
keys [] = []
keys ((name, cards) ∷ rest) = name ∷ keys rest

abbrev pub is_known : String → Bool
is_known name = any (λ known. known =ₛ name) category_order

-- The names of the groups. The order of the keys of a `HashMap` does not matter, since they are
-- sorted.
abbrev pub names_of : Map (List CatalogCard) → List String
names_of by_category =
    keep (contains_key by_category) category_order
    ++ sort_by leb_text (keep (λ c. not (is_known c)) (keys by_category))

-- Each group takes its cards out of the map.
abbrev pub take_groups : Map (List CatalogCard) → List String → List CategoryGroup
take_groups by_category [] = []
take_groups by_category (name ∷ names) =
    (record { name = name; cards = or_empty (get by_category name) })
    ∷ take_groups (remove by_category name) names

-- `to_lowercase` is that of `str`.
module _ (to_lowercase : String → String) where
  unfoldable pub card_of : ServiceCatalogItem → CatalogCard
  unfolding details
  card_of item = record {
    item = item;
    search_blob = joined (to_lowercase item.name) (
        joined " " (
          joined (to_lowercase (or_text "" item.summary))
            (joined " " (to_lowercase (join " " (details item).keywords)))));
  }

  -- `for item in items`
  abbrev pub group_items : List ServiceCatalogItem → Map (List CatalogCard) → Map (List CatalogCard)
  group_items [] by_category = by_category
  group_items (item ∷ items) by_category =
      group_items items (push by_category (category_of item) (card_of item))

  abbrev pub finish : Map (List CatalogCard) → List CategoryGroup × List String
  finish by_category = let names = names_of by_category in (take_groups by_category names, names)

  unfoldable pub build_groups : List ServiceCatalogItem → List CategoryGroup × List String
  build_groups items = finish (sort_values (group_items items []))
