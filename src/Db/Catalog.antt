-- ===== src/Db/Catalog.antt =====
-- crates/db/src/repositories/catalog.rs. The keys are those of the migrations.
use servcat.Prelude.{
  ◌==◌, String, Bool, true, false, not, ◌&&◌, Option, none, some, List, ok, err, any, find,
  if◌then◌else◌,
}
use servcat.Prelude.Int.{ℤ}
use servcat.Model.User.{Uuid, Timestamp}
use servcat.Model.Catalog.{CatalogItemDetails, TargetUnit, ServiceCatalogItem}
use servcat.Prelude.{keep}
use servcat.Prelude.Int.{leb_ℤ}
use servcat.Prelude.Sorting.{sort_by, then_by}
use servcat.Exec.{Exec, gets, expect, modify, ◌>>=◌, ◌>>◌}
use servcat.Db.Table.{select, update_where, insert, is_taken, or_row}
use servcat.Db.World.{DbError, sqlx, not_found, World, new_v4}

pub record NewServiceCatalogItem : Type 0 where
  pub slug : Option String
  pub name : String
  pub description : Option String
  pub summary : Option String
  pub details : Option CatalogItemDetails
  pub approval_label : Option String
  pub target_value : Option ℤ
  pub target_unit : Option TargetUnit
  pub category : Option String
  pub icon : Option String
  pub sort_order : ℤ
  pub workflow_definition_id : Uuid

pub record UpdateServiceCatalogItem : Type 0 where
  pub name : Option String
  pub description : Option String
  pub summary : Option String
  pub details : Option CatalogItemDetails
  pub approval_label : Option String
  pub target_value : Option ℤ
  pub target_unit : Option TargetUnit
  pub category : Option String
  pub icon : Option String
  pub sort_order : Option ℤ
  pub is_active : Option Bool

-- `COALESCE(?, column)` at a column that is never null; `or_row` is the one at a column that may be.
abbrev pub coalesce : {A : Type 0} → Option A → A → A
coalesce none old = old
coalesce (some new) old = new

-- `slug = ?`, which a null does not meet. `same` is the equality of the collation.
abbrev pub slug_is : (String → String → Bool) → String → Option String → Bool
slug_is same slug none = false
slug_is same slug (some s) = same s slug

abbrev pub is_slug_taken : (String → String → Bool) → Option String → List ServiceCatalogItem → Bool
is_slug_taken same none items = false
is_slug_taken same (some slug) items = any (λ i. slug_is same slug i.slug) items

-- The columns that an update gives, where the others stay. `updated_at` follows if a column changes.
unfoldable pub patched : UpdateServiceCatalogItem → ServiceCatalogItem → ServiceCatalogItem
patched patch i = record i {
  name = coalesce patch.name i.name;
  description = or_row patch.description i.description;
  summary = or_row patch.summary i.summary;
  details_json = or_row patch.details i.details_json;
  approval_label = or_row patch.approval_label i.approval_label;
  target_value = or_row patch.target_value i.target_value;
  target_unit = or_row patch.target_unit i.target_unit;
  category = or_row patch.category i.category;
  icon = or_row patch.icon i.icon;
  sort_order = coalesce patch.sort_order i.sort_order;
  is_active = coalesce patch.is_active i.is_active;
}

unfoldable pub deactivated : Timestamp → ServiceCatalogItem → ServiceCatalogItem
deactivated now i = record i {
  is_active = false;
  updated_at = if i.is_active then now else i.updated_at;
}

module _ (before : String → String → Bool) where
  -- A null comes first.
  abbrev category_before : Option String → Option String → Bool
  category_before none c = true
  category_before (some b) none = false
  category_before (some b) (some c) = before b c

  -- `ORDER BY category, sort_order, name`
  abbrev row_before : ServiceCatalogItem → ServiceCatalogItem → Bool
  row_before a b =
      then_by (category_before a.category b.category) (category_before b.category a.category) (
        then_by (leb_ℤ a.sort_order b.sort_order) (leb_ℤ b.sort_order a.sort_order)
          (before a.name b.name))

  unfoldable pub list : {V : Type 0} → Bool → Exec (World V) DbError (List ServiceCatalogItem)
  list include_inactive = gets (λ w. sort_by row_before (
      if include_inactive then w.items else keep (λ (i : ServiceCatalogItem). i.is_active) w.items))

module _ {V : Type 0} where
  unfoldable pub get_by_id : Uuid → Exec (World V) DbError (Option ServiceCatalogItem)
  get_by_id id = gets (λ w. select (λ i. i.id) id w.items)

  unfoldable pub get_by_slug :
      (String → String → Bool) → String → Exec (World V) DbError (Option ServiceCatalogItem)
  get_by_slug same slug = gets (λ w. find (λ i. slug_is same slug i.slug) w.items)

  -- The `INSERT`: the keys are new, and the rows that the row refers to are there.
  unfoldable pub insert_row :
      (String → String → Bool) → Uuid → ServiceCatalogItem → Exec (World V) DbError (Unit {0})
  insert_row same created_by r w =
      if not (is_taken (λ i. i.id) r.id w.items)
        && not (is_slug_taken same r.slug w.items)
        && is_taken (λ d. d.id) r.workflow_definition_id w.definitions
        && is_taken (λ u. u.id) created_by w.users
      then (ok tt, record w { items = insert r w.items })
      else (err sqlx, w)

  unfoldable pub create :
      (String → String → Bool)
      → NewServiceCatalogItem
      → Uuid
      → Exec (World V) DbError ServiceCatalogItem
  unfolding get_by_id insert_row new_v4
  create same new created_by = do
    id ← new_v4
    now ← gets (λ w. w.now)
    insert_row same created_by (record {
      id = id;
      slug = new.slug;
      name = new.name;
      description = new.description;
      summary = new.summary;
      details_json = new.details;
      approval_label = new.approval_label;
      target_value = new.target_value;
      target_unit = new.target_unit;
      category = new.category;
      icon = new.icon;
      sort_order = new.sort_order;
      workflow_definition_id = new.workflow_definition_id;
      is_active = true;
      created_by = some created_by;
      created_at = now;
      updated_at = now;
    })
    row ← get_by_id id
    expect (not_found "service_catalog_item" id) row

  -- `differs` says whether an update changes a column.
  unfoldable pub update :
      (ServiceCatalogItem → ServiceCatalogItem → Bool)
      → Uuid
      → UpdateServiceCatalogItem
      → Exec (World V) DbError (Option ServiceCatalogItem)
  unfolding get_by_id patched
  update differs id patch = do
    modify λ w. record w {
      items =
          update_where (λ i. i.id == id)
            (λ i. record (patched patch i) {
              updated_at = if differs i (patched patch i) then w.now else i.updated_at;
            })
            w.items;
    }
    get_by_id id

  unfoldable pub deactivate : Uuid → Exec (World V) DbError (Unit {0})
  unfolding deactivated
  deactivate id =
      modify λ w. record w { items = update_where (λ i. i.id == id) (deactivated w.now) w.items }
