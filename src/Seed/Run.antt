-- ===== src/Seed/Run.antt =====
-- crates/server/src/catalog_seed.rs: the loading of the starter catalog, whose items are given.
use Prim.Native.String.{◌++◌ as joined}
use servcat.Prelude.{
  ℕ, ◌+◌, String, ◌=ₛ◌, Bool, true, Option, none, some, List, [], ◌∷◌, ◌++◌, any, length,
  if◌then◌else◌,
}
use servcat.Prelude.Int.{ℤ, pos}
use servcat.Model.User.{Uuid}
use servcat.Model.Catalog.{TargetUnit, ServiceCatalogItem}
use servcat.Exec.{Exec, pure, gets, expect, ◌>>=◌, ◌>>◌, map_error}
use servcat.Db.World.{DbError, World}
use servcat.Db.Catalog
use servcat.Db.Catalog.{NewServiceCatalogItem}
use servcat.Db.Definitions
use servcat.Db.Definitions.{NewWorkflowDefinition}
use servcat.Server.Error.{ApiError, internal, from_db}
use servcat.Seed.Graphs.{WorkflowPattern, SeedQuestion, build_graph}

pub record SeedItem : Type 0 where
  pub slug : String
  pub name : String
  pub category : String
  pub icon : String
  pub summary : String
  pub description : String
  pub included : List String
  pub not_included : List String
  pub needed : List String
  pub keywords : List String
  pub approval_label : String
  pub workflow_pattern : WorkflowPattern
  pub target_value : ℤ
  pub target_unit : TargetUnit
  pub published : Bool
  pub questions : List SeedQuestion

pub record SeedSummary : Type 0 where
  pub added : ℕ
  pub skipped : ℕ
  pub skipped_names : List String

abbrev pub slug_list : Option String → List String
slug_list none = []
slug_list (some slug) = slug ∷ []

-- `filter_map(|item| item.slug).collect()`, a set
abbrev pub slugs_of : List ServiceCatalogItem → List String
slugs_of [] = []
slugs_of (i ∷ items) = slug_list i.slug ++ slugs_of items

abbrev pub contains : List String → String → Bool
contains slugs slug = any (λ s. s =ₛ slug) slugs

-- The service of an item, at an index, with its workflow.
abbrev pub new_item : ℕ → SeedItem → Uuid → NewServiceCatalogItem
new_item index item workflow_id = record {
  slug = some item.slug;
  name = item.name;
  description = some item.description;
  summary = some item.summary;
  details = some (record {
    included = item.included;
    not_included = item.not_included;
    needed = item.needed;
    keywords = item.keywords;
  });
  approval_label = some item.approval_label;
  target_value = some item.target_value;
  target_unit = some item.target_unit;
  category = some item.category;
  icon = some item.icon;
  sort_order = pos index;
  workflow_definition_id = workflow_id;
}

-- `same` is the equality of the collation, `decimal` the display of a number.
module _ {V : Type 0} (same : String → String → Bool) (decimal : ℕ → String)
    (uuid_text : Uuid → String) (created_by : Uuid) where
  abbrev pub db : {A : Type 0} → Exec (World V) DbError A → Exec (World V) ApiError A
  db m = map_error (from_db uuid_text) m

  -- The workflow of an item, published. A graph has always a first step.
  unfoldable pub create_workflow : SeedItem → Exec (World V) ApiError Uuid
  create_workflow item = do
    graph ← expect internal (build_graph decimal item.workflow_pattern item.questions)
    workflow ← db (
        Definitions.create same
          (record {
            name = joined item.name " (starter catalog)";
            graph = graph;
            field_mapping = none;
            target_system = none;
          })
          created_by)
    db (Definitions.set_published workflow.id true)
    pure workflow.id

  abbrev pub hide_draft : Bool → ServiceCatalogItem → Exec (World V) ApiError (Unit {0})
  hide_draft published created = if published then pure tt else db (Catalog.deactivate created.id)

  unfoldable pub load_item : ℕ → SeedItem → Exec (World V) ApiError (Unit {0})
  unfolding create_workflow
  load_item index item = do
    workflow_id ← create_workflow item
    created ← db (Catalog.create same (new_item index item workflow_id) created_by)
    hide_draft item.published created

  -- The loop from the index `index` on.
  unfoldable pub load_items :
      List String → ℕ → List SeedItem → SeedSummary → Exec (World V) ApiError SeedSummary
  load_items existing index [] summary = pure summary
  load_items existing index (item ∷ items) summary =
      if contains existing item.slug
      then load_items existing (index + 1) items (record summary {
        skipped = summary.skipped + 1;
        skipped_names = summary.skipped_names ++ item.name ∷ [];
      })
      else (load_item index item >>= λ u.
          load_items existing (index + 1) items (record summary { added = summary.added + 1 }))

  unfoldable pub run : List SeedItem → Exec (World V) ApiError SeedSummary
  unfolding load_items
  run items = do
    existing_slugs ← gets (λ w. slugs_of w.items)
    load_items existing_slugs 0 items (record { added = 0; skipped = 0; skipped_names = [] })

unfoldable pub seed_item_count : List SeedItem → ℕ
seed_item_count items = length items
