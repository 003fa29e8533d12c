-- ===== src/Web/Catalog.antt =====
-- crates/server/src/web/pages/catalog.rs: the pages of the catalog and of a service.
use Prim.Native.String.{◌++◌ as joined}
use servcat.Prelude.{ℕ, String, Bool, true, false, Option, none, some, List, [], ◌∷◌, if◌then◌else◌}
use servcat.Json.{Json}
use servcat.Model.User.{Uuid, User}
use servcat.Model.Catalog.{CatalogItemDetails, ServiceCatalogItem}
use servcat.Exec.{Exec, pure, expect, ◌>>=◌, map_error}
use servcat.Db.Catalog
use servcat.Db.Definitions
use servcat.Server.Error.{ApiError, internal, not_found}
use servcat.Server.Env.{Env}
use servcat.Server.Orchestrator
use servcat.Server.Orchestrator.{Stop, api, out_of_fuel}
use servcat.App.State.{AppState, Setup, on_world, db}
use servcat.Web.Groups.{CategoryGroup, build_groups, details}
use servcat.Web.Layout.{Response, redirect, Layout, load}
use servcat.Web.Questions.{QuestionPreview, preview_questions}

pub record CatalogTemplate : Type 0 where
  pub layout : Layout
  pub groups : List CategoryGroup
  pub categories : List String
  pub has_items : Bool

pub record CatalogItemTemplate : Type 0 where
  pub layout : Layout
  pub item : ServiceCatalogItem
  pub details : CatalogItemDetails
  pub questions : List QuestionPreview

abbrev has_any : List ServiceCatalogItem → Bool
has_any [] = false
has_any (i ∷ items) = true

-- `.filter(|item| item.is_active)`
abbrev if_offered : Option ServiceCatalogItem → Option ServiceCatalogItem
if_offered none = none
if_offered (some i) = if i.is_active then some i else none

module _ {V : Type 0} (to_lowercase : String → String) (setup : Setup) where
  unfoldable pub show : User → Exec (AppState V) ApiError CatalogTemplate
  unfolding load Catalog.list build_groups
  show user = do
    layout ← load setup user "catalog"
    items ← db setup (on_world (Catalog.list setup.before false))
    let (groups, categories) = build_groups to_lowercase items
    pure (record {
      layout = layout;
      groups = groups;
      categories = categories;
      has_items = has_any items;
    })

module _ {V : Type 0} (setup : Setup) where
  -- The preview of the questions runs on the fuel.
  unfoldable pub item_detail : ℕ → User → Uuid → Exec (AppState V) Stop CatalogItemTemplate
  unfolding load details preview_questions
  item_detail fuel user id = do
    layout ← map_error api (load setup user "catalog")
    row ← map_error api (db setup (on_world (Catalog.get_by_id id)))
    item ← expect (api (not_found "service catalog item not found")) (if_offered row)
    definition_row ←
        map_error api (db setup (on_world (Definitions.get_by_id item.workflow_definition_id)))
    definition ← expect (api internal) definition_row
    questions ← expect out_of_fuel (preview_questions definition.graph fuel)
    pure (record { layout = layout; item = item; details = details item; questions = questions })

  unfoldable pub start_request :
      ⦃json : Json V⦄ → Env V → ℕ → User → Uuid → Exec (AppState V) Stop (Response (Unit {0}))
  unfolding Orchestrator.start_instance
  start_request env fuel user id = do
    started ← on_world (Orchestrator.start_instance env fuel id user)
    pure (redirect (joined "/requests/" (setup.tokens.uuid_text started.id)))
