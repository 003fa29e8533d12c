-- ===== src/Web/Services.antt =====
-- crates/server/src/web/pages/admin/catalog.rs: the form for a service, and the page that lists
-- and adds services.
use Prim.Native.String.{◌++◌ as joined}
use servcat.Prelude.{
  ℕ, ◌==◌, String, Bool, true, false, Option, none, some, List, Result, ok, err, if◌then◌else◌,
}
use servcat.Prelude.Int.{ℤ, pos}
use servcat.Model.User.{Uuid, User}
use servcat.Model.Workflow.{WorkflowDefinition}
use servcat.Model.Catalog.{TargetUnit, CatalogItemDetails, ServiceCatalogItem}
use servcat.Exec.{Exec, pure, ◌>>=◌, ◌>>◌}
use servcat.Db.Catalog
use servcat.Db.Catalog.{UpdateServiceCatalogItem}
use servcat.Db.Definitions
use servcat.Server.Error.{ApiError}
use servcat.Seed.Run
use servcat.Seed.Run.{SeedItem, SeedSummary, seed_item_count}
use servcat.App.State.{AppState, Setup, on_world, db}
use servcat.App.Admin.{require_admin}
use servcat.Web.Forms.{is_empty, lines_to_vec, parse_target}
use servcat.Web.Layout.{Layout, load}

pub record CatalogItemForm : Type 0 where
  pub name : String
  pub summary : String
  pub description : String
  pub category : String
  pub icon : String
  pub approval_label : String
  pub target_value : String
  pub target_unit : String
  pub included : String
  pub not_included : String
  pub needed : String
  pub keywords : String
  pub workflow_definition_id : Option Uuid
  pub is_active : Bool

pub record CatalogAdminTemplate (V : Type 0) : Type 0 where
  pub layout : Layout
  pub items : List ServiceCatalogItem
  pub workflow_definitions : List (WorkflowDefinition V)
  pub seed_message : Option String
  pub seed_item_count : ℕ

-- A page with the status 200, a page with the status 400, or a redirect.
pub data Answer (T : Type 0) : Type 0 where
  page refused : T → Answer T
  redirect_to : String → Answer T

unfoldable pub details_from_form : CatalogItemForm → CatalogItemDetails
unfolding lines_to_vec
details_from_form form = record {
  included = lines_to_vec form.included;
  not_included = lines_to_vec form.not_included;
  needed = lines_to_vec form.needed;
  keywords = lines_to_vec form.keywords;
}

-- `Some(s).filter(|s| !s.is_empty())`
abbrev if_filled : String → Option String
if_filled s = if is_empty s then none else some s

-- `decimal` is the display of a number.
module _ (decimal : ℕ → String) where
  abbrev message_of : Option ℕ → Option ℕ → Option String
  message_of (some added) (some skipped) = some (
      joined "Loaded the starter catalog: added " (
        joined (decimal added) (
          joined " item" (
            joined (if added == 1 then "" else "s")
              (joined ", skipped " (joined (decimal skipped) " already present."))))))
  message_of (some added) none = none
  message_of none skipped = none

-- `items` are the items of the seed file.
module _ {V : Type 0} (decimal : ℕ → String) (items : List SeedItem) (setup : Setup) where
  abbrev list_page : User → Option String → Exec (AppState V) ApiError (CatalogAdminTemplate V)
  list_page user message = do
    layout ← load setup user "admin"
    rows ← db setup (on_world (Catalog.list setup.before true))
    definitions ← db setup (on_world (Definitions.list setup.before false))
    pure (record {
      layout = layout;
      items = rows;
      workflow_definitions = definitions;
      seed_message = message;
      seed_item_count = seed_item_count items;
    })

  unfoldable pub list :
      User → Option ℕ → Option ℕ → Exec (AppState V) ApiError (Answer (CatalogAdminTemplate V))
  unfolding require_admin load Catalog.list Definitions.list seed_item_count
  list user seed_added seed_skipped = do
    require_admin user
    shown ← list_page user (message_of decimal seed_added seed_skipped)
    pure (page shown)

  unfoldable pub list_with_error :
      User → String → Exec (AppState V) ApiError (Answer (CatalogAdminTemplate V))
  unfolding load Catalog.list Definitions.list seed_item_count
  list_with_error user error = do
    shown ← list_page user (some (joined "Couldn't save: " error))
    pure (refused shown)

  abbrev insert_form :
      User
      → CatalogItemForm
      → Uuid
      → Result String (Option ℤ × Option TargetUnit)
      → Exec (AppState V) ApiError (Answer (CatalogAdminTemplate V))
  insert_form user form workflow_definition_id (err error) = list_with_error user error
  insert_form user form workflow_definition_id (ok (target_value, target_unit)) = do
    created ← db setup (
        on_world (
          Catalog.create setup.same_text
            (record {
              slug = none;
              name = form.name;
              description = if_filled form.description;
              summary = if_filled form.summary;
              details = some (details_from_form form);
              approval_label = if_filled form.approval_label;
              target_value = target_value;
              target_unit = target_unit;
              category = if_filled form.category;
              icon = if_filled form.icon;
              sort_order = pos 0;
              workflow_definition_id = workflow_definition_id;
            })
            user.id))
    pure (redirect_to "/admin/catalog")

  abbrev create_form :
      User
      → CatalogItemForm
      → Option Uuid
      → Exec (AppState V) ApiError (Answer (CatalogAdminTemplate V))
  create_form user form none = list_with_error user "Choose a workflow for this catalog item."
  create_form user form (some workflow_definition_id) =
      insert_form user form workflow_definition_id (parse_target form.target_value form.target_unit)

  unfoldable pub create :
      User → CatalogItemForm → Exec (AppState V) ApiError (Answer (CatalogAdminTemplate V))
  unfolding require_admin list_with_error details_from_form parse_target Catalog.create
  create user form = do require_admin user; create_form user form form.workflow_definition_id

  unfoldable pub load_starter : User → Exec (AppState V) ApiError (Answer (CatalogAdminTemplate V))
  unfolding require_admin Run.run
  load_starter user = do
    require_admin user
    summary ← on_world (Run.run setup.same_text decimal setup.tokens.uuid_text user.id items)
    pure (
        redirect_to (
          joined "/admin/catalog?seed_added="
            (joined (decimal summary.added) (joined "&seed_skipped=" (decimal summary.skipped)))))
