-- ===== src/Web/Edits.antt =====
-- crates/server/src/web/pages/admin/catalog.rs: the pages that change a service.
use servcat.Prelude.{String, Bool, Option, none, some, Result, ok, err}
use servcat.Prelude.Int.{ℤ}
use servcat.Model.User.{Uuid, User}
use servcat.Model.Catalog.{TargetUnit, CatalogItemDetails, ServiceCatalogItem}
use servcat.Exec.{Exec, pure, expect, ◌>>=◌, ◌>>◌}
use servcat.Db.Catalog
use servcat.Db.Catalog.{UpdateServiceCatalogItem}
use servcat.Server.Error.{ApiError, not_found}
use servcat.App.State.{AppState, Setup, on_world, db}
use servcat.App.Admin.{require_admin}
use servcat.Web.Forms.{parse_target}
use servcat.Web.Groups.{details}
use servcat.Web.Layout.{Layout, load}
use servcat.Web.Services.{CatalogItemForm, Answer, page, redirect_to, details_from_form}

pub record CatalogEditTemplate : Type 0 where
  pub layout : Layout
  pub item : ServiceCatalogItem
  pub details : CatalogItemDetails
  pub error : Option String

abbrev no_item : ApiError
no_item = not_found "catalog item not found"

abbrev no_update : UpdateServiceCatalogItem
no_update = record {
  name = none;
  description = none;
  summary = none;
  details = none;
  approval_label = none;
  target_value = none;
  target_unit = none;
  category = none;
  icon = none;
  sort_order = none;
  is_active = none;
}

module _ {V : Type 0} (setup : Setup) where
  unfoldable pub toggle : User → Uuid → Bool → Exec (AppState V) ApiError (Answer (Unit {0}))
  unfolding require_admin Catalog.update
  toggle user id is_active = do
    require_admin user
    row ← db setup (
        on_world
          (Catalog.update setup.items_differ id (record no_update { is_active = some is_active })))
    updated ← expect no_item row
    pure (redirect_to "/admin/catalog")

  unfoldable pub edit_form : User → Uuid → Exec (AppState V) ApiError (Answer CatalogEditTemplate)
  unfolding require_admin load details
  edit_form user id = do
    require_admin user
    layout ← load setup user "admin"
    row ← db setup (on_world (Catalog.get_by_id id))
    item ← expect no_item row
    pure (page (record { layout = layout; item = item; details = details item; error = none }))

  unfoldable pub edit_form_error :
      User
      → Uuid
      → CatalogItemForm
      → String
      → Exec (AppState V) ApiError (Answer CatalogEditTemplate)
  unfolding load details_from_form
  edit_form_error user id form error = do
    layout ← load setup user "admin"
    row ← db setup (on_world (Catalog.get_by_id id))
    item ← expect no_item row
    pure (
        page (record {
          layout = layout;
          item = record item {
            name = form.name;
            description = some form.description;
            summary = some form.summary;
            approval_label = some form.approval_label;
            category = some form.category;
            icon = some form.icon;
            is_active = form.is_active;
          };
          details = details_from_form form;
          error = some error;
        }))

  abbrev write_form :
      User
      → Uuid
      → CatalogItemForm
      → Result String (Option ℤ × Option TargetUnit)
      → Exec (AppState V) ApiError (Answer CatalogEditTemplate)
  write_form user id form (err error) = edit_form_error user id form error
  write_form user id form (ok (target_value, target_unit)) = do
    row ← db setup (
        on_world (
          Catalog.update setup.items_differ id (record {
            name = some form.name;
            description = some form.description;
            summary = some form.summary;
            details = some (details_from_form form);
            approval_label = some form.approval_label;
            target_value = target_value;
            target_unit = target_unit;
            category = some form.category;
            icon = some form.icon;
            sort_order = none;
            is_active = some form.is_active;
          })))
    updated ← expect no_item row
    pure (redirect_to "/admin/catalog")

  unfoldable pub edit :
      User → Uuid → CatalogItemForm → Exec (AppState V) ApiError (Answer CatalogEditTemplate)
  unfolding require_admin edit_form_error details_from_form parse_target Catalog.update
  edit user id form = do
    require_admin user
    write_form user id form (parse_target form.target_value form.target_unit)
