-- ===== src/App/Admin.antt =====
-- The administration: crates/server/src/routes/users.rs, departments.rs, catalog.rs, settings.rs,
-- workflow_definitions.rs and audit_log.rs, without the upload of logos.
use Prim.Native.String.{◌++◌}
use servcat.Prelude.{
  ◌==◌, String, Bool, true, false, not, ◌&&◌, ◌||◌, Option, none, some, List, [], ◌∷◌,
  if◌then◌else◌,
}
use servcat.Map.{is_some}
use servcat.Json.{Json}
use servcat.Model.User.{Uuid, Role, requester, approver, agent, admin, User, same_role}
use servcat.Model.Catalog.{ServiceCatalogItem}
use servcat.Model.Workflow.{WorkflowDefinition}
use servcat.Model.SqlText.{role_as_str}
use servcat.Exec.{Exec, pure, fail, expect, ◌>>=◌, ◌>>◌}
use servcat.Db.Catalog
use servcat.Db.Catalog.{NewServiceCatalogItem, UpdateServiceCatalogItem}
use servcat.Db.Definitions
use servcat.Db.Definitions.{NewWorkflowDefinition}
use servcat.Server.Error.{ApiError, bad_request, forbidden, internal, not_found}
use servcat.Auth.Tokens.{revoke_all_sessions}
use servcat.App.State.{Department, OrgSettings, AppState, Setup, on_world, on_auth, db}
use servcat.App.Users
use servcat.App.Users.{NewUser, UpdateUser}
use servcat.App.Departments
use servcat.App.Departments.{NewDepartment, UpdateDepartment}
use servcat.App.Settings
use servcat.App.Settings.{UpdateOrgSettings}
use servcat.App.Audit.{record_entry}

-- `auth_user.require_role(&[Role::Admin])?`
abbrev pub if_admin : {V : Type 0} → Role → Exec (AppState V) ApiError (Unit {0})
if_admin admin = pure tt
if_admin requester = fail forbidden
if_admin approver = fail forbidden
if_admin agent = fail forbidden

unfoldable pub require_admin : {V : Type 0} → User → Exec (AppState V) ApiError (Unit {0})
require_admin user = if_admin user.role

module _ {V : Type 0} (setup : Setup) where
  abbrev pub hashed : Option String → Exec (AppState V) ApiError (Option String)
  hashed none = pure none
  hashed (some password) = do
    hash ← expect internal (setup.crypto.hash_password password)
    pure (some hash)

  abbrev pub log : User → String → Uuid → Option V → Exec (AppState V) ApiError (Unit {0})
  log actor action id metadata =
      db setup
        (record_entry (some actor.id) action "user" (some (setup.tokens.uuid_text id)) metadata)

  unfoldable pub create_user : ⦃json : Json V⦄ → User → NewUser → Exec (AppState V) ApiError User
  unfolding require_admin
  create_user ⦃json⦄ actor new_user = do
    require_admin actor
    (if not (is_some new_user.password) && not (is_some new_user.external_idp_subject)
        then fail (bad_request "a new user needs either a password or an external_idp_subject")
        else pure tt)
    password_hash ← hashed new_user.password
    created ← db setup (Users.create setup new_user password_hash)
    log actor "user.create" created.id (
        some (
          json.object (
            ("email", json.string created.email)
            ∷ ("role", json.string (role_as_str created.role))
            ∷ [])))
    pure created

  unfoldable pub update_user : User → Uuid → UpdateUser → Exec (AppState V) ApiError User
  unfolding require_admin
  update_user actor id patch = do
    require_admin actor
    row ← db setup (Users.update setup id patch)
    updated ← expect (not_found "user not found") row
    log actor "user.update" id none
    pure updated

  unfoldable pub deactivate_user : User → Uuid → Exec (AppState V) ApiError (Unit {0})
  unfolding require_admin
  deactivate_user actor id = do
    require_admin actor
    (if actor.id == id
        then fail (bad_request "you cannot deactivate your own account")
        else pure tt)
    db setup (Users.deactivate setup id)
    on_auth (revoke_all_sessions setup.crypto setup.tokens id)
    log actor "user.deactivate" id none

  unfoldable pub list_users : User → Bool → Exec (AppState V) ApiError (List User)
  unfolding require_admin
  list_users actor include_inactive = do
    require_admin actor
    db setup (Users.list setup include_inactive)

  unfoldable pub create_department : User → NewDepartment → Exec (AppState V) ApiError Department
  unfolding require_admin
  create_department actor new = do require_admin actor; db setup (Departments.create setup new)

  unfoldable pub update_department :
      User → Uuid → UpdateDepartment → Exec (AppState V) ApiError Department
  unfolding require_admin
  update_department actor id patch = do
    require_admin actor
    row ← db setup (Departments.update setup id patch)
    expect (not_found "department not found") row

  unfoldable pub delete_department : User → Uuid → Exec (AppState V) ApiError (Unit {0})
  unfolding require_admin
  delete_department actor id = do require_admin actor; db setup (Departments.delete setup id)

  abbrev pub check_timezone : Option String → Exec (AppState V) ApiError (Unit {0})
  check_timezone none = pure tt
  check_timezone (some tz) =
      if setup.is_timezone tz
      then pure tt
      else fail (bad_request ("'" ++ tz ++ "' is not a recognized IANA timezone name"))

  unfoldable pub update_settings : User → UpdateOrgSettings → Exec (AppState V) ApiError OrgSettings
  unfolding require_admin
  update_settings actor patch = do
    require_admin actor
    check_timezone patch.timezone
    db setup (Settings.update setup patch)

  unfoldable pub create_item :
      User → NewServiceCatalogItem → Exec (AppState V) ApiError ServiceCatalogItem
  unfolding require_admin
  create_item actor new_item = do
    require_admin actor
    db setup (on_world (Catalog.create setup.same_text new_item actor.id))

  unfoldable pub update_item :
      User → Uuid → UpdateServiceCatalogItem → Exec (AppState V) ApiError ServiceCatalogItem
  unfolding require_admin
  update_item actor id patch = do
    require_admin actor
    row ← db setup (on_world (Catalog.update setup.items_differ id patch))
    expect (not_found "catalog item not found") row

  unfoldable pub deactivate_item : User → Uuid → Exec (AppState V) ApiError (Unit {0})
  unfolding require_admin
  deactivate_item actor id = do require_admin actor; db setup (on_world (Catalog.deactivate id))

  unfoldable pub create_definition :
      User → NewWorkflowDefinition V → Exec (AppState V) ApiError (WorkflowDefinition V)
  unfolding require_admin
  create_definition actor new_def = do
    require_admin actor
    db setup (on_world (Definitions.create setup.same_text new_def actor.id))

  unfoldable pub publish : User → Uuid → Exec (AppState V) ApiError (Unit {0})
  unfolding require_admin
  publish actor id = do require_admin actor; db setup (on_world (Definitions.set_published id true))

  unfoldable pub unpublish : User → Uuid → Exec (AppState V) ApiError (Unit {0})
  unfolding require_admin
  unpublish actor id = do
    require_admin actor
    db setup (on_world (Definitions.set_published id false))

  -- Only staff see services that are not offered.
  unfoldable pub list_items : User → Bool → Exec (AppState V) ApiError (List ServiceCatalogItem)
  unfolding Catalog.list
  list_items actor include_inactive = db setup (
      on_world (
        Catalog.list setup.before
          (include_inactive && (same_role actor.role admin || same_role actor.role agent))))

  unfoldable pub list_definitions :
      User → Bool → Exec (AppState V) ApiError (List (WorkflowDefinition V))
  unfolding require_admin Definitions.list
  list_definitions actor published_only = do
    require_admin actor
    db setup (on_world (Definitions.list setup.before published_only))

  unfoldable pub list_departments : Exec (AppState V) ApiError (List Department)
  unfolding Departments.list
  list_departments = db setup (Departments.list setup)
