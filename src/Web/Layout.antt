-- ===== src/Web/Layout.antt =====
-- crates/server/src/web/layout.rs and web/render.rs: what every page has, and what a handler
-- answers. An error is answered by a page that shows it.
use servcat.Prelude.{String, Bool, Option}
use servcat.Model.User.{Role, requester, approver, agent, admin, User, same_role}
use servcat.Exec.{Exec, pure, ◌>>=◌}
use servcat.Server.Error.{ApiError}
use servcat.App.State.{AppState, Setup, db}
use servcat.App.Settings

-- `Redirect::to` a path, or a page with the fields of its template.
pub data Response (T : Type 0) : Type 0 where
  redirect : String → Response T
  html : T → Response T

-- `Role::label`
unfoldable pub label : Role → String
label requester = "Requester"
label approver = "Approver"
label agent = "Agent"
label admin = "Admin"

-- The `timezone` is only used to format times.
pub record Layout : Type 0 where
  pub app_name : String
  pub logo_url : Option String
  pub user_display_name : String
  pub user_role_label : String
  pub is_admin : Bool
  pub active_nav : String
  pub timezone : String

module _ {V : Type 0} (setup : Setup) where
  unfoldable pub load : User → String → Exec (AppState V) ApiError Layout
  unfolding label Settings.get
  load user active_nav = do
    settings ← db setup Settings.get
    pure (record {
      app_name = settings.app_name;
      logo_url = settings.logo_url;
      user_display_name = user.display_name;
      user_role_label = label user.role;
      is_admin = same_role user.role admin;
      active_nav = active_nav;
      timezone = settings.timezone;
    })
