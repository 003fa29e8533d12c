-- ===== src/App/State.antt =====
-- crates/server/src/state.rs: the state of the server, which embeds those of the workflows, of
-- authentication and of single sign-on. `Setup` is what the program does not implement.
use servcat.Prelude.{ℕ, String, Bool, Option, none, some, List, Result, err}
use servcat.Model.User.{Uuid, Timestamp, Role, User}
use servcat.Model.Catalog.{ServiceCatalogItem}
use servcat.Exec.{Exec, map_error}
use servcat.Db.World.{DbError, World}
use servcat.Auth.Store.{AuthStore, Crypto}
use servcat.Auth.Tokens.{TokenConfig}
use servcat.Sso.Service.{SsoService, Provider}
use servcat.Server.Error.{ApiError, from_db, not_found}

-- crates/model/src/department.rs
pub record Department : Type 0 where
  pub id : Uuid
  pub name : String
  pub logo_url : Option String
  pub parent_department_id : Option Uuid
  pub created_at : Timestamp
  pub updated_at : Timestamp

-- crates/model/src/org_settings.rs
pub record OrgSettings : Type 0 where
  pub app_name : String
  pub logo_url : Option String
  pub allow_local_signup : Bool
  pub timezone : String
  pub updated_at : Timestamp

-- crates/model/src/audit.rs
pub record AuditLogEntry (V : Type 0) : Type 0 where
  pub id : Uuid
  pub actor_user_id : Option Uuid
  pub action : String
  pub entity_type : String
  pub entity_id : Option String
  pub metadata_json : Option V
  pub created_at : Timestamp

-- `world` has the users, and the one clock of the database.
pub record AppState (V : Type 0) : Type 0 where
  pub world : World V
  pub auth : AuthStore
  pub sso : Option SsoService
  pub departments : List Department
  pub settings : Option OrgSettings
  pub audit_log : List (AuditLogEntry V)

pub record Setup : Type 0 where
  pub crypto : Crypto
  pub tokens : TokenConfig
  pub provider : Provider
  -- `str::len`
  pub byte_length : String → ℕ
  -- whether a mailer is configured
  pub has_mailer : Bool
  -- the equality and the order of texts in the database, by its collation
  pub same_text : String → String → Bool
  pub before : String → String → Bool
  -- the user and the role of an access token that is valid at a time
  pub decode_token : String → Timestamp → Option (Uuid × Role)
  pub is_timezone : String → Bool
  -- whether an update changes a column
  pub users_differ : User → User → Bool
  pub departments_differ : Department → Department → Bool
  pub settings_differ : OrgSettings → OrgSettings → Bool
  pub items_differ : ServiceCatalogItem → ServiceCatalogItem → Bool

abbrev pub sso_not_configured : ApiError
sso_not_configured = not_found "single sign-on is not configured"

module _ {V : Type 0} where
  -- An action on a part of the state.
  unfoldable pub on_world : {E A : Type 0} → Exec (World V) E A → Exec (AppState V) E A
  on_world m s = let (r, w) = m s.world in (r, record s { world = w })

  abbrev pub auth_of : AppState V → AuthStore
  auth_of s = record s.auth { now = s.world.now; users = s.world.users }

  unfoldable pub on_auth : {E A : Type 0} → Exec AuthStore E A → Exec (AppState V) E A
  on_auth m s =
      let (r, a) = m (auth_of s) in
      (r, record s { world = record s.world { users = a.users }; auth = a })

  abbrev pub with_sso :
      {A : Type 0}
      → Exec SsoService ApiError A
      → Option SsoService
      → AppState V
      → Result ApiError A × AppState V
  with_sso m none s = (err sso_not_configured, s)
  with_sso m (some service) s = let (r, v) = m service in (r, record s { sso = some v })

  -- `state.sso.as_ref().ok_or_else(sso_not_configured)?` and an action on it
  unfoldable pub on_sso : {A : Type 0} → Exec SsoService ApiError A → Exec (AppState V) ApiError A
  on_sso m s = with_sso m s.sso s

  -- `?` on the error of a repository
  abbrev pub db : {A : Type 0} → Setup → Exec (AppState V) DbError A → Exec (AppState V) ApiError A
  db setup m = map_error (from_db setup.tokens.uuid_text) m
