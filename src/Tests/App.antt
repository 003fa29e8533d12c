-- ===== src/Tests/App.antt =====
-- The theorems of the whole server, at an installation (crates/server/src/state.rs).
use servcat.Prelude.{ℕ, ◌=ₛ◌, ◌≡◌, refl, ◌≢◌, true, false, none, some, List, [], ◌∷◌, All, ok}
use servcat.Prelude.Int.{pos}
use servcat.Json.Sample.{Sample, sample_json}
use servcat.Model.User.{Role, User}
use servcat.Exec.{◌>>=◌, map_error}
use servcat.Db.Table.{select, update_where}
use servcat.Sso.Service.{AuthenticatedIdentity}
use servcat.Auth.Tokens.{revoke_all_sessions}
use servcat.Db.World.{new_v4}
use servcat.App.State.{OrgSettings, AppState, Setup, on_auth, on_world}
use servcat.App.Users
use servcat.App.Audit.{record_entry}
use servcat.App.Entrances.{Entrance, bearer, login, sso_token, cookies}
use servcat.App.Admin.{deactivate_user}
use servcat.App.Accounts.{provision_or_link_user}
use servcat.App.Provisioned.{Provisioned, provision_or_link_user_lem}
use servcat.App.Locked.{Maybe}
use servcat.App.Locked.Entrances.{visits}
use servcat.App.Locked.Lockout.{deactivate_user-visits}
use servcat.Tests.Data.{world, approver}
use servcat.Tests.Auth.{crypto, config, store}
use servcat.Tests.Sso.{provider, service}

abbrev pub setup : Setup
setup = record {
  crypto = crypto;
  tokens = config;
  provider = provider;
  byte_length = λ s. 20;
  has_mailer = true;
  same_text = λ a b. a =ₛ b;
  before = λ a b. true;
  decode_token = λ token now. some (1, Role.requester);
  is_timezone = λ name. true;
  users_differ = λ a b. true;
  departments_differ = λ a b. true;
  settings_differ = λ a b. true;
  items_differ = λ a b. true;
}

abbrev pub site_settings : OrgSettings
site_settings = record {
  app_name = "ServCat";
  logo_url = none;
  allow_local_signup = false;
  timezone = "UTC";
  updated_at = pos 0;
}

abbrev pub site : AppState Sample
site = record {
  world = world;
  auth = store;
  sso = some service;
  departments = [];
  settings = some site_settings;
  audit_log = [];
}

abbrev head : User
head = record approver { role = Role.admin }

abbrev clients : List (ℕ × Entrance)
clients =
    (5, bearer "a token")
    ∷ (0, login "ann@example.org" "password")
    ∷ (60, cookies (some "a token") (some "r1"))
    ∷ (1, sso_token "a random token")
    ∷ []

deactivated_once : (deactivate_user setup head 1 site).0 ≡ ok tt
unfolding deactivate_user ◌>>=◌ map_error Users.deactivate on_auth revoke_all_sessions record_entry
    on_world new_v4 select update_where
deactivated_once = refl

deactivate_user-visits_example :
    All (Maybe (λ u. u.id ≢ 1)) (visits setup clients (deactivate_user setup head 1 site).1)
deactivate_user-visits_example =
    deactivate_user-visits 1 setup head site (unfold select in refl) deactivated_once clients

abbrev newcomer : AuthenticatedIdentity
newcomer = record {
  external_idp_subject = "a subject";
  email = "eve@example.org";
  display_name = "Eve";
}

provision_or_link_user_lem_example :
    Provisioned setup newcomer site (provision_or_link_user setup newcomer site)
provision_or_link_user_lem_example = provision_or_link_user_lem setup newcomer site
