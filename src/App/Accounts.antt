-- ===== src/App/Accounts.antt =====
-- crates/server/src/routes/sso.rs: the accounts behind a single sign-on.
use servcat.Prelude.{String, List, Option, none, some, if◌then◌else◌}
use servcat.Map.{is_some}
use servcat.Model.User.{requester, User}
use servcat.Exec.{Exec, pure, fail, expect, ◌>>=◌, ◌>>◌}
use servcat.Server.Error.{ApiError, unauthorized, bad_request, not_found, conflict}
use servcat.Server.Routes.{if_active}
use servcat.Auth.Tokens.{issue_token_pair}
use servcat.Auth.Routes.{TokenResponse}
use servcat.Sso.Service.{AuthenticatedIdentity, issue_handoff_code, redeem_handoff_code}
use servcat.Sso.Login.{begin_login, complete_login}
use servcat.App.State.{AppState, Setup, on_auth, on_sso, db}
use servcat.App.Users
use servcat.App.Users.{NewUser}

pub record CallbackQuery : Type 0 where
  pub code : Option String
  pub state : Option String
  pub error : Option String

abbrev pub missing_code : ApiError
missing_code = bad_request "missing code/state from Entra ID"

abbrev pub other_subject : ApiError
other_subject = conflict "this email is already linked to a different sign-in method"

-- A new account of an identity.
abbrev pub new_requester : AuthenticatedIdentity → NewUser
new_requester identity = record {
  email = identity.email;
  display_name = identity.display_name;
  password = none;
  external_idp_subject = some identity.external_idp_subject;
  department_id = none;
  manager_user_id = none;
  role = requester;
}

module _ {V : Type 0} (setup : Setup) where
  abbrev pub link : User → String → Exec (AppState V) ApiError User
  link user subject = if is_some user.external_idp_subject then fail other_subject else (do
    row ← db setup (Users.link_external_idp_subject setup user.id subject)
    expect (not_found "user not found") row)

  abbrev pub link_or_create : AuthenticatedIdentity → Option User → Exec (AppState V) ApiError User
  link_or_create identity (some user) = link user identity.external_idp_subject
  link_or_create identity none = db setup (Users.create setup (new_requester identity) none)

  abbrev pub known_or_new : AuthenticatedIdentity → Option User → Exec (AppState V) ApiError User
  known_or_new identity (some user) = pure user
  known_or_new identity none = do
    by_email ← db setup (Users.get_by_email setup identity.email)
    link_or_create identity by_email

  unfoldable pub provision_or_link_user : AuthenticatedIdentity → Exec (AppState V) ApiError User
  unfolding Users.get_by_external_idp_subject Users.get_by_email Users.link_external_idp_subject
      Users.create
  provision_or_link_user identity = do
    by_subject ← db setup (Users.get_by_external_idp_subject setup identity.external_idp_subject)
    known_or_new identity by_subject

  -- `let (Some(code), Some(state_param)) = .. else`, after the check of `query.error`
  abbrev pub code_and_state :
      Option String → Option String → Option String → Exec (AppState V) ApiError (String × String)
  code_and_state (some error) code state = fail unauthorized
  code_and_state none (some code) (some state) = pure (code, state)
  code_and_state none (some code) none = fail missing_code
  code_and_state none none state = fail missing_code

  unfoldable pub login : Exec (AppState V) ApiError (String × List (String × String))
  login = on_sso (begin_login setup.provider)

  -- The user that is let in, and the handoff code that the browser is sent away with.
  unfoldable pub callback : CallbackQuery → Exec (AppState V) ApiError (User × String)
  unfolding provision_or_link_user
  callback query = do
    on_sso (pure tt)
    (code, state) ← code_and_state query.error query.code query.state
    identity ← on_sso (complete_login setup.provider code state)
    user ← provision_or_link_user identity
    (if user.is_active then pure tt else fail unauthorized)
    handoff_code ← on_sso (issue_handoff_code user.id)
    pure (user, handoff_code)

  unfoldable pub token : String → Exec (AppState V) ApiError TokenResponse
  token code = do
    user_id ← on_sso (redeem_handoff_code code)
    row ← db setup (Users.get_by_id setup user_id)
    user ← expect unauthorized (if_active row)
    pair ← on_auth (issue_token_pair setup.crypto setup.tokens user)
    pure (record { access_token = pair.0; refresh_token = pair.1; user = user })
