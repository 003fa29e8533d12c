-- ===== src/App/Entrances.antt =====
-- The ways to act as a user: a bearer token (`AuthUser`, crates/server/src/auth.rs), a login, a
-- registration and a refresh (crates/server/src/routes/auth.rs), single sign-on
-- (crates/server/src/routes/sso.rs), and the cookies of a browser
-- (crates/server/src/web/session.rs, web/pages/auth.rs).
use servcat.Prelude.{String, Option, none, some, Result, ok, err, ltb, if◌then◌else◌}
use servcat.Map.{is_some}
use servcat.Model.User.{Uuid, Role, User}
use servcat.Exec.{Exec, pure, fail, gets, expect, ◌>>=◌, ◌>>◌, map_error, catch}
use servcat.Server.Error.{ApiError, unauthorized, forbidden, bad_request, internal, conflict}
use servcat.Server.Routes.{if_active}
use servcat.Auth.Tokens.{redeem_refresh_token, issue_token_pair, authenticate_local}
use servcat.Auth.Routes.{TokenResponse, login_route, refresh_route}
use servcat.Sso.Service.{redeem_handoff_code}
use servcat.App.State.{AppState, Setup, on_auth, on_sso, db}
use servcat.App.Users
use servcat.App.Users.{NewUser}
use servcat.App.Settings
use servcat.App.Accounts.{CallbackQuery, callback, token}

-- Where a browser is sent instead of to the page.
pub data Redirect : Type 0 where
  to_login to_login_error : Redirect

abbrev pub tokens_of : TokenResponse → String × String
tokens_of r = (r.access_token, r.refresh_token)

module _ {V : Type 0} (setup : Setup) where
  unfoldable pub verify_access_token : String → Exec (AppState V) ApiError (Uuid × Role)
  verify_access_token access_token s =
      expect unauthorized (setup.decode_token access_token s.world.now) s

  -- `AuthUser::from_request_parts`
  unfoldable pub auth_user : String → Exec (AppState V) ApiError User
  unfolding verify_access_token
  auth_user bearer = do
    (user_id, role) ← verify_access_token bearer
    row ← db setup (Users.get_by_id setup user_id)
    expect unauthorized (if_active row)

  -- `valid_user_for_access_token`, where no user is an error
  unfoldable pub valid_user_for_access_token : String → Exec (AppState V) ApiError User
  unfolding verify_access_token
  valid_user_for_access_token access_token = do
    (user_id, role) ← verify_access_token access_token
    row ← db setup (Users.get_by_id setup user_id)
    expect unauthorized (if_active row)

  abbrev pub cookie : Option String → Exec (AppState V) ApiError String
  cookie c = expect unauthorized c

  -- The new pair of tokens, if there is one, is set in the cookies.
  abbrev pub by_access_cookie :
      Option String → Exec (AppState V) ApiError (User × Option (String × String))
  by_access_cookie access = do
    value ← cookie access
    user ← valid_user_for_access_token value
    pure (user, none)

  abbrev pub by_refresh_cookie :
      Option String → Exec (AppState V) ApiError (User × Option (String × String))
  by_refresh_cookie refresh = do
    value ← cookie refresh
    user_id ← on_auth (redeem_refresh_token setup.crypto setup.tokens value)
    row ← db setup (Users.get_by_id setup user_id)
    user ← expect unauthorized (if_active row)
    pair ← on_auth (issue_token_pair setup.crypto setup.tokens user)
    pure (user, some pair)

  unfoldable pub require_session :
      Option String → Option String → Exec (AppState V) Redirect (User × Option (String × String))
  unfolding valid_user_for_access_token
  require_session access refresh =
      catch (by_access_cookie access) λ e. catch (by_refresh_cookie refresh) λ e. fail to_login

  abbrev pub fresh_account : String → String → String → Exec (AppState V) ApiError User
  fresh_account email display_name password = do
    password_hash ← expect internal (setup.crypto.hash_password password)
    db setup (
        Users.create setup
          (record {
            email = email;
            display_name = display_name;
            password = none;
            external_idp_subject = none;
            department_id = none;
            manager_user_id = none;
            role = Role.requester;
          })
          (some password_hash))

  unfoldable pub register : String → String → String → Exec (AppState V) ApiError TokenResponse
  register email display_name password = do
    settings ← db setup Settings.get
    (if settings.allow_local_signup then pure tt else fail forbidden)
    (if ltb (setup.byte_length password) 12
        then fail (bad_request "password must be at least 12 characters")
        else pure tt)
    known ← db setup (Users.get_by_email setup email)
    (if is_some known then fail (conflict "an account with that email already exists") else pure tt)
    user ← fresh_account email display_name password
    pair ← on_auth (issue_token_pair setup.crypto setup.tokens user)
    pure (record { access_token = pair.0; refresh_token = pair.1; user = user })

  -- `submit_login` of the web pages: any error sends back to the form.
  unfoldable pub submit_login :
      String → String → Exec (AppState V) Redirect (User × (String × String))
  submit_login email password =
      map_error (λ (e : ApiError). to_login_error)
        (do
          user ← on_auth (authenticate_local setup.crypto setup.tokens email password)
          pair ← on_auth (issue_token_pair setup.crypto setup.tokens user)
          pure (user, pair))

  -- `sso_complete` of the web pages
  unfoldable pub sso_complete : String → Exec (AppState V) Redirect (User × (String × String))
  sso_complete code = do
    service ← gets (λ s. s.sso)
    expect to_login service
    map_error (λ (e : ApiError). to_login_error)
        (do
          user_id ← on_sso (redeem_handoff_code code)
          row ← db setup (Users.get_by_id setup user_id)
          user ← expect unauthorized (if_active row)
          pair ← on_auth (issue_token_pair setup.crypto setup.tokens user)
          pure (user, pair))

-- What a client comes with.
pub data Entrance : Type 0 where
  bearer : String → Entrance
  -- the address and the password
  login login_page : String → String → Entrance
  refresh : String → Entrance
  -- the address, the name and the password
  registration : String → String → String → Entrance
  sso_callback : CallbackQuery → Entrance
  sso_token sso_page : String → Entrance
  -- the access and the refresh cookie
  cookies : Option String → Option String → Entrance

-- The user as whom the client then acts; whoever is not let in gets `none`.
abbrev pub let_in : {E A : Type 0} → (A → User) → Result E A → Option User
let_in user_of (ok a) = some (user_of a)
let_in user_of (err e) = none

module _ {V : Type 0} (setup : Setup) where
  abbrev pub entering :
      {E A : Type 0} → (A → User) → Exec (AppState V) E A → AppState V → Option User × AppState V
  entering user_of m s = let (r, s') = m s in (let_in user_of r, s')

  unfoldable pub enter : Entrance → AppState V → Option User × AppState V
  enter (bearer access_token) = entering (λ u. u) (auth_user setup access_token)
  enter (login email password) =
      entering (λ r. r.user)
        (on_auth
          (login_route setup.crypto setup.tokens setup.byte_length setup.has_mailer email password))
  enter (login_page email password) = entering (λ p. p.0) (submit_login setup email password)
  enter (refresh refresh_token) =
      entering (λ r. r.user)
        (on_auth (
          refresh_route setup.crypto setup.tokens setup.byte_length setup.has_mailer refresh_token))
  enter (registration email name password) =
      entering (λ r. r.user) (register setup email name password)
  enter (sso_callback query) = entering (λ p. p.0) (callback setup query)
  enter (sso_token code) = entering (λ r. r.user) (token setup code)
  enter (sso_page code) = entering (λ p. p.0) (sso_complete setup code)
  enter (cookies access refresh_token) =
      entering (λ p. p.0) (require_session setup access refresh_token)
