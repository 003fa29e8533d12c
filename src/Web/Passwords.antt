-- ===== src/Web/Passwords.antt =====
-- crates/server/src/web/pages/auth.rs: the pages around a login, but for the login itself and the end
-- of a single sign-on, which are in App/Entrances.
use servcat.Prelude.{
  String, Bool, true, false, Option, none, some, Result, ok, err, ltb, if◌then◌else◌,
}
use servcat.Map.{is_some}
use servcat.Model.User.{Uuid, User}
use servcat.Exec.{Exec, pure, gets, expect, ◌>>=◌, ◌>>◌}
use servcat.Server.Error.{ApiError, internal}
use servcat.Auth.Store.{AuthStore, set_password_hash}
use servcat.Auth.Tokens.{
  TokenConfig, redeem_refresh_token, revoke_all_sessions, send_password_reset_email,
  redeem_password_reset_token,
}
use servcat.Auth.Tokens as Tokens
use servcat.App.State.{OrgSettings, AppState, Setup, on_auth, db}
use servcat.App.Settings
use servcat.App.Entrances.{valid_user_for_access_token}
use servcat.Web.Forms.{is_empty}
use servcat.Web.Layout.{Response, redirect, html}
use servcat.Web.Links.{safe_next}

pub record LoginTemplate : Type 0 where
  pub app_name : String
  pub logo_url : Option String
  pub sso_enabled : Bool
  pub reset_enabled : Bool
  pub invalid_credentials : Bool
  pub reset_success : Bool
  pub next : String

pub record ForgotPasswordTemplate : Type 0 where
  pub app_name : String
  pub logo_url : Option String
  pub submitted : Bool

pub record ResetPasswordTemplate : Type 0 where
  pub app_name : String
  pub logo_url : Option String
  pub invalid_token : Bool
  pub token : String
  pub error : Option String

abbrev pub too_short : String
too_short = "Password must be at least 12 characters."

-- `m.await.ok()`
abbrev pub attempt : {W E F A : Type 0} → Exec W E A → Exec W F (Result E A)
attempt m w = let (r, w') = m w in (ok r, w')

abbrev ok_of : {E A : Type 0} → Result E A → Option A
ok_of (ok a) = some a
ok_of (err e) = none

abbrev pub forgot_page : OrgSettings → Bool → ForgotPasswordTemplate
forgot_page settings submitted = record {
  app_name = settings.app_name;
  logo_url = settings.logo_url;
  submitted = submitted;
}

abbrev pub reset_page : OrgSettings → Bool → String → Option String → ResetPasswordTemplate
reset_page settings invalid_token token error = record {
  app_name = settings.app_name;
  logo_url = settings.logo_url;
  invalid_token = invalid_token;
  token = token;
  error = error;
}

module _ (setup : Setup) where
  -- What is done with the user of the token.
  abbrev pub set_password :
      OrgSettings
      → String
      → String
      → Result ApiError Uuid
      → Exec AuthStore ApiError (Response ResetPasswordTemplate)
  set_password settings token new_password (err e) =
      pure (html (reset_page settings true token none))
  set_password settings token new_password (ok user_id) = do
    password_hash ← expect internal (setup.crypto.hash_password new_password)
    Tokens.db setup.crypto setup.tokens (set_password_hash user_id password_hash)
    revoke_all_sessions setup.crypto setup.tokens user_id
    pure (redirect "/login?reset=1")

module _ {V : Type 0} (setup : Setup) where
  abbrev peek_cookie : Option String → Exec (AppState V) ApiError (Option User)
  peek_cookie none = pure none
  peek_cookie (some value) = do
    user ← attempt (valid_user_for_access_token setup value)
    pure (ok_of user)

  -- `peek_user` of web/session.rs
  unfoldable pub peek_user : Option String → Exec (AppState V) ApiError (Option User)
  unfolding valid_user_for_access_token
  peek_user access_cookie = peek_cookie access_cookie

  abbrev login_page : String → Bool → Bool → Exec (AppState V) ApiError (Response LoginTemplate)
  login_page next error reset = do
    settings ← db setup Settings.get
    sso ← gets (λ s. s.sso)
    pure (
        html (record {
          app_name = settings.app_name;
          logo_url = settings.logo_url;
          sso_enabled = is_some sso;
          reset_enabled = setup.has_mailer;
          invalid_credentials = error;
          reset_success = reset;
          next = next;
        }))

  unfoldable pub show_login :
      Option String
      → Bool
      → Bool
      → Option String
      → Exec (AppState V) ApiError (Response LoginTemplate)
  unfolding peek_user safe_next Settings.get
  show_login next error reset access_cookie = do
    user ← peek_user access_cookie
    (if is_some user
        then pure (redirect (safe_next next))
        else login_page (safe_next next) error reset)

  abbrev spend : Option String → Exec (AppState V) ApiError (Unit {0})
  spend none = pure tt
  spend (some value) = do
    spent ← attempt (on_auth (redeem_refresh_token setup.crypto setup.tokens value))
    pure tt

  -- Both cookies are cleared.
  unfoldable pub logout : Option String → Exec (AppState V) ApiError (Response (Unit {0}))
  logout refresh_cookie = do spend refresh_cookie; pure (redirect "/login")

  unfoldable pub show_forgot_password : Exec (AppState V) ApiError (Response ForgotPasswordTemplate)
  unfolding Settings.get
  show_forgot_password =
      if setup.has_mailer
      then (do settings ← db setup Settings.get; pure (html (forgot_page settings false)))
      else pure (redirect "/login")

  unfoldable pub submit_forgot_password :
      String → Exec (AppState V) ApiError (Response ForgotPasswordTemplate)
  unfolding Settings.get
  submit_forgot_password email =
      if setup.has_mailer
      then (do
        on_auth (send_password_reset_email setup.crypto setup.tokens email)
        settings ← db setup Settings.get
        pure (html (forgot_page settings true)))
      else pure (redirect "/login")

  unfoldable pub show_reset_password :
      Option String → Exec (AppState V) ApiError (Response ResetPasswordTemplate)
  unfolding Settings.get
  show_reset_password token = do
    settings ← db setup Settings.get
    pure (html (reset_page settings (is_empty (or_empty token)) (or_empty token) none))
    where
      or_empty : Option String → String
      or_empty none = ""
      or_empty (some t) = t

  unfoldable pub submit_reset_password :
      String → String → Exec (AppState V) ApiError (Response ResetPasswordTemplate)
  unfolding Settings.get redeem_password_reset_token set_password_hash revoke_all_sessions
  submit_reset_password token new_password = do
    settings ← db setup Settings.get
    on_auth (
        if ltb (setup.byte_length new_password) 12
        then pure (html (reset_page settings false token (some too_short)))
        else (attempt (redeem_password_reset_token setup.crypto setup.tokens token) >>= λ redeemed.
            set_password setup settings token new_password redeemed))
