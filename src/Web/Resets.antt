-- ===== src/Web/Resets.antt =====
-- The page that resets a password against the call of the API that does
-- (crates/server/src/web/pages/auth.rs, crates/server/src/routes/auth.rs).
use servcat.Prelude.{
  ltb, String, ◌≡◌, refl, ap, Bool, true, false, Option, none, some, Result, ok, err, if◌then◌else◌,
}
use servcat.Model.User.{Uuid}
use servcat.Exec.{Exec, pure, fail, expect, continue, ◌>>=◌, ◌>>◌, map_error}
use servcat.Server.Error.{ApiError, bad_request, internal}
use servcat.Auth.Store.{AuthStore, set_password_hash}
use servcat.Auth.Tokens.{redeem_password_reset_token, revoke_all_sessions}
use servcat.Auth.Tokens as Tokens
use servcat.Auth.Routes.{confirm_route}
use servcat.App.State.{OrgSettings, AppState, Setup, auth_of, on_auth}
use servcat.App.Settings
use servcat.Web.Layout.{Response, redirect, html}
use servcat.Web.Passwords.{
  ResetPasswordTemplate, too_short, reset_page, attempt, set_password, submit_reset_password,
}

abbrev pub short_password : ApiError
short_password = bad_request "password must be at least 12 characters"

-- The answer of the page beside that of the API.
pub data Agrees (settings : OrgSettings) (token : String)
    : Result ApiError (Response ResetPasswordTemplate) → Result ApiError (Unit {0}) → Type 0 where
  done : Agrees settings token (ok (redirect "/login?reset=1")) (ok tt)
  too_short_again :
      Agrees settings token
        (ok (html (reset_page settings false token (some too_short))))
        (err short_password)
  invalid_token :
      {e : ApiError}
      → Agrees settings token (ok (html (reset_page settings true token none))) (err e)
  fails : {e : ApiError} → Agrees settings token (err e) (err e)

abbrev pub Same :
    {W : Type 0}
    → OrgSettings
    → String
    → Result ApiError (Response ResetPasswordTemplate) × W
    → Result ApiError (Unit {0}) × W
    → Type 0
Same settings token page api = (page.1 ≡ api.1) × Agrees settings token page.0 api.0

module _ (setup : Setup) (settings : OrgSettings) (token new_password : String) where
  -- What the API does with the user of the token.
  abbrev after_token : Uuid → Exec AuthStore ApiError (Unit {0})
  after_token user_id = do
    password_hash ← expect internal (setup.crypto.hash_password new_password)
    Tokens.db setup.crypto setup.tokens (set_password_hash user_id password_hash)
    revoke_all_sessions setup.crypto setup.tokens user_id

  set_password-Same :
      (user_id : Uuid) (w : AuthStore) (hash : Option String)
      → setup.crypto.hash_password new_password ≡ hash
      → Same settings token
          (set_password setup settings token new_password (ok user_id) w)
          (after_token user_id w)
  unfolding ◌>>=◌ map_error set_password_hash revoke_all_sessions
  set_password-Same user_id w none e = rw e (refl, fails)
  set_password-Same user_id w (some hash) e = rw e (refl, done)

  Same-of_token :
      (r : Result ApiError Uuid) (w : AuthStore)
      → Same settings token
          (set_password setup settings token new_password r w)
          (continue after_token r w)
  Same-of_token (err e) w = (refl, invalid_token)
  Same-of_token (ok user_id) w =
      set_password-Same user_id w (setup.crypto.hash_password new_password) refl

  Same-of_length :
      (w : AuthStore) (short : Bool)
      → Same settings token
          ((if short
              then pure (html (reset_page settings false token (some too_short)))
              else (attempt (redeem_password_reset_token setup.crypto setup.tokens token)
                  >>= λ redeemed. set_password setup settings token new_password redeemed))
            w)
          ((if short
              then fail (bad_request "password must be at least 12 characters")
              else (redeem_password_reset_token setup.crypto setup.tokens token >>= after_token))
            w)
  unfolding ◌>>=◌
  Same-of_length w true = (refl, too_short_again)
  Same-of_length w false =
      let (r, w') = redeem_password_reset_token setup.crypto setup.tokens token w in
      Same-of_token r w'

module _ {V : Type 0} (setup : Setup) (token new_password : String) (settings : OrgSettings)
    (s : AppState V) where
  pub submit_reset_password-confirm_route :
      s.settings ≡ some settings
      → Same settings token (submit_reset_password setup token new_password s) (
          on_auth
            (confirm_route setup.crypto setup.tokens setup.byte_length setup.has_mailer token
              new_password)
            s)
  unfolding submit_reset_password confirm_route Settings.get on_auth ◌>>=◌ map_error
  submit_reset_password-confirm_route e =
      let (state, answer) =
        Same-of_length setup settings token new_password (auth_of s)
          (ltb (setup.byte_length new_password) 12) in
      rw e (
        ap
            (λ w. record s {
              world = record s.world { users = w.users };
              auth = w;
              settings = some settings;
            })
            state,
        answer,
      )
