-- ===== src/Auth/Routes.antt =====
-- crates/server/src/routes/auth.rs, without the registration: the calls that use tokens, as
-- requests that are handled one after another, with the time that passes between them.
use servcat.Prelude.{ℕ, String, Bool, List, [], ◌∷◌, if◌then◌else◌, ltb}
use servcat.Prelude.Int.{pos, ◌+ℤ◌}
use servcat.Model.User.{Uuid, User}
use servcat.Exec.{Exec, pure, fail, expect, modify, ◌>>=◌, ◌>>◌}
use servcat.Server.Error.{ApiError, unauthorized, internal, bad_request, not_found}
use servcat.Server.Routes.{if_active}
use servcat.Auth.Store.{AuthStore, Crypto, get_by_id, set_password_hash}
use servcat.Auth.Tokens.{
  TokenConfig, db, issue_token_pair, redeem_refresh_token, revoke_all_sessions,
  send_password_reset_email, redeem_password_reset_token, authenticate_local,
}

pub record TokenResponse : Type 0 where
  pub access_token : String
  pub refresh_token : String
  pub user : User

pub data AuthRequest : Type 0 where
  -- the address and the password
  login : String → String → AuthRequest
  refresh logout : String → AuthRequest
  request_password_reset : String → AuthRequest
  -- the token and the new password
  confirm_password_reset : String → String → AuthRequest
  -- what the deactivation of a user does to the sessions
  revoke_all : Uuid → AuthRequest
  wait : ℕ → AuthRequest

-- `byte_length` is `str::len`; `has_mailer` says whether a mailer is configured.
module _ (crypto : Crypto) (config : TokenConfig) (byte_length : String → ℕ)
    (has_mailer : Bool) where
  unfoldable pub respond : User → Exec AuthStore ApiError TokenResponse
  unfolding issue_token_pair
  respond user = do
    pair ← issue_token_pair crypto config user
    pure (record { access_token = pair.0; refresh_token = pair.1; user = user })

  unfoldable pub login_route : String → String → Exec AuthStore ApiError TokenResponse
  unfolding respond authenticate_local
  login_route email password = do
    user ← authenticate_local crypto config email password
    respond user

  unfoldable pub refresh_route : String → Exec AuthStore ApiError TokenResponse
  unfolding respond redeem_refresh_token
  refresh_route refresh_token = do
    user_id ← redeem_refresh_token crypto config refresh_token
    row ← db crypto config (get_by_id user_id)
    user ← expect unauthorized (if_active row)
    respond user

  -- The result of the redemption is ignored.
  unfoldable pub logout_route : String → Exec AuthStore ApiError (Unit {0})
  unfolding redeem_refresh_token
  logout_route refresh_token = modify (λ w. (redeem_refresh_token crypto config refresh_token w).1)

  unfoldable pub request_route : String → Exec AuthStore ApiError (Unit {0})
  unfolding send_password_reset_email
  request_route email =
      if has_mailer
      then send_password_reset_email crypto config email
      else fail (not_found "password reset is not enabled on this deployment")

  unfoldable pub confirm_route : String → String → Exec AuthStore ApiError (Unit {0})
  unfolding redeem_password_reset_token set_password_hash revoke_all_sessions
  confirm_route token new_password =
      if ltb (byte_length new_password) 12
      then fail (bad_request "password must be at least 12 characters")
      else (do
        user_id ← redeem_password_reset_token crypto config token
        password_hash ← expect internal (crypto.hash_password new_password)
        db crypto config (set_password_hash user_id password_hash)
        revoke_all_sessions crypto config user_id)

  -- The state after a request, whatever is replied.
  unfoldable pub handle : AuthRequest → AuthStore → AuthStore
  unfolding login_route refresh_route logout_route request_route confirm_route
  handle (login email password) w = (login_route email password w).1
  handle (refresh token) w = (refresh_route token w).1
  handle (logout token) w = (logout_route token w).1
  handle (request_password_reset email) w = (request_route email w).1
  handle (confirm_password_reset token password) w = (confirm_route token password w).1
  handle (revoke_all user_id) w = (revoke_all_sessions crypto config user_id w).1
  handle (wait seconds) w = record w { now = w.now +ℤ pos seconds }

  unfoldable pub serve : List AuthRequest → AuthStore → AuthStore
  serve [] w = w
  serve (r ∷ rest) w = serve rest (handle r w)
