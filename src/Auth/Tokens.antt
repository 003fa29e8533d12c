-- ===== src/Auth/Tokens.antt =====
-- crates/server/src/auth.rs
use servcat.Prelude.{
  ◌*◌, ℕ, String, ◌=ₛ◌, ◌==◌, Bool, not, ◌&&◌, ◌||◌, ◌++◌, Option, none, some, [], ◌∷◌, find,
  if◌then◌else◌,
}
use servcat.Prelude.Int.{pos, ltb_ℤ, ◌+ℤ◌}
use servcat.Map.{is_some}
use servcat.Model.User.{Uuid, Timestamp, User}
use servcat.Exec.{Exec, pure, fail, gets, expect, modify, ◌>>=◌, ◌>>◌, map_error}
use servcat.Db.Table.{update_where}
use servcat.Db.World.{DbError}
use servcat.Server.Error.{ApiError, unauthorized, internal, bad_request, from_db}
use servcat.Auth.Store.{
  Session, PasswordReset, AuthStore, Crypto, random_token, new_v4, has_hash, insert_session,
  insert_password_reset, get_by_email,
}

-- What of the configuration is used: the lifetimes, in seconds, and the text of a UUID.
pub record TokenConfig : Type 0 where
  pub access_token_ttl : ℕ
  pub refresh_token_ttl : ℕ
  pub uuid_text : Uuid → String
  pub same_email : String → String → Bool

abbrev pub password_reset_ttl_minutes : ℕ
password_reset_ttl_minutes = 30

-- revoked_at IS NULL AND expires_at > CURRENT_TIMESTAMP, under this hash
unfoldable pub is_live : Timestamp → String → Session → Bool
unfolding has_hash ltb_ℤ
is_live now hash s = has_hash hash s && not (is_some s.revoked_at) && ltb_ℤ now s.expires_at

unfoldable pub is_usable : Timestamp → String → PasswordReset → Bool
unfolding ltb_ℤ
is_usable now hash r = r.token_hash =ₛ hash && not (is_some r.used_at) && ltb_ℤ now r.expires_at

unfoldable pub revoked : Timestamp → Session → Session
revoked now s = record s { revoked_at = some now }

unfoldable pub used : Timestamp → PasswordReset → PasswordReset
used now r = record r { used_at = some now }

-- user_id = ? AND revoked_at IS NULL
unfoldable pub is_open_of : Uuid → Session → Bool
is_open_of user_id s = s.user_id == user_id && not (is_some s.revoked_at)

abbrev pub invalid_link : ApiError
invalid_link = bad_request "this password reset link is invalid or has expired"

module _ (crypto : Crypto) (config : TokenConfig) where
  abbrev pub db : {A : Type 0} → Exec AuthStore DbError A → Exec AuthStore ApiError A
  db m = map_error (from_db config.uuid_text) m

  unfoldable pub create_session :
      Uuid → Option String → Option String → Exec AuthStore ApiError String
  unfolding random_token new_v4 insert_session
  create_session user_id user_agent ip_address = do
    raw_token ← random_token
    now ← gets (λ w. w.now)
    id ← new_v4
    db (
        insert_session (record {
          id = id;
          user_id = user_id;
          refresh_token_hash = crypto.sha256_hex raw_token;
          user_agent = user_agent;
          ip_address = ip_address;
          expires_at = now +ℤ pos config.refresh_token_ttl;
          revoked_at = none;
        }))
    pure raw_token

  unfoldable pub issue_access_token : User → Exec AuthStore ApiError String
  issue_access_token user = do
    now ← gets (λ w. w.now)
    expect internal (crypto.encode user.id user.role now (now +ℤ pos config.access_token_ttl))

  unfoldable pub issue_token_pair : User → Exec AuthStore ApiError (String × String)
  unfolding issue_access_token create_session
  issue_token_pair user = do
    access_token ← issue_access_token user
    refresh_token ← create_session user.id none none
    pure (access_token, refresh_token)

  -- The two queries of `redeem_refresh_token`.
  unfoldable pub find_session : String → Exec AuthStore ApiError Session
  unfolding is_live
  find_session raw_token = do
    row ← gets (λ w. find (is_live w.now (crypto.sha256_hex raw_token)) w.sessions)
    expect unauthorized row

  unfoldable pub revoke_session : Uuid → Exec AuthStore ApiError (Unit {0})
  unfolding revoked
  revoke_session id =
      modify
        (λ w. record w { sessions = update_where (λ s. s.id == id) (revoked w.now) w.sessions })

  unfoldable pub redeem_refresh_token : String → Exec AuthStore ApiError Uuid
  unfolding find_session revoke_session
  redeem_refresh_token raw_token = do
    session ← find_session raw_token
    revoke_session session.id
    pure session.user_id

  unfoldable pub revoke_all_sessions : Uuid → Exec AuthStore ApiError (Unit {0})
  unfolding is_open_of revoked
  revoke_all_sessions user_id =
      modify
        (λ w. record w { sessions = update_where (is_open_of user_id) (revoked w.now) w.sessions })

  unfoldable pub create_password_reset_token : Uuid → Exec AuthStore ApiError String
  unfolding random_token new_v4 insert_password_reset
  create_password_reset_token user_id = do
    raw_token ← random_token
    now ← gets (λ w. w.now)
    id ← new_v4
    db (
        insert_password_reset (record {
          id = id;
          user_id = user_id;
          token_hash = crypto.sha256_hex raw_token;
          expires_at = now +ℤ pos (password_reset_ttl_minutes * 60);
          used_at = none;
        }))
    pure raw_token

  unfoldable pub mail_to : User → Exec AuthStore ApiError (Unit {0})
  unfolding create_password_reset_token
  mail_to user = if not user.is_active || not (is_some user.password_hash) then pure tt else (do
    token ← create_password_reset_token user.id
    modify (λ w. record w { mails = w.mails ++ (user.email, token) ∷ [] }))

  abbrev pub mail_if_found : Option User → Exec AuthStore ApiError (Unit {0})
  mail_if_found none = pure tt
  mail_if_found (some user) = mail_to user

  unfoldable pub send_password_reset_email : String → Exec AuthStore ApiError (Unit {0})
  unfolding mail_to get_by_email
  send_password_reset_email email = do
    row ← db (get_by_email config.same_email email)
    mail_if_found row

  -- The two queries of `redeem_password_reset_token`.
  unfoldable pub find_reset : String → Exec AuthStore ApiError PasswordReset
  unfolding is_usable
  find_reset raw_token = do
    row ← gets (λ w. find (is_usable w.now (crypto.sha256_hex raw_token)) w.password_resets)
    expect invalid_link row

  unfoldable pub use_reset : Uuid → Exec AuthStore ApiError (Unit {0})
  unfolding used
  use_reset id = modify λ w. record w {
    password_resets = update_where (λ r. r.id == id) (used w.now) w.password_resets;
  }

  unfoldable pub redeem_password_reset_token : String → Exec AuthStore ApiError Uuid
  unfolding find_reset use_reset
  redeem_password_reset_token raw_token = do
    reset ← find_reset raw_token
    use_reset reset.id
    pure reset.user_id

  -- The checks on the account that was read.
  abbrev pub password_hash_of : User → Exec AuthStore ApiError String
  password_hash_of user =
      if user.is_active then expect unauthorized user.password_hash else fail unauthorized

  unfoldable pub authenticate_local : String → String → Exec AuthStore ApiError User
  unfolding get_by_email
  authenticate_local email password = do
    row ← db (get_by_email config.same_email email)
    user ← expect unauthorized row
    password_hash ← password_hash_of user
    verified ← expect internal (crypto.verify_password password password_hash)
    (if verified then pure tt else fail unauthorized)
    pure user
