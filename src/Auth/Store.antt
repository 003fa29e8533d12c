-- ===== src/Auth/Store.antt =====
-- The state of authentication: the users, the tables `sessions` and `password_resets`
-- (migrations/0002_users.sql, 0008_password_resets.sql), the clock, the random tokens and the mails
-- handed over. `Crypto` is what the program does not implement.
use servcat.Prelude.{
  ℕ, ◌+◌, String, ◌=ₛ◌, ◌==◌, Bool, not, ◌&&◌, Option, some, List, ok, err, any, find,
  if◌then◌else◌,
}
use servcat.Model.User.{Uuid, Role, Timestamp, User}
use servcat.Exec.{Exec, gets, modify}
use servcat.Db.Table.{select, update_where, insert, is_taken}
use servcat.Db.World.{DbError, sqlx}

pub record Session : Type 0 where
  pub id : Uuid
  pub user_id : Uuid
  pub refresh_token_hash : String
  pub user_agent : Option String
  pub ip_address : Option String
  pub expires_at : Timestamp
  pub revoked_at : Option Timestamp

pub record PasswordReset : Type 0 where
  pub id : Uuid
  pub user_id : Uuid
  pub token_hash : String
  pub expires_at : Timestamp
  pub used_at : Option Timestamp

pub record AuthStore : Type 0 where
  pub now : Timestamp
  pub uuids : ℕ → Uuid
  -- the random tokens, hex-encoded
  pub tokens : ℕ → String
  pub drawn : ℕ
  pub users : List User
  pub sessions : List Session
  pub password_resets : List PasswordReset
  -- the address and the token of each password reset mail that was handed to the mailer
  pub mails : List (String × String)

-- SHA-256 and hex, Argon2 and the JSON Web Tokens; `none` is a failure of theirs.
pub record Crypto : Type 0 where
  pub sha256_hex : String → String
  pub hash_password : String → Option String
  pub verify_password : String → String → Option Bool
  -- of the user, the role, the time of issue and the expiry
  pub encode : Uuid → Role → Timestamp → Timestamp → Option String

-- `rand::thread_rng().fill_bytes`, hex-encoded
unfoldable pub random_token : {E : Type 0} → Exec AuthStore E String
random_token w = (ok (w.tokens w.drawn), record w { drawn = w.drawn + 1 })

unfoldable pub new_v4 : {E : Type 0} → Exec AuthStore E Uuid
new_v4 w = (ok (w.uuids w.drawn), record w { drawn = w.drawn + 1 })

-- WHERE refresh_token_hash = ? AND revoked_at IS NULL AND expires_at > CURRENT_TIMESTAMP
unfoldable pub has_hash : String → Session → Bool
has_hash hash s = s.refresh_token_hash =ₛ hash

-- The `INSERT`s: the key and the hash are new, and the user is there.
unfoldable pub insert_session : Session → Exec AuthStore DbError (Unit {0})
unfolding has_hash
insert_session s w =
    if not (is_taken (λ r. r.id) s.id w.sessions)
      && not (any (has_hash s.refresh_token_hash) w.sessions)
      && is_taken (λ u. u.id) s.user_id w.users
    then (ok tt, record w { sessions = insert s w.sessions })
    else (err sqlx, w)

unfoldable pub insert_password_reset : PasswordReset → Exec AuthStore DbError (Unit {0})
insert_password_reset r w =
    if not (is_taken (λ q. q.id) r.id w.password_resets)
      && not (any (λ q. q.token_hash =ₛ r.token_hash) w.password_resets)
      && is_taken (λ u. u.id) r.user_id w.users
    then (ok tt, record w { password_resets = insert r w.password_resets })
    else (err sqlx, w)

unfoldable pub get_by_id : Uuid → Exec AuthStore DbError (Option User)
get_by_id id = gets (λ w. select (λ u. u.id) id w.users)

-- The collation compares the addresses: a parameter.
unfoldable pub get_by_email :
    (String → String → Bool) → String → Exec AuthStore DbError (Option User)
get_by_email same_email email = gets (λ w. find (λ u. same_email u.email email) w.users)

unfoldable pub set_password_hash : Uuid → String → Exec AuthStore DbError (Unit {0})
set_password_hash id hash = modify λ w. record w {
  users =
      update_where (λ u. u.id == id)
        (λ u. record u { password_hash = some hash; updated_at = w.now }) w.users;
}
