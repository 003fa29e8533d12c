-- ===== src/Auth/Spent/Calls.antt =====
-- Every request of authentication keeps the sessions' hashes unique and the spent ones spent
-- (crates/server/src/auth.rs, crates/server/src/routes/auth.rs).
use servcat.Prelude.{
  ℕ, String, ◌=ₛ◌, ◌==◌, ◌≡◌, refl, Bool, true, false, not, ◌&&◌, ◌++◌, Bool-cases, inl, inr,
  Option, none, some, List, [], ◌∷◌, any, arith, if◌then◌else◌,
}
use servcat.Model.User.{Uuid, User}
use servcat.Exec.{Exec, pure, fail, gets, expect, modify, ◌>>=◌, map_error}
use servcat.Exec.Steps.{
  Steps, Steps-pure, Steps-fail, Steps-gets, Steps-expect, Steps-if, Steps-bind, Steps-map_error,
}
use servcat.Db.Table.{is_taken}
use servcat.Server.Error.{ApiError}
use servcat.Auth.Store.{
  Session, AuthStore, Crypto, has_hash, random_token, new_v4, insert_session, insert_password_reset,
  PasswordReset, get_by_id, get_by_email, set_password_hash,
}
use servcat.Auth.Tokens.{
  TokenConfig, is_open_of, create_session, issue_access_token, issue_token_pair, find_session,
  revoke_session, redeem_refresh_token, revoke_all_sessions, create_password_reset_token, mail_to,
  mail_if_found, send_password_reset_email, find_reset, use_reset, redeem_password_reset_token,
  authenticate_local,
}
use servcat.Auth.Routes.{
  AuthRequest, login, refresh, logout, request_password_reset, confirm_password_reset, revoke_all,
  wait, respond, login_route, refresh_route, logout_route, request_route, confirm_route, handle,
  serve,
}
use servcat.Auth.Spent.{Keeps, Keeps-order, same_sessions, revoking, appending}

module _ {E A : Type 0} where
  pure_rule : (a : A) → Steps Keeps (pure {E = E} a)
  pure_rule a = Steps-pure Keeps-order a

  fail_rule : (e : E) → Steps Keeps (fail {A = A} e)
  fail_rule e = Steps-fail Keeps-order e

  gets_rule : (f : AuthStore → A) → Steps Keeps (gets {E = E} f)
  gets_rule f = Steps-gets Keeps-order f

  expect_rule : (e : E) (o : Option A) → Steps Keeps (expect {W = AuthStore} e o)
  expect_rule e o = Steps-expect Keeps-order e o

  if_rule :
      (b : Bool) (m n : Exec AuthStore E A)
      → Steps Keeps m
      → Steps Keeps n
      → Steps Keeps (if b then m else n)
  if_rule b m n = Steps-if Keeps-order b m n

module _ {E A B : Type 0} where
  bind_rule :
      (m : Exec AuthStore E A) (f : A → Exec AuthStore E B)
      → Steps Keeps m
      → ((a : A) → Steps Keeps (f a))
      → Steps Keeps (m >>= f)
  bind_rule m f = Steps-bind Keeps-order m f

module _ {E F A : Type 0} where
  map_error_rule :
      (f : E → F) (m : Exec AuthStore E A) → Steps Keeps m → Steps Keeps (map_error f m)
  map_error_rule f m = Steps-map_error Keeps-order f m

ruleset keeps_rules =
    (pure_rule, fail_rule, gets_rule, expect_rule, if_rule, bind_rule, map_error_rule)

random_token-Keeps : {E : Type 0} → Steps Keeps (random_token {E = E})
unfolding random_token
random_token-Keeps = record { at = λ w. same_sessions w _ refl }

new_v4-Keeps : {E : Type 0} → Steps Keeps (new_v4 {E = E})
unfolding new_v4
new_v4-Keeps = record { at = λ w. same_sessions w _ refl }

unique_checked : (a b c : Bool) → (not a && not b && c) ≡ true → b ≡ false
unique_checked a b c h = ground arith

insert_session-Keeps : (s : Session) → Steps Keeps (insert_session s)
unfolding insert_session
insert_session-Keeps s = record {
  at = λ w.
      elim (Bool-cases (
        not (is_taken (λ r. r.id) s.id w.sessions)
        && not (any (has_hash s.refresh_token_hash) w.sessions)
        && is_taken (λ u. u.id) s.user_id w.users)) [
          | inl k ↦ rw k (appending w s (unique_checked _ _ _ k))
          | inr k ↦ rw k (same_sessions w w refl)
        ];
}

insert_reset-Keeps : (r : PasswordReset) → Steps Keeps (insert_password_reset r)
unfolding insert_password_reset
insert_reset-Keeps r = record {
  at = λ w.
      elim (Bool-cases (
        not (is_taken (λ q. q.id) r.id w.password_resets)
        && not (any (λ q. q.token_hash =ₛ r.token_hash) w.password_resets)
        && is_taken (λ u. u.id) r.user_id w.users)) [
          | inl k ↦ rw k (same_sessions w _ refl)
          | inr k ↦ rw k (same_sessions w w refl)
        ];
}

get_by_id-Keeps : (id : Uuid) → Steps Keeps (get_by_id id)
unfolding get_by_id
get_by_id-Keeps id = search keeps_rules

get_by_email-Keeps :
    (same : String → String → Bool) (email : String) → Steps Keeps (get_by_email same email)
unfolding get_by_email
get_by_email-Keeps same email = search keeps_rules

set_hash-Keeps : (id : Uuid) (hash : String) → Steps Keeps (set_password_hash id hash)
unfolding set_password_hash
set_hash-Keeps id hash = record { at = λ w. same_sessions w _ refl }

module _ (crypto : Crypto) (config : TokenConfig) where
  create_session-Keeps :
      (user : Uuid) (agent address : Option String)
      → Steps Keeps (create_session crypto config user agent address)
  unfolding create_session
  create_session-Keeps user agent address =
      search (keeps_rules, random_token-Keeps, new_v4-Keeps, insert_session-Keeps) depth 10

  pair-Keeps : (user : User) → Steps Keeps (issue_token_pair crypto config user)
  unfolding issue_token_pair issue_access_token
  pair-Keeps user = search (keeps_rules, create_session-Keeps) depth 8

  revoke_session-Keeps : (id : Uuid) → Steps Keeps (revoke_session crypto config id)
  unfolding revoke_session
  revoke_session-Keeps id = record { at = λ w. revoking w (λ s. s.id == id) }

  pub redeem-Keeps : (token : String) → Steps Keeps (redeem_refresh_token crypto config token)
  unfolding redeem_refresh_token find_session
  redeem-Keeps token = search (keeps_rules, revoke_session-Keeps) depth 8

  revoke_all-Keeps : (user : Uuid) → Steps Keeps (revoke_all_sessions crypto config user)
  unfolding revoke_all_sessions
  revoke_all-Keeps user = record { at = λ w. revoking w (is_open_of user) }

  mailed-Keeps :
      (address token : String)
      → Steps Keeps
          (modify {E = ApiError} (λ w. record w { mails = w.mails ++ (address, token) ∷ [] }))
  mailed-Keeps address token = record { at = λ w. same_sessions w _ refl }

  create_reset-Keeps : (user : Uuid) → Steps Keeps (create_password_reset_token crypto config user)
  unfolding create_password_reset_token
  create_reset-Keeps user =
      search (keeps_rules, random_token-Keeps, new_v4-Keeps, insert_reset-Keeps) depth 10

  mail_if_found-Keeps : (o : Option User) → Steps Keeps (mail_if_found crypto config o)
  unfolding mail_to
  mail_if_found-Keeps none = search keeps_rules
  mail_if_found-Keeps (some user) = search (keeps_rules, create_reset-Keeps, mailed-Keeps) depth 8

  send-Keeps : (email : String) → Steps Keeps (send_password_reset_email crypto config email)
  unfolding send_password_reset_email
  send-Keeps email = search (keeps_rules, mail_if_found-Keeps) depth 8

  use_reset-Keeps : (id : Uuid) → Steps Keeps (use_reset crypto config id)
  unfolding use_reset
  use_reset-Keeps id = record { at = λ w. same_sessions w _ refl }

  redeem_reset-Keeps :
      (token : String) → Steps Keeps (redeem_password_reset_token crypto config token)
  unfolding redeem_password_reset_token find_reset
  redeem_reset-Keeps token = search (keeps_rules, use_reset-Keeps) depth 8

  authenticate-Keeps :
      (email password : String) → Steps Keeps (authenticate_local crypto config email password)
  unfolding authenticate_local
  authenticate-Keeps email password = search keeps_rules depth 12

  module _ (byte_length : String → ℕ) (has_mailer : Bool) where
    respond-Keeps : (user : User) → Steps Keeps (respond crypto config byte_length has_mailer user)
    unfolding respond
    respond-Keeps user = search (keeps_rules, pair-Keeps)

    handle-Keeps :
        (r : AuthRequest) (w : AuthStore)
        → Keeps w (handle crypto config byte_length has_mailer r w)
    unfolding handle login_route refresh_route logout_route request_route confirm_route
    handle-Keeps (login email password) w =
        let s : Steps Keeps (login_route crypto config byte_length has_mailer email password) =
          search (keeps_rules, authenticate-Keeps, respond-Keeps) depth 8 in
        s.at w
    handle-Keeps (refresh token) w =
        let s : Steps Keeps (refresh_route crypto config byte_length has_mailer token) =
          search (keeps_rules, redeem-Keeps, get_by_id-Keeps, respond-Keeps) depth 10 in
        s.at w
    handle-Keeps (logout token) w = (redeem-Keeps token).at w
    handle-Keeps (request_password_reset email) w =
        let s : Steps Keeps (request_route crypto config byte_length has_mailer email) =
          search (keeps_rules, send-Keeps) depth 8 in
        s.at w
    handle-Keeps (confirm_password_reset token password) w =
        let s : Steps Keeps (confirm_route crypto config byte_length has_mailer token password) =
          search (keeps_rules, redeem_reset-Keeps, set_hash-Keeps, revoke_all-Keeps) depth 12 in
        s.at w
    handle-Keeps (revoke_all user) w = (revoke_all-Keeps user).at w
    handle-Keeps (wait seconds) w = same_sessions w _ refl

    pub serve-Keeps :
        (requests : List AuthRequest) (w : AuthStore)
        → Keeps w (serve crypto config byte_length has_mailer requests w)
    unfolding serve
    serve-Keeps [] w = Keeps-order.reflexive w
    serve-Keeps (r ∷ rest) w =
        Keeps-order.transitive w _ _ (handle-Keeps r w)
          (serve-Keeps rest (handle crypto config byte_length has_mailer r w))
