-- ===== src/Tests/Auth.antt =====
-- The theorems of authentication, at a user with one session and one reset (crates/server/src/auth.rs).
use servcat.Prelude.{◌+◌, ◌≡◌, refl, true, none, some, List, [], ◌∷◌, ok, err}
use servcat.Prelude.Int.{pos}
use servcat.Exec.{◌>>=◌}
use servcat.Server.Error.{unauthorized}
use servcat.Auth.Store.{Session, PasswordReset, AuthStore, Crypto}
use servcat.Auth.Tokens.{TokenConfig, find_session, redeem_refresh_token}
use servcat.Auth.Routes.{AuthRequest, login, refresh, wait, serve, confirm_route}
use servcat.Auth.Spent.Once.{redeem_refresh_token_once}
use servcat.Auth.Reset.{Confirms, confirm_route_lem}
use servcat.Auth.Concurrent.{after_select, redeem_both, redeem_both_lem}
use servcat.Tests.Data.{approver}

-- The text itself stands for its hash.
abbrev pub crypto : Crypto
crypto = record {
  sha256_hex = λ s. s;
  hash_password = λ s. some s;
  verify_password = λ s h. some true;
  encode = λ id role now expiry. some "a token";
}

abbrev pub config : TokenConfig
config = record {
  access_token_ttl = 900;
  refresh_token_ttl = 86400;
  uuid_text = λ id. "a UUID";
  same_email = λ a b. true;
}

abbrev bobs_session : Session
bobs_session = record {
  id = 30;
  user_id = 2;
  refresh_token_hash = "r1";
  user_agent = none;
  ip_address = none;
  expires_at = pos 500;
  revoked_at = none;
}

abbrev bobs_reset : PasswordReset
bobs_reset = record {
  id = 40;
  user_id = 2;
  token_hash = "p1";
  expires_at = pos 500;
  used_at = none;
}

abbrev pub store : AuthStore
store = record {
  now = pos 100;
  uuids = λ n. 1000 + n;
  tokens = λ n. "a fresh token";
  drawn = 0;
  users = approver ∷ [];
  sessions = bobs_session ∷ [];
  password_resets = bobs_reset ∷ [];
  mails = [];
}

abbrev requests : List AuthRequest
requests = login "bob@example.org" "password" ∷ refresh "r1" ∷ wait 60 ∷ []

bobs_token : (redeem_refresh_token crypto config "r1" store).0 ≡ ok 2
unfolding redeem_refresh_token ◌>>=◌
bobs_token = refl

redeem_refresh_token_once_example :
    let v =
      serve crypto config
        (λ s. 20)
        true
        requests
        (redeem_refresh_token crypto config "r1" store).1 in
    redeem_refresh_token crypto config "r1" v ≡ (err unauthorized, v)
redeem_refresh_token_once_example =
    redeem_refresh_token_once crypto config (λ s. 20) true requests "r1" store 2 (refl, tt)
      bobs_token

redeem_both_lem_example :
    (redeem_refresh_token crypto config "r1" store
      ≡ after_select crypto config
          (find_session crypto config "r1" store).0
          (find_session crypto config "r1" store).1)
    × ((redeem_both crypto config "r1" store).0 ≡ (ok 2, ok 2))
redeem_both_lem_example = redeem_both_lem crypto config "r1" store 2 bobs_token

confirm_route_lem_example :
    let r = confirm_route crypto config (λ s. 20) true "p1" "a new password for Bob" store in
    Confirms crypto (λ s. 20) "p1" "a new password for Bob" store r.0 r.1
confirm_route_lem_example =
    confirm_route_lem crypto config (λ s. 20) true "p1" "a new password for Bob" store
