-- ===== src/Tests/Sso.antt =====
-- The theorems of single sign-on, at an empty service (crates/server/src/sso.rs).
use servcat.Prelude.{◌≡◌, true, none, some, [], ◌∷◌, ok, err, ltb, if◌then◌else◌}
use servcat.Server.Error.{unauthorized, bad_request}
use servcat.Sso.Service.{
  SsoService, Provider, id_token, handoff_code_ttl, issue_handoff_code, redeem_handoff_code,
}
use servcat.Sso.Login.{complete_login}
use servcat.Sso.Handoff.{later, handoff_code_lem}
use servcat.Sso.Logins.{complete_login_once}

abbrev pub service : SsoService
service = record {
  now = 1000;
  tokens = λ n. "a random token";
  drawn = 0;
  sent = 0;
  pending_logins = ("s1", record { pkce_verifier = "v"; nonce = "n1"; created_at = 900 }) ∷ [];
  handoff_codes = [];
  jwks_cache = some (900, (record { kid = "k1"; n = "n"; e = "e" }) ∷ []);
}

abbrev pub provider : Provider
provider = record {
  config = record {
    tenant_id = "tenant";
    client_id = "client";
    client_secret = "secret";
    redirect_uri = "https://example.org/callback";
  };
  challenge = λ s. s;
  exchange = λ n params. id_token "a token";
  fetch_keys = λ n. none;
  key_id = λ token. some "k1";
  is_rsa_key = λ key. true;
  decode = λ key audience issuer token. some (record {
    oid = "ann";
    nonce = some "n1";
    email = some "ann@example.org";
    preferred_username = none;
    name = none;
  });
}

handoff_code_lem_example :
    let v = later 59 (issue_handoff_code 1 service).1 in
    ((issue_handoff_code 1 service).0 ≡ ok "a random token")
    × ((redeem_handoff_code "a random token" v).0
        ≡ (if ltb 59 handoff_code_ttl then ok 1 else err unauthorized))
    × ((redeem_handoff_code "a random token" (later 5 (redeem_handoff_code "a random token" v).1)).0
        ≡ err unauthorized)
handoff_code_lem_example = handoff_code_lem 1 service 59 5 tt

complete_login_once_example :
    (complete_login provider "c2" "s1" (later 5 (complete_login provider "c1" "s1" service).1)).0
    ≡ err (bad_request "sign-in session expired or invalid; please try again")
complete_login_once_example = complete_login_once provider "c1" "c2" "s1" service 5
