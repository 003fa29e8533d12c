-- ===== src/Sso/Service.antt =====
-- crates/server/src/sso.rs: pending logins, handoff codes and the cache of signing keys. The
-- identity provider, the verification of its tokens and the hash of the PKCE verifier are
-- parameters. Instants are in seconds.
use servcat.Prelude.{
  ℕ, ◌+◌, ◌-◌, String, ◌=ₛ◌, Bool, false, Option, none, some, List, Result, ok, err, ltb,
  if◌then◌else◌,
}
use servcat.Map.{Map, get, insert, remove, retain}
use servcat.Model.User.{Uuid}
use servcat.Exec.{Exec, pure, expect, modify, ◌>>=◌, ◌>>◌}
use servcat.Server.Error.{ApiError, bad_request, unauthorized, internal}

abbrev pub pending_login_ttl : ℕ
pending_login_ttl = 600

abbrev pub handoff_code_ttl : ℕ
handoff_code_ttl = 60

abbrev pub jwks_cache_ttl : ℕ
jwks_cache_ttl = 3600

pub record PendingLogin : Type 0 where
  pub pkce_verifier : String
  pub nonce : String
  pub created_at : ℕ

pub record HandoffCode : Type 0 where
  pub user_id : Uuid
  pub created_at : ℕ

pub record Jwk : Type 0 where
  pub kid : String
  pub n : String
  pub e : String

pub record IdTokenClaims : Type 0 where
  pub oid : String
  pub nonce : Option String
  pub email : Option String
  pub preferred_username : Option String
  pub name : Option String

pub record AuthenticatedIdentity : Type 0 where
  pub external_idp_subject : String
  pub email : String
  pub display_name : String

pub record AzureSsoConfig : Type 0 where
  pub tenant_id : String
  pub client_id : String
  pub client_secret : String
  pub redirect_uri : String

-- The service with its clock, its supply of random tokens and the count of requests sent.
pub record SsoService : Type 0 where
  pub now : ℕ
  pub tokens : ℕ → String
  pub drawn : ℕ
  pub sent : ℕ
  pub pending_logins : Map PendingLogin
  pub handoff_codes : Map HandoffCode
  pub jwks_cache : Option (ℕ × List Jwk)

-- The reply of the token endpoint.
pub data TokenReply : Type 0 where
  unreachable rejected malformed : TokenReply
  id_token : String → TokenReply

pub record Provider : Type 0 where
  pub config : AzureSsoConfig
  pub challenge : String → String
  -- the reply of the token endpoint to the n-th request, of these parameters
  pub exchange : ℕ → List (String × String) → TokenReply
  -- the keys that the n-th request brings
  pub fetch_keys : ℕ → Option (List Jwk)
  pub key_id : String → Option String
  pub is_rsa_key : Jwk → Bool
  -- the claims of a token under a key, an audience and an issuer
  pub decode : Jwk → String → String → String → Option IdTokenClaims

unfoldable pub random_token : Exec SsoService ApiError String
random_token w = (ok (w.tokens w.drawn), record w { drawn = w.drawn + 1 })

-- `elapsed() < ttl`, where `elapsed` stops at 0
unfoldable pub is_fresh : ℕ → ℕ → ℕ → Bool
is_fresh ttl now created_at = ltb (now - created_at) ttl

unfoldable pub sweep_logins : Exec SsoService ApiError (Unit {0})
unfolding is_fresh retain
sweep_logins = modify (λ w. record w {
  pending_logins = retain (λ p. is_fresh pending_login_ttl w.now p.created_at) w.pending_logins;
})

unfoldable pub sweep_codes : Exec SsoService ApiError (Unit {0})
unfolding is_fresh retain
sweep_codes = modify (λ w. record w {
  handoff_codes = retain (λ c. is_fresh handoff_code_ttl w.now c.created_at) w.handoff_codes;
})

unfoldable pub issue_handoff_code : Uuid → Exec SsoService ApiError String
unfolding random_token sweep_codes insert
issue_handoff_code user_id = do
  code ← random_token
  sweep_codes
  modify (λ w. record w {
    handoff_codes = insert w.handoff_codes code (record { user_id = user_id; created_at = w.now });
  })
  pure code

-- `codes.remove(code)`
unfoldable pub take_code : String → Exec SsoService ApiError (Option HandoffCode)
take_code code w =
    (ok (get w.handoff_codes code), record w { handoff_codes = remove w.handoff_codes code })

unfoldable pub redeem_handoff_code : String → Exec SsoService ApiError Uuid
unfolding sweep_codes take_code
redeem_handoff_code code = do
  sweep_codes
  taken ← take_code code
  found ← expect unauthorized taken
  pure found.user_id

unfoldable pub take_login : String → Exec SsoService ApiError (Option PendingLogin)
take_login state w =
    (ok (get w.pending_logins state), record w { pending_logins = remove w.pending_logins state })

-- The first part of `complete_login`: the pending login is taken out in any case.
unfoldable pub claim_login : String → Exec SsoService ApiError PendingLogin
unfolding sweep_logins take_login
claim_login state = do
  sweep_logins
  taken ← take_login state
  expect (bad_request "sign-in session expired or invalid; please try again") taken

-- `claims.nonce.as_deref() != Some(pending.nonce)`
abbrev pub has_nonce : String → Option String → Bool
has_nonce nonce none = false
has_nonce nonce (some n) = n =ₛ nonce

abbrev pub or_else : Option String → Option String → Option String
or_else none o = o
or_else (some s) o = some s

abbrev pub or_default : Option String → String → String
or_default none s = s
or_default (some t) s = t

-- The identity of the claims, for the login that they have to belong to.
unfoldable pub identity_of : PendingLogin → IdTokenClaims → Result ApiError AuthenticatedIdentity
identity_of pending claims =
    if has_nonce pending.nonce claims.nonce
    then elim (or_else claims.email claims.preferred_username) [
      | none ↦ err internal
      | some email ↦ ok (record {
        external_idp_subject = claims.oid;
        email = email;
        display_name = or_default claims.name email;
      })
    ]
    else err unauthorized
