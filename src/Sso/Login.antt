-- ===== src/Sso/Login.antt =====
-- crates/server/src/sso.rs: a login, from the address to the callback, and the signing keys.
use Prim.Native.String.{◌++◌}
use servcat.Prelude.{
  ℕ, ◌+◌, ◌-◌, String, ◌=ₛ◌, Option, none, some, List, [], ◌∷◌, Result, ok, err, find, ltb,
  if◌then◌else◌,
}
use servcat.Map.{insert}
use servcat.Exec.{Exec, pure, fail, gets, expect, modify, ◌>>=◌, ◌>>◌}
use servcat.Server.Error.{ApiError, unauthorized, internal}
use servcat.Sso.Service.{
  Jwk, PendingLogin, IdTokenClaims, AuthenticatedIdentity, TokenReply, unreachable, rejected,
  malformed, id_token, Provider, SsoService, jwks_cache_ttl, random_token, sweep_logins,
  claim_login, identity_of,
}

-- The number of the request that is sent.
unfoldable pub next_request : Exec SsoService ApiError ℕ
next_request w = (ok w.sent, record w { sent = w.sent + 1 })

module _ (provider : Provider) where
  unfoldable pub authorize_endpoint : String
  authorize_endpoint =
      "https://login.microsoftonline.com/" ++ provider.config.tenant_id ++ "/oauth2/v2.0/authorize"

  unfoldable pub expected_issuer : String
  expected_issuer = "https://login.microsoftonline.com/" ++ provider.config.tenant_id ++ "/v2.0"

  -- The address, as its endpoint and its parameters.
  unfoldable pub begin_login : Exec SsoService ApiError (String × List (String × String))
  unfolding random_token sweep_logins insert authorize_endpoint
  begin_login = do
    state ← random_token
    nonce ← random_token
    pkce_verifier ← random_token
    sweep_logins
    modify (λ w. record w {
      pending_logins =
          insert w.pending_logins state
            (record { pkce_verifier = pkce_verifier; nonce = nonce; created_at = w.now });
    })
    pure (
      authorize_endpoint,
      ("client_id", provider.config.client_id)
          ∷ ("response_type", "code")
          ∷ ("redirect_uri", provider.config.redirect_uri)
          ∷ ("response_mode", "query")
          ∷ ("scope", "openid profile email")
          ∷ ("state", state)
          ∷ ("nonce", nonce)
          ∷ ("code_challenge", provider.challenge pkce_verifier)
          ∷ ("code_challenge_method", "S256")
          ∷ [],
    )

  abbrev pub token_of : TokenReply → Result ApiError String
  token_of unreachable = err internal
  token_of rejected = err unauthorized
  token_of malformed = err internal
  token_of (id_token token) = ok token

  unfoldable pub exchange_code : String → PendingLogin → Exec SsoService ApiError String
  exchange_code code pending w = (
    token_of (
        provider.exchange w.sent (
          ("client_id", provider.config.client_id)
          ∷ ("client_secret", provider.config.client_secret)
          ∷ ("grant_type", "authorization_code")
          ∷ ("code", code)
          ∷ ("redirect_uri", provider.config.redirect_uri)
          ∷ ("code_verifier", pending.pkce_verifier)
          ∷ [])),
    record w { sent = w.sent + 1 },
  )

  abbrev pub key_in : ℕ → String → Option (ℕ × List Jwk) → Option Jwk
  key_in now kid none = none
  key_in now kid (some (fetched_at, keys)) =
      if ltb jwks_cache_ttl (now - fetched_at) then none else find (λ k. k.kid =ₛ kid) keys

  unfoldable pub cached_jwk : String → Exec SsoService ApiError (Option Jwk)
  cached_jwk kid = gets (λ w. key_in w.now kid w.jwks_cache)

  abbrev pub store_keys : Option (List Jwk) → Exec SsoService ApiError (Unit {0})
  store_keys none = fail internal
  store_keys (some keys) = modify (λ w. record w { jwks_cache = some (w.now, keys) })

  unfoldable pub refresh_jwks : Exec SsoService ApiError (Unit {0})
  unfolding next_request
  refresh_jwks = do n ← next_request; store_keys (provider.fetch_keys n)

  abbrev pub rsa_key : Jwk → Exec SsoService ApiError Jwk
  rsa_key jwk = if provider.is_rsa_key jwk then pure jwk else fail internal

  abbrev pub key_or_refresh : String → Option Jwk → Exec SsoService ApiError Jwk
  key_or_refresh kid (some jwk) = rsa_key jwk
  key_or_refresh kid none = do
    refresh_jwks
    again ← cached_jwk kid
    jwk ← expect unauthorized again
    rsa_key jwk

  unfoldable pub signing_key : String → Exec SsoService ApiError Jwk
  unfolding cached_jwk refresh_jwks
  signing_key kid = do cached ← cached_jwk kid; key_or_refresh kid cached

  unfoldable pub validate_id_token : String → Exec SsoService ApiError IdTokenClaims
  unfolding signing_key expected_issuer
  validate_id_token token = do
    kid ← expect unauthorized (provider.key_id token)
    key ← signing_key kid
    expect unauthorized (provider.decode key provider.config.client_id expected_issuer token)

  unfoldable pub complete_login : String → String → Exec SsoService ApiError AuthenticatedIdentity
  unfolding claim_login exchange_code validate_id_token identity_of
  complete_login code state = do
    pending ← claim_login state
    token ← exchange_code code pending
    claims ← validate_id_token token
    (λ w. (identity_of pending claims, w))
