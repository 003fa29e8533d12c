-- ===== src/Auth/Concurrent.antt =====
-- Two redemptions of one refresh token whose queries interleave (crates/server/src/auth.rs).
use servcat.Prelude.{String, ◌≡◌, refl, none, some, Result, ok, find, Option-cases, inl, inr}
use servcat.Model.User.{Uuid}
use servcat.Exec.{Exec, pure, ◌>>=◌, ◌>>◌, continue}
use servcat.Server.Error.{ApiError}
use servcat.Auth.Store.{Session, AuthStore, Crypto}
use servcat.Auth.Tokens.{TokenConfig, is_live, find_session, revoke_session, redeem_refresh_token}

module _ (crypto : Crypto) (config : TokenConfig) where
  -- `redeem_refresh_token` behind its SELECT
  unfoldable pub after_select : Result ApiError Session → Exec AuthStore ApiError Uuid
  after_select r =
      continue (λ session. revoke_session crypto config session.id >> pure session.user_id) r

  -- Both calls make their SELECT before either makes its UPDATE.
  unfoldable pub redeem_both :
      String → AuthStore → (Result ApiError Uuid × Result ApiError Uuid) × AuthStore
  unfolding after_select
  redeem_both token w =
      let (first, w1) = find_session crypto config token w in
      let (second, w2) = find_session crypto config token w1 in
      let (a, w3) = after_select first w2 in let (b, w4) = after_select second w3 in ((a, b), w4)

  -- A call of `redeem_refresh_token` is its SELECT and then the rest, and where the queries of two
  -- calls with one token interleave, both redeem it: a token that one call would redeem for a user
  -- gives this user to both.
  pub redeem_both_lem :
      (token : String) (w : AuthStore) (user : Uuid)
      → (redeem_refresh_token crypto config token w).0 ≡ ok user
      → (redeem_refresh_token crypto config token w
          ≡ after_select
              (find_session crypto config token w).0
              (find_session crypto config token w).1)
        × ((redeem_both token w).0 ≡ (ok user, ok user))
  unfolding redeem_both redeem_refresh_token after_select ◌>>=◌
  redeem_both_lem token w user h = (refl, both)
    where
      refused : find (is_live w.now (crypto.sha256_hex token)) w.sessions ≡ none → ⊥
      refused e = cc

      redeemed :
          (s : Session)
          → find (is_live w.now (crypto.sha256_hex token)) w.sessions ≡ some s
          → s.user_id ≡ user
      redeemed s e = cc

      both : (redeem_both token w).0 ≡ (ok user, ok user)
      both = elim (Option-cases (find (is_live w.now (crypto.sha256_hex token)) w.sessions)) [
        | inl e ↦ absurd (refused e)
        | inr (s, e) ↦ let same : s.user_id ≡ user = redeemed s e in rw (e, e, same) refl
      ]
