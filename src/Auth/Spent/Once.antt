-- ===== src/Auth/Spent/Once.antt =====
-- A refresh token is good for one use (crates/server/src/auth.rs).
use package.text.Mathlib.TextEquality.{eq_iff}
use servcat.Prelude.{
  ℕ, String, ◌=ₛ◌, ◌==◌, ==_refl, ◌≡◌, refl, ap, sym, subst, ◌∙◌, Bool, true, false, Bool-cases,
  Option-cases, inl, inr, Option, none, some, List, [], ◌∷◌, any, ok, err, find, arith,
  if◌then◌else◌,
}
use servcat.Model.User.{Uuid, Timestamp}
use servcat.Exec.{◌>>=◌}
use servcat.Db.Table.{update_where}
use servcat.Server.Error.{unauthorized}
use servcat.Auth.Store.{Session, AuthStore, Crypto, has_hash}
use servcat.Auth.Tokens.{
  TokenConfig, is_live, revoked, find_session, revoke_session, redeem_refresh_token,
}
use servcat.Auth.Routes.{AuthRequest, serve}
use servcat.Auth.Spent.{IsUnique, IsSpent, is_unrevoked, any-revoke, any-unrevoked}
use servcat.Auth.Spent.Calls.{serve-Keeps}

no_live :
    (now : Timestamp) (hash : String) (rows : List Session)
    → any (is_unrevoked hash) rows ≡ false
    → find (is_live now hash) rows ≡ none
unfolding is_live
no_live now hash [] h = refl
no_live now hash (s ∷ rows) h = ground (arith, no_live now hash rows)

no_hash :
    (hash : String) (rows : List Session)
    → any (has_hash hash) rows ≡ false
    → any (is_unrevoked hash) rows ≡ false
no_hash hash [] h = refl
no_hash hash (s ∷ rows) h = ground (arith, no_hash hash rows)

live_hash :
    (now : Timestamp) (hash : String) (rows : List Session) (s : Session)
    → find (is_live now hash) rows ≡ some s
    → any (has_hash hash) rows ≡ true
unfolding is_live
live_hash now hash [] s h = absurd (cc)
live_hash now hash (r ∷ rows) s h = ground (arith, live_hash now hash rows s)

live_head :
    (now : Timestamp) (hash : String) (r s : Session) (rest : Option Session)
    → is_live now hash r ≡ true
    → (if is_live now hash r then some r else rest) ≡ some s
    → r ≡ s
live_head now hash r s rest live h = ground arith

revoked_dead :
    (hash : String) (now : Timestamp) (s : Session) → is_unrevoked hash (revoked now s) ≡ false
unfolding revoked
revoked_dead hash now s = ground arith

-- The head has the hash, so no other row has it.
alone :
    (hash : String) (r : Session) (rows : List Session)
    → has_hash hash r ≡ true
    → any (has_hash r.refresh_token_hash) rows ≡ false
    → any (has_hash hash) rows ≡ false
unfolding has_hash
alone hash r rows h k =
    subst (λ x. any (λ s. s.refresh_token_hash =ₛ x) rows ≡ false)
      ((eq_iff r.refresh_token_hash hash).0 h) k

live_has :
    (now : Timestamp) (hash : String) (r : Session)
    → is_live now hash r ≡ true
    → has_hash hash r ≡ true
unfolding is_live
live_has now hash r h = ground arith

revoked_all :
    (now : Timestamp) (hash : String) (rows : List Session) (s : Session)
    → IsUnique rows
    → find (is_live now hash) rows ≡ some s
    → any (is_unrevoked hash) (update_where (λ r. r.id == s.id) (revoked now) rows) ≡ false
unfolding update_where
revoked_all now hash [] s u h = refl
revoked_all now hash (r ∷ rows) s u h = elim (Bool-cases (is_live now hash r)) [
  | inl live ↦
      let same : r ≡ s = live_head now hash r s _ live h in
      let key : (r.id == s.id) ≡ true = rw (sym (ap (λ x. x.id) same)) (==_refl r.id) in
      rw (key, revoked_dead hash now r)
        (any-unrevoked hash (λ q. q.id == s.id) now rows
          (no_hash hash rows (alone hash r rows (live_has now hash r live) u.0)))
  | inr dead ↦
      let later : find (is_live now hash) rows ≡ some s = ground arith in
      elim (Bool-cases (has_hash hash r)) [
        | inl has ↦ absurd (clash (alone hash r rows has u.0) (live_hash now hash rows s later))
        | inr other ↦ rw (unhashed (r.id == s.id) other) (revoked_all now hash rows s u.1 later)
      ]
]
  where
    clash : any (has_hash hash) rows ≡ false → any (has_hash hash) rows ≡ true → ⊥
    clash a b = cc

    unhashed :
        (b : Bool)
        → has_hash hash r ≡ false
        → is_unrevoked hash (if b then revoked now r else r) ≡ false
    unhashed true e = revoked_dead hash now r
    unhashed false e = rw e refl

module _ (crypto : Crypto) (config : TokenConfig) where
  redeem-spends :
      (token : String) (w : AuthStore) (user : Uuid)
      → IsUnique w.sessions
      → (redeem_refresh_token crypto config token w).0 ≡ ok user
      → IsSpent (crypto.sha256_hex token) (redeem_refresh_token crypto config token w).1.sessions
  unfolding redeem_refresh_token find_session revoke_session ◌>>=◌
  redeem-spends token w user u h =
      elim (Option-cases (find (is_live w.now (crypto.sha256_hex token)) w.sessions)) [
        | inl e ↦ absurd (refused e)
        | inr (s, e) ↦ rw e (
          any-revoke (crypto.sha256_hex token) (λ r. r.id == s.id) w.now w.sessions
              ∙ live_hash w.now (crypto.sha256_hex token) w.sessions s e,
          revoked_all w.now (crypto.sha256_hex token) w.sessions s u e,
        )
      ]
    where
      refused : find (is_live w.now (crypto.sha256_hex token)) w.sessions ≡ none → ⊥
      refused e = cc

  spent-refused :
      (token : String) (w : AuthStore)
      → IsSpent (crypto.sha256_hex token) w.sessions
      → redeem_refresh_token crypto config token w ≡ (err unauthorized, w)
  unfolding redeem_refresh_token find_session ◌>>=◌
  spent-refused token w s = rw (no_live w.now (crypto.sha256_hex token) w.sessions s.1) refl

  -- A refresh token is good for one use: once it is redeemed, a redemption is refused as
  -- unauthorized and changes nothing, after whatever requests are handled one after another in the
  -- meantime, however long is waited. The hashes of the sessions are unique at first, as the
  -- database demands.
  pub redeem_refresh_token_once :
      (byte_length : String → ℕ) (has_mailer : Bool) (requests : List AuthRequest) (token : String)
      (w : AuthStore) (user : Uuid)
      → IsUnique w.sessions
      → (redeem_refresh_token crypto config token w).0 ≡ ok user
      → let v =
          serve crypto config byte_length has_mailer requests
            (redeem_refresh_token crypto config token w).1 in
        redeem_refresh_token crypto config token v ≡ (err unauthorized, v)
  redeem_refresh_token_once byte_length has_mailer requests token w user u h =
      spent-refused token _ (
        (serve-Keeps crypto config byte_length has_mailer requests
            (redeem_refresh_token crypto config token w).1).spent
          (crypto.sha256_hex token) (redeem-spends token w user u h))
