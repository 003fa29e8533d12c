-- ===== src/Auth/Reset.antt =====
-- The confirmation of a password reset, on every branch (crates/server/src/routes/auth.rs,
-- crates/server/src/auth.rs).
use servcat.Prelude.{
  ℕ, String, ◌==◌, ==_refl, ◌≡◌, ◌≢◌, refl, ap, ◌∙◌, Bool, true, false, Bool-cases, Option-cases,
  inl, inr, Option, none, some, List, [], ◌∷◌, any, Result, ok, err, find, arith, ltb,
}
use servcat.Model.User.{Uuid, Timestamp, User}
use servcat.Exec.{◌>>=◌, map_error}
use servcat.Db.Table.{select, update_where, updated, select-key, select-update_where, other_row}
use servcat.Server.Error.{ApiError, internal, bad_request, from_db}
use servcat.Auth.Store.{Session, PasswordReset, AuthStore, Crypto, set_password_hash}
use servcat.Auth.Tokens.{
  TokenConfig, is_usable, is_open_of, revoked, used, invalid_link, find_reset, use_reset,
  redeem_password_reset_token, revoke_all_sessions,
}
use servcat.Auth.Routes.{confirm_route}

abbrev pub session_row : AuthStore → Uuid → Option Session
session_row w i = select (λ s. s.id) i w.sessions

-- The row of the reset `id` is used up now, and no other reset is touched.
pub record IsUsedUp (w : AuthStore) (id : Uuid) (resets : List PasswordReset) : Type 0 where
  pub used_up :
      (r : PasswordReset)
      → select (λ r. r.id) id w.password_resets ≡ some r
      → select (λ r. r.id) id resets ≡ some (record r { used_at = some w.now })
  pub other_resets :
      (j : Uuid) → id ≢ j → select (λ r. r.id) j resets ≡ select (λ r. r.id) j w.password_resets

-- The account of `id` has the new password hash, and its open sessions are revoked now. The other
-- accounts, and the sessions that are closed or of other users, are as before.
pub record IsReset (w v : AuthStore) (reset id : Uuid) (hash : String) : Type 0 where
  pub revoked_now :
      (i : Uuid) (s : Session)
      → session_row w i ≡ some s
      → s.user_id ≡ id
      → s.revoked_at ≡ none
      → session_row v i ≡ some (record s { revoked_at = some w.now })
  pub closed_sessions :
      (i : Uuid) (s : Session) (t : Timestamp)
      → session_row w i ≡ some s
      → s.revoked_at ≡ some t
      → session_row v i ≡ some s
  pub other_sessions :
      (i : Uuid) (s : Session)
      → session_row w i ≡ some s
      → s.user_id ≢ id
      → session_row v i ≡ some s
  pub no_new_sessions : (i : Uuid) → session_row w i ≡ none → session_row v i ≡ none
  pub signed_out : any (is_open_of id) v.sessions ≡ false
  pub new_hash :
      (u : User)
      → select (λ u. u.id) id w.users ≡ some u
      → select (λ u. u.id) id v.users
        ≡ some (record u { password_hash = some hash; updated_at = w.now })
  pub other_users :
      (j : Uuid) → id ≢ j → select (λ u. u.id) j v.users ≡ select (λ u. u.id) j w.users
  pub resets : IsUsedUp w reset v.password_resets
  pub rest :
      v ≡ record w { users = v.users; sessions = v.sessions; password_resets = v.password_resets }

pub data Confirms (crypto : Crypto) (length_of : String → ℕ) (token new_password : String)
    (w : AuthStore) : Result ApiError (Unit {0}) → AuthStore → Type 0 where
  short :
      ltb (length_of new_password) 12 ≡ true
      → Confirms crypto length_of token new_password w
          (err (bad_request "password must be at least 12 characters"))
          w
  no_token :
      ltb (length_of new_password) 12 ≡ false
      → find (is_usable w.now (crypto.sha256_hex token)) w.password_resets ≡ none
      → Confirms crypto length_of token new_password w (err invalid_link) w
  no_hash :
      {reset : PasswordReset} {resets : List PasswordReset}
      → ltb (length_of new_password) 12 ≡ false
      → find (is_usable w.now (crypto.sha256_hex token)) w.password_resets ≡ some reset
      → crypto.hash_password new_password ≡ none
      → IsUsedUp w reset.id resets
      → Confirms crypto length_of token new_password w
          (err internal)
          (record w { password_resets = resets })
  changes :
      {reset : PasswordReset} {hash : String} {v : AuthStore}
      → ltb (length_of new_password) 12 ≡ false
      → find (is_usable w.now (crypto.sha256_hex token)) w.password_resets ≡ some reset
      → crypto.hash_password new_password ≡ some hash
      → IsReset w v reset.id reset.user_id hash
      → Confirms crypto length_of token new_password w (ok tt) v

none_open :
    (id : Uuid) (now : Timestamp) (rows : List Session)
    → any (is_open_of id) (update_where (is_open_of id) (revoked now) rows) ≡ false
unfolding update_where is_open_of revoked
none_open id now [] = refl
none_open id now (s ∷ rows) = ground (arith, none_open id now rows)

-- What the revocation makes of the row of one session.
revocation :
    (id : Uuid) (now : Timestamp) (rows : List Session) (i : Uuid) (s : Session)
    → select (λ s. s.id) i rows ≡ some s
    → select (λ s. s.id) i (update_where (is_open_of id) (revoked now) rows)
      ≡ updated (is_open_of id) (revoked now) (some s)
revocation id now rows i s e =
    select-update_where (λ s. s.id) (is_open_of id) (revoked now) (λ s. unfold revoked in refl) i
      rows
    ∙ ap (updated (is_open_of id) (revoked now)) e

is_open_of-open :
    (id : Uuid) (s : Session) → s.user_id ≡ id → s.revoked_at ≡ none → is_open_of id s ≡ true
unfolding is_open_of
is_open_of-open id s e k = rw (k, e, ==_refl id) refl

is_open_of-closed :
    (id : Uuid) (s : Session) (t : Timestamp) → s.revoked_at ≡ some t → is_open_of id s ≡ false
unfolding is_open_of
is_open_of-closed id s t k = ground arith

is_open_of-other : (id : Uuid) (s : Session) → s.user_id ≢ id → is_open_of id s ≡ false
unfolding is_open_of
is_open_of-other id s ne = ground arith

used-IsUsedUp :
    (w : AuthStore) (id : Uuid)
    → IsUsedUp w id (update_where (λ r. r.id == id) (used w.now) w.password_resets)
used-IsUsedUp w id = record {
  used_up = λ r found.
      rw
        (
          select-update_where (λ r. r.id) (λ r. r.id == id) (used w.now) (λ r. unfold used in refl)
              id w.password_resets,
          found,
        )
        (rw (select-key (λ r. r.id) id w.password_resets r found, ==_refl id)
          (unfold used in refl));
  other_resets = λ j ne.
      rw
        (select-update_where (λ r. r.id) (λ r. r.id == id) (used w.now) (λ r. unfold used in refl) j
          w.password_resets)
        (other_row (λ r. r.id) id (used w.now) j (select (λ r. r.id) j w.password_resets)
          (select-key (λ r. r.id) j w.password_resets) ne);
}

rehashed :
    (id : Uuid) (hash : String) (now : Timestamp) (j : Uuid) (rows : List User)
    → select
        (λ u. u.id)
        j
        (update_where
          (λ u. u.id == id)
          (λ u. record u { password_hash = some hash; updated_at = now })
          rows)
      ≡ updated
          (λ u. u.id == id)
          (λ u. record u { password_hash = some hash; updated_at = now })
          (select (λ u. u.id) j rows)
rehashed id hash now j rows =
    select-update_where (λ u. u.id) (λ u. u.id == id)
      (λ u. record u { password_hash = some hash; updated_at = now }) (λ u. refl) j rows

module _ (crypto : Crypto) (config : TokenConfig) (length_of : String → ℕ) (has_mailer : Bool)
    (token new_password : String) (w : AuthStore) where
  abbrev Confirmed : Result ApiError (Unit {0}) × AuthStore → Type 0
  Confirmed r = Confirms crypto length_of token new_password w r.0 r.1

  -- The store once the reset is marked.
  abbrev spent : Uuid → AuthStore
  spent reset = record w {
    password_resets = update_where (λ r. r.id == reset) (used w.now) w.password_resets;
  }

  IsReset-from :
      (reset id : Uuid) (hash : String)
      → IsReset w
          ((map_error (from_db config.uuid_text) (set_password_hash id hash) >>= λ _.
              revoke_all_sessions crypto config id)
            (spent reset)).1
          reset
          id
          hash
  unfolding set_password_hash ◌>>=◌ map_error revoke_all_sessions
  IsReset-from reset id hash = record {
    revoked_now = λ i s found e k.
        rw (revocation id w.now w.sessions i s found, is_open_of-open id s e k)
          (unfold revoked in refl);
    closed_sessions = λ i s t found k.
        rw (revocation id w.now w.sessions i s found, is_open_of-closed id s t k) refl;
    other_sessions = λ i s found ne.
        rw (revocation id w.now w.sessions i s found, is_open_of-other id s ne) refl;
    no_new_sessions = λ i e.
        rw
          (
            select-update_where (λ s. s.id) (is_open_of id) (revoked w.now)
                (λ s. unfold revoked in refl) i w.sessions,
            e,
          )
          refl;
    resets = used-IsUsedUp w reset;
    signed_out = none_open id w.now w.sessions;
    new_hash = λ u found.
        rw (rehashed id hash w.now id w.users, found)
          (rw (select-key (λ u. u.id) id w.users u found, ==_refl id) refl);
    other_users = λ j ne. rw (rehashed id hash w.now j w.users) (
        other_row (λ u. u.id) id (λ u. record u { password_hash = some hash; updated_at = w.now }) j
          (select (λ u. u.id) j w.users) (select-key (λ u. u.id) j w.users) ne);
    rest = refl;
  }

  -- `confirm_password_reset` refuses a short password and a token that is not usable without a
  -- write. The row of a usable token is marked as used now in any case; where the password can be
  -- hashed, the user of the token gets the new hash, and the open sessions of this user are revoked
  -- now. Other resets, other users, sessions that are closed or of other users, and all else stay
  -- as they are.
  pub confirm_route_lem :
      Confirmed (confirm_route crypto config length_of has_mailer token new_password w)
  unfolding confirm_route redeem_password_reset_token find_reset use_reset ◌>>=◌ map_error
      set_password_hash revoke_all_sessions
  confirm_route_lem = elim (Bool-cases (ltb (length_of new_password) 12)) [
    | inl h ↦ rw h (short h)
    | inr h ↦
        elim (Option-cases (find (is_usable w.now (crypto.sha256_hex token)) w.password_resets)) [
          | inl e ↦ rw (h, e) (no_token h e)
          | inr (reset, e) ↦ elim (Option-cases (crypto.hash_password new_password)) [
            | inl k ↦ rw (h, e, k) (no_hash h e k (used-IsUsedUp w reset.id))
            | inr (hash, k) ↦
                rw (h, e, k) (changes h e k (IsReset-from reset.id reset.user_id hash))
          ]
        ]
  ]
