-- ===== src/App/Locked.antt =====
-- A user who cannot act: every row of the user is inactive, and the UUID stays taken. What
-- authentication keeps of it (crates/server/src/auth.rs, crates/server/src/routes/auth.rs).
pub mod Rows
pub mod Accounts
pub mod Entrances
pub mod Lockout
use servcat.Prelude.{
  ℕ, ◌==◌, ==_iff, String, ◌≡◌, refl, subst, ◌≢◌, Bool, true, false, not, ◌&&◌, ◌||◌, Bool-cases,
  inl, inr, Option, none, some, List, [], ◌∷◌, All, any, find-All, arith, if◌then◌else◌,
}
use servcat.Model.User.{Uuid, User}
use servcat.Exec.{Exec, pure, fail, gets, expect, modify, ◌>>=◌, map_error}
use servcat.Exec.Holds.{
  Holds, Holds-pure, Holds-fail, Holds-gets, Holds-expect, Holds-if, Holds-bind, Holds-map_error,
  Any, Holds-keeps, Holds-still, Holds-then,
}
use servcat.Db.Table.{select, update_where, insert, is_taken}
use servcat.Server.Error.{ApiError, unauthorized}
use servcat.Server.Routes.{if_active}
use servcat.Auth.Store.{
  Session, AuthStore, Crypto, has_hash, random_token, new_v4, insert_session, get_by_id,
  get_by_email,
}
use servcat.Auth.Tokens.{
  TokenConfig, create_session, issue_access_token, issue_token_pair, find_session, revoke_session,
  redeem_refresh_token, revoke_all_sessions, authenticate_local,
}
use servcat.Auth.Routes.{TokenResponse, respond, login_route, refresh_route}

-- An active user is another one.
abbrev pub IsOther : Uuid → User → Type 0
IsOther id u = u.is_active ≡ true → u.id ≢ id

abbrev pub IsLocked : Uuid → List User → Type 0
IsLocked id users = All (IsOther id) users × (is_taken (λ u. u.id) id users ≡ true)

-- What holds of a row, if there is one.
abbrev pub Maybe : (User → Type 0) → Option User → Type 0
Maybe P none = Unit {0}
Maybe P (some u) = P u

pub found_Maybe :
    (P : User → Type 0) (o : Option User) → ((u : User) → o ≡ some u → P u) → Maybe P o
found_Maybe P none h = tt
found_Maybe P (some u) h = h u refl

pub select-All :
    {A : Type 0} (P : A → Type 0) (key : A → Uuid) (id : Uuid) (rows : List A) (a : A)
    → All P rows
    → select key id rows ≡ some a
    → P a
unfolding select
select-All P key id [] a all h = cc
select-All P key id (r ∷ rows) a all h = elim (Bool-cases (key r == id)) [
  | inl e ↦ subst P (ground arith) all.0
  | inr e ↦ select-All P key id rows a all.1 (ground arith)
]

unwrapped : (b : Bool) (v u : User) → (if b then some v else none) ≡ some u → (b ≡ true) × (v ≡ u)
unwrapped true v u h = (refl, cc)
unwrapped false v u h = cc

pub active-Other :
    (id : Uuid) (o : Option User)
    → Maybe (IsOther id) o
    → (u : User) → if_active o ≡ some u
    → u.id ≢ id
unfolding if_active
active-Other id none h u e = cc
active-Other id (some v) h u e =
    let (active, same) = unwrapped v.is_active v u e in
    subst (λ (x : User). x.id ≢ id) same (h active)

-- The state of authentication with a locked user.
abbrev pub Locked : Uuid → AuthStore → Type 0
Locked id w = IsLocked id w.users

module _ (id : Uuid) (crypto : Crypto) (config : TokenConfig) where
  insert_session-Locked : (s : Session) → Holds (Locked id) Any (insert_session s)
  unfolding insert_session
  insert_session-Locked s = Holds-keeps _ λ w i.
      elim (Bool-cases (
        not (is_taken (λ r. r.id) s.id w.sessions)
        && not (any (has_hash s.refresh_token_hash) w.sessions)
        && is_taken (λ u. u.id) s.user_id w.users)) [ inl c ↦ rw c i | inr c ↦ rw c i ]

  create_session-Locked :
      (user : Uuid) (agent address : Option String)
      → Holds (Locked id) Any (create_session crypto config user agent address)
  unfolding create_session random_token new_v4
  create_session-Locked user agent address = Holds-then _ _ (Holds-keeps _ (λ w i. i)) λ raw.
      Holds-then _ _ (Holds-keeps _ (λ w i. i)) λ now.
        Holds-then _ _ (Holds-keeps _ (λ w i. i)) λ session_id.
          Holds-then _ _ (Holds-map_error _ _ (insert_session-Locked _))
            λ u. Holds-keeps _ (λ w i. i)

  issue_access_token-Locked :
      (user : User) → Holds (Locked id) Any (issue_access_token crypto config user)
  unfolding issue_access_token
  issue_access_token-Locked user =
      Holds-then _ _ (Holds-keeps _ (λ w i. i)) λ now. Holds-expect _ _ (λ a e. tt)

  pub issue_token_pair-Locked :
      (user : User) → Holds (Locked id) Any (issue_token_pair crypto config user)
  unfolding issue_token_pair
  issue_token_pair-Locked user = Holds-then _ _ (issue_access_token-Locked user) λ access.
      Holds-then _ _ (create_session-Locked user.id none none) λ refresh. Holds-keeps _ (λ w i. i)

  find_session-Locked : (raw : String) → Holds (Locked id) Any (find_session crypto config raw)
  unfolding find_session
  find_session-Locked raw =
      Holds-then _ _ (Holds-keeps _ (λ w i. i)) λ row. Holds-expect _ _ (λ a e. tt)

  pub redeem_refresh_token-Locked :
      (raw : String) → Holds (Locked id) Any (redeem_refresh_token crypto config raw)
  unfolding redeem_refresh_token revoke_session
  redeem_refresh_token-Locked raw =
      Holds-then _ _ (find_session-Locked raw)
        λ session. Holds-then _ _ (Holds-keeps _ (λ w i. i)) λ u. Holds-keeps _ (λ w i. i)

  pub revoke_all_sessions-Locked :
      (user : Uuid) → Holds (Locked id) Any (revoke_all_sessions crypto config user)
  unfolding revoke_all_sessions
  revoke_all_sessions-Locked user = Holds-keeps _ (λ w i. i)

  pub authenticate_local-Locked :
      (email password : String)
      → Holds (Locked id) (λ u. u.id ≢ id) (authenticate_local crypto config email password)
  unfolding authenticate_local get_by_email
  authenticate_local-Locked email password =
      Holds-bind {P = Maybe (IsOther id)} _ _
        (Holds-map_error _ _ (
          Holds-gets _
            (λ w i. found_Maybe (IsOther id) _ (λ u. find-All (IsOther id) _ w.users u i.0))))
        λ row other.
          Holds-bind {P = IsOther id} _ _
            (Holds-expect unauthorized row (λ u e. subst (Maybe (IsOther id)) e other))
            λ user apart.
              Holds-bind {P = λ hash. user.is_active ≡ true} _ _
                (Holds-if user.is_active _ _ (λ active. Holds-expect _ _ (λ hash e. active))
                  (λ e. Holds-fail _))
                λ hash active. Holds-then _ _ (Holds-expect _ _ (λ a e. tt)) λ verified.
                  Holds-then _ _
                    (Holds-if verified _ _ (λ e. Holds-keeps _ (λ w i. i))
                      (λ e. Holds-keeps _ (λ w i. i)))
                    λ u. Holds-pure user (apart active)

  respond-Locked :
      (byte_length : String → ℕ) (has_mailer : Bool) (user : User)
      → user.id ≢ id
      → Holds (Locked id) (λ r. r.user.id ≢ id) (respond crypto config byte_length has_mailer user)
  unfolding respond
  respond-Locked byte_length has_mailer user other =
      Holds-then _ _ (issue_token_pair-Locked user) λ pair. Holds-pure _ other

  module _ (byte_length : String → ℕ) (has_mailer : Bool) where
    pub login_route-Locked :
        (email password : String)
        → Holds
            (Locked id)
            (λ r. r.user.id ≢ id)
            (login_route crypto config byte_length has_mailer email password)
    unfolding login_route
    login_route-Locked email password =
        Holds-bind _ _ (authenticate_local-Locked email password)
          (respond-Locked byte_length has_mailer)

    pub refresh_route-Locked :
        (raw : String)
        → Holds
            (Locked id)
            (λ r. r.user.id ≢ id)
            (refresh_route crypto config byte_length has_mailer raw)
    unfolding refresh_route get_by_id
    refresh_route-Locked raw = Holds-then _ _ (redeem_refresh_token-Locked raw) λ user_id.
        Holds-bind {P = Maybe (IsOther id)} _ _
          (Holds-map_error _ _ (
            Holds-gets _ (λ w i. found_Maybe (IsOther id) _ (λ u. select-All _ _ _ w.users u i.0))))
          λ row other.
            Holds-bind _ _ (Holds-expect unauthorized _ (active-Other id row other))
              (respond-Locked byte_length has_mailer)
