-- ===== src/Auth/Spent.antt =====
-- Refresh tokens that are used up stay used up (crates/server/src/auth.rs,
-- crates/server/src/routes/auth.rs).
pub mod Calls
pub mod Once
use package.text.Mathlib.TextEquality.{eq_iff}
use servcat.Prelude.{
  ℕ, String, ◌=ₛ◌, ◌==◌, ==_refl, ◌≡◌, refl, ◌∙◌, Bool, true, false, not, ◌&&◌, ◌||◌, ◌++◌,
  Bool-cases, Option-cases, inl, inr, Option, none, some, List, [], ◌∷◌, any, ok, err, find, arith,
  if◌then◌else◌, Result, ltb,
}
use servcat.Prelude.Int.{ltb_ℤ, ℤ}
use servcat.Map.{is_some}
use servcat.Model.User.{Uuid, Timestamp, User}
use servcat.Exec.{Exec, pure, fail, gets, expect, modify, continue, ◌>>=◌, map_error}
use servcat.Exec.Steps.{
  Steps, IsPreorder, Steps-still, Steps-pure, Steps-fail, Steps-gets, Steps-expect, Steps-if,
  Steps-bind, Steps-map_error,
}
use servcat.Db.Table.{select, update_where, insert, is_taken}
use servcat.Db.World.{DbError}
use servcat.Server.Error.{ApiError, unauthorized}
use servcat.Auth.Store.{
  Session, AuthStore, Crypto, has_hash, random_token, new_v4, insert_session, insert_password_reset,
  PasswordReset, get_by_id, get_by_email, set_password_hash,
}
use servcat.Auth.Tokens.{
  TokenConfig, is_live, revoked, is_open_of, create_session, issue_access_token, issue_token_pair,
  find_session, revoke_session, redeem_refresh_token, revoke_all_sessions,
  create_password_reset_token, mail_to, mail_if_found, send_password_reset_email, find_reset,
  use_reset, redeem_password_reset_token, password_hash_of, authenticate_local,
}
use servcat.Auth.Routes.{
  AuthRequest, login, refresh, logout, request_password_reset, confirm_password_reset, revoke_all,
  wait, respond, login_route, refresh_route, logout_route, request_route, confirm_route, handle,
  serve,
}

-- The column `refresh_token_hash` is unique.
abbrev pub IsUnique : List Session → Type 0
IsUnique [] = Unit {0}
IsUnique (s ∷ rows) = (any (has_hash s.refresh_token_hash) rows ≡ false) × IsUnique rows

abbrev pub is_unrevoked : String → Session → Bool
is_unrevoked hash s = has_hash hash s && not (is_some s.revoked_at)

-- The hash is taken, and no session under it is left unrevoked.
abbrev pub IsSpent : String → List Session → Type 0
IsSpent hash rows = (any (has_hash hash) rows ≡ true) × (any (is_unrevoked hash) rows ≡ false)

pub any_append :
    (p : Session → Bool) (s : Session) (rows : List Session)
    → any p (rows ++ s ∷ []) ≡ (any p rows || p s)
any_append p s [] = ground arith
any_append p s (r ∷ rows) = ground (arith, any_append p s rows)

pub any-revoke :
    (hash : String) (p : Session → Bool) (now : Timestamp) (rows : List Session)
    → any (has_hash hash) (update_where p (revoked now) rows) ≡ any (has_hash hash) rows
unfolding update_where has_hash revoked
any-revoke hash p now [] = refl
any-revoke hash p now (s ∷ rows) = ground (arith, any-revoke hash p now rows)

pub any-unrevoked :
    (hash : String) (p : Session → Bool) (now : Timestamp) (rows : List Session)
    → any (is_unrevoked hash) rows ≡ false
    → any (is_unrevoked hash) (update_where p (revoked now) rows) ≡ false
unfolding update_where has_hash revoked
any-unrevoked hash p now [] h = refl
any-unrevoked hash p now (s ∷ rows) h = ground (arith, any-unrevoked hash p now rows)

revoke-IsUnique :
    (p : Session → Bool) (now : Timestamp) (rows : List Session)
    → IsUnique rows
    → IsUnique (update_where p (revoked now) rows)
unfolding update_where revoked
revoke-IsUnique p now [] h = tt
revoke-IsUnique p now (s ∷ rows) h = elim (Bool-cases (p s)) [
  | inl e ↦ rw e (any-revoke s.refresh_token_hash p now rows ∙ h.0, revoke-IsUnique p now rows h.1)
  | inr e ↦ rw e (any-revoke s.refresh_token_hash p now rows ∙ h.0, revoke-IsUnique p now rows h.1)
]

append-IsUnique :
    (s : Session) (rows : List Session)
    → any (has_hash s.refresh_token_hash) rows ≡ false
    → IsUnique rows
    → IsUnique (rows ++ s ∷ [])
unfolding has_hash
append-IsUnique s [] e h = (refl, tt)
append-IsUnique s (r ∷ rows) e h = (
  rw (any_append (has_hash r.refresh_token_hash) s rows, h.0)
      (ground (
        arith,
        eq_iff r.refresh_token_hash s.refresh_token_hash,
        eq_iff s.refresh_token_hash r.refresh_token_hash,
      )),
  append-IsUnique s rows (ground arith) h.1,
)

-- No session takes a hash that is taken, and a spent hash stays spent.
pub record Keeps (w v : AuthStore) : Type 0 where
  pub unique : IsUnique w.sessions → IsUnique v.sessions
  pub spent : (hash : String) → IsSpent hash w.sessions → IsSpent hash v.sessions

pub Keeps-order : IsPreorder Keeps
Keeps-order = record {
  reflexive = λ w. record { unique = λ h. h; spent = λ hash h. h };
  transitive = λ u v w h k. record {
    unique = λ x. k.unique (h.unique x);
    spent = λ hash x. k.spent hash (h.spent hash x);
  };
}

-- An action that leaves the sessions as they are.
pub same_sessions : (w v : AuthStore) → v.sessions ≡ w.sessions → Keeps w v
same_sessions w v e = record { unique = λ h. rw e h; spent = λ hash h. rw e h }

pub revoking :
    (w : AuthStore) (p : Session → Bool)
    → Keeps w (record w { sessions = update_where p (revoked w.now) w.sessions })
revoking w p = record {
  unique = revoke-IsUnique p w.now w.sessions;
  spent = λ hash h.
      (any-revoke hash p w.now w.sessions ∙ h.0, any-unrevoked hash p w.now w.sessions h.1);
}

pub appending :
    (w : AuthStore) (s : Session)
    → any (has_hash s.refresh_token_hash) w.sessions ≡ false
    → Keeps w (record w { sessions = insert s w.sessions })
unfolding insert
appending w s e = record {
  unique = append-IsUnique s w.sessions e;
  spent = λ hash h. (
    rw (any_append (has_hash hash) s w.sessions, h.0) refl,
    rw (any_append (is_unrevoked hash) s w.sessions, h.1) (other hash h.0),
  );
}
  where
    other : (hash : String) → any (has_hash hash) w.sessions ≡ true → is_unrevoked hash s ≡ false
    other hash h = unfold has_hash in ground (arith, eq_iff s.refresh_token_hash hash)
