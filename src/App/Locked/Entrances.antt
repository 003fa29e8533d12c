-- ===== src/App/Locked/Entrances.antt =====
-- A user whom an administrator deactivates gets in nowhere (crates/server/src/routes/users.rs and
-- the entrances of `App.Entrances`).
use servcat.Prelude.{
  ℕ, ◌+◌, String, ◌≡◌, refl, ◌≢◌, Option, none, some, List, [], ◌∷◌, All, ok, err, Result, ltb,
}
use servcat.Prelude.Int.{pos, ◌+ℤ◌}
use servcat.Map.{is_some}
use servcat.Model.User.{Uuid, Role, User}
use servcat.Exec.{Exec, expect, ◌>>=◌}
use servcat.Exec.Holds.{
  Holds, Returned, Holds-pure, Holds-fail, Holds-expect, Holds-if, Holds-bind, Holds-map_error,
  Holds-catch, Any, Holds-keeps, Holds-then,
}
use servcat.Server.Error.{unauthorized}
use servcat.Server.Routes.{if_active}
use servcat.Sso.Service.{SsoService}
use servcat.App.State.{AppState, Setup, db}
use servcat.App.Users
use servcat.App.Users.{update_user, deactivated}
use servcat.App.Settings
use servcat.App.Settings.{mapped}
use servcat.App.Entrances.{
  Entrance, bearer, login, login_page, refresh, registration, sso_callback, sso_token, sso_page,
  cookies, let_in, entering, enter, verify_access_token, auth_user, valid_user_for_access_token,
  by_access_cookie, by_refresh_cookie, require_session, register, submit_login, sso_complete,
}
use servcat.App.Locked.{
  active-Other, IsOther, Maybe, redeem_refresh_token-Locked, authenticate_local-Locked,
  login_route-Locked, refresh_route-Locked,
}
use servcat.App.Locked.Accounts.{
  Shut, on_auth-Shut, on_sso-Shut, get_by_id-Shut, create-Shut, callback-Shut, active-Shut,
  pair-Shut, token-Shut,
}

-- Time passes.
abbrev pub later : {V : Type 0} → ℕ → AppState V → AppState V
later seconds s = record s {
  world = record s.world { now = s.world.now +ℤ pos seconds };
  sso = mapped (λ (v : SsoService). record v { now = v.now + seconds }) s.sso;
}

-- Clients come one after another, each after some seconds; the users that are let in.
pub visits : {V : Type 0} → Setup → List (ℕ × Entrance) → AppState V → List (Option User)
visits setup [] s = []
visits setup ((seconds, e) ∷ rest) s =
    let (user, s') = enter setup e (later seconds s) in user ∷ visits setup rest s'

expect-still : {W E A : Type 0} (e : E) (o : Option A) (w : W) → (expect e o w).1 ≡ w
expect-still e none w = refl
expect-still e (some a) w = refl

module _ {V : Type 0} (id : Uuid) (setup : Setup) where
  verify-Shut :
      (access_token : String)
      → Holds (Shut {V = V} id setup) Any (verify_access_token setup access_token)
  unfolding verify_access_token
  verify-Shut access_token =
      Holds-keeps _
        λ s i. rw (expect-still unauthorized (setup.decode_token access_token s.world.now) s) i

  -- The read of an account, where it is the result.
  account-Shut :
      (user_id : Uuid)
      → Holds
          (Shut {V = V} id setup)
          (λ u. u.id ≢ id)
          (db setup (Users.get_by_id setup user_id) >>= λ row. expect unauthorized (if_active row))
  account-Shut user_id =
      Holds-bind {P = Maybe (IsOther id)} _ _
        (Holds-map_error _ _ (get_by_id-Shut id setup user_id))
        λ row other. Holds-expect unauthorized _ (active-Other id row other)

  bearer-Shut :
      (access_token : String)
      → Holds (Shut {V = V} id setup) (λ u. u.id ≢ id) (auth_user setup access_token)
  unfolding auth_user
  bearer-Shut access_token =
      Holds-then _ _ (verify-Shut access_token) λ (p : Uuid × Role). account-Shut p.0

  valid_user-Shut :
      (access_token : String)
      → Holds
          (Shut {V = V} id setup)
          (λ u. u.id ≢ id)
          (valid_user_for_access_token setup access_token)
  unfolding valid_user_for_access_token
  valid_user-Shut access_token =
      Holds-then _ _ (verify-Shut access_token) λ (p : Uuid × Role). account-Shut p.0

  access_cookie-Shut :
      (access : Option String)
      → Holds (Shut {V = V} id setup) (λ p. p.0.id ≢ id) (by_access_cookie setup access)
  access_cookie-Shut access =
      Holds-then _ _ (Holds-expect _ access (λ a e. tt))
        λ value. Holds-bind _ _ (valid_user-Shut value) λ user other. Holds-pure _ other

  refresh_cookie-Shut :
      (refresh_token : Option String)
      → Holds (Shut {V = V} id setup) (λ p. p.0.id ≢ id) (by_refresh_cookie setup refresh_token)
  refresh_cookie-Shut refresh_token =
      Holds-then _ _ (Holds-expect _ refresh_token (λ a e. tt)) λ value.
        Holds-then _ _
          (on_auth-Shut id setup _ (redeem_refresh_token-Locked id setup.crypto setup.tokens value))
          λ user_id.
            active-Shut id setup user_id _
              λ user other. pair-Shut id setup user _ λ pair. Holds-pure _ other

  session-Shut :
      (access refresh_token : Option String)
      → Holds
          (Shut {V = V} id setup)
          (λ p. p.0.id ≢ id)
          (require_session setup access refresh_token)
  unfolding require_session
  session-Shut access refresh_token =
      Holds-catch _ _ (access_cookie-Shut access)
        λ e. Holds-catch _ _ (refresh_cookie-Shut refresh_token) λ e. Holds-fail _

  register-Shut :
      (email name password : String)
      → Holds (Shut {V = V} id setup) (λ r. r.user.id ≢ id) (register setup email name password)
  unfolding register Settings.get
  register-Shut email name password =
      Holds-then _ _
        (Holds-map_error _ _
          (Holds-then _ _ (Holds-keeps _ (λ s i. i)) λ row. Holds-expect _ row (λ a e. tt)))
        λ settings.
          Holds-then _ _
            (Holds-if settings.allow_local_signup _ _ (λ e. Holds-pure _ tt) (λ e. Holds-fail _))
            λ u.
              Holds-then _ _
                (Holds-if (ltb (setup.byte_length password) 12) _ _ (λ e. Holds-fail _)
                  (λ e. Holds-pure _ tt))
                λ u.
                  Holds-then _ _
                    (Holds-map_error _ _ (Holds-keeps _ (λ s i. unfold Users.get_by_email in i)))
                    λ known.
                      Holds-then _ _
                        (Holds-if (is_some known) _ _ (λ e. Holds-fail _) (λ e. Holds-pure _ tt))
                        λ u.
                          Holds-bind {P = λ u. u.id ≢ id} _ _
                            (Holds-then _ _ (Holds-expect _ _ (λ a e. tt))
                              λ hash. Holds-map_error _ _ (create-Shut id setup _ (some hash)))
                            λ user other. pair-Shut id setup user _ λ pair. Holds-pure _ other

  login_page-Shut :
      (email password : String)
      → Holds (Shut {V = V} id setup) (λ p. p.0.id ≢ id) (submit_login setup email password)
  unfolding submit_login
  login_page-Shut email password = Holds-map_error _ _ (
      Holds-bind _ _
        (on_auth-Shut id setup _
          (authenticate_local-Locked id setup.crypto setup.tokens email password))
        λ user other. pair-Shut id setup user _ λ pair. Holds-pure _ other)

  sso_page-Shut :
      (code : String) → Holds (Shut {V = V} id setup) (λ p. p.0.id ≢ id) (sso_complete setup code)
  unfolding sso_complete
  sso_page-Shut code = Holds-then _ _ (Holds-keeps _ (λ s i. i)) λ service.
      Holds-then _ _ (Holds-expect _ service (λ a e. tt)) λ found. Holds-map_error _ _ (
        Holds-then _ _ (on_sso-Shut id setup _) λ user_id.
          active-Shut id setup user_id _
            λ user other. pair-Shut id setup user _ λ pair. Holds-pure _ other)

  -- One client.
  abbrev pub IsKeptOut : Option User × AppState V → Type 0
  IsKeptOut r = Maybe (λ u. u.id ≢ id) r.0 × Shut id setup r.1

  kept_out :
      {E A : Type 0} (user_of : A → User) (m : Exec (AppState V) E A)
      → Holds (Shut id setup) (λ a. (user_of a).id ≢ id) m
      → (s : AppState V) → Shut id setup s
      → IsKeptOut (entering setup user_of m s)
  kept_out {E} {A} user_of m h s i =
      let (kept, other) = h.at s i in along (m s).0 (m s).1 kept other
    where
      along :
          (r : Result E A) (v : AppState V)
          → Shut id setup v
          → Returned (λ a. (user_of a).id ≢ id) r
          → IsKeptOut (let_in user_of r, v)
      along (ok a) v i other = (other, i)
      along (err e) v i other = (tt, i)

  enter-Shut : (e : Entrance) (s : AppState V) → Shut id setup s → IsKeptOut (enter setup e s)
  unfolding enter
  enter-Shut (bearer access_token) = kept_out _ _ (bearer-Shut access_token)
  enter-Shut (login email password) = kept_out _ _ (
      on_auth-Shut id setup _ (
        login_route-Locked id setup.crypto setup.tokens setup.byte_length setup.has_mailer email
          password))
  enter-Shut (login_page email password) = kept_out _ _ (login_page-Shut email password)
  enter-Shut (refresh refresh_token) = kept_out _ _ (
      on_auth-Shut id setup _ (
        refresh_route-Locked id setup.crypto setup.tokens setup.byte_length setup.has_mailer
          refresh_token))
  enter-Shut (registration email name password) = kept_out _ _ (register-Shut email name password)
  enter-Shut (sso_callback query) = kept_out _ _ (callback-Shut id setup query)
  enter-Shut (sso_token code) = kept_out _ _ (token-Shut id setup code)
  enter-Shut (sso_page code) = kept_out _ _ (sso_page-Shut code)
  enter-Shut (cookies access refresh_token) = kept_out _ _ (session-Shut access refresh_token)

  pub visits-Shut :
      (es : List (ℕ × Entrance)) (s : AppState V)
      → Shut id setup s
      → All (Maybe (λ u. u.id ≢ id)) (visits setup es s)
  unfolding visits
  visits-Shut [] s i = tt
  visits-Shut ((seconds, e) ∷ rest) s i =
      let (out, kept) = enter-Shut e (later seconds s) i in (out, visits-Shut rest _ kept)
