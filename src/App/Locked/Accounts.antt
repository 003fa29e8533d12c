-- ===== src/App/Locked/Accounts.antt =====
-- What the accounts keep of a locked user (crates/db/src/repositories/users.rs,
-- crates/server/src/routes/sso.rs).
use servcat.Prelude.{
  ◌==◌, String, ◌≡◌, refl, subst, ◌≢◌, true, not, ◌&&◌, Bool-cases, inl, inr, Option, none, some,
  any, find-All,
}
use servcat.Map.{is_some}
use servcat.Model.User.{Uuid, User}
use servcat.Exec.{Exec, expect, ◌>>=◌}
use servcat.Exec.Holds.{
  Holds, Holds-pure, Holds-fail, Holds-gets, Holds-expect, Holds-if, Holds-bind, Holds-map_error,
  Holds-weaken, Any, Holds-keeps, Holds-then,
}
use servcat.Db.Table.{is_taken, select-key}
use servcat.Db.World.{new_v4}
use servcat.Server.Error.{ApiError, unauthorized}
use servcat.Server.Routes.{if_active}
use servcat.Auth.Store.{AuthStore}
use servcat.Auth.Tokens.{issue_token_pair}
use servcat.Sso.Service.{SsoService, AuthenticatedIdentity}
use servcat.App.State.{db, AppState, Setup, on_world, on_auth, on_sso, with_sso}
use servcat.App.Users
use servcat.App.Users.{
  NewUser, UpdateUser, refers, subject_is, is_subject_taken, touched, update_user, linked,
  deactivated,
}
use servcat.App.Accounts.{
  CallbackQuery, new_requester, link, link_or_create, known_or_new, provision_or_link_user,
  code_and_state, callback, token,
}
use servcat.App.Locked.{
  IsOther, IsLocked, Maybe, found_Maybe, select-All, active-Other, Locked, issue_token_pair-Locked,
}
use servcat.App.Locked.Rows.{
  All-update, All-insert, taken_insert, first_of, fresh_other, taken_update, IsOther-if,
}

module _ {V : Type 0} (id : Uuid) (setup : Setup) where
  abbrev pub Shut : AppState V → Type 0
  Shut s = IsLocked id s.world.users

  pub on_auth-Shut :
      {E A : Type 0} {Q : A → Type 0} (m : Exec AuthStore E A)
      → Holds (Locked id) Q m
      → Holds Shut Q (on_auth m)
  unfolding on_auth
  on_auth-Shut m h = record {
    at = λ s i. h.at (record s.auth { now = s.world.now; users = s.world.users }) i;
  }

  pub on_sso-Shut : {A : Type 0} (m : Exec SsoService ApiError A) → Holds Shut Any (on_sso m)
  unfolding on_sso
  on_sso-Shut m = Holds-keeps _ λ s i. along s s.sso i
    where
      along : (s : AppState V) (o : Option SsoService) → Shut s → Shut (with_sso m o s).1
      along s none i = i
      along s (some v) i = i

  pub get_by_id-Shut : (user : Uuid) → Holds Shut (Maybe (IsOther id)) (Users.get_by_id setup user)
  unfolding Users.get_by_id
  get_by_id-Shut user =
      Holds-gets _ λ s i. found_Maybe (IsOther id) _ (λ u. select-All _ _ user s.world.users u i.0)

  get_by_email-Shut :
      (email : String) → Holds Shut (Maybe (IsOther id)) (Users.get_by_email setup email)
  unfolding Users.get_by_email
  get_by_email-Shut email =
      Holds-gets _
        λ s i. found_Maybe (IsOther id) _ (λ u. find-All (IsOther id) _ s.world.users u i.0)

  get_by_subject-Shut :
      (subject : String)
      → Holds Shut (Maybe (IsOther id)) (Users.get_by_external_idp_subject setup subject)
  unfolding Users.get_by_external_idp_subject
  get_by_subject-Shut subject =
      Holds-gets _
        λ s i. found_Maybe (IsOther id) _ (λ u. find-All (IsOther id) _ s.world.users u i.0)

  update_user-Shut :
      (user : Uuid) (change : User → User) (s : AppState V)
      → ((u : User) → (change u).id ≡ u.id)
      → ((u : User) → (change u).is_active ≡ u.is_active)
      → Shut s
      → Shut (update_user setup user change s)
  update_user-Shut user change s same_id same_active i = (
    All-update (IsOther id) (IsOther id) _ _ s.world.users
        (λ u other. IsOther-if id (u.id == user) _ u (same_id u) (same_active u) other) i.0,
    taken_update id _ _ s.world.users same_id i.1,
  )

  insert_row-Shut : (u : User) → Holds Shut (λ done. u.id ≢ id) (Users.insert_row setup u)
  unfolding Users.insert_row
  insert_row-Shut u = record {
    at = λ s i.
        elim (Bool-cases (
          not (is_taken (λ v. v.id) u.id s.world.users)
          && not (any (λ v. setup.same_text v.email u.email) s.world.users)
          && not (is_subject_taken setup.same_text u.external_idp_subject s.world.users)
          && refers (λ d. d.id) u.department_id s.departments
          && refers (λ v. v.id) u.manager_user_id s.world.users)) [
            | inl c ↦
                let other : u.id ≢ id = fresh_other id u s.world.users i.1 (first_of _ _ _ _ _ c) in
                rw c (
                  (
                    All-insert (IsOther id) u s.world.users (λ active. other) i.0,
                    taken_insert id u s.world.users i.1,
                  ),
                  other,
                )
            | inr c ↦ rw c (i, tt)
          ];
  }

  pub create-Shut :
      (new : NewUser) (hash : Option String)
      → Holds Shut (λ u. u.id ≢ id) (Users.create setup new hash)
  unfolding Users.create Users.get_by_id on_world new_v4
  create-Shut new hash = Holds-then _ _ (Holds-keeps _ (λ s i. i)) λ new_id.
      Holds-then _ _ (Holds-keeps _ (λ s i. i)) λ now.
        Holds-bind {P = λ done. new_id ≢ id} _ _ (insert_row-Shut _) λ done other.
          Holds-bind {P = Maybe (λ u. u.id ≢ id)} _ _
            (Holds-gets {W = AppState V} _ λ s i.
              found_Maybe (λ u. u.id ≢ id) _
                (λ u e. rw (select-key (λ u. u.id) new_id s.world.users u e) other))
            λ row other. Holds-expect _ row (λ u e. subst (Maybe (λ u. u.id ≢ id)) e other)

  link_external_idp_subject-Shut :
      (user : Uuid) (subject : String)
      → Holds Shut (Maybe (IsOther id)) (Users.link_external_idp_subject setup user subject)
  unfolding Users.link_external_idp_subject Users.write_subject
  link_external_idp_subject-Shut user subject =
      Holds-then _ _
        (Holds-keeps _ λ s i.
          elim (Bool-cases (
            is_taken (λ u. u.id) user s.world.users
            && any
                (λ u.
                  subject_is setup.same_text subject u.external_idp_subject && not (u.id == user))
                s.world.users)) [
                  | inl c ↦ rw c i
                  | inr c ↦ rw c (
                      update_user-Shut user (linked subject) s (λ u. unfold linked in refl)
                        (λ u. unfold linked in refl) i)
                ])
        λ done. get_by_id-Shut user

  link-Shut : (user : User) (subject : String) → Holds Shut (IsOther id) (link setup user subject)
  link-Shut user subject =
      Holds-if (is_some user.external_idp_subject) _ _ (λ e. Holds-fail _)
        λ e.
          Holds-bind {P = Maybe (IsOther id)} _ _
            (Holds-map_error _ _ (link_external_idp_subject-Shut user.id subject))
            λ row other. Holds-expect _ row (λ u e. subst (Maybe (IsOther id)) e other)

  link_or_create-Shut :
      (identity : AuthenticatedIdentity) (o : Option User)
      → Holds Shut (IsOther id) (link_or_create setup identity o)
  link_or_create-Shut identity none =
      Holds-weaken _ (Holds-map_error _ _ (create-Shut (new_requester identity) none))
        (λ u other active. other)
  link_or_create-Shut identity (some user) = link-Shut user identity.external_idp_subject

  known-Shut :
      (identity : AuthenticatedIdentity) (o : Option User)
      → Maybe (IsOther id) o
      → Holds Shut (IsOther id) (known_or_new setup identity o)
  known-Shut identity (some user) other = Holds-pure user other
  known-Shut identity none other =
      Holds-then _ _
        (Holds-map_error _ _ (Holds-weaken _ (get_by_email-Shut identity.email) (λ o h. tt)))
        (link_or_create-Shut identity)

  provision-Shut :
      (identity : AuthenticatedIdentity)
      → Holds Shut (IsOther id) (provision_or_link_user setup identity)
  unfolding provision_or_link_user
  provision-Shut identity =
      Holds-bind _ _ (Holds-map_error _ _ (get_by_subject-Shut identity.external_idp_subject))
        (known-Shut identity)

  query-Shut :
      (error code state : Option String) → Holds Shut Any (code_and_state setup error code state)
  query-Shut (some e) code state = Holds-fail _
  query-Shut none (some code) (some state) = Holds-pure _ tt
  query-Shut none (some code) none = Holds-fail _
  query-Shut none none state = Holds-fail _

  pub callback-Shut : (query : CallbackQuery) → Holds Shut (λ p. p.0.id ≢ id) (callback setup query)
  unfolding callback
  callback-Shut query = Holds-then _ _ (on_sso-Shut _) λ configured.
      Holds-then _ _ (query-Shut query.error query.code query.state) λ code_state.
        Holds-then _ _ (on_sso-Shut _) λ identity.
          Holds-bind {P = IsOther id} _ _ (provision-Shut identity) λ user other.
            Holds-bind {P = λ u. user.is_active ≡ true} _ _
              (Holds-if user.is_active _ _ (λ active. Holds-pure _ active) (λ e. Holds-fail _))
              λ u active. Holds-then _ _ (on_sso-Shut _) λ code. Holds-pure _ (other active)

  -- The read of an account that has to be active.
  pub active-Shut :
      {B : Type 0} {Q : B → Type 0} (user_id : Uuid) (f : User → Exec (AppState V) ApiError B)
      → ((u : User) → u.id ≢ id → Holds Shut Q (f u))
      → Holds Shut Q (
          db setup (Users.get_by_id setup user_id) >>= λ row.
          expect unauthorized (if_active row) >>= f)
  active-Shut user_id f h =
      Holds-bind {P = Maybe (IsOther id)} _ _ (Holds-map_error _ _ (get_by_id-Shut user_id))
        λ row other. Holds-bind _ _ (Holds-expect unauthorized _ (active-Other id row other)) h

  -- A pair of tokens for another user.
  pub pair-Shut :
      {B : Type 0} {Q : B → Type 0} (user : User)
      (f : String × String → Exec (AppState V) ApiError B)
      → ((p : String × String) → Holds Shut Q (f p))
      → Holds Shut Q (on_auth (issue_token_pair setup.crypto setup.tokens user) >>= f)
  pair-Shut user f h =
      Holds-then _ _ (on_auth-Shut _ (issue_token_pair-Locked id setup.crypto setup.tokens user)) h

  pub token-Shut : (code : String) → Holds Shut (λ r. r.user.id ≢ id) (token setup code)
  unfolding token
  token-Shut code =
      Holds-then _ _ (on_sso-Shut _)
        λ user_id. active-Shut user_id _ λ user other. pair-Shut user _ λ pair. Holds-pure _ other
