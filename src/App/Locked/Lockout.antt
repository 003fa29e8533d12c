-- ===== src/App/Locked/Lockout.antt =====
-- A user whom an administrator deactivates gets in nowhere (crates/server/src/routes/users.rs).
use servcat.Prelude.{
  ℕ, String, ◌==◌, ==_iff, ◌≡◌, refl, ◌≢◌, Bool, true, false, not, ◌&&◌, Bool-cases, inl, inr,
  Option, none, some, List, [], ◌∷◌, All, ok, arith, if◌then◌else◌,
}
use servcat.Model.User.{Uuid, Role, requester, approver, agent, admin, User}
use servcat.Exec.{Exec, pure, fail, ◌>>=◌, map_error}
use servcat.Exec.Holds.{Holds, Holds-map_error, Any, Holds-keeps, Holds-then}
use servcat.Db.Table.{is_taken}
use servcat.Db.World.{new_v4}
use servcat.Server.Error.{ApiError, bad_request}
use servcat.Auth.Tokens.{revoke_all_sessions}
use servcat.App.State.{AppState, Setup, AuditLogEntry, on_world, on_auth, db}
use servcat.App.Users
use servcat.App.Users.{update_user, deactivated, touched, refers}
use servcat.App.Audit.{insert_entry, record_entry}
use servcat.App.Admin.{if_admin, require_admin, deactivate_user, log}
use servcat.App.Entrances.{Entrance}
use servcat.App.Locked.{IsOther, Maybe, revoke_all_sessions-Locked}
use servcat.App.Locked.Rows.{All-update, taken_update}
use servcat.App.Locked.Accounts.{Shut, on_auth-Shut}
use servcat.App.Locked.Entrances.{visits, visits-Shut}

All-any : (users : List User) → All (λ u. Unit {0}) users
All-any [] = tt
All-any (u ∷ users) = (tt, All-any users)

inactive_if :
    (id : Uuid) (b : Bool) (v u : User)
    → v.is_active ≡ false
    → (b ≡ false → u.id ≢ id)
    → IsOther id (if b then v else u)
inactive_if id true v u e other active = cc
inactive_if id false v u e other active = other refl

module _ {V : Type 0} (id : Uuid) (setup : Setup) where
  deactivated-Shut :
      (s : AppState V)
      → is_taken (λ u. u.id) id s.world.users ≡ true
      → Shut id setup (update_user setup id deactivated s)
  unfolding deactivated
  deactivated-Shut s there = (
    All-update (λ u. Unit {0}) (IsOther id) (λ u. u.id == id) _ s.world.users
        (λ u t. inactive_if id (u.id == id) _ u refl (λ e same. ground (arith, ==_iff u.id id)))
        (All-any s.world.users),
    taken_update id (λ u. u.id == id) _ s.world.users (λ u. refl) there,
  )

  insert_entry-Shut : (e : AuditLogEntry V) → Holds (Shut id setup) Any (insert_entry e)
  unfolding insert_entry
  insert_entry-Shut e = Holds-keeps _ λ s i.
      elim (Bool-cases (
        not (is_taken (λ r. r.id) e.id s.audit_log)
        && refers (λ u. u.id) e.actor_user_id s.world.users)) [ inl c ↦ rw c i | inr c ↦ rw c i ]

  log-Shut :
      (actor : User) (action : String) (entity : Uuid) (metadata : Option V)
      → Holds (Shut id setup) Any (log setup actor action entity metadata)
  unfolding record_entry on_world new_v4
  log-Shut actor action entity metadata = Holds-map_error _ _ (
      Holds-then _ _ (Holds-keeps _ (λ s i. i)) λ entry_id.
        Holds-then _ _ (Holds-keeps _ (λ s i. i)) λ now. insert_entry-Shut (record {
          id = entry_id;
          actor_user_id = some actor.id;
          action = action;
          entity_type = "user";
          entity_id = some (setup.tokens.uuid_text entity);
          metadata_json = metadata;
          created_at = now;
        }))

  -- What follows on the statement that deactivates.
  abbrev after_write : User → Exec (AppState V) ApiError (Unit {0})
  after_write actor = on_auth (revoke_all_sessions setup.crypto setup.tokens id) >>= λ u.
      log setup actor "user.deactivate" id none

  after_write-Shut : (actor : User) → Holds (Shut id setup) Any (after_write actor)
  after_write-Shut actor =
      Holds-then _ _
        (on_auth-Shut id setup _ (revoke_all_sessions-Locked id setup.crypto setup.tokens id))
        λ u. log-Shut actor "user.deactivate" id none

  abbrev guarded : Role → Bool → User → Exec (AppState V) ApiError (Unit {0})
  guarded role own actor = if_admin role >>= λ u.
      (if own then fail (bad_request "you cannot deactivate your own account") else pure tt)
      >>= λ u. db setup (Users.deactivate setup id) >>= λ u. after_write actor

  guarded-Shut :
      (role : Role) (own : Bool) (actor : User) (s : AppState V)
      → is_taken (λ u. u.id) id s.world.users ≡ true
      → (guarded role own actor s).0 ≡ ok tt
      → Shut id setup (guarded role own actor s).1
  unfolding ◌>>=◌ Users.deactivate map_error
  guarded-Shut admin false actor s there done =
      ((after_write-Shut actor).at _ (deactivated-Shut s there)).0
  guarded-Shut admin true actor s there done = cc
  guarded-Shut requester own actor s there done = cc
  guarded-Shut approver own actor s there done = cc
  guarded-Shut agent own actor s there done = cc

  -- Once `deactivate_user` has succeeded for a stored user, no client acts as this user any more,
  -- by whatever entrance, in whatever order and after whatever time: a bearer token, a login, a
  -- refresh, a registration, single sign-on and the cookies of a browser let in other users only.
  pub deactivate_user-visits :
      (actor : User) (s : AppState V)
      → is_taken (λ u. u.id) id s.world.users ≡ true
      → (deactivate_user setup actor id s).0 ≡ ok tt
      → (es : List (ℕ × Entrance))
      → All (Maybe (λ u. u.id ≢ id)) (visits setup es (deactivate_user setup actor id s).1)
  unfolding deactivate_user require_admin
  deactivate_user-visits actor s there done es =
      visits-Shut id setup es _ (guarded-Shut actor.role (actor.id == id) actor s there done)
