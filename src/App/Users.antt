-- ===== src/App/Users.antt =====
-- crates/db/src/repositories/users.rs: the users, with the keys of the migrations.
use servcat.Prelude.{
  ◌==◌, String, Bool, true, false, not, ◌&&◌, ◌||◌, Option, none, some, List, ok, err, any, find,
  keep, if◌then◌else◌,
}
use servcat.Model.User.{Uuid, Timestamp, Role, User}
use servcat.Exec.{Exec, gets, expect, ◌>>=◌, ◌>>◌}
use servcat.Db.Table.{select, update_where, insert, is_taken, or_row}
use servcat.Db.World.{DbError, sqlx, not_found, new_v4}
use servcat.Db.Users.{by_name}
use servcat.Db.Catalog.{coalesce}
use servcat.App.State.{AppState, Setup, on_world}

pub record NewUser : Type 0 where
  pub email : String
  pub display_name : String
  pub password : Option String
  pub external_idp_subject : Option String
  pub department_id : Option Uuid
  pub manager_user_id : Option Uuid
  pub role : Role

pub record UpdateUser : Type 0 where
  pub display_name : Option String
  pub department_id : Option Uuid
  pub manager_user_id : Option Uuid
  pub role : Option Role
  pub is_active : Option Bool

-- A foreign key that may be null.
abbrev pub refers {ℓ} : {A : Type ℓ} → (A → Uuid) → Option Uuid → List A → Bool
refers key none rows = true
refers key (some id) rows = is_taken key id rows

-- `external_idp_subject = ?`, which a null does not meet
abbrev pub subject_is : (String → String → Bool) → String → Option String → Bool
subject_is same subject none = false
subject_is same subject (some s) = same s subject

abbrev pub is_subject_taken : (String → String → Bool) → Option String → List User → Bool
is_subject_taken same none users = false
is_subject_taken same (some subject) users =
    any (λ u. subject_is same subject u.external_idp_subject) users

-- The row with the columns that an update gives.
unfoldable pub patched : UpdateUser → User → User
patched patch u = record u {
  display_name = coalesce patch.display_name u.display_name;
  department_id = or_row patch.department_id u.department_id;
  manager_user_id = or_row patch.manager_user_id u.manager_user_id;
  role = coalesce patch.role u.role;
  is_active = coalesce patch.is_active u.is_active;
}

unfoldable pub linked : String → User → User
linked subject u = record u { external_idp_subject = some subject }

unfoldable pub deactivated : User → User
deactivated u = record u { is_active = false }

module _ (setup : Setup) where
  -- `UPDATE users SET .. WHERE id = ?`; `updated_at` follows if a column changes.
  abbrev pub touched : (User → User) → Timestamp → User → User
  touched change now u = record (change u) {
    updated_at = if setup.users_differ u (change u) then now else u.updated_at;
  }

module _ {V : Type 0} (setup : Setup) where
  abbrev pub update_user : Uuid → (User → User) → AppState V → AppState V
  update_user id change s = record s {
    world = record s.world {
      users = update_where (λ u. u.id == id) (touched setup change s.world.now) s.world.users;
    };
  }

  unfoldable pub get_by_id : Uuid → Exec (AppState V) DbError (Option User)
  get_by_id id = gets (λ s. select (λ u. u.id) id s.world.users)

  unfoldable pub get_by_email : String → Exec (AppState V) DbError (Option User)
  get_by_email email = gets (λ s. find (λ u. setup.same_text u.email email) s.world.users)

  unfoldable pub get_by_external_idp_subject : String → Exec (AppState V) DbError (Option User)
  get_by_external_idp_subject subject =
      gets
        (λ s. find (λ u. subject_is setup.same_text subject u.external_idp_subject) s.world.users)

  unfoldable pub list : Bool → Exec (AppState V) DbError (List User)
  list include_inactive = gets (λ s.
      by_name setup.before
        (if include_inactive then s.world.users else keep (λ u. u.is_active) s.world.users))

  -- The `INSERT`: the keys are new, and the rows that the row refers to are there.
  unfoldable pub insert_row : User → Exec (AppState V) DbError (Unit {0})
  insert_row u s =
      if not (is_taken (λ v. v.id) u.id s.world.users)
        && not (any (λ v. setup.same_text v.email u.email) s.world.users)
        && not (is_subject_taken setup.same_text u.external_idp_subject s.world.users)
        && refers (λ d. d.id) u.department_id s.departments
        && refers (λ v. v.id) u.manager_user_id s.world.users
      then (ok tt, record s { world = record s.world { users = insert u s.world.users } })
      else (err sqlx, s)

  unfoldable pub create : NewUser → Option String → Exec (AppState V) DbError User
  unfolding get_by_id insert_row
  create new password_hash = do
    id ← on_world new_v4
    now ← gets (λ s. s.world.now)
    insert_row (record {
      id = id;
      email = new.email;
      display_name = new.display_name;
      password_hash = password_hash;
      external_idp_subject = new.external_idp_subject;
      department_id = new.department_id;
      manager_user_id = new.manager_user_id;
      role = new.role;
      is_active = true;
      created_at = now;
      updated_at = now;
    })
    row ← get_by_id id
    expect (not_found "user" id) row

  -- A row that is there is written only if what it then refers to is there.
  unfoldable pub write_patch : Uuid → UpdateUser → Exec (AppState V) DbError (Unit {0})
  unfolding patched
  write_patch id patch s =
      if not (is_taken (λ u. u.id) id s.world.users)
        || refers (λ d. d.id) patch.department_id s.departments
          && refers (λ u. u.id) patch.manager_user_id s.world.users
      then (ok tt, update_user id (patched patch) s)
      else (err sqlx, s)

  unfoldable pub update : Uuid → UpdateUser → Exec (AppState V) DbError (Option User)
  unfolding get_by_id write_patch
  update id patch = do write_patch id patch; get_by_id id

  -- Another user's subject is not taken over.
  unfoldable pub write_subject : Uuid → String → Exec (AppState V) DbError (Unit {0})
  unfolding linked
  write_subject id subject s =
      if is_taken (λ u. u.id) id s.world.users
        && any (λ u. subject_is setup.same_text subject u.external_idp_subject && not (u.id == id))
            s.world.users
      then (err sqlx, s)
      else (ok tt, update_user id (linked subject) s)

  unfoldable pub link_external_idp_subject : Uuid → String → Exec (AppState V) DbError (Option User)
  unfolding get_by_id write_subject
  link_external_idp_subject id subject = do write_subject id subject; get_by_id id

  unfoldable pub deactivate : Uuid → Exec (AppState V) DbError (Unit {0})
  unfolding deactivated
  deactivate id s = (ok tt, update_user id deactivated s)
