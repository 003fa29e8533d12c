-- ===== src/App/Departments.antt =====
-- crates/db/src/repositories/departments.rs, with the keys of the migrations.
use servcat.Prelude.{
  ◌==◌, String, Bool, true, not, ◌&&◌, ◌||◌, Option, none, some, List, [], ◌∷◌, ok, err, any, keep,
  if◌then◌else◌,
}
use servcat.Model.User.{Uuid}
use servcat.Exec.{Exec, gets, expect, ◌>>=◌, ◌>>◌}
use servcat.Db.Table.{select, update_where, insert, is_taken, or_row}
use servcat.Db.World.{DbError, sqlx, not_found, new_v4}
use servcat.Db.Catalog.{coalesce}
use servcat.App.State.{Department, AppState, Setup, on_world}
use servcat.App.Users.{refers}

pub record NewDepartment : Type 0 where
  pub name : String
  pub parent_department_id : Option Uuid

pub record UpdateDepartment : Type 0 where
  pub name : Option String
  pub parent_department_id : Option Uuid

unfoldable pub patched : UpdateDepartment → Department → Department
patched patch d = record d {
  name = coalesce patch.name d.name;
  parent_department_id = or_row patch.parent_department_id d.parent_department_id;
}

-- `ON DELETE SET NULL`
abbrev pub cleared : Uuid → Option Uuid → Option Uuid
cleared id none = none
cleared id (some d) = if d == id then none else some d

-- `ORDER BY name`, by the collation of the database
module _ (before : String → String → Bool) where
  abbrev pub insert_by_name : Department → List Department → List Department
  insert_by_name d [] = d ∷ []
  insert_by_name d (e ∷ ds) =
      let rest = insert_by_name d ds in if before d.name e.name then d ∷ e ∷ ds else e ∷ rest

  abbrev pub by_name : List Department → List Department
  by_name [] = []
  by_name (d ∷ ds) = insert_by_name d (by_name ds)

module _ (setup : Setup) where
  abbrev pub name_is_free : Uuid → Option String → List Department → Bool
  name_is_free id none rows = true
  name_is_free id (some name) rows =
      not (any (λ d. setup.same_text d.name name && not (d.id == id)) rows)

module _ {V : Type 0} (setup : Setup) where
  unfoldable pub get_by_id : Uuid → Exec (AppState V) DbError (Option Department)
  get_by_id id = gets (λ s. select (λ d. d.id) id s.departments)

  unfoldable pub list : Exec (AppState V) DbError (List Department)
  list = gets (λ s. by_name setup.before s.departments)

  abbrev pub insert_row : Department → Exec (AppState V) DbError (Unit {0})
  insert_row d s =
      if not (is_taken (λ e. e.id) d.id s.departments)
        && not (any (λ e. setup.same_text e.name d.name) s.departments)
        && refers (λ e. e.id) d.parent_department_id s.departments
      then (ok tt, record s { departments = insert d s.departments })
      else (err sqlx, s)

  unfoldable pub create : NewDepartment → Exec (AppState V) DbError Department
  unfolding get_by_id
  create new = do
    id ← on_world new_v4
    now ← gets (λ s. s.world.now)
    insert_row (record {
      id = id;
      name = new.name;
      logo_url = none;
      parent_department_id = new.parent_department_id;
      created_at = now;
      updated_at = now;
    })
    row ← get_by_id id
    expect (not_found "department" id) row

  -- `UPDATE departments SET .. WHERE id = ?`; `updated_at` follows if a column changes.
  abbrev pub update_department : Uuid → (Department → Department) → AppState V → AppState V
  update_department id change s = record s {
    departments =
        update_where (λ d. d.id == id)
          (λ d. record (change d) {
            updated_at =
                if setup.departments_differ d (change d) then s.world.now else d.updated_at;
          })
          s.departments;
  }

  unfoldable pub write_patch : Uuid → UpdateDepartment → Exec (AppState V) DbError (Unit {0})
  unfolding patched
  write_patch id patch s =
      if not (is_taken (λ d. d.id) id s.departments)
        || name_is_free setup id patch.name s.departments
          && refers (λ d. d.id) patch.parent_department_id s.departments
      then (ok tt, update_department id (patched patch) s)
      else (err sqlx, s)

  unfoldable pub update : Uuid → UpdateDepartment → Exec (AppState V) DbError (Option Department)
  unfolding get_by_id write_patch
  update id patch = do write_patch id patch; get_by_id id

  unfoldable pub set_logo_url : Uuid → Option String → Exec (AppState V) DbError (Option Department)
  unfolding get_by_id
  set_logo_url id logo_url = do
    (λ s. (ok tt, update_department id (λ d. record d { logo_url = logo_url }) s))
    get_by_id id

  -- A deletion clears the references to the row, if it is there.
  unfoldable pub delete : Uuid → Exec (AppState V) DbError (Unit {0})
  delete id s = (
    ok tt,
    record s {
      departments =
          update_where (λ d. not (d.id == id))
            (λ d. record d { parent_department_id = cleared id d.parent_department_id })
            (keep (λ d. not (d.id == id)) s.departments);
      world = record s.world {
        users =
            update_where (λ u. is_taken (λ d. d.id) id s.departments)
              (λ u. record u { department_id = cleared id u.department_id }) s.world.users;
      };
    },
  )
