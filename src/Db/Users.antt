-- ===== src/Db/Users.antt =====
-- crates/db/src/repositories/users.rs: the reads that requests for a service make.
use servcat.Prelude.{
  String, ◌==◌, Bool, false, ◌&&◌, Option, none, some, List, [], ◌∷◌, keep, if◌then◌else◌,
}
use servcat.Model.User.{Uuid, Role, User, same_role}
use servcat.Exec.{Exec, gets}
use servcat.Db.Table.{select}
use servcat.Db.World.{DbError, World}

-- `department_id = ?`, which a null does not meet
abbrev pub in_department : Uuid → Option Uuid → Bool
in_department id none = false
in_department id (some d) = d == id

-- `ORDER BY display_name`, by the collation of the database
module _ (before : String → String → Bool) where
  unfoldable pub insert_by_name : User → List User → List User
  insert_by_name u [] = u ∷ []
  insert_by_name u (v ∷ us) =
      let rest = insert_by_name u us in
      if before u.display_name v.display_name then u ∷ v ∷ us else v ∷ rest

  unfoldable pub by_name : List User → List User
  unfolding insert_by_name
  by_name [] = []
  by_name (u ∷ us) = insert_by_name u (by_name us)

-- role = ? AND department_id = ? AND is_active = TRUE
unfoldable pub is_candidate : Role → Uuid → User → Bool
is_candidate role department u =
    same_role u.role role && in_department department u.department_id && u.is_active

module _ {V : Type 0} where
  unfoldable pub get_by_id : Uuid → Exec (World V) DbError (Option User)
  get_by_id id = gets (λ w. select (λ u. u.id) id w.users)

  unfoldable pub list_active_by_role_in_department :
      (String → String → Bool) → Role → Uuid → Exec (World V) DbError (List User)
  list_active_by_role_in_department before role department =
      gets (λ w. by_name before (keep (is_candidate role department) w.users))
