-- ===== src/Approvals/Resolution.antt =====
-- crates/approvals/src/error.rs and resolution.rs
use servcat.Prelude.{String, Bool, Option, none, some, List, [], ◌∷◌}
use servcat.Model.User.{Uuid, Role, User}
use servcat.Model.Workflow.{ApproverResolution, static, manager_of_requester, role_in_department}
use servcat.Exec.{Exec, pure, expect, ◌>>=◌, map_error}
use servcat.Db.World.{DbError, World}
use servcat.Db.Users

pub data ApprovalsError : Type 0 where
  db : DbError → ApprovalsError
  requester_has_no_manager : ApprovalsError
  requester_has_no_department : ApprovalsError
  no_user_with_role_in_department : Role → ApprovalsError
  already_decided : Uuid → ApprovalsError
  -- the approval and the user
  not_the_approver : Uuid → Uuid → ApprovalsError
  not_found : Uuid → ApprovalsError

-- `candidates.first().map(|u| u.id)`
unfoldable pub first_id : List User → Option Uuid
first_id [] = none
first_id (u ∷ us) = some u.id

-- `before` is the collation by which the database orders the names.
unfoldable pub resolve_approver_user_id :
    {V : Type 0}
    → (String → String → Bool)
    → User
    → ApproverResolution
    → Exec (World V) ApprovalsError Uuid
unfolding first_id Users.list_active_by_role_in_department
resolve_approver_user_id before requester (static user_id) = pure user_id
resolve_approver_user_id before requester manager_of_requester =
    expect requester_has_no_manager requester.manager_user_id
resolve_approver_user_id before requester (role_in_department role) = do
  department_id ← expect requester_has_no_department requester.department_id
  candidates ← map_error db (Users.list_active_by_role_in_department before role department_id)
  expect (no_user_with_role_in_department role) (first_id candidates)
