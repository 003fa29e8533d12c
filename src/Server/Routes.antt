-- ===== src/Server/Routes.antt =====
-- crates/server/src/routes/instances.rs, routes/approvals.rs and the `AuthUser` extractor of
-- crates/server/src/auth.rs: the requests that drive workflows.
use servcat.Prelude.{ℕ, String, ◌==◌, ◌||◌, Option, none, some, List, any, if◌then◌else◌}
use servcat.Json.{Json}
use servcat.Model.User.{Uuid, Role, agent, admin, User, same_role}
use servcat.Model.Instance.{WorkflowInstance}
use servcat.Model.Approval.{ApprovalDecision, PendingApproval}
use servcat.Exec.{Exec, pure, fail, expect, ◌>>=◌, map_error}
use servcat.Db.World.{World}
use servcat.Db.Users
use servcat.Db.Instances
use servcat.Db.Approvals
use servcat.Approvals.Service
use servcat.Server.Env.{Env}
use servcat.Server.Error.{ApiError, unauthorized, forbidden, not_found, from_approvals}
use servcat.Server.Orchestrator
use servcat.Server.Orchestrator.{Stop, api, db, handle_expired}

-- `.filter(|u| u.is_active)`
unfoldable pub if_active : Option User → Option User
if_active none = none
if_active (some u) = if u.is_active then some u else none

-- `allowed.contains(&self.0.role)`
unfoldable pub require_role : {V : Type 0} → User → List Role → Exec (World V) ApiError (Unit {0})
require_role user allowed =
    if any (λ r. same_role r user.role) allowed then pure tt else fail forbidden

module _ {V : Type 0} (env : Env V) where
  -- The extractor, after the token was verified to name the user `user_id`.
  unfoldable pub auth_user : Uuid → Exec (World V) ApiError User
  unfolding if_active
  auth_user user_id = do row ← db env (Users.get_by_id user_id); expect unauthorized (if_active row)

  -- `get_one`
  unfoldable pub get_one : Uuid → Uuid → Exec (World V) ApiError (WorkflowInstance V)
  unfolding auth_user
  get_one user_id id = do
    user ← auth_user user_id
    found ← db env (Instances.get_by_id id)
    row ← expect (not_found "request not found") found
    (if row.requester_user_id == user.id || (same_role user.role admin || same_role user.role agent)
        then pure row
        else fail forbidden)

  -- `list_mine` of routes/instances.rs
  unfoldable pub list_mine_requests : Uuid → Exec (World V) ApiError (List (WorkflowInstance V))
  unfolding auth_user Instances.list_for_requester
  list_mine_requests user_id = do
    user ← auth_user user_id
    db env (Instances.list_for_requester user.id)

  -- `list_mine` of routes/approvals.rs
  unfoldable pub list_mine_approvals : Uuid → Exec (World V) ApiError (List PendingApproval)
  unfolding auth_user Approvals.list_pending_for_approver
  list_mine_approvals user_id = do
    user ← auth_user user_id
    db env (Approvals.list_pending_for_approver user.id)

module _ {V : Type 0} ⦃json : Json V⦄ (env : Env V) (fuel : ℕ) where
  unfoldable pub start : Uuid → Uuid → Exec (World V) Stop (WorkflowInstance V)
  start user_id catalog_item_id = do
    user ← map_error api (auth_user env user_id)
    Orchestrator.start_instance env fuel catalog_item_id user

  unfoldable pub submit_answer : Uuid → Uuid → String → V → Exec (World V) Stop (WorkflowInstance V)
  submit_answer user_id id field_key value = do
    user ← map_error api (auth_user env user_id)
    Orchestrator.submit_answer env fuel id user field_key value

  unfoldable pub decide :
      Uuid → Uuid → ApprovalDecision → Option String → Exec (World V) Stop (WorkflowInstance V)
  decide user_id id decision comment = do
    user ← map_error api (auth_user env user_id)
    approval ←
        map_error api
          (map_error (from_approvals env.uuid_text) (Service.decide id user.id decision comment))
    Orchestrator.resume_after_approval env fuel approval.workflow_instance_id approval.step_id
        decision
