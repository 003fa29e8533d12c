-- ===== src/Web/Decisions.antt =====
-- crates/server/src/web/pages/approvals.rs.
use servcat.Prelude.{ℕ, String, ◌=ₛ◌, Option, none, some, List, [], ◌∷◌, ◌++◌, if◌then◌else◌}
use servcat.Json.{Json}
use servcat.Model.User.{Uuid, Timestamp, User}
use servcat.Model.Catalog.{ServiceCatalogItem}
use servcat.Model.Instance.{WorkflowInstance}
use servcat.Model.Approval.{PendingApproval, ApprovalDecision, approve, reject}
use servcat.Exec.{Exec, pure, expect, ◌>>=◌, ◌>>◌, map_error}
use servcat.Db.Catalog
use servcat.Db.Instances
use servcat.Db.Approvals
use servcat.Db.Users
use servcat.Approvals.Service
use servcat.Server.Error.{ApiError, bad_request, from_approvals}
use servcat.Server.Env.{Env}
use servcat.Server.Orchestrator
use servcat.Server.Orchestrator.{Stop, api}
use servcat.App.State.{AppState, Setup, on_world, db}
use servcat.Web.Forms.{trim, is_empty}
use servcat.Web.Layout.{Response, redirect, Layout, load}

pub record ApprovalRow : Type 0 where
  pub id : Uuid
  pub catalog_item_name : String
  pub requester_display_name : String
  pub created_at : Timestamp

pub record ApprovalsListTemplate : Type 0 where
  pub layout : Layout
  pub approvals : List ApprovalRow

abbrev pub item_name : Option ServiceCatalogItem → String
item_name none = "(deleted service)"
item_name (some i) = i.name

abbrev pub requester_name : Option User → String
requester_name none = "(deactivated user)"
requester_name (some u) = u.display_name

module _ {V : Type 0} where
  module _ (setup : Setup) where
    abbrev pub row_of :
        PendingApproval
        → Option (WorkflowInstance V)
        → Exec (AppState V) ApiError (List ApprovalRow)
    row_of approval none = pure []
    row_of approval (some i) = do
      item ← db setup (on_world (Catalog.get_by_id i.catalog_item_id))
      requester ← db setup (on_world (Users.get_by_id i.requester_user_id))
      pure (
          (record {
            id = approval.id;
            catalog_item_name = item_name item;
            requester_display_name = requester_name requester;
            created_at = approval.created_at;
          })
          ∷ [])

    -- `for approval in pending`
    unfoldable pub rows_of : List PendingApproval → Exec (AppState V) ApiError (List ApprovalRow)
    rows_of [] = pure []
    rows_of (approval ∷ pending) = do
      i ← db setup (on_world (Instances.get_by_id approval.workflow_instance_id))
      row ← row_of approval i
      rest ← rows_of pending
      pure (row ++ rest)

    unfoldable pub list_mine : User → Exec (AppState V) ApiError ApprovalsListTemplate
    unfolding load Approvals.list_pending_for_approver rows_of
    list_mine user = do
      layout ← load setup user "approvals"
      pending ← db setup (on_world (Approvals.list_pending_for_approver user.id))
      approvals ← rows_of pending
      pure (record { layout = layout; approvals = approvals })

-- `match form.decision.as_str()`
unfoldable pub decision_of : String → Option ApprovalDecision
decision_of decision =
    if decision =ₛ "approve"
    then some approve
    else (if decision =ₛ "reject" then some reject else none)

-- `form.comment.filter(|c| !c.trim().is_empty())`
abbrev pub comment_of : Option String → Option String
comment_of none = none
comment_of (some c) = if is_empty (trim c) then none else some c

module _ {V : Type 0} ⦃json : Json V⦄ (setup : Setup) (env : Env V) (fuel : ℕ) where
  unfoldable pub decide :
      User → Uuid → String → Option String → Exec (AppState V) Stop (Response (Unit {0}))
  unfolding trim decision_of Service.decide Orchestrator.resume_after_approval
  decide user id decision_text comment = do
    decision ← expect (api (bad_request "invalid decision")) (decision_of decision_text)
    approval ← map_error api (
        map_error (from_approvals setup.tokens.uuid_text)
          (on_world (Service.decide id user.id decision (comment_of comment))))
    on_world (
        Orchestrator.resume_after_approval env fuel approval.workflow_instance_id approval.step_id
          decision)
    pure (redirect "/approvals")
