-- ===== src/Approvals/Service.antt =====
-- crates/approvals/src/service.rs
use servcat.Prelude.{
  String, ◌==◌, ◌++◌, Bool, true, false, Option, none, some, [], ◌∷◌, ok, err, Result,
  if◌then◌else◌,
}
use servcat.Prelude.Int.{ℤ, ◌+ℤ◌}
use servcat.Model.User.{Uuid, Timestamp, User}
use servcat.Model.Workflow.{ApproverResolution}
use servcat.Model.Instance.{WorkflowInstance}
use servcat.Model.Catalog.{ServiceCatalogItem}
use servcat.Model.Approval.{
  ApprovalStatus, approved, rejected, PendingApproval, ApprovalDecision, approve, reject,
  is_pending,
}
use servcat.Exec.{Exec, pure, fail, gets, expect, modify, ◌>>=◌, ◌>>◌, map_error}
use servcat.Db.World.{DbError, sqlx, Notification, World}
use servcat.Db.Users
use servcat.Db.Catalog
use servcat.Db.Instances
use servcat.Db.Approvals
use servcat.Approvals.Resolution.{
  ApprovalsError, db, already_decided, not_the_approver, not_found, resolve_approver_user_id,
}

abbrev pub item_name : Option ServiceCatalogItem → String
item_name none = "(deleted service)"
item_name (some item) = item.name

-- `timeout_seconds.map(|secs| Utc::now() + secs)`
unfoldable pub expiry : Timestamp → Option ℤ → Option Timestamp
expiry now none = none
expiry now (some secs) = some (now +ℤ secs)

module _ {V : Type 0} where
  abbrev pub name_of_request : Option (WorkflowInstance V) → Exec (World V) DbError String
  name_of_request none = pure "(unknown request)"
  name_of_request (some instance_row) = do
    item ← Catalog.get_by_id instance_row.catalog_item_id
    pure (item_name item)

  -- `notifier.notify_new_approval(..)`, which reports no failure
  unfoldable pub notify_new_approval : Notification → Exec (World V) DbError (Unit {0})
  notify_new_approval n = modify (λ w. record w { notified = w.notified ++ n ∷ [] })

  unfoldable pub notify :
      Uuid → User → PendingApproval → Option User → Exec (World V) DbError (Unit {0})
  unfolding notify_new_approval
  notify instance_id requester approval none = pure tt
  notify instance_id requester approval (some approver) = do
    row ← Instances.get_by_id instance_id
    name ← name_of_request row
    settings ← gets (λ w. w.timezone)
    org_timezone ← expect sqlx settings
    notify_new_approval (record {
      approval = approval;
      approver = approver;
      requester = requester;
      catalog_item_name = name;
      org_timezone = org_timezone;
    })

  unfoldable pub create_for_instance :
      (String → String → Bool)
      → Uuid
      → String
      → User
      → ApproverResolution
      → Option ℤ
      → Exec (World V) ApprovalsError PendingApproval
  unfolding notify expiry
  create_for_instance before instance_id step_id requester resolution timeout_seconds = do
    approver_user_id ← resolve_approver_user_id before requester resolution
    now ← gets (λ w. w.now)
    approval ←
        map_error db
          (Approvals.create instance_id step_id approver_user_id (expiry now timeout_seconds))
    approver ← map_error db (Users.get_by_id approver_user_id)
    map_error db (notify instance_id requester approval approver)
    pure approval

-- The checks on the row that was read.
unfoldable pub check : Uuid → Uuid → Option PendingApproval → Result ApprovalsError PendingApproval
check approval_id user_id none = err (not_found approval_id)
check approval_id user_id (some a) =
    if a.approver_user_id == user_id
    then (if is_pending a.status then ok a else err (already_decided approval_id))
    else err (not_the_approver approval_id user_id)

unfoldable pub status_of : ApprovalDecision → ApprovalStatus
status_of approve = approved
status_of reject = rejected

module _ {V : Type 0} where
  -- After the update: `flipped` says whether this call wrote the row.
  unfoldable pub report : Uuid → Bool → Exec (World V) ApprovalsError PendingApproval
  report approval_id false = fail (already_decided approval_id)
  report approval_id true = do
    row ← map_error db (Approvals.get_by_id approval_id)
    expect (not_found approval_id) row

  unfoldable pub decide :
      Uuid → Uuid → ApprovalDecision → Option String → Exec (World V) ApprovalsError PendingApproval
  unfolding check status_of report
  decide approval_id deciding_user_id decision comment = do
    row ← map_error db (Approvals.get_by_id approval_id)
    approval ← (λ w. (check approval_id deciding_user_id row, w))
    flipped ← map_error db (Approvals.decide approval_id (status_of decision) comment)
    report approval_id flipped
