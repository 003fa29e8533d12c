-- ===== src/Model/Approval.antt =====
-- crates/model/src/approval.rs
use servcat.Prelude.{String, Bool, true, false, Option}
use servcat.Model.User.{Uuid, Timestamp}

pub data ApprovalStatus : Type 0 where
  pending approved rejected expired : ApprovalStatus

pub record PendingApproval : Type 0 where
  pub id : Uuid
  pub workflow_instance_id : Uuid
  pub step_id : String
  pub approver_user_id : Uuid
  pub status : ApprovalStatus
  pub comment : Option String
  pub decided_at : Option Timestamp
  pub expires_at : Option Timestamp
  pub created_at : Timestamp

pub data ApprovalDecision : Type 0 where
  approve reject : ApprovalDecision

-- `status == ApprovalStatus::Pending`
unfoldable pub is_pending : ApprovalStatus → Bool
is_pending pending = true
is_pending _ = false
