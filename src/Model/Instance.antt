-- ===== src/Model/Instance.antt =====
-- crates/model/src/instance.rs
use servcat.Prelude.{String, Bool, true, false, Option}
use servcat.Model.User.{Uuid, Timestamp}

pub data InstanceStatus : Type 0 where
  in_progress awaiting_approval completed rejected cancelled failed : InstanceStatus

-- `status == InstanceStatus::InProgress`
unfoldable pub is_in_progress : InstanceStatus → Bool
is_in_progress in_progress = true
is_in_progress _ = false

pub record WorkflowInstance (V : Type 0) : Type 0 where
  pub id : Uuid
  pub workflow_definition_id : Uuid
  pub catalog_item_id : Uuid
  pub requester_user_id : Uuid
  pub status : InstanceStatus
  pub current_step_id : String
  pub answers_json : V
  pub created_at : Timestamp
  pub updated_at : Timestamp
  pub completed_at : Option Timestamp
