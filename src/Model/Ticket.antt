-- ===== src/Model/Ticket.antt =====
-- crates/model/src/ticket.rs
use servcat.Prelude.{String, Option}
use servcat.Model.User.{Uuid, Timestamp}
use servcat.Model.Workflow.{TargetSystem}

pub data DispatchStatus : Type 0 where
  pending sent failed acked : DispatchStatus

pub record Ticket (V : Type 0) : Type 0 where
  pub id : Uuid
  pub workflow_instance_id : Uuid
  pub target_system : TargetSystem
  pub rendered_payload_json : V
  pub external_ticket_id : Option String
  pub external_ticket_url : Option String
  pub dispatch_status : DispatchStatus
  pub last_error : Option String
  pub created_at : Timestamp
  pub updated_at : Timestamp
