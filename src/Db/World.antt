-- ===== src/Db/World.antt =====
-- The state that the server's functions share: the database, the clock, the supply of random
-- UUIDs, the notifications sent and the tickets handed to external systems. `Env` is what the
-- program does not implement.
use servcat.Prelude.{ℕ, ◌+◌, String, Option, List, ok}
use servcat.Model.User.{Uuid, Timestamp, User}
use servcat.Model.Workflow.{TargetSystem, WorkflowDefinition}
use servcat.Model.Instance.{WorkflowInstance}
use servcat.Model.Approval.{PendingApproval}
use servcat.Model.Ticket.{Ticket}
use servcat.Model.Catalog.{ServiceCatalogItem}
use servcat.Exec.{Exec}

-- crates/db/src/error.rs. A stored workflow is kept typed, so `CorruptJson` does not arise.
pub data DbError : Type 0 where
  sqlx : DbError
  not_found : String → Uuid → DbError

-- What an approver is told of a new approval.
pub record Notification : Type 0 where
  pub approval : PendingApproval
  pub approver : User
  pub requester : User
  pub catalog_item_name : String
  pub org_timezone : String

pub record World (V : Type 0) : Type 0 where
  pub now : Timestamp
  pub uuids : ℕ → Uuid
  pub drawn : ℕ
  pub users : List User
  pub items : List ServiceCatalogItem
  pub definitions : List (WorkflowDefinition V)
  pub instances : List (WorkflowInstance V)
  pub approvals : List PendingApproval
  pub tickets : List (Ticket V)
  -- `org_settings.timezone`, if the row of settings is there
  pub timezone : Option String
  pub notified : List Notification
  pub dispatched : List (TargetSystem × V)

-- `Uuid::new_v4()`
unfoldable pub new_v4 : {V E : Type 0} → Exec (World V) E Uuid
new_v4 w = (ok (w.uuids w.drawn), record w { drawn = w.drawn + 1 })
