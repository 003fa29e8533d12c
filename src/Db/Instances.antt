-- ===== src/Db/Instances.antt =====
-- crates/db/src/repositories/instances.rs. The foreign keys are those of the migrations.
use servcat.Prelude.{
  String, ◌==◌, Bool, true, false, not, ◌&&◌, Option, none, some, [], ok, err, if◌then◌else◌,
}
use servcat.Json.{Json}
use servcat.Model.User.{Uuid, Timestamp}
use servcat.Model.Instance.{
  InstanceStatus, in_progress, awaiting_approval, completed, rejected, cancelled, failed,
  WorkflowInstance,
}
use servcat.Prelude.{List, keep}
use servcat.Prelude.Int.{leb_ℤ}
use servcat.Prelude.Sorting.{sort_by}
use servcat.Exec.{Exec, gets, expect, modify, ◌>>=◌, ◌>>◌}
use servcat.Db.Table.{select, update_where, insert, is_taken}
use servcat.Db.World.{DbError, sqlx, not_found, World, new_v4}

-- A terminal status stamps `completed_at`.
unfoldable pub is_terminal : InstanceStatus → Bool
is_terminal in_progress = false
is_terminal awaiting_approval = false
is_terminal completed = true
is_terminal rejected = true
is_terminal cancelled = true
is_terminal failed = true

module _ {V : Type 0} where
  unfoldable pub get_by_id : Uuid → Exec (World V) DbError (Option (WorkflowInstance V))
  get_by_id id = gets (λ w. select (λ i. i.id) id w.instances)

  -- The `INSERT`: the key is new, and the rows that the row refers to are there.
  unfoldable pub insert_row : WorkflowInstance V → Exec (World V) DbError (Unit {0})
  insert_row r w =
      if not (is_taken (λ i. i.id) r.id w.instances)
        && is_taken (λ d. d.id) r.workflow_definition_id w.definitions
        && is_taken (λ i. i.id) r.catalog_item_id w.items
        && is_taken (λ u. u.id) r.requester_user_id w.users
      then (ok tt, record w { instances = insert r w.instances })
      else (err sqlx, w)

  -- The row that `save_progress` writes.
  unfoldable pub progressed :
      String → V → InstanceStatus → Timestamp → WorkflowInstance V → WorkflowInstance V
  unfolding is_terminal
  progressed step answers status now i = record i {
    current_step_id = step;
    answers_json = answers;
    status = status;
    completed_at = if is_terminal status then some now else i.completed_at;
    updated_at = now;
  }

  unfoldable pub save_progress :
      Uuid → String → V → InstanceStatus → Exec (World V) DbError (Option (WorkflowInstance V))
  unfolding get_by_id progressed
  save_progress id step answers status = do
    modify λ w. record w {
      instances = update_where (λ i. i.id == id) (progressed step answers status w.now) w.instances;
    }
    get_by_id id

module _ {V : Type 0} ⦃json : Json V⦄ where
  unfoldable pub create : Uuid → Uuid → Uuid → String → Exec (World V) DbError (WorkflowInstance V)
  unfolding get_by_id insert_row new_v4
  create definition item requester entry_step_id = do
    id ← new_v4
    now ← gets (λ w. w.now)
    insert_row (record {
      id = id;
      workflow_definition_id = definition;
      catalog_item_id = item;
      requester_user_id = requester;
      status = in_progress;
      current_step_id = entry_step_id;
      answers_json = json.object [];
      created_at = now;
      updated_at = now;
      completed_at = none;
    })
    row ← get_by_id id
    expect (not_found "workflow_instance" id) row

module _ {V : Type 0} where
  -- `ORDER BY created_at DESC`; rows of the same second are in the order of the table.
  unfoldable pub list_for_requester : Uuid → Exec (World V) DbError (List (WorkflowInstance V))
  list_for_requester requester_user_id = gets (λ w.
      sort_by (λ (a : WorkflowInstance V) (b : WorkflowInstance V). leb_ℤ b.created_at a.created_at)
        (keep (λ (i : WorkflowInstance V). i.requester_user_id == requester_user_id) w.instances))
