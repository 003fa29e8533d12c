-- ===== src/Server/Orchestrator.antt =====
-- crates/server/src/orchestrator.rs: the engine joined to its side effects. Its definitions; the
-- children state what they do.
use servcat.Prelude.{
  ℕ, zero, suc, String, ◌==◌, ◌++◌, Option, none, some, [], ◌∷◌, Result, ok, err, map_err, length,
  if◌then◌else◌,
}
use servcat.Prelude.Int.{ℤ}
use servcat.Json.{Json}
use servcat.Model.User.{Uuid, User}
use servcat.Model.Workflow.{
  TargetSystem, EndOutcome, completed, rejected, cancelled, ApproverResolution, WorkflowDefinition,
}
use servcat.Model.Instance.{
  InstanceStatus, in_progress, awaiting_approval, failed, is_in_progress, WorkflowInstance,
}
use servcat.Model.Approval.{ApprovalDecision, reject, PendingApproval}
use servcat.Engine
use servcat.Engine.{Answers, Outcome, awaiting_answer, ready_to_submit_ticket, finished, Advance}
use servcat.Exec.{Exec, pure, fail, expect, ◌>>=◌, ◌>>◌, map_error, catch}
use servcat.Db.World.{DbError, World}
use servcat.Db.Users
use servcat.Db.Catalog
use servcat.Db.Definitions
use servcat.Db.Instances
use servcat.Db.Tickets
use servcat.Approvals.Service.{create_for_instance}
use servcat.Connectors.FieldMapping.{RenderError, render}
use servcat.Connectors.Dispatch.{ConnectorError, DispatchResult}
use servcat.Server.Env.{Env}
use servcat.Server.Error.{
  ApiError, forbidden, not_found, conflict, internal, from_db, from_approvals, from_engine,
  from_connector,
}

-- How an orchestrated call can end without a result: with an error of the API, or not within the
-- fuel, that is, the rounds of the loop of `apply_outcome`.
pub data Stop : Type 0 where
  api : ApiError → Stop
  out_of_fuel : Stop

unfoldable pub answers_map : {V : Type 0} ⦃json : Json V⦄ → V → Answers V
answers_map ⦃json⦄ v = elim (json.as_object v) [ none ↦ [] | some m ↦ m ]

unfoldable pub end_status : EndOutcome → InstanceStatus
end_status completed = InstanceStatus.completed
end_status rejected = InstanceStatus.rejected
end_status cancelled = InstanceStatus.cancelled

-- `?` on an error of the engine
abbrev pub engine_result : Advance → Result ApiError (String × Outcome)
engine_result r = map_err from_engine r

module _ {V : Type 0} (env : Env V) where
  -- `?` on a database error
  abbrev pub db : {A : Type 0} → Exec (World V) DbError A → Exec (World V) ApiError A
  db m = map_error (from_db env.uuid_text) m

  -- `connector.dispatch(&payload).await`, whose error is looked at by the caller
  unfoldable pub send :
      TargetSystem → V → Exec (World V) ApiError (Result ConnectorError DispatchResult)
  send target payload w = (
    ok (env.reply target (length w.dispatched) payload),
    record w { dispatched = w.dispatched ++ (target, payload) ∷ [] },
  )

  -- `deps.connectors.get(target_system)`
  abbrev pub connector : TargetSystem → Option TargetSystem
  connector target = if env.configured target then some target else none

  unfoldable pub settle_ticket :
      Uuid → Result ConnectorError DispatchResult → Exec (World V) ApiError (Unit {0})
  settle_ticket ticket (ok result) =
      db (Tickets.mark_sent ticket result.external_ticket_id result.external_ticket_url)
  settle_ticket ticket (err e) = do
    db (Tickets.mark_failed ticket (env.error_text e))
    fail (from_connector e)

module _ {V : Type 0} ⦃json : Json V⦄ (env : Env V) where
  abbrev pub rendered : Result RenderError V → Result ApiError V
  rendered (ok payload) = ok payload
  rendered (err e) = err internal

  unfoldable pub dispatch_ticket :
      WorkflowDefinition V → Uuid → Uuid → Answers V → Exec (World V) ApiError (Unit {0})
  unfolding send settle_ticket
  dispatch_ticket definition instance_id requester_user_id answers = do
    target ← expect internal definition.target_system
    mapping ← expect internal definition.field_mapping
    target_system ← expect internal (connector env target)
    requester_row ← db env (Users.get_by_id requester_user_id)
    requester ← expect internal requester_row
    instance_found ← db env (Instances.get_by_id instance_id)
    instance_row ← expect internal instance_found
    item_row ← db env (Catalog.get_by_id instance_row.catalog_item_id)
    item ← expect internal item_row
    payload ← (λ w. (
      rendered (
          render env.one_off mapping (record {
            answers = json.object answers;
            requester_email = requester.email;
            requester_display_name = requester.display_name;
            instance_id = env.uuid_text instance_id;
            catalog_item_name = item.name;
          })),
      w,
    ))
    ticket ← db env (Tickets.create instance_id target_system payload)
    reply ← send env target_system payload
    settle_ticket env ticket.id reply

  -- `save_progress(..).await?.ok_or(ApiError::Internal)`
  unfoldable pub save :
      Uuid → String → Answers V → InstanceStatus → Exec (World V) ApiError (WorkflowInstance V)
  save instance_id step_id answers status = do
    row ← db env (Instances.save_progress instance_id step_id (json.object answers) status)
    expect internal row

  -- The arm of `AwaitingApproval`.
  unfoldable pub wait_for_approval :
      Uuid
      → Uuid
      → Answers V
      → String
      → ApproverResolution
      → Option ℤ
      → Exec (World V) ApiError (WorkflowInstance V)
  unfolding save
  wait_for_approval instance_id requester_user_id answers step_id resolution timeout_seconds = do
    requester_row ← db env (Users.get_by_id requester_user_id)
    requester ← expect internal requester_row
    map_error (from_approvals env.uuid_text) (
        create_for_instance env.name_before instance_id step_id requester resolution
          timeout_seconds)
    save instance_id step_id answers awaiting_approval

  -- What follows a failed dispatch: the instance is marked and the error is returned.
  unfoldable pub fail_instance :
      Uuid → String → Answers V → ApiError → Exec (World V) ApiError (Unit {0})
  fail_instance instance_id step_id answers e = do
    db env (Instances.save_progress instance_id step_id (json.object answers) failed)
    fail e

  -- The arm of `ReadyToSubmitTicket`, up to the next outcome.
  unfoldable pub submit_ticket :
      WorkflowDefinition V
      → Uuid
      → Uuid
      → Answers V
      → String
      → Exec (World V) ApiError (String × Outcome)
  unfolding fail_instance
  submit_ticket definition instance_id requester_user_id answers step_id = do
    catch (dispatch_ticket definition instance_id requester_user_id answers)
        (fail_instance instance_id step_id answers)
    (λ w. (engine_result (Engine.resume_after_ticket_dispatch definition.graph step_id answers), w))

  -- One round of the loop of `apply_outcome`; `again` is the next.
  unfoldable pub apply_round :
      WorkflowDefinition V
      → Uuid
      → Uuid
      → Answers V
      → String
      → Outcome
      → (String → Outcome → Exec (World V) Stop (WorkflowInstance V))
      → Exec (World V) Stop (WorkflowInstance V)
  unfolding wait_for_approval submit_ticket save end_status
  apply_round definition instance_id requester answers step_id (awaiting_answer key) again =
      map_error api (save instance_id step_id answers in_progress)
  apply_round definition instance_id requester answers step_id
        (Outcome.awaiting_approval resolution timeout_seconds) again =
      map_error api
        (wait_for_approval instance_id requester answers step_id resolution timeout_seconds)
  apply_round definition instance_id requester answers step_id ready_to_submit_ticket again = do
    (next_step_id, next_outcome) ←
        map_error api (submit_ticket definition instance_id requester answers step_id)
    again next_step_id next_outcome
  apply_round definition instance_id requester answers step_id (finished end_outcome) again =
      map_error api (save instance_id step_id answers (end_status end_outcome))

  -- The `loop`, on fuel.
  unfoldable pub apply_outcome :
      ℕ
      → WorkflowDefinition V
      → Uuid
      → Uuid
      → Answers V
      → String
      → Outcome
      → Exec (World V) Stop (WorkflowInstance V)
  apply_outcome zero definition instance_id requester answers step_id outcome = fail out_of_fuel
  apply_outcome (suc fuel) definition instance_id requester answers step_id outcome =
      apply_round definition instance_id requester answers step_id outcome
        (apply_outcome fuel definition instance_id requester answers)

  -- The guards and reads of `start_instance`, the engine's start and the new row.
  unfoldable pub open_instance :
      Uuid
      → User
      → Exec (World V) ApiError (WorkflowDefinition V × WorkflowInstance V × (String × Outcome))
  open_instance catalog_item_id requester = do
    item_row ← db env (Catalog.get_by_id catalog_item_id)
    item ← expect (not_found "service catalog item not found") item_row
    (if item.is_active then pure tt else fail (conflict "this service is not currently offered"))
    definition_row ← db env (Definitions.get_by_id item.workflow_definition_id)
    definition ← expect internal definition_row
    (step_id, outcome) ← (λ w. (engine_result (Engine.start definition.graph), w))
    row ← db env (Instances.create definition.id item.id requester.id step_id)
    pure (definition, row, (step_id, outcome))

  unfoldable pub start_instance : ℕ → Uuid → User → Exec (World V) Stop (WorkflowInstance V)
  unfolding open_instance answers_map
  start_instance fuel catalog_item_id requester = do
    (definition, row, (step_id, outcome)) ← map_error api (open_instance catalog_item_id requester)
    apply_outcome fuel definition row.id requester.id (answers_map row.answers_json) step_id outcome

  -- The guards and reads of `submit_answer`, and the engine's call with its new answers.
  unfoldable pub answer_step :
      Uuid
      → User
      → String
      → V
      → Exec (World V) ApiError (WorkflowDefinition V × Uuid × Answers V × (String × Outcome))
  unfolding answers_map
  answer_step instance_id requester field_key value = do
    instance_found ← db env (Instances.get_by_id instance_id)
    row ← expect (not_found "request not found") instance_found
    (if row.requester_user_id == requester.id then pure tt else fail forbidden)
    (if is_in_progress row.status
        then pure tt
        else fail (conflict "this request is not currently awaiting input"))
    definition_row ← db env (Definitions.get_by_id row.workflow_definition_id)
    definition ← expect internal definition_row
    let submitted =
        Engine.submit_answer definition.graph row.current_step_id (answers_map row.answers_json)
          field_key value
    (step_id, outcome) ← (λ w. (engine_result submitted.0, w))
    pure (definition, row.id, submitted.1, (step_id, outcome))

  unfoldable pub submit_answer :
      ℕ → Uuid → User → String → V → Exec (World V) Stop (WorkflowInstance V)
  unfolding answer_step
  submit_answer fuel instance_id requester field_key value = do
    (definition, id, answers, (step_id, outcome)) ←
        map_error api (answer_step instance_id requester field_key value)
    apply_outcome fuel definition id requester.id answers step_id outcome

  -- The reads of `resume_after_approval`, and the engine's call.
  unfoldable pub decision_step :
      Uuid
      → String
      → ApprovalDecision
      → Exec
          (World V)
          ApiError
          (WorkflowDefinition V × WorkflowInstance V × Answers V × (String × Outcome))
  unfolding answers_map
  decision_step instance_id step_id decision = do
    instance_found ← db env (Instances.get_by_id instance_id)
    row ← expect internal instance_found
    definition_row ← db env (Definitions.get_by_id row.workflow_definition_id)
    definition ← expect internal definition_row
    let answers = answers_map row.answers_json
    (next_step_id, outcome) ← (λ w.
        (engine_result (Engine.resume_after_approval definition.graph step_id answers decision), w))
    pure (definition, row, answers, (next_step_id, outcome))

  unfoldable pub resume_after_approval :
      ℕ → Uuid → String → ApprovalDecision → Exec (World V) Stop (WorkflowInstance V)
  unfolding decision_step
  resume_after_approval fuel instance_id step_id decision = do
    (definition, row, answers, (next_step_id, outcome)) ←
        map_error api (decision_step instance_id step_id decision)
    apply_outcome fuel definition row.id row.requester_user_id answers next_step_id outcome

  -- crates/server/src/expiry_handler.rs: the timeout is a rejection; a failure is only logged.
  unfoldable pub handle_expired : ℕ → PendingApproval → World V → World V
  unfolding resume_after_approval
  handle_expired fuel approval w =
      (resume_after_approval fuel approval.workflow_instance_id approval.step_id reject w).1
