-- ===== src/Server/Replies.antt =====
-- What the three entry points of the orchestrator can come to
-- (crates/server/src/orchestrator.rs).
use servcat.Prelude.{ℕ, String, ◌≡◌, ◌≢◌, true, false, Option, none, some, Result, ok, err}
use servcat.Json.{Json}
use servcat.Model.User.{Uuid, User}
use servcat.Model.Workflow.{WorkflowDefinition}
use servcat.Model.Instance.{WorkflowInstance, is_in_progress}
use servcat.Model.Approval.{ApprovalDecision}
use servcat.Model.Catalog.{ServiceCatalogItem}
use servcat.Engine
use servcat.Engine.{EngineError, Outcome, Advance}
use servcat.Db.Table.{select}
use servcat.Db.World.{DbError, World}
use servcat.Db.Instances
use servcat.Server.Env.{Env}
use servcat.Server.Error.{forbidden, not_found, conflict, internal, from_db, from_engine}
use servcat.Server.Orchestrator.{Stop, api, answers_map, apply_outcome}

module _ {V : Type 0} (w : World V) where
  abbrev pub instance_row : Uuid → Option (WorkflowInstance V)
  instance_row id = select (λ i. i.id) id w.instances

  abbrev pub definition_row : Uuid → Option (WorkflowDefinition V)
  definition_row id = select (λ d. d.id) id w.definitions

  abbrev pub item_row : Uuid → Option ServiceCatalogItem
  item_row id = select (λ i. i.id) id w.items

abbrev pub Reply : Type 0 → Type 0
Reply V = Result Stop (WorkflowInstance V) × World V

module _ {V : Type 0} ⦃json : Json V⦄ (env : Env V) (fuel : ℕ) (w : World V) where
  pub data AnswerReply (id : Uuid) (requester : User) (key : String) (v : V)
      : Reply V → Type 0 where
    no_instance :
        instance_row w id ≡ none
        → AnswerReply id requester key v (err (api (not_found "request not found")), w)
    not_requester :
        {row : WorkflowInstance V}
        → instance_row w id ≡ some row
        → row.requester_user_id ≢ requester.id
        → AnswerReply id requester key v (err (api forbidden), w)
    not_in_progress :
        {row : WorkflowInstance V}
        → instance_row w id ≡ some row
        → row.requester_user_id ≡ requester.id
        → is_in_progress row.status ≡ false
        → AnswerReply id requester key v
            (err (api (conflict "this request is not currently awaiting input")), w)
    no_definition :
        {row : WorkflowInstance V}
        → instance_row w id ≡ some row
        → row.requester_user_id ≡ requester.id
        → is_in_progress row.status ≡ true
        → definition_row w row.workflow_definition_id ≡ none
        → AnswerReply id requester key v (err (api internal), w)
    refused :
        {row : WorkflowInstance V} {d : WorkflowDefinition V} {e : EngineError}
        → instance_row w id ≡ some row
        → row.requester_user_id ≡ requester.id
        → is_in_progress row.status ≡ true
        → definition_row w row.workflow_definition_id ≡ some d
        → (Engine.submit_answer d.graph row.current_step_id (answers_map row.answers_json) key v).0
          ≡ err e
        → AnswerReply id requester key v (err (api (from_engine e)), w)
    goes_on :
        {row : WorkflowInstance V} {d : WorkflowDefinition V} {next : String} {o : Outcome}
        → instance_row w id ≡ some row
        → row.requester_user_id ≡ requester.id
        → is_in_progress row.status ≡ true
        → definition_row w row.workflow_definition_id ≡ some d
        → (Engine.submit_answer d.graph row.current_step_id (answers_map row.answers_json) key v).0
          ≡ ok (next, o)
        → AnswerReply id requester key v (
            apply_outcome env fuel d row.id requester.id
              (Engine.submit_answer d.graph row.current_step_id
                (answers_map row.answers_json)
                key
                v).1
              next
              o
              w)

  pub data StartReply (item_id : Uuid) (requester : User) : Reply V → Type 0 where
    no_item :
        item_row w item_id ≡ none
        → StartReply item_id requester (err (api (not_found "service catalog item not found")), w)
    not_offered :
        {item : ServiceCatalogItem}
        → item_row w item_id ≡ some item
        → item.is_active ≡ false
        → StartReply item_id requester
            (err (api (conflict "this service is not currently offered")), w)
    no_definition :
        {item : ServiceCatalogItem}
        → item_row w item_id ≡ some item
        → item.is_active ≡ true
        → definition_row w item.workflow_definition_id ≡ none
        → StartReply item_id requester (err (api internal), w)
    refused :
        {item : ServiceCatalogItem} {d : WorkflowDefinition V} {e : EngineError}
        → item_row w item_id ≡ some item
        → item.is_active ≡ true
        → definition_row w item.workflow_definition_id ≡ some d
        → Engine.start d.graph ≡ err e
        → StartReply item_id requester (err (api (from_engine e)), w)
    not_created :
        {item : ServiceCatalogItem} {d : WorkflowDefinition V} {first : String} {o : Outcome}
        {e : DbError} {v : World V}
        → item_row w item_id ≡ some item
        → item.is_active ≡ true
        → definition_row w item.workflow_definition_id ≡ some d
        → Engine.start d.graph ≡ ok (first, o)
        → Instances.create d.id item.id requester.id first w ≡ (err e, v)
        → StartReply item_id requester (err (api (from_db env.uuid_text e)), v)
    goes_on :
        {item : ServiceCatalogItem} {d : WorkflowDefinition V} {first : String} {o : Outcome}
        {row : WorkflowInstance V} {v : World V}
        → item_row w item_id ≡ some item
        → item.is_active ≡ true
        → definition_row w item.workflow_definition_id ≡ some d
        → Engine.start d.graph ≡ ok (first, o)
        → Instances.create d.id item.id requester.id first w ≡ (ok row, v)
        → StartReply item_id requester
            (apply_outcome env fuel d row.id requester.id (answers_map row.answers_json) first o v)

  pub data DecisionReply (id : Uuid) (step_id : String) (decision : ApprovalDecision)
      : Reply V → Type 0 where
    no_instance :
        instance_row w id ≡ none → DecisionReply id step_id decision (err (api internal), w)
    no_definition :
        {row : WorkflowInstance V}
        → instance_row w id ≡ some row
        → definition_row w row.workflow_definition_id ≡ none
        → DecisionReply id step_id decision (err (api internal), w)
    refused :
        {row : WorkflowInstance V} {d : WorkflowDefinition V} {e : EngineError}
        → instance_row w id ≡ some row
        → definition_row w row.workflow_definition_id ≡ some d
        → Engine.resume_after_approval d.graph step_id (answers_map row.answers_json) decision
          ≡ err e
        → DecisionReply id step_id decision (err (api (from_engine e)), w)
    goes_on :
        {row : WorkflowInstance V} {d : WorkflowDefinition V} {next : String} {o : Outcome}
        → instance_row w id ≡ some row
        → definition_row w row.workflow_definition_id ≡ some d
        → Engine.resume_after_approval d.graph step_id (answers_map row.answers_json) decision
          ≡ ok (next, o)
        → DecisionReply id step_id decision (
            apply_outcome env fuel d row.id row.requester_user_id
              (answers_map row.answers_json)
              next
              o
              w)
