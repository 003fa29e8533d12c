-- ===== src/Server/Entries.antt =====
-- The three entry points of the orchestrator, on every branch (crates/server/src/orchestrator.rs).
use servcat.Prelude.{
  ℕ, String, ◌==◌, ==_iff, ◌≡◌, ◌⊎◌, refl, true, Bool-cases, Option-cases, inl, inr, some, Result,
  ok, err, arith,
}
use servcat.Json.{Json}
use servcat.Model.User.{Uuid, User}
use servcat.Model.Workflow.{WorkflowDefinition}
use servcat.Model.Instance.{WorkflowInstance, is_in_progress}
use servcat.Model.Approval.{ApprovalDecision}
use servcat.Model.Catalog.{ServiceCatalogItem}
use servcat.Engine
use servcat.Engine.{EngineError, Outcome, Advance}
use servcat.Exec.{◌>>=◌, map_error}
use servcat.Db.World.{World}
use servcat.Db.Catalog
use servcat.Db.Definitions
use servcat.Db.Instances
use servcat.Server.Env.{Env}
use servcat.Server.Orchestrator.{
  answers_map, open_instance, start_instance, answer_step, submit_answer, decision_step,
  resume_after_approval,
}
use servcat.Server.Replies.{
  instance_row, definition_row, item_row, AnswerReply, StartReply, DecisionReply,
}

Advance-cases :
    (r : Advance) → ((e : EngineError) × (r ≡ err e)) ⊎ ((x : String × Outcome) × (r ≡ ok x))
Advance-cases (ok x) = inr (x, refl)
Advance-cases (err e) = inl (e, refl)

Run-cases :
    {E A W : Type 0} (r : Result E A × W)
    → ((e : E) × (v : W) × (r ≡ (err e, v))) ⊎ ((a : A) × (v : W) × (r ≡ (ok a, v)))
Run-cases (ok a, v) = inr (a, v, refl)
Run-cases (err e, v) = inl (e, v, refl)

module _ {V : Type 0} ⦃json : Json V⦄ (env : Env V) (fuel : ℕ) (w : World V) where
  -- `resume_after_approval` fails internally where the instance or its workflow is missing, returns
  -- the engine's refusal, and otherwise applies the outcome of the engine with the stored answers.
  -- It writes nothing before that.
  pub resume_after_approval_reply :
      (id : Uuid) (step_id : String) (decision : ApprovalDecision)
      → DecisionReply env fuel w id step_id decision
          (resume_after_approval env fuel id step_id decision w)
  unfolding resume_after_approval decision_step ◌>>=◌ map_error Instances.get_by_id
      Definitions.get_by_id
  resume_after_approval_reply id step_id decision = elim (Option-cases (instance_row w id)) [
    | inl e ↦ rw e (DecisionReply.no_instance e)
    | inr (row, e) ↦ elim (Option-cases (definition_row w row.workflow_definition_id)) [
      | inl k ↦ rw (e, k) (DecisionReply.no_definition e k)
      | inr (d, k) ↦
          elim (Advance-cases (
            Engine.resume_after_approval d.graph step_id (answers_map row.answers_json) decision)) [
              | inl (x, r) ↦ rw (e, k, r) (DecisionReply.refused e k r)
              | inr ((next, o), r) ↦ rw (e, k, r) (DecisionReply.goes_on e k r)
            ]
    ]
  ]

  answered_from :
      (id : Uuid) (requester : User) (key : String) (v : V) (row : WorkflowInstance V)
      → instance_row w id ≡ some row
      → row.requester_user_id ≡ requester.id
      → is_in_progress row.status ≡ true
      → AnswerReply env fuel w id requester key v (submit_answer env fuel id requester key v w)
  unfolding submit_answer answer_step ◌>>=◌ map_error Instances.get_by_id Definitions.get_by_id
  answered_from id requester key v row e same open_row =
      let own : (row.requester_user_id == requester.id) ≡ true =
        (==_iff row.requester_user_id requester.id).1 same in
      elim (Option-cases (definition_row w row.workflow_definition_id)) [
        | inl k ↦ rw (e, own, open_row, k) (AnswerReply.no_definition e same open_row k)
        | inr (d, k) ↦
            elim (Advance-cases
              (Engine.submit_answer d.graph row.current_step_id (answers_map row.answers_json) key
                v).0) [
                  | inl (x, r) ↦
                      rw (e, own, open_row, k, r) (AnswerReply.refused e same open_row k r)
                  | inr ((next, o), r) ↦
                      rw (e, own, open_row, k, r) (AnswerReply.goes_on e same open_row k r)
                ]
      ]

  -- `submit_answer` refuses a missing instance, another user's instance, an instance that is not in
  -- progress, a missing workflow, and what the engine refuses, in this order and without a write.
  -- Otherwise it applies the outcome of the engine with the new answers.
  pub submit_answer_reply :
      (id : Uuid) (requester : User) (key : String) (v : V)
      → AnswerReply env fuel w id requester key v (submit_answer env fuel id requester key v w)
  unfolding submit_answer answer_step ◌>>=◌ map_error Instances.get_by_id
  submit_answer_reply id requester key v = elim (Option-cases (instance_row w id)) [
    | inl e ↦ rw e (AnswerReply.no_instance e)
    | inr (row, e) ↦ elim (Bool-cases (row.requester_user_id == requester.id)) [
      | inl own ↦ elim (Bool-cases (is_in_progress row.status)) [
        | inl open_row ↦
            answered_from id requester key v row e
              ((==_iff row.requester_user_id requester.id).0 own) open_row
        | inr closed ↦
            rw (e, own, closed)
              (AnswerReply.not_in_progress e ((==_iff row.requester_user_id requester.id).0 own)
                closed)
      ]
      | inr other ↦ rw (e, other) (AnswerReply.not_requester e (λ same. ground arith))
    ]
  ]

  started_from :
      (item_id : Uuid) (requester : User) (item : ServiceCatalogItem) (d : WorkflowDefinition V)
      → item_row w item_id ≡ some item
      → item.is_active ≡ true
      → definition_row w item.workflow_definition_id ≡ some d
      → StartReply env fuel w item_id requester (start_instance env fuel item_id requester w)
  unfolding start_instance open_instance ◌>>=◌ map_error Catalog.get_by_id Definitions.get_by_id
  started_from item_id requester item d e active k = elim (Advance-cases (Engine.start d.graph)) [
    | inl (x, r) ↦ rw (e, active, k, r) (StartReply.refused e active k r)
    | inr ((first, o), r) ↦ elim (Run-cases (Instances.create d.id item.id requester.id first w)) [
      | inl (x, v, c) ↦ rw (e, active, k, r, c) (StartReply.not_created e active k r c)
      | inr (row, v, c) ↦ rw (e, active, k, r, c) (StartReply.goes_on e active k r c)
    ]
  ]

  -- `start_instance` refuses a missing service, a service that is not offered, a missing workflow
  -- and an empty or broken one, in this order and without a write. Otherwise it creates the
  -- instance, and applies the outcome of the engine to it unless the creation fails.
  pub start_instance_reply :
      (item_id : Uuid) (requester : User)
      → StartReply env fuel w item_id requester (start_instance env fuel item_id requester w)
  unfolding start_instance open_instance ◌>>=◌ map_error Catalog.get_by_id Definitions.get_by_id
  start_instance_reply item_id requester = elim (Option-cases (item_row w item_id)) [
    | inl e ↦ rw e (StartReply.no_item e)
    | inr (item, e) ↦ elim (Bool-cases item.is_active) [
      | inl active ↦ elim (Option-cases (definition_row w item.workflow_definition_id)) [
        | inl k ↦ rw (e, active, k) (StartReply.no_definition e active k)
        | inr (d, k) ↦ started_from item_id requester item d e active k
      ]
      | inr closed ↦ rw (e, closed) (StartReply.not_offered e closed)
    ]
  ]
