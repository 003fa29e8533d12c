-- ===== src/History/Orchestrator.antt =====
-- Every orchestrated call evolves the state, whatever its result (crates/server/src/orchestrator.rs,
-- crates/server/src/expiry_handler.rs, crates/approvals/src/poller.rs).
use servcat.Prelude.{ℕ, zero, suc, String, Option, Result, ok, err}
use servcat.Prelude.Int.{ℤ}
use servcat.Json.{Json}
use servcat.Model.User.{Uuid, User}
use servcat.Model.Workflow.{TargetSystem, ApproverResolution, WorkflowDefinition}
use servcat.Model.Instance.{InstanceStatus, WorkflowInstance}
use servcat.Model.Approval.{ApprovalDecision, PendingApproval}
use servcat.Engine.{
  Answers, Outcome, awaiting_answer, awaiting_approval, ready_to_submit_ticket, finished,
}
use servcat.Exec.{Exec}
use servcat.Exec.Steps.{Steps}
use servcat.Db.World.{World}
use servcat.Connectors.Dispatch.{ConnectorError, DispatchResult}
use servcat.Server.Env.{Env}
use servcat.Server.Orchestrator.{
  Stop, send, settle_ticket, dispatch_ticket, save, wait_for_approval, submit_ticket, apply_round,
  apply_outcome, start_instance, submit_answer, resume_after_approval, handle_expired,
}
use servcat.History.Evolves.{Evolves}
use servcat.History.Writes.{evolve_dispatched, evolve_rules}
use servcat.History.Repositories.{
  Users_get-Evolves, Catalog_get-Evolves, Definitions_get-Evolves, Instances_get-Evolves,
  Instances_create-Evolves, save_progress-Evolves, Tickets_create-Evolves, mark_sent-Evolves,
  mark_failed-Evolves,
}
use servcat.History.Approvals.{create_for_instance-Evolves}

ruleset query_rules = (
  evolve_rules, Users_get-Evolves, Catalog_get-Evolves, Definitions_get-Evolves,
  Instances_get-Evolves, Instances_create-Evolves, save_progress-Evolves, Tickets_create-Evolves,
)

module _ {V : Type 0} (env : Env V) where
  send-Evolves : (target : TargetSystem) (payload : V) → Steps Evolves (send env target payload)
  unfolding send
  send-Evolves target payload = record { at = λ w. evolve_dispatched w (target, payload) }

  settle_ticket-Evolves :
      (ticket : Uuid) (reply : Result ConnectorError DispatchResult)
      → Steps Evolves (settle_ticket env ticket reply)
  unfolding settle_ticket
  settle_ticket-Evolves ticket (ok r) = search (evolve_rules, mark_sent-Evolves)
  settle_ticket-Evolves ticket (err e) = search (evolve_rules, mark_failed-Evolves)

module _ {V : Type 0} ⦃json : Json V⦄ (env : Env V) where
  dispatch_ticket-Evolves :
      (d : WorkflowDefinition V) (id requester : Uuid) (answers : Answers V)
      → Steps Evolves (dispatch_ticket env d id requester answers)
  unfolding dispatch_ticket
  dispatch_ticket-Evolves d id requester answers =
      search (query_rules, send-Evolves env, settle_ticket-Evolves env) depth 16

  save-Evolves :
      (id : Uuid) (step : String) (answers : Answers V) (status : InstanceStatus)
      → Steps Evolves (save env id step answers status)
  unfolding save
  save-Evolves id step answers status = search query_rules

  wait_for_approval-Evolves :
      (id requester : Uuid) (answers : Answers V) (step : String) (r : ApproverResolution)
      (timeout : Option ℤ)
      → Steps Evolves (wait_for_approval env id requester answers step r timeout)
  unfolding wait_for_approval
  wait_for_approval-Evolves id requester answers step r timeout =
      search (query_rules, create_for_instance-Evolves, save-Evolves) depth 8

  submit_ticket-Evolves :
      (d : WorkflowDefinition V) (id requester : Uuid) (answers : Answers V) (step : String)
      → Steps Evolves (submit_ticket env d id requester answers step)
  unfolding submit_ticket
  submit_ticket-Evolves d id requester answers step =
      search (query_rules, dispatch_ticket-Evolves) depth 8

  module _ (d : WorkflowDefinition V) (id requester : Uuid) (answers : Answers V) where
    round-Evolves :
        (step : String) (o : Outcome)
        (again : String → Outcome → Exec (World V) Stop (WorkflowInstance V))
        → ((s : String) (p : Outcome) → Steps Evolves (again s p))
        → Steps Evolves (apply_round env d id requester answers step o again)
    unfolding apply_round
    round-Evolves step (awaiting_answer key) again later = search (query_rules, save-Evolves)
    round-Evolves step (awaiting_approval r timeout) again later =
        search (query_rules, wait_for_approval-Evolves)
    round-Evolves step ready_to_submit_ticket again later =
        search (query_rules, submit_ticket-Evolves)
    round-Evolves step (finished o) again later = search (query_rules, save-Evolves)

    pub apply_outcome-Evolves :
        (fuel : ℕ) (step : String) (o : Outcome)
        → Steps Evolves (apply_outcome env fuel d id requester answers step o)
    unfolding apply_outcome
    apply_outcome-Evolves zero step o = search evolve_rules
    apply_outcome-Evolves (suc fuel) step o =
        round-Evolves step o (apply_outcome env fuel d id requester answers)
          (apply_outcome-Evolves fuel)

  pub start-Evolves :
      (fuel : ℕ) (item : Uuid) (requester : User)
      → Steps Evolves (start_instance env fuel item requester)
  unfolding start_instance
  start-Evolves fuel item requester = search (query_rules, apply_outcome-Evolves) depth 16

  pub answer-Evolves :
      (fuel : ℕ) (id : Uuid) (requester : User) (key : String) (v : V)
      → Steps Evolves (submit_answer env fuel id requester key v)
  unfolding submit_answer
  answer-Evolves fuel id requester key v = search (query_rules, apply_outcome-Evolves) depth 16

  pub resume-Evolves :
      (fuel : ℕ) (id : Uuid) (step : String) (decision : ApprovalDecision)
      → Steps Evolves (resume_after_approval env fuel id step decision)
  unfolding resume_after_approval
  resume-Evolves fuel id step decision = search (query_rules, apply_outcome-Evolves) depth 16

  pub handle_expired-Evolves :
      (fuel : ℕ) (a : PendingApproval) (w : World V) → Evolves w (handle_expired env fuel a w)
  unfolding handle_expired
  handle_expired-Evolves fuel a w =
      (resume-Evolves fuel a.workflow_instance_id a.step_id ApprovalDecision.reject).at w
