-- ===== src/Server/Rests.antt =====
-- Every entry point of the orchestrator ends, and the row that it returns is at rest
-- (crates/server/src/orchestrator.rs).
use servcat.Prelude.{ℕ, ◌<◌, String, ◌≡◌, ap, ◌∙◌, subst, some, ok}
use servcat.Json.{Json}
use servcat.Model.User.{Uuid, User}
use servcat.Model.Workflow.{WorkflowGraph, WorkflowDefinition}
use servcat.Model.Instance.{WorkflowInstance}
use servcat.Model.Approval.{ApprovalDecision}
use servcat.Engine.{Answers, Outcome, Advance}
use servcat.Engine.Walk.{Reaches, stops, leaves}
use servcat.Engine.Valid.{IsDue}
use servcat.Engine.Calls.{
  Submits, Resumes, Starts, submit_answer_lem, resume_after_approval_lem, start_lem,
}
use servcat.Db.Table.{select, select-key}
use servcat.Db.World.{World}
use servcat.History.Orchestrator.{apply_outcome-Evolves}
use servcat.Server.Env.{Env}
use servcat.Server.Opened.{created_row}
use servcat.Server.InWorkflow.{RestsInWorkflow, own_key, in_workflow}
use servcat.Server.Orchestrator.{
  answers_map, apply_outcome, start_instance, submit_answer, resume_after_approval,
}
use servcat.Server.Loop.{apply_outcome-Ends}
use servcat.Server.AtRest.{IsForward, Ends}
use servcat.Server.Entries.{submit_answer_reply, start_instance_reply, resume_after_approval_reply}
use servcat.Server.Replies.{definition_row, Reply, AnswerReply, StartReply, DecisionReply}

module _ {V : Type 0} ⦃json : Json V⦄ (g : WorkflowGraph V) where
  Reaches-IsDue :
      {answers : Answers V} {n : ℕ} {id : String} (r : Advance) (x : String × Outcome)
      → Reaches g answers n id r
      → r ≡ ok x
      → IsDue g x
  Reaches-IsDue r x (stops {last = last} {kind = kind} {o = o} lt w s due) e =
      subst (IsDue g) {x = (last, o)} {y = x} (cc) (record { kind = kind; there = s; due = due })
  Reaches-IsDue r x (leaves lt w s) e = absurd (cc)
  Reaches-IsDue r x (Reaches.goes_on w) e = absurd (cc)

  Submits-IsDue :
      {id key : String} {answers answers' : Answers V} {v : V} (r : Advance) (x : String × Outcome)
      → Submits g id answers key v r answers'
      → r ≡ ok x
      → IsDue g x
  Submits-IsDue r x (Submits.absent s) e = absurd (cc)
  Submits-IsDue r x (Submits.other_kind s k) e = absurd (cc)
  Submits-IsDue r x (Submits.other_field s k) e = absurd (cc)
  Submits-IsDue r x (Submits.records s m reaches) e = Reaches-IsDue r x reaches e

  Resumes-IsDue :
      {id : String} {answers : Answers V} {d : ApprovalDecision} (r : Advance)
      (x : String × Outcome)
      → Resumes g id answers d r
      → r ≡ ok x
      → IsDue g x
  Resumes-IsDue r x (Resumes.absent s) e = absurd (cc)
  Resumes-IsDue r x (Resumes.other_kind s k) e = absurd (cc)
  Resumes-IsDue r x (Resumes.approved s reaches) e = Reaches-IsDue r x reaches e
  Resumes-IsDue r x (Resumes.rejected s reaches) e = Reaches-IsDue r x reaches e

  Starts-IsDue : (r : Advance) (x : String × Outcome) → Starts g r → r ≡ ok x → IsDue g x
  Starts-IsDue r x (Starts.empty s) e = absurd (cc)
  Starts-IsDue r x (Starts.begins s reaches) e = Reaches-IsDue r x reaches e

module _ {V : Type 0} ⦃json : Json V⦄ (env : Env V) (fuel : ℕ) (w : World V)
    (rank : Uuid → String → ℕ) (low : (i : Uuid) (id : String) → rank i id < fuel)
    (forward : (i : Uuid) (d : WorkflowDefinition V)
      → definition_row w i ≡ some d
      → IsForward (rank i) d.graph) where
  applied :
      (d : WorkflowDefinition V) (row : WorkflowInstance V) (requester : Uuid) (answers : Answers V)
      (x : String × Outcome) (v : World V)
      → definition_row w row.workflow_definition_id ≡ some d
      → select (λ i. i.id) row.id v.instances ≡ some row
      → IsDue d.graph x
      → Ends (RestsInWorkflow w) (apply_outcome env fuel d row.id requester answers x.0 x.1 v)
  applied d row requester answers x v k stored due =
      in_workflow w v d row answers (apply_outcome env fuel d row.id requester answers x.0 x.1 v) k
        stored ((apply_outcome-Evolves env d row.id requester answers fuel x.0 x.1).at v)
        (apply_outcome-Ends env d row.id requester answers (rank row.workflow_definition_id)
          (forward row.workflow_definition_id d k) fuel x.0 x.1 (low row.workflow_definition_id x.0)
          due v)

  answer_reply :
      (id : Uuid) (requester : User) (key : String) (v : V) (r : Reply V)
      → AnswerReply env fuel w id requester key v r
      → Ends (RestsInWorkflow w) r
  answer_reply id requester key v r (AnswerReply.no_instance e) = tt
  answer_reply id requester key v r (AnswerReply.not_requester e n) = tt
  answer_reply id requester key v r (AnswerReply.not_in_progress e n c) = tt
  answer_reply id requester key v r (AnswerReply.no_definition e n c k) = tt
  answer_reply id requester key v r (AnswerReply.refused e n c k x) = tt
  answer_reply id requester key v r
        (AnswerReply.goes_on {row = row} {d = d} {next = next} {o = o} e n c k x) =
      applied d row requester.id _ (next, o) w k (own_key id w.instances row e)
        (Submits-IsDue d.graph _ (next, o)
          (submit_answer_lem d.graph row.current_step_id (answers_map row.answers_json) key v) x)

  start_reply :
      (item_id : Uuid) (requester : User) (r : Reply V)
      → StartReply env fuel w item_id requester r
      → Ends (RestsInWorkflow w) r
  start_reply item_id requester r (StartReply.no_item e) = tt
  start_reply item_id requester r (StartReply.not_offered e a) = tt
  start_reply item_id requester r (StartReply.no_definition e a k) = tt
  start_reply item_id requester r (StartReply.refused e a k x) = tt
  start_reply item_id requester r (StartReply.not_created e a k x c) = tt
  start_reply item_id requester r
        (StartReply.goes_on {item = item} {d = d} {first = first} {o = o} {row = row} {v = v} e a k
          x c) =
      let new = created_row d.id item.id requester.id first w v row c in
      let of_item : d.id ≡ item.workflow_definition_id =
        select-key (λ d. d.id) item.workflow_definition_id w.definitions d k in
      applied d row requester.id _ (first, o) v (ap (definition_row w) (new.1 ∙ of_item) ∙ k) new.0
        (Starts-IsDue d.graph _ (first, o) (start_lem d.graph) x)

  decision_reply :
      (id : Uuid) (step_id : String) (decision : ApprovalDecision) (r : Reply V)
      → DecisionReply env fuel w id step_id decision r
      → Ends (RestsInWorkflow w) r
  decision_reply id step_id decision r (DecisionReply.no_instance e) = tt
  decision_reply id step_id decision r (DecisionReply.no_definition e k) = tt
  decision_reply id step_id decision r (DecisionReply.refused e k x) = tt
  decision_reply id step_id decision r
        (DecisionReply.goes_on {row = row} {d = d} {next = next} {o = o} e k x) =
      applied d row row.requester_user_id _ (next, o) w k (own_key id w.instances row e)
        (Resumes-IsDue d.graph _ (next, o)
          (resume_after_approval_lem d.graph step_id (answers_map row.answers_json) decision) x)

  -- Where no stored workflow has a cycle of branch and ticket steps alone, and the ranks that show
  -- it are below the fuel, the three entry points of the orchestrator do not use up the fuel,
  -- whatever they are called with, and a row that they return is stored and at rest in the
  -- workflow that is stored for it: it stands at a question in progress, at an approval awaiting
  -- approval, or at an end as completed, rejected or cancelled, as the end says.
  pub entries-End :
      ((id : Uuid) (requester : User) (key : String) (v : V)
        → Ends (RestsInWorkflow w) (submit_answer env fuel id requester key v w))
      × ((item_id : Uuid) (requester : User)
          → Ends (RestsInWorkflow w) (start_instance env fuel item_id requester w))
      × ((id : Uuid) (step_id : String) (decision : ApprovalDecision)
          → Ends (RestsInWorkflow w) (resume_after_approval env fuel id step_id decision w))
  entries-End = (
    λ id requester key v.
        answer_reply id requester key v _ (submit_answer_reply env fuel w id requester key v),
    λ item_id requester.
        start_reply item_id requester _ (start_instance_reply env fuel w item_id requester),
    λ id step_id decision.
        decision_reply id step_id decision _
          (resume_after_approval_reply env fuel w id step_id decision),
  )
