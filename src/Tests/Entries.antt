-- ===== src/Tests/Entries.antt =====
-- The theorems of the orchestrator's entry points, at an installation
-- (crates/server/src/orchestrator.rs).
use servcat.Prelude.{◌<◌, ◌==◌, String, ◌≡◌, subst, Bool-cases, inl, inr, some, arith}
use servcat.Json.Sample.{Sample, text, sample_json}
use servcat.Model.User.{Uuid, User}
use servcat.Model.Workflow.{WorkflowDefinition}
use servcat.Model.Approval.{ApprovalDecision, approve}
use servcat.Db.Table.{select}
use servcat.Server.Submitted.{Submitted, submit_ticket_lem}
use servcat.Server.Dispatched.{Dispatching, dispatch_ticket_lem}
use servcat.Server.Orchestrator.{
  dispatch_ticket, submit_ticket, submit_answer, start_instance, resume_after_approval,
}
use servcat.Server.AtRest.{IsForward, Ends}
use servcat.Server.Entries.{submit_answer_reply, start_instance_reply, resume_after_approval_reply}
use servcat.Server.Replies.{definition_row, AnswerReply, StartReply, DecisionReply}
use servcat.Server.InWorkflow.{RestsInWorkflow}
use servcat.Server.Rests.{entries-End}
use servcat.Tests.Data.{world, env, bare_env, requester, definition, rank, graph-IsForward, small}

submit_answer_reply_example :
    AnswerReply env 300 world 10 requester "size"
      (text "big")
      (submit_answer env 300 10 requester "size" (text "big") world)
submit_answer_reply_example = submit_answer_reply env 300 world 10 requester "size" (text "big")

start_instance_reply_example :
    StartReply env 300 world 5 requester (start_instance env 300 5 requester world)
start_instance_reply_example = start_instance_reply env 300 world 5 requester

resume_after_approval_reply_example :
    DecisionReply env 300 world 10 "approve" approve
      (resume_after_approval env 300 10 "approve" approve world)
resume_after_approval_reply_example = resume_after_approval_reply env 300 world 10 "approve" approve

low : (i : Uuid) (id : String) → rank id < 300
low i id = ground arith

only_definition :
    (i : Uuid) (d : WorkflowDefinition Sample) → definition_row world i ≡ some d → definition ≡ d
unfolding select
only_definition i d h = elim (Bool-cases (7 == i)) [ inl e ↦ cc | inr e ↦ cc ]

forward :
    (i : Uuid) (d : WorkflowDefinition Sample)
    → definition_row world i ≡ some d
    → IsForward rank d.graph
forward i d h = subst (λ x. IsForward rank x.graph) (only_definition i d h) graph-IsForward

entries-End_example :
    ((id : Uuid) (requester : User) (key : String) (v : Sample)
      → Ends (RestsInWorkflow world) (submit_answer env 300 id requester key v world))
    × ((item_id : Uuid) (requester : User)
        → Ends (RestsInWorkflow world) (start_instance env 300 item_id requester world))
    × ((id : Uuid) (step_id : String) (decision : ApprovalDecision)
        → Ends (RestsInWorkflow world) (resume_after_approval env 300 id step_id decision world))
entries-End_example = entries-End env 300 world (λ i. rank) low forward

dispatch_ticket_lem_example :
    let r = dispatch_ticket env definition 10 1 small world in
    Dispatching env definition 10 world 1 small r.0 r.1
dispatch_ticket_lem_example = dispatch_ticket_lem env definition 10 world 1 small

submit_ticket_lem_example :
    let r = submit_ticket bare_env definition 10 1 small "ticket" world in
    Submitted bare_env definition 10 world 1 small "ticket" r.0 r.1
submit_ticket_lem_example = submit_ticket_lem bare_env definition 10 world 1 small "ticket"
