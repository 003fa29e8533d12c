-- ===== src/Tests/Engine.antt =====
-- The theorems of the engine, at a workflow (crates/workflow-engine/src/lib.rs).
use servcat.Prelude.{◌≡◌, refl, ◌↔◌, Decides, some, [], ok}
use servcat.Prelude.Int.{pos}
use servcat.Json.Sample.{text, sample_json}
use servcat.Model.Workflow.{equals, static, step}
use servcat.Model.Approval.{approve}
use servcat.Engine.{
  awaiting_approval, max_auto_steps, eval_condition, auto_advance, start, submit_answer,
  resume_after_approval, resume_after_ticket_dispatch,
}
use servcat.Engine.Meaning.{Holds, eval_condition-Decides}
use servcat.Engine.Walk.{Reaches, waits}
use servcat.Engine.Advance.{auto_advance-iff-Reaches}
use servcat.Engine.Valid.{Succeeds, start-Succeeds, call_due-Succeeds}
use servcat.Engine.Calls.{Submits, Resumes, Dispatched, Starts, submit_answer_lem, calls_lem}
use servcat.Tests.Data.{graph, rank, graph-IsClosed, graph-IsRanked, big, small, approval_step}

eval_condition-Decides_example :
    Decides
      (eval_condition (equals "size" (text "big")) big)
      (Holds (equals "size" (text "big")) big)
eval_condition-Decides_example = eval_condition-Decides (equals "size" (text "big")) big

auto_advance-iff-Reaches_example :
    (auto_advance graph "route" big ≡ ok ("approve", awaiting_approval (static 2) (some (pos 60))))
    ↔ Reaches graph big max_auto_steps "route"
        (ok ("approve", awaiting_approval (static 2) (some (pos 60))))
auto_advance-iff-Reaches_example =
    auto_advance-iff-Reaches graph big "route"
      (ok ("approve", awaiting_approval (static 2) (some (pos 60))))

start-Succeeds_example : Succeeds graph (start graph)
start-Succeeds_example = start-Succeeds graph rank graph-IsRanked graph-IsClosed

call_due-Succeeds_example : Succeeds graph (resume_after_approval graph "approve" big approve)
unfolding step
call_due-Succeeds_example =
    call_due-Succeeds graph rank graph-IsRanked graph-IsClosed "approve" big
      (awaiting_approval (static 2) (some (pos 60))) approve
      (record {
        kind = approval_step.kind;
        there = record { at = approval_step; found = refl; has_kind = refl };
        due = waits;
      })

submit_answer_lem_example :
    let r = submit_answer graph "ask" [] "size" (text "big") in
    Submits graph "ask" [] "size" (text "big") r.0 r.1
submit_answer_lem_example = submit_answer_lem graph "ask" [] "size" (text "big")

calls_lem_example :
    Starts graph (start graph)
    × Dispatched graph "ticket" small (resume_after_ticket_dispatch graph "ticket" small)
    × Resumes graph "ticket" small approve (resume_after_approval graph "ticket" small approve)
calls_lem_example = calls_lem graph "ticket" small approve
