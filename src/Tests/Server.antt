-- ===== src/Tests/Server.antt =====
-- The theorems of the server, at an installation (crates/server/src).
use servcat.Prelude.{refl, none, List, [], ◌∷◌, arith}
use servcat.Json.Sample.{Sample, sample_json}
use servcat.Model.Workflow.{step}
use servcat.Model.Approval.{approve}
use servcat.Engine.{ready_to_submit_ticket}
use servcat.Engine.Walk.{submits}
use servcat.Db.Table.{select}
use servcat.Db.Approvals.{is_overdue}
use servcat.Server.Orchestrator.{apply_outcome}
use servcat.Server.Requests.{Request, decide, start, poll, wait, handle, serve}
use servcat.Server.Loop.{apply_outcome-Ends}
use servcat.Server.AtRest.{Ends, IsAtRest}
use servcat.History.Requests.{Lasts, serve-Lasts}
use servcat.History.Polls.{Closed, poll-Closed}
use servcat.Tests.Data.{
  graph, rank, graph-IsForward, small, definition, ticket_step, world, env, open_approval,
}

apply_outcome-Ends_example :
    Ends
      (IsAtRest graph 10 small)
      (apply_outcome env 2 definition 10 1 small "ticket" ready_to_submit_ticket world)
unfolding step
apply_outcome-Ends_example =
    apply_outcome-Ends env definition 10 1 small rank graph-IsForward 2 "ticket"
      ready_to_submit_ticket (omega arith)
      (record {
        kind = ticket_step.kind;
        there = record { at = ticket_step; found = refl; has_kind = refl };
        due = submits;
      })
      world

abbrev requests : List (Request Sample)
requests = start 1 5 ∷ decide 2 20 approve none ∷ wait 60 ∷ poll ∷ []

serve-Lasts_example : Lasts world (serve env 300 requests world)
serve-Lasts_example = serve-Lasts env 300 requests world

poll-Closed_example : Closed (handle env 300 poll world) 20
unfolding select is_overdue
poll-Closed_example = poll-Closed env 300 world 20 open_approval refl refl
