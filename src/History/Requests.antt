-- ===== src/History/Requests.antt =====
-- What outlasts any sequence of requests (crates/server/src/routes, crates/server/src/orchestrator.rs,
-- crates/approvals/src).
use servcat.Prelude.{ℕ, String, Option, List, [], ◌∷◌}
use servcat.Json.{Json}
use servcat.Model.User.{Uuid}
use servcat.Model.Approval.{ApprovalDecision}
use servcat.Exec.Steps.{Steps}
use servcat.Db.World.{World}
use servcat.Server.Env.{Env}
use servcat.Server.Orchestrator.{handle_expired}
use servcat.Server.Routes
use servcat.Server.Requests.{Request, start, submit_answer, decide, poll, wait, handle, serve}
use servcat.History.Rows.{RowsEvolve, RowsEvolve-trans}
use servcat.History.Evolves.{
  ApprovalKeeps, ApprovalKeeps-trans, InstanceKeeps, InstanceKeeps-trans, TicketKeeps,
  TicketKeeps-trans, Extends, Extends-trans, Evolves, Evolves-refl,
}
use servcat.History.Writes.{evolve_rules}
use servcat.History.Repositories.{Users_get-Evolves}
use servcat.History.Approvals.{service_decide-Evolves, poll_once-Evolves}
use servcat.History.Orchestrator.{
  start-Evolves, answer-Evolves, resume-Evolves, handle_expired-Evolves,
}

-- What `Evolves` says of the rows and the logs; the clock may go on.
pub record Lasts {V : Type 0} (w v : World V) : Type 0 where
  pub approvals : RowsEvolve (λ a. a.id) ApprovalKeeps w.approvals v.approvals
  pub instances : RowsEvolve (λ i. i.id) InstanceKeeps w.instances v.instances
  pub tickets : RowsEvolve (λ t. t.id) TicketKeeps w.tickets v.tickets
  pub notified : Extends w.notified v.notified
  pub dispatched : Extends w.dispatched v.dispatched

module _ {V : Type 0} where
  Evolves-Lasts : (w v : World V) → Evolves w v → Lasts w v
  Evolves-Lasts w v h = record {
    approvals = h.approvals;
    instances = h.instances;
    tickets = h.tickets;
    notified = h.notified;
    dispatched = h.dispatched;
  }

  Lasts-refl : (w : World V) → Lasts w w
  Lasts-refl w = Evolves-Lasts w w (Evolves-refl w)

  Lasts-trans : (u v w : World V) → Lasts u v → Lasts v w → Lasts u w
  Lasts-trans u v w h k = record {
    approvals =
        RowsEvolve-trans (λ a. a.id) ApprovalKeeps ApprovalKeeps-trans u.approvals v.approvals
          w.approvals h.approvals k.approvals;
    instances =
        RowsEvolve-trans (λ i. i.id) InstanceKeeps InstanceKeeps-trans u.instances v.instances
          w.instances h.instances k.instances;
    tickets =
        RowsEvolve-trans (λ t. t.id) TicketKeeps TicketKeeps-trans u.tickets v.tickets w.tickets
          h.tickets k.tickets;
    notified = Extends-trans u.notified v.notified w.notified h.notified k.notified;
    dispatched = Extends-trans u.dispatched v.dispatched w.dispatched h.dispatched k.dispatched;
  }

module _ {V : Type 0} ⦃json : Json V⦄ (env : Env V) (fuel : ℕ) where
  auth-Evolves : (user : Uuid) → Steps Evolves (Routes.auth_user env user)
  unfolding Routes.auth_user
  auth-Evolves user = search (evolve_rules, Users_get-Evolves)

  start_route-Evolves : (user item : Uuid) → Steps Evolves (Routes.start env fuel user item)
  unfolding Routes.start
  start_route-Evolves user item = search (evolve_rules, auth-Evolves, start-Evolves)

  answer_route-Evolves :
      (user id : Uuid) (key : String) (v : V)
      → Steps Evolves (Routes.submit_answer env fuel user id key v)
  unfolding Routes.submit_answer
  answer_route-Evolves user id key v = search (evolve_rules, auth-Evolves, answer-Evolves)

  decide_route-Evolves :
      (user id : Uuid) (d : ApprovalDecision) (comment : Option String)
      → Steps Evolves (Routes.decide env fuel user id d comment)
  unfolding Routes.decide
  decide_route-Evolves user id d comment =
      search (evolve_rules, auth-Evolves, service_decide-Evolves, resume-Evolves) depth 8

  handle-Lasts : (r : Request V) (w : World V) → Lasts w (handle env fuel r w)
  unfolding handle
  handle-Lasts (start user item) w = Evolves-Lasts w _ ((start_route-Evolves user item).at w)
  handle-Lasts (submit_answer user id key v) w =
      Evolves-Lasts w _ ((answer_route-Evolves user id key v).at w)
  handle-Lasts (decide user id d comment) w =
      Evolves-Lasts w _ ((decide_route-Evolves user id d comment).at w)
  handle-Lasts poll w =
      Evolves-Lasts w _
        ((poll_once-Evolves (handle_expired env fuel) (handle_expired-Evolves env fuel)).at w)
  handle-Lasts (wait seconds) w = record {
    approvals = kept.approvals;
    instances = kept.instances;
    tickets = kept.tickets;
    notified = kept.notified;
    dispatched = kept.dispatched;
  }
    where
      kept : Evolves w w
      kept = Evolves-refl w

  -- Whatever requests are handled and however long is waited: every row of approvals, instances
  -- and tickets stays under its key with its identifying columns, a decided approval stays as it
  -- is, and no notification or dispatched ticket is forgotten.
  pub serve-Lasts :
      (requests : List (Request V)) (w : World V) → Lasts w (serve env fuel requests w)
  unfolding serve
  serve-Lasts [] w = Lasts-refl w
  serve-Lasts (r ∷ rest) w =
      Lasts-trans w (handle env fuel r w) (serve env fuel rest (handle env fuel r w))
        (handle-Lasts r w) (serve-Lasts rest (handle env fuel r w))
