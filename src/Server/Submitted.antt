-- ===== src/Server/Submitted.antt =====
-- `submit_ticket` and `fail_instance`, on every branch (crates/server/src/orchestrator.rs).
use servcat.Prelude.{String, ◌==◌, ◌≡◌, ◌≢◌, refl, ap, ◌∙◌, Result, ok, err, some}
use servcat.Json.{Json}
use servcat.Model.User.{Uuid}
use servcat.Model.Workflow.{WorkflowDefinition}
use servcat.Model.Instance.{failed, WorkflowInstance}
use servcat.Engine
use servcat.Engine.{Answers, Outcome}
use servcat.Exec.{◌>>=◌, map_error, catch, continue, handled}
use servcat.Db.Table.{
  select, update_where, updated, select-key, select-update_where, own_row, other_row,
}
use servcat.Db.World.{World}
use servcat.Db.Instances
use servcat.Db.Instances.{progressed, is_terminal}
use servcat.Server.Env.{Env}
use servcat.Server.Error.{ApiError}
use servcat.Server.Orchestrator
use servcat.Server.Orchestrator.{engine_result, fail_instance, dispatch_ticket}
use servcat.Server.Dispatched.{Dispatching, dispatch_ticket_lem}

-- `u` is `v` with the instance `id` failed at the step `at`, if it is there.
pub record IsFailed {V : Type 0} ⦃json : Json V⦄ (v u : World V) (id : Uuid) (at : String)
    (answers : Answers V) : Type 0 where
  pub failed_row :
      (i : WorkflowInstance V)
      → select (λ i. i.id) id v.instances ≡ some i
      → select (λ i. i.id) id u.instances
        ≡ some (record i {
          status = failed;
          current_step_id = at;
          answers_json = json.object answers;
          completed_at = some v.now;
          updated_at = v.now;
        })
  pub other_instances :
      (j : Uuid) → id ≢ j → select (λ i. i.id) j u.instances ≡ select (λ i. i.id) j v.instances
  pub rest : u ≡ record v { instances = u.instances }

module _ {V : Type 0} ⦃json : Json V⦄ (env : Env V) (d : WorkflowDefinition V) (id : Uuid)
    (w : World V) (requester : Uuid) (answers : Answers V) (at : String) where
  pub data Submitted : Result ApiError (String × Outcome) → World V → Type 0 where
    went_out :
        {v : World V}
        → Dispatching env d id w requester answers (ok tt) v
        → Submitted (engine_result (Engine.resume_after_ticket_dispatch d.graph at answers)) v
    not_sent :
        {e : ApiError} {v u : World V}
        → Dispatching env d id w requester answers (err e) v
        → IsFailed v u id at answers
        → Submitted (err e) u

  abbrev fail_row : World V → WorkflowInstance V → WorkflowInstance V
  fail_row v = progressed at (json.object answers) failed v.now

  abbrev failed_world : World V → World V
  failed_world v = record v { instances = update_where (λ i. i.id == id) (fail_row v) v.instances }

  select-failed :
      (v : World V) (j : Uuid)
      → select (λ i. i.id) j (failed_world v).instances
        ≡ updated (λ i. i.id == id) (fail_row v) (select (λ i. i.id) j v.instances)
  select-failed v j =
      select-update_where (λ i. i.id) (λ i. i.id == id) (fail_row v)
        (λ i. unfold progressed in refl) j v.instances

  failed_world-IsFailed : (v : World V) → IsFailed v (failed_world v) id at answers
  failed_world-IsFailed v = record {
    failed_row = λ i found.
        select-failed v id
        ∙ ap (updated (λ i. i.id == id) (fail_row v)) found
        ∙ own_row (λ i. i.id) id (fail_row v) i (select-key (λ i. i.id) id v.instances i found)
        ∙ unfold progressed in unfold is_terminal in refl;
    other_instances = λ j ne.
        select-failed v j
        ∙ other_row (λ i. i.id) id (fail_row v) j (select (λ i. i.id) j v.instances)
            (select-key (λ i. i.id) j v.instances) ne;
    rest = refl;
  }

  -- From the result of the dispatch on.
  from_dispatch :
      (r : Result ApiError (Unit {0})) (v : World V)
      → Dispatching env d id w requester answers r v
      → let x =
          continue
            (λ u v. (engine_result (Engine.resume_after_ticket_dispatch d.graph at answers), v))
            (handled (fail_instance env id at answers) r v).0
            (handled (fail_instance env id at answers) r v).1 in
        Submitted x.0 x.1
  unfolding fail_instance ◌>>=◌ map_error Instances.save_progress Instances.get_by_id
  from_dispatch (ok tt) v h = went_out h
  from_dispatch (err e) v h = not_sent h (failed_world-IsFailed v)

  -- Where the ticket goes out, `submit_ticket` changes nothing more and returns what the engine
  -- says after it. Where it does not, for whatever reason, the call ends with the error of the
  -- dispatch, and the row of the instance, if it is there, is failed at the ticket step, with its
  -- answers and completed now. Nothing else changes then.
  pub submit_ticket_lem :
      let r = Orchestrator.submit_ticket env d id requester answers at w in Submitted r.0 r.1
  unfolding Orchestrator.submit_ticket catch ◌>>=◌
  submit_ticket_lem =
      from_dispatch (dispatch_ticket env d id requester answers w).0
        (dispatch_ticket env d id requester answers w).1
        (dispatch_ticket_lem env d id w requester answers)
