-- ===== src/Server/Loop.antt =====
-- The loop of `apply_outcome`: where it ends, and that it ends
-- (crates/server/src/orchestrator.rs).
use servcat.Prelude.{
  ℕ, zero, suc, ◌<◌, ◌≤◌, String, ◌==◌, ==_refl, ◌≡◌, refl, subst, Option, some, ok, err, arith,
  Option-cases, inl, inr, find-All, ◌=ₛ◌,
}
use servcat.Prelude.Int.{ℤ}
use servcat.Json.{Json}
use servcat.Model.User.{Uuid}
use servcat.Model.Workflow.{
  ApproverResolution, StepKind, branch, submit_ticket, WorkflowGraph, WorkflowDefinition, step,
}
use servcat.Model.Instance.{InstanceStatus, in_progress, awaiting_approval, WorkflowInstance}
use servcat.Engine
use servcat.Engine.{
  Answers, Outcome, awaiting_answer, ready_to_submit_ticket, finished, Advance, max_auto_steps,
}
use servcat.Engine.Walk.{
  IsStep, StopsAs, asks, waits, submits, ends, on_true, on_false, Walk, stay, hop, Reaches, stops,
}
use servcat.Engine.Valid.{IsDue, step-id}
use servcat.Engine.Calls.{Dispatched, absent, other_kind, goes_on, resume_after_ticket_dispatch_lem}
use servcat.Exec.{◌>>=◌, map_error}
use servcat.Exec.Ends.{Yields, Yields-then}
use servcat.Db.Table.{select, update_where, updated, select-key, select-update_where}
use servcat.Db.World.{World}
use servcat.Db.Instances
use servcat.Db.Instances.{progressed}
use servcat.Server.Env.{Env}
use servcat.Server.Orchestrator
use servcat.Server.Orchestrator.{
  Stop, api, out_of_fuel, engine_result, end_status, save, apply_round, apply_outcome,
}
use servcat.Server.AtRest.{
  Descends, IsForward, RestsAt, asked, waiting, end-RestsAt, IsAtRest, Ends, Ends-api, Ends-bind,
}

module _ {V : Type 0} ⦃json : Json V⦄ (g : WorkflowGraph V) (rank : String → ℕ)
    (forward : IsForward rank g) where
  step-Descends : (id : String) (k : StepKind V) → IsStep g id k → Descends rank id k
  unfolding step
  step-Descends id k s =
      subst (λ x. Descends rank x k) (step-id g id s.at s.found)
        (subst (λ x. Descends rank s.at.id x) s.has_kind
          (find-All (λ t. Descends rank t.id t.kind) (λ t. t.id =ₛ id) g.steps s.at forward
            s.found))

  Walk-descends :
      {answers : Answers V} {n : ℕ} {a b : String} → Walk g answers n a b → rank b ≤ rank a
  Walk-descends stay = omega arith
  Walk-descends (hop {id = id} (on_true {t = t} {f = f} {c = c} s h) w) =
      omega (arith, (step-Descends id (branch c t f) s).0, Walk-descends w)
  Walk-descends (hop {id = id} (on_false {t = t} {f = f} {c = c} s h) w) =
      omega (arith, (step-Descends id (branch c t f) s).1, Walk-descends w)

  -- After a ticket the next stop is of lower rank, and something is due there.
  next_stop :
      (id : String) (answers : Answers V) (r : Advance) (next : String) (o : Outcome)
      → Dispatched g id answers r
      → r ≡ ok (next, o)
      → IsDue g (next, o) × (rank next < rank id)
  next_stop id answers r next o (absent e) h = absurd (cc)
  next_stop id answers r next o (other_kind s k) h = absurd (cc)
  next_stop id answers r next o (goes_on {next = after} s (Reaches.leaves lt w e)) h = absurd (cc)
  next_stop id answers r next o (goes_on {next = after} s (Reaches.goes_on w)) h = absurd (cc)
  next_stop id answers r next o
        (goes_on {next = after} s (stops {last = last} {kind = kind} {o = o'} lt w at due)) h =
      (
        subst (IsDue g) {x = (last, o')} {y = (next, o)} (cc)
            (record { kind = kind; there = at; due = due }),
        let same : last ≡ next = cc in
            subst (λ x. rank x < rank id) same
              (omega (arith, step-Descends id (submit_ticket after) s, Walk-descends w)),
      )

module _ {V : Type 0} ⦃json : Json V⦄ (env : Env V) (g : WorkflowGraph V) (id : Uuid)
    (answers : Answers V) where
  abbrev Rested : WorkflowInstance V → World V → Type 0
  Rested row v = IsAtRest g id answers row v

  save-Rested :
      (at : String) (status : InstanceStatus) (kind : StepKind V)
      → IsStep g at kind
      → RestsAt kind status
      → (w : World V) → Yields Rested (save env id at answers status w)
  unfolding save map_error ◌>>=◌ Instances.save_progress Instances.get_by_id
  save-Rested at status kind s rests w =
      let found =
        select-update_where (λ i. i.id) (λ i. i.id == id)
          (progressed at (json.object answers) status w.now) (λ i. unfold progressed in refl) id
          w.instances in
      elim (Option-cases (select (λ i. i.id) id w.instances)) [
        | inl e ↦ rw (found, e) tt
        | inr (i, e) ↦ written i e found
      ]
    where
      written :
          (i : WorkflowInstance V)
          → select (λ i. i.id) id w.instances ≡ some i
          → select
              (λ i. i.id)
              id
              (update_where
                (λ i. i.id == id)
                (progressed at (json.object answers) status w.now)
                w.instances)
            ≡ updated
                (λ i. i.id == id)
                (progressed at (json.object answers) status w.now)
                (select (λ i. i.id) id w.instances)
          → Yields Rested (save env id at answers status w)
      written i e found =
          let now_there : select (λ i. i.id) id
                (update_where (λ i. i.id == id) (progressed at (json.object answers) status w.now)
                  w.instances)
              ≡ some (progressed at (json.object answers) status w.now i) =
            rw (found, e) (rw (select-key (λ i. i.id) id w.instances i e, ==_refl id) refl) in
          rw now_there (
            unfold progressed in
            (record { kind = kind; there = s; rests = rests; recorded = refl; stored = now_there }))

  wait-Rested :
      (requester : Uuid) (at : String) (res : ApproverResolution) (timeout : Option ℤ)
      (kind : StepKind V)
      → IsStep g at kind
      → RestsAt kind awaiting_approval
      → (w : World V)
      → Yields Rested (Orchestrator.wait_for_approval env id requester answers at res timeout w)
  unfolding Orchestrator.wait_for_approval
  wait-Rested requester at res timeout kind s rests w = Yields-then Rested _ _ w (λ row v.
      Yields-then Rested _ _ v (λ requester v.
        Yields-then Rested _ _ v (λ approval v. save-Rested at awaiting_approval kind s rests v)))

module _ {V : Type 0} ⦃json : Json V⦄ (env : Env V) (d : WorkflowDefinition V) (id requester : Uuid)
    (answers : Answers V) where
  -- Where a ticket went out, the loop goes on with what the engine says.
  submit-Yields :
      (at : String) (w : World V)
      → Yields
          (λ r v. Engine.resume_after_ticket_dispatch d.graph at answers ≡ ok r)
          (Orchestrator.submit_ticket env d id requester answers at w)
  unfolding Orchestrator.submit_ticket
  submit-Yields at w =
      Yields-then _ _ _ w
        (λ u v. engine_yields (Engine.resume_after_ticket_dispatch d.graph at answers) v)
    where
      engine_yields : (r : Advance) (v : World V) → Yields (λ x v. r ≡ ok x) (engine_result r, v)
      engine_yields (ok x) v = refl
      engine_yields (err e) v = tt

  module _ (rank : String → ℕ) (forward : IsForward rank d.graph) where
    abbrev Loops : ℕ → Type 0
    Loops fuel =
        (at : String) (o : Outcome)
        → rank at < fuel
        → IsDue d.graph (at, o)
        → (w : World V)
        → Ends (IsAtRest d.graph id answers) (apply_outcome env fuel d id requester answers at o w)

    round-Ends :
        (fuel : ℕ)
        → Loops fuel
        → (at : String) (o : Outcome) (kind : StepKind V) → rank at < suc fuel
        → IsStep d.graph at kind
        → StopsAs kind o
        → (w : World V)
        → Ends (IsAtRest d.graph id answers) (
            apply_round env d id requester answers at o
              (apply_outcome env fuel d id requester answers)
              w)
    unfolding apply_round
    round-Ends fuel loops at _ kind lt s (asks {key = key}) w =
        Ends-api _ _ w (save-Rested env d.graph id answers at in_progress kind s asked w)
    round-Ends fuel loops at _ kind lt s (waits {r = r} {timeout = timeout}) w =
        Ends-api _ _ w (wait-Rested env d.graph id answers requester at r timeout kind s waiting w)
    round-Ends fuel loops at _ kind lt s (ends {o = o}) w =
        Ends-api _ _ w
          (save-Rested env d.graph id answers at (end_status o) kind s (end-RestsAt o) w)
    round-Ends fuel loops at _ kind lt s submits w =
        Ends-bind _ (λ r. Engine.resume_after_ticket_dispatch d.graph at answers ≡ ok r) _ _ w
          (submit-Yields at w)
          (λ r v e.
            let n =
              next_stop d.graph rank forward at answers
                (Engine.resume_after_ticket_dispatch d.graph at answers) r.0 r.1
                (resume_after_ticket_dispatch_lem d.graph at answers) e in
            loops r.0 r.1 (omega (arith, n.1)) n.0 v)

    -- On a graph where no cycle is made of branch and ticket steps alone, the loop of
    -- `apply_outcome` ends within as many rounds as the rank of the step it starts from, plus one.
    -- Where it returns a row, the stored row of the instance is this one and holds the answers, and
    -- it stands at a question in progress, at an approval awaiting approval, or at an end as
    -- completed, rejected or cancelled, as the end says.
    pub apply_outcome-Ends :
        (fuel : ℕ) (at : String) (o : Outcome)
        → rank at < fuel
        → IsDue d.graph (at, o)
        → (w : World V)
        → Ends (IsAtRest d.graph id answers) (apply_outcome env fuel d id requester answers at o w)
    unfolding apply_outcome
    apply_outcome-Ends zero at o lt due w = absurd (omega arith)
    apply_outcome-Ends (suc fuel) at o lt due w =
        round-Ends fuel (apply_outcome-Ends fuel) at o due.kind lt due.there due.due w
