-- ===== src/Server/AtRest.antt =====
-- Instances at rest, and graphs without a cycle of branch and ticket steps alone
-- (crates/server/src/orchestrator.rs).
use servcat.Prelude.{ℕ, ◌<◌, String, ◌≡◌, Bool, Option, some, List, Result, ok, err, All}
use servcat.Prelude.Int.{ℤ}
use servcat.Json.{Json}
use servcat.Model.User.{Uuid}
use servcat.Model.Workflow.{
  EndOutcome, ApproverResolution, InputType, QuestionOption, StepKind, question, branch,
  wait_for_approval, submit_ticket, end, WorkflowGraph,
}
use servcat.Model.Instance.{InstanceStatus, in_progress, awaiting_approval, WorkflowInstance}
use servcat.Engine.{Answers}
use servcat.Engine.Walk.{IsStep}
use servcat.Exec.{Exec, ◌>>=◌, map_error, converted, continue}
use servcat.Exec.Ends.{Yields}
use servcat.Db.Table.{select}
use servcat.Db.World.{World}
use servcat.Server.Error.{ApiError}
use servcat.Server.Orchestrator.{Stop, api, out_of_fuel, end_status}

-- A branch and a ticket step lower the rank: no cycle is made of these two alone.
abbrev pub Descends : {V : Type 0} → (String → ℕ) → String → StepKind V → Type 0
Descends rank id (branch c t f) = (rank t < rank id) × (rank f < rank id)
Descends rank id (submit_ticket next) = rank next < rank id
Descends rank id k = Unit {0}

abbrev pub IsForward : {V : Type 0} → (String → ℕ) → WorkflowGraph V → Type 0
IsForward rank g = All (λ s. Descends rank s.id s.kind) g.steps

-- The status of an instance that rests at a step.
pub data RestsAt {V : Type 0} : StepKind V → InstanceStatus → Type 0 where
  asked :
      {key next : String} {input : InputType} {required : Bool} {options : List QuestionOption}
      → RestsAt (question key input required options next) in_progress
  waiting :
      {r : ApproverResolution} {a b : String} {timeout : Option ℤ}
      → RestsAt (wait_for_approval r a b timeout) awaiting_approval
  completes : RestsAt (end EndOutcome.completed) InstanceStatus.completed
  rejects : RestsAt (end EndOutcome.rejected) InstanceStatus.rejected
  cancels : RestsAt (end EndOutcome.cancelled) InstanceStatus.cancelled

-- What `apply_outcome` stores at an end.
pub end-RestsAt : {V : Type 0} (o : EndOutcome) → RestsAt {V = V} (end o) (end_status o)
unfolding end_status
end-RestsAt EndOutcome.completed = completes
end-RestsAt EndOutcome.rejected = rejects
end-RestsAt EndOutcome.cancelled = cancels

-- A row of the table that is at rest at a step of the graph with these answers.
pub record IsAtRest {V : Type 0} ⦃json : Json V⦄ (g : WorkflowGraph V) (id : Uuid)
    (answers : Answers V) (row : WorkflowInstance V) (v : World V) : Type 0 where
  pub kind : StepKind V
  pub there : IsStep g row.current_step_id kind
  pub rests : RestsAt kind row.status
  pub recorded : row.answers_json ≡ json.object answers
  pub stored : select (λ i. i.id) id v.instances ≡ some row

-- The fuel is not used up, and a returned value and the state beside it have the property.
abbrev pub Ends : {W A : Type 0} → (A → W → Type 0) → Result Stop A × W → Type 0
Ends P (ok a, w) = P a w
Ends P (err (api e), w) = Unit {0}
Ends P (err out_of_fuel, w) = ⊥

module _ {W A : Type 0} where
  pub Ends-api :
      (P : A → W → Type 0) (m : Exec W ApiError A) (w : W)
      → Yields P (m w)
      → Ends P (map_error api m w)
  unfolding map_error
  Ends-api P m w h = along (m w).0 (m w).1 h
    where
      along : (r : Result ApiError A) (v : W) → Yields P (r, v) → Ends P (converted api r v)
      along (ok a) v h = h
      along (err e) v h = tt

module _ {W A B : Type 0} where
  pub Ends-bind :
      (P : B → W → Type 0) (Q : A → Type 0) (m : Exec W ApiError A) (f : A → Exec W Stop B) (w : W)
      → Yields (λ a v. Q a) (m w)
      → ((a : A) (v : W) → Q a → Ends P (f a v))
      → Ends P ((map_error api m >>= f) w)
  unfolding map_error ◌>>=◌
  Ends-bind P Q m f w q later = along (m w).0 (m w).1 q
    where
      along :
          (r : Result ApiError A) (v : W)
          → Yields (λ a u. Q a) (r, v)
          → Ends P (continue f (converted api r v).0 (converted api r v).1)
      along (ok a) v q = later a v q
      along (err e) v q = tt
