-- ===== src/Engine/Walk.antt =====
-- The walk through branch steps, as a relation, and `auto_advance` against it
-- (crates/workflow-engine/src/lib.rs).
use servcat.Prelude.{
  ℕ, zero, suc, ◌<◌, String, ◌≡◌, refl, Bool, Option, none, some, List, ok, err, ok_or, ◌>>=◌,
  arith, Decides, holds, fails, if◌then◌else◌,
}
use servcat.Prelude.Int.{ℤ}
use servcat.Json.{Json}
use servcat.Model.Workflow.{
  EndOutcome, ApproverResolution, Condition, InputType, QuestionOption, StepKind, question, branch,
  wait_for_approval, submit_ticket, end, Step, WorkflowGraph, step,
}
use servcat.Engine.{
  Answers, unknown_step, too_many_steps, Outcome, awaiting_answer, awaiting_approval,
  ready_to_submit_ticket, finished, Advance, max_auto_steps, eval_condition, visit,
  auto_advance_rounds,
}
use servcat.Engine.Meaning.{Holds, eval_condition-Decides}

-- The step named `id` is in the graph, and has the kind `k`.
pub record IsStep {V : Type 0} (g : WorkflowGraph V) (id : String) (k : StepKind V) : Type 0 where
  pub at : Step V
  pub found : step g id ≡ some at
  pub has_kind : at.kind ≡ k

-- What a caller has to do at a step of each kind but a branch.
pub data StopsAs {V : Type 0} : StepKind V → Outcome → Type 0 where
  asks :
      {key next : String} {input : InputType} {required : Bool} {options : List QuestionOption}
      → StopsAs (question key input required options next) (awaiting_answer key)
  waits :
      {r : ApproverResolution} {a b : String} {timeout : Option ℤ}
      → StopsAs (wait_for_approval r a b timeout) (awaiting_approval r timeout)
  submits : {next : String} → StopsAs (submit_ticket next) ready_to_submit_ticket
  ends : {o : EndOutcome} → StopsAs (end o) (finished o)

module _ {V : Type 0} ⦃json : Json V⦄ where
  -- One branch step, by what its condition says of the answers.
  pub data Hop (g : WorkflowGraph V) (answers : Answers V) : String → String → Type 0 where
    on_true :
        {id t f : String} {c : Condition V}
        → IsStep g id (branch c t f)
        → Holds c answers
        → Hop g answers id t
    on_false :
        {id t f : String} {c : Condition V}
        → IsStep g id (branch c t f)
        → ¬ Holds c answers
        → Hop g answers id f

  -- So many branch steps.
  pub data Walk (g : WorkflowGraph V) (answers : Answers V) : ℕ → String → String → Type 0 where
    stay : {id : String} → Walk g answers zero id id
    hop :
        {n : ℕ} {id next last : String}
        → Hop g answers id next
        → Walk g answers n next last
        → Walk g answers (suc n) id last

  -- What a walk of fewer than `n` branch steps from `id` comes to.
  pub data Reaches (g : WorkflowGraph V) (answers : Answers V) (n : ℕ) (id : String)
      : Advance → Type 0 where
    stops :
        {k : ℕ} {last : String} {kind : StepKind V} {o : Outcome}
        → k < n
        → Walk g answers k id last
        → IsStep g last kind
        → StopsAs kind o
        → Reaches g answers n id (ok (last, o))
    leaves :
        {k : ℕ} {last : String}
        → k < n
        → Walk g answers k id last
        → step g last ≡ none
        → Reaches g answers n id (err (unknown_step last))
    goes_on :
        {last : String}
        → Walk g answers n id last
        → Reaches g answers n id (err (too_many_steps max_auto_steps))

module _ {V : Type 0} ⦃json : Json V⦄ (g : WorkflowGraph V) (answers : Answers V) where
  Reaches-Hop :
      {n : ℕ} {id next : String} {r : Advance}
      → Hop g answers id next
      → Reaches g answers n next r
      → Reaches g answers (suc n) id r
  Reaches-Hop h (stops {k = k} lt w s o) = stops {k = suc k} (omega arith) (hop h w) s o
  Reaches-Hop h (leaves {k = k} lt w s) = leaves {k = suc k} (omega arith) (hop h w) s
  Reaches-Hop h (goes_on w) = goes_on (hop h w)

  stops_here :
      {n : ℕ} {id : String} {kind : StepKind V} {o : Outcome}
      → IsStep g id kind
      → StopsAs kind o
      → Reaches g answers (suc n) id (ok (id, o))
  stops_here s o = stops {k = zero} (omega arith) stay s o

  module _ (n : ℕ) (id : String) (go : String → Advance)
      (later : (next : String) → Reaches g answers n next (go next)) where
    branch-Reaches :
        {c : Condition V} {t f : String}
        → IsStep g id (branch c t f)
        → Decides (eval_condition c answers) (Holds c answers)
        → Reaches g answers (suc n) id (go (if eval_condition c answers then t else f))
    branch-Reaches {c} {t} {f} s (holds e h) = rw e (Reaches-Hop (on_true s h) (later t))
    branch-Reaches {c} {t} {f} s (fails e h) = rw e (Reaches-Hop (on_false s h) (later f))

    visit-Reaches :
        (kind : StepKind V)
        → IsStep g id kind
        → Reaches g answers (suc n) id (visit kind id answers go)
    unfolding visit
    visit-Reaches (question key input required options next) s = stops_here s asks
    visit-Reaches (branch c t f) s = branch-Reaches s (eval_condition-Decides c answers)
    visit-Reaches (wait_for_approval r a b timeout) s = stops_here s waits
    visit-Reaches (submit_ticket next) s = stops_here s submits
    visit-Reaches (end o) s = stops_here s ends

    find-Reaches :
        (o : Option (Step V))
        → step g id ≡ o
        → Reaches g answers
            (suc n)
            id
            (ok_or (unknown_step id) o >>= λ s. visit s.kind id answers go)
    find-Reaches none e = leaves {k = zero} (omega arith) stay e
    find-Reaches (some s) e = visit-Reaches s.kind (record { at = s; found = e; has_kind = refl })

  pub rounds-Reaches :
      (n : ℕ) (id : String) → Reaches g answers n id (auto_advance_rounds n g id answers)
  unfolding auto_advance_rounds
  rounds-Reaches zero id = goes_on stay
  rounds-Reaches (suc n) id =
      find-Reaches n id (λ next. auto_advance_rounds n g next answers) (rounds-Reaches n)
        (step g id) refl
