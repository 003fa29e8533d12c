-- ===== src/Engine.antt =====
-- crates/workflow-engine/src/lib.rs: the pure interpreter of a workflow graph. Its definitions;
-- the children state what they do.
pub mod Meaning
pub mod Walk
pub mod Advance
pub mod Calls
pub mod Valid
use servcat.Prelude.{
  ℕ, zero, suc, String, ◌=ₛ◌, Bool, true, false, not, ◌&&◌, ◌||◌, Option, none, some, any, List, [],
  Result, ok, err, ok_or, ◌>>=◌, if◌then◌else◌,
}
use servcat.Prelude.Int.{ℤ}
use servcat.Map
use servcat.Map.{Map}
use servcat.Json.{Json}
use servcat.Model.Workflow.{
  EndOutcome, ApproverResolution, Condition, Conditions, equals, not_equals, exists, is_in, all_of,
  any_of, negated, nil, cons, StepKind, question, branch, wait_for_approval, submit_ticket, end,
  Step, WorkflowGraph, step,
}
use servcat.Model.Approval.{ApprovalDecision, approve, reject}

abbrev pub Answers : Type 0 → Type 0
Answers V = Map V

pub data EngineError : Type 0 where
  unknown_step : String → EngineError
  -- the step, the expected kind, the kind found
  wrong_step_kind : String → String → String → EngineError
  -- the step, the expected field key, the actual field key
  unexpected_field : String → String → String → EngineError
  empty_graph : EngineError
  too_many_steps : ℕ → EngineError

pub data Outcome : Type 0 where
  awaiting_answer : String → Outcome
  awaiting_approval : ApproverResolution → Option ℤ → Outcome
  ready_to_submit_ticket : Outcome
  finished : EndOutcome → Outcome

-- What a call of the engine returns: the new current step and what to do there.
abbrev pub Advance : Type 0
Advance = Result EngineError (String × Outcome)

abbrev pub max_auto_steps : ℕ
max_auto_steps = 256

-- `step` is the lookup of the graph; `find` here adds the error.
unfoldable pub find : {V : Type 0} → WorkflowGraph V → String → Result EngineError (Step V)
find g id = ok_or (unknown_step id) (step g id)

unfoldable pub kind_name : {V : Type 0} → StepKind V → String
kind_name (question key input required options next) = "question"
kind_name (branch c t f) = "branch"
kind_name (wait_for_approval r a b timeout) = "wait_for_approval"
kind_name (submit_ticket next) = "submit_ticket"
kind_name (end o) = "end"

-- `let StepKind::Question {..} = &step.kind else ..`: the field key and the next step.
unfoldable pub as_question :
    {V : Type 0} → String → StepKind V → Result EngineError (String × String)
unfolding kind_name
as_question id (question key input required options next) = ok (key, next)
as_question id k = err (wrong_step_kind id "question" (kind_name k))

-- `on_approve` and `on_reject`
unfoldable pub as_wait_for_approval :
    {V : Type 0} → String → StepKind V → Result EngineError (String × String)
unfolding kind_name
as_wait_for_approval id (wait_for_approval r on_approve on_reject timeout) =
    ok (on_approve, on_reject)
as_wait_for_approval id k = err (wrong_step_kind id "wait_for_approval" (kind_name k))

unfoldable pub branch_of : ApprovalDecision → String × String → String
branch_of approve (on_approve, on_reject) = on_approve
branch_of reject (on_approve, on_reject) = on_reject

unfoldable pub as_submit_ticket : {V : Type 0} → String → StepKind V → Result EngineError String
unfolding kind_name
as_submit_ticket id (submit_ticket next) = ok next
as_submit_ticket id k = err (wrong_step_kind id "submit_ticket" (kind_name k))

module _ {V : Type 0} ⦃json : Json V⦄ where
  -- `answers.get(field_key) == Some(value)`
  unfoldable pub equals_some : Option V → V → Bool
  equals_some none v = false
  equals_some (some w) v = json.same w v

  -- `answers.get(field_key).is_some_and(|v| values.contains(v))`
  unfoldable pub contained : Option V → List V → Bool
  contained none vs = false
  contained (some w) vs = any (λ v. json.same v w) vs

  unfoldable mutual
    unfolding equals_some contained

    pub eval_condition : Condition V → Answers V → Bool
    eval_condition (equals key v) answers = equals_some (Map.get answers key) v
    eval_condition (not_equals key v) answers = not (equals_some (Map.get answers key) v)
    eval_condition (exists key) answers = Map.contains_key answers key
    eval_condition (is_in key vs) answers = contained (Map.get answers key) vs
    eval_condition (all_of cs) answers = eval_all cs answers
    eval_condition (any_of cs) answers = eval_any cs answers
    eval_condition (negated c) answers = not (eval_condition c answers)

    -- `conditions.iter().all(..)` and `conditions.iter().any(..)`
    pub eval_all : Conditions V → Answers V → Bool
    eval_all nil answers = true
    eval_all (cons c cs) answers = eval_condition c answers && eval_all cs answers

    pub eval_any : Conditions V → Answers V → Bool
    eval_any nil answers = false
    eval_any (cons c cs) answers = eval_condition c answers || eval_any cs answers

  -- The body of the loop at a step that was found; `go` is the next round.
  unfoldable pub visit : StepKind V → String → Answers V → (String → Advance) → Advance
  visit (question key input required options next) id answers go = ok (id, awaiting_answer key)
  visit (branch c on_true on_false) id answers go =
      go (if eval_condition c answers then on_true else on_false)
  visit (wait_for_approval r a b timeout) id answers go = ok (id, awaiting_approval r timeout)
  visit (submit_ticket next) id answers go = ok (id, ready_to_submit_ticket)
  visit (end o) id answers go = ok (id, finished o)

  -- `for _ in 0..MAX_AUTO_STEPS`, by the rounds that are left
  unfoldable pub auto_advance_rounds : ℕ → WorkflowGraph V → String → Answers V → Advance
  unfolding visit find
  auto_advance_rounds zero g id answers = err (too_many_steps max_auto_steps)
  auto_advance_rounds (suc n) g id answers =
      find g id >>= λ s. visit s.kind id answers (λ next. auto_advance_rounds n g next answers)

  unfoldable pub auto_advance : WorkflowGraph V → String → Answers V → Advance
  auto_advance = auto_advance_rounds max_auto_steps

  unfoldable pub start : WorkflowGraph V → Advance
  start g = elim (step g g.entry_step_id) [
    | none ↦ err empty_graph
    | some s ↦ auto_advance g g.entry_step_id []
  ]

  -- What follows the `let .. else`, by its result. `answers` is a `&mut`: it comes back beside the
  -- result.
  unfoldable pub put_answer :
      WorkflowGraph V
      → String
      → Answers V
      → String
      → V
      → Result EngineError (String × String)
      → Advance × Answers V
  put_answer g id answers key value (err e) = (err e, answers)
  put_answer g id answers key value (ok (expected, next)) =
      if key =ₛ expected
      then (let answers' = Map.insert answers key value in (auto_advance g next answers', answers'))
      else (err (unexpected_field id expected key), answers)

  unfoldable pub submit_answer :
      WorkflowGraph V → String → Answers V → String → V → Advance × Answers V
  unfolding find as_question put_answer
  submit_answer g id answers key value =
      put_answer g id answers key value (find g id >>= λ s. as_question id s.kind)

  unfoldable pub resume_after_approval :
      WorkflowGraph V → String → Answers V → ApprovalDecision → Advance
  unfolding find as_wait_for_approval branch_of
  resume_after_approval g id answers decision = do
    s ← find g id
    nexts ← as_wait_for_approval id s.kind
    auto_advance g (branch_of decision nexts) answers

  unfoldable pub resume_after_ticket_dispatch : WorkflowGraph V → String → Answers V → Advance
  unfolding find as_submit_ticket
  resume_after_ticket_dispatch g id answers = do
    s ← find g id
    next ← as_submit_ticket id s.kind
    auto_advance g next answers
