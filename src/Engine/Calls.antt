-- ===== src/Engine/Calls.antt =====
-- What the four entry points of the engine return, on every branch
-- (crates/workflow-engine/src/lib.rs).
use servcat.Prelude.{
  String, ◌=ₛ◌, ◌≡◌, refl, ◌≢◌, sym, Bool, true, false, Option, none, some, List, [], err, ok_or,
  ◌>>=◌, arith, if◌then◌else◌, subst,
}
use servcat.Prelude.Int.{ℤ}
use servcat.Map
use servcat.Json.{Json}
use servcat.Model.Workflow.{
  ApproverResolution, InputType, QuestionOption, StepKind, question, wait_for_approval,
  submit_ticket, Step, WorkflowGraph, step,
}
use servcat.Model.Approval.{ApprovalDecision, approve, reject}
use servcat.Engine.{
  Answers, unknown_step, wrong_step_kind, unexpected_field, empty_graph, Advance, max_auto_steps,
  kind_name, as_question, as_wait_for_approval, as_submit_ticket, branch_of, put_answer,
  auto_advance, start, submit_answer, resume_after_approval, resume_after_ticket_dispatch,
}
use servcat.Engine.Walk.{IsStep, Reaches}
use servcat.Engine.Advance.{auto_advance-iff-Reaches}
use text.Mathlib.TextEquality.{eq_iff}

abbrev pub IsQuestion : {V : Type 0} → StepKind V → Type 0
IsQuestion (question key input required options next) = Unit {0}
IsQuestion k = ⊥

abbrev pub IsWait : {V : Type 0} → StepKind V → Type 0
IsWait (wait_for_approval r a b timeout) = Unit {0}
IsWait k = ⊥

abbrev pub IsSubmit : {V : Type 0} → StepKind V → Type 0
IsSubmit (submit_ticket next) = Unit {0}
IsSubmit k = ⊥

module _ {V : Type 0} ⦃json : Json V⦄ where
  -- The outcome of `submit_answer`, beside the answers that it leaves.
  pub data Submits (g : WorkflowGraph V) (id : String) (answers : Answers V) (key : String) (v : V)
      : Advance → Answers V → Type 0 where
    absent : step g id ≡ none → Submits g id answers key v (err (unknown_step id)) answers
    other_kind :
        {kind : StepKind V}
        → IsStep g id kind
        → ¬ IsQuestion kind
        → Submits g id answers key v (err (wrong_step_kind id "question" (kind_name kind))) answers
    other_field :
        {expected next : String} {input : InputType} {required : Bool}
        {options : List QuestionOption}
        → IsStep g id (question expected input required options next)
        → key ≢ expected
        → Submits g id answers key v (err (unexpected_field id expected key)) answers
    records :
        {next : String} {input : InputType} {required : Bool} {options : List QuestionOption}
        {answers' : Answers V} {r : Advance}
        → IsStep g id (question key input required options next)
        → ((j : String) → Map.get answers' j ≡ (if key =ₛ j then some v else Map.get answers j))
        → Reaches g answers' max_auto_steps next r
        → Submits g id answers key v r answers'

  -- The outcome of `resume_after_approval`.
  pub data Resumes (g : WorkflowGraph V) (id : String) (answers : Answers V)
      : ApprovalDecision → Advance → Type 0 where
    absent :
        {d : ApprovalDecision} → step g id ≡ none → Resumes g id answers d (err (unknown_step id))
    other_kind :
        {d : ApprovalDecision} {kind : StepKind V}
        → IsStep g id kind
        → ¬ IsWait kind
        → Resumes g id answers d (err (wrong_step_kind id "wait_for_approval" (kind_name kind)))
    approved :
        {res : ApproverResolution} {on_approve on_reject : String} {timeout : Option ℤ}
        {r : Advance}
        → IsStep g id (wait_for_approval res on_approve on_reject timeout)
        → Reaches g answers max_auto_steps on_approve r
        → Resumes g id answers approve r
    rejected :
        {res : ApproverResolution} {on_approve on_reject : String} {timeout : Option ℤ}
        {r : Advance}
        → IsStep g id (wait_for_approval res on_approve on_reject timeout)
        → Reaches g answers max_auto_steps on_reject r
        → Resumes g id answers reject r

  -- The outcome of `resume_after_ticket_dispatch`.
  pub data Dispatched (g : WorkflowGraph V) (id : String) (answers : Answers V)
      : Advance → Type 0 where
    absent : step g id ≡ none → Dispatched g id answers (err (unknown_step id))
    other_kind :
        {kind : StepKind V}
        → IsStep g id kind
        → ¬ IsSubmit kind
        → Dispatched g id answers (err (wrong_step_kind id "submit_ticket" (kind_name kind)))
    goes_on :
        {next : String} {r : Advance}
        → IsStep g id (submit_ticket next)
        → Reaches g answers max_auto_steps next r
        → Dispatched g id answers r

  -- The outcome of `start`.
  pub data Starts (g : WorkflowGraph V) : Advance → Type 0 where
    empty : step g g.entry_step_id ≡ none → Starts g (err empty_graph)
    begins :
        {s : Step V} {r : Advance}
        → step g g.entry_step_id ≡ some s
        → Reaches g [] max_auto_steps g.entry_step_id r
        → Starts g r

module _ {V : Type 0} ⦃json : Json V⦄ (g : WorkflowGraph V) where
  reach :
      (answers : Answers V) (id : String)
      → Reaches g answers max_auto_steps id (auto_advance g id answers)
  reach answers id = (auto_advance-iff-Reaches g answers id (auto_advance g id answers)).0 refl

  module _ (id : String) (answers : Answers V) where
    ticket_kind :
        (kind : StepKind V)
        → IsStep g id kind
        → Dispatched g id answers (as_submit_ticket id kind >>= λ next. auto_advance g next answers)
    unfolding as_submit_ticket
    ticket_kind (submit_ticket next) s = Dispatched.goes_on s (reach answers next)
    ticket_kind _ s = Dispatched.other_kind s (λ z. z)

    ticket_found :
        (o : Option (Step V))
        → step g id ≡ o
        → Dispatched g id answers (
            ok_or (unknown_step id) o >>= λ s.
            as_submit_ticket id s.kind >>= λ next. auto_advance g next answers)
    ticket_found none e = Dispatched.absent e
    ticket_found (some s) e = ticket_kind s.kind (record { at = s; found = e; has_kind = refl })

    -- `resume_after_ticket_dispatch` goes on from the step behind a ticket step, and refuses a
    -- missing step and a step of another kind.
    pub resume_after_ticket_dispatch_lem :
        Dispatched g id answers (resume_after_ticket_dispatch g id answers)
    unfolding resume_after_ticket_dispatch
    resume_after_ticket_dispatch_lem = ticket_found (step g id) refl

    approval_kind :
        (d : ApprovalDecision) (kind : StepKind V)
        → IsStep g id kind
        → Resumes g id answers d
            (as_wait_for_approval id kind >>= λ nexts. auto_advance g (branch_of d nexts) answers)
    unfolding as_wait_for_approval branch_of
    approval_kind approve (wait_for_approval r a b timeout) s = Resumes.approved s (reach answers a)
    approval_kind reject (wait_for_approval r a b timeout) s = Resumes.rejected s (reach answers b)
    approval_kind d _ s = Resumes.other_kind s (λ z. z)

    approval_found :
        (d : ApprovalDecision) (o : Option (Step V))
        → step g id ≡ o
        → Resumes g id answers d (
            ok_or (unknown_step id) o >>= λ s.
            as_wait_for_approval id s.kind >>= λ nexts. auto_advance g (branch_of d nexts) answers)
    approval_found d none e = Resumes.absent e
    approval_found d (some s) e =
        approval_kind d s.kind (record { at = s; found = e; has_kind = refl })

    -- `resume_after_approval` goes on down the path of the decision, and refuses a missing step
    -- and a step of another kind.
    pub resume_after_approval_lem :
        (d : ApprovalDecision) → Resumes g id answers d (resume_after_approval g id answers d)
    unfolding resume_after_approval
    resume_after_approval_lem d = approval_found d (step g id) refl

    module _ (key : String) (v : V) where
      abbrev Submitted : Advance × Answers V → Type 0
      Submitted r = Submits g id answers key v r.0 r.1

      question_asks :
          {expected next : String} {input : InputType} {required : Bool}
          {options : List QuestionOption}
          → IsStep g id (question expected input required options next)
          → (b : Bool) → (key =ₛ expected) ≡ b
          → Submitted (
              if b
              then (auto_advance g next (Map.insert answers key v), Map.insert answers key v)
              else (err (unexpected_field id expected key), answers))
      question_asks {expected} {next} {input} {required} {options} s true e =
          Submits.records
            (subst (λ k. IsStep g id (question k input required options next))
              (sym ((eq_iff key expected).0 e)) s)
            (λ j. Map.get-insert answers key j v) (reach (Map.insert answers key v) next)
      question_asks {expected} s false e =
          Submits.other_field s (λ same. ground (arith, eq_iff key expected))

      submit_kind :
          (kind : StepKind V)
          → IsStep g id kind
          → Submitted (put_answer g id answers key v (as_question id kind))
      unfolding as_question put_answer
      submit_kind (question expected input required options next) s =
          question_asks s (key =ₛ expected) refl
      submit_kind _ s = Submits.other_kind s (λ z. z)

      submit_found :
          (o : Option (Step V))
          → step g id ≡ o
          → Submitted (
              put_answer g id answers key v
                (ok_or (unknown_step id) o >>= λ s. as_question id s.kind))
      unfolding put_answer
      submit_found none e = Submits.absent e
      submit_found (some s) e = submit_kind s.kind (record { at = s; found = e; has_kind = refl })

      -- `submit_answer` at a question with this field key records the answer, changes no other
      -- answer, and goes on with the new answers. At a question with another key, at a step of
      -- another kind and at a missing step it reports that, and the answers stay.
      pub submit_answer_lem : Submitted (submit_answer g id answers key v)
      unfolding submit_answer
      submit_answer_lem = submit_found (step g id) refl

  start_at :
      (o : Option (Step V))
      → step g g.entry_step_id ≡ o
      → Starts g (elim o [ none ↦ err empty_graph | some s ↦ auto_advance g g.entry_step_id [] ])
  start_at none e = Starts.empty e
  start_at (some s) e = Starts.begins e (reach [] g.entry_step_id)

  -- `start` reports an empty graph where the entry step is missing, and otherwise goes on from it
  -- with no answers.
  pub start_lem : Starts g (start g)
  unfolding start
  start_lem = start_at (step g g.entry_step_id) refl

  -- `start` reports an empty graph where the entry step is missing, and otherwise goes on from it
  -- with no answers. `resume_after_ticket_dispatch` goes on from the step behind a ticket step, and
  -- `resume_after_approval` down the path of the decision; both refuse a missing step and a step of
  -- another kind.
  pub calls_lem :
      (id : String) (answers : Answers V) (d : ApprovalDecision)
      → Starts g (start g)
        × Dispatched g id answers (resume_after_ticket_dispatch g id answers)
        × Resumes g id answers d (resume_after_approval g id answers d)
  calls_lem id answers d = (
    start_lem,
    resume_after_ticket_dispatch_lem id answers,
    resume_after_approval_lem id answers d,
  )
