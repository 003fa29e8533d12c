-- ===== src/Web/Questions.antt =====
-- crates/server/src/web/pages/catalog.rs: the questions that the page of a service shows.
use servcat.Prelude.{ℕ, zero, suc, String, Bool, Option, none, some, List, [], ◌∷◌, ◌++◌}
use servcat.Model.Workflow.{
  StepKind, question, branch, wait_for_approval, submit_ticket, end, Step, WorkflowGraph, step,
}

pub record QuestionPreview : Type 0 where
  pub label : String
  pub required : Bool

module _ {V : Type 0} (g : WorkflowGraph V) where
  -- The body of the loop at a step, which goes on with `go`.
  abbrev pub look :
      StepKind V
      → String
      → List QuestionPreview
      → (Option (Step V) → List QuestionPreview → Option (List QuestionPreview))
      → Option (List QuestionPreview)
  look (question field_key input_type required options next) label questions go =
      go (step g next) (questions ++ (record { label = label; required = required }) ∷ [])
  look (branch condition on_true on_false) label questions go = some questions
  look (wait_for_approval approver on_approve on_reject timeout) label questions go = some questions
  look (submit_ticket next) label questions go = some questions
  look (end outcome) label questions go = some questions

  -- `while let Some(step) = current`, which has no limit in the source. It does not return within
  -- the fuel where the result is `none`.
  unfoldable pub preview_rounds :
      ℕ → Option (Step V) → List QuestionPreview → Option (List QuestionPreview)
  preview_rounds zero current questions = none
  preview_rounds (suc fuel) none questions = some questions
  preview_rounds (suc fuel) (some s) questions = look s.kind s.label questions (preview_rounds fuel)

  unfoldable pub preview_questions : ℕ → Option (List QuestionPreview)
  unfolding preview_rounds
  preview_questions fuel = preview_rounds fuel (step g g.entry_step_id) []
