-- ===== src/Seed/Graphs.antt =====
-- crates/server/src/catalog_seed.rs: the graphs of the starter catalog.
use Prim.Native.String.{◌++◌ as joined}
use servcat.Prelude.{ℕ, ◌+◌, String, Bool, Option, none, some, List, [], ◌∷◌, ◌++◌, map}
use servcat.Model.User.{Role}
use servcat.Model.Workflow.{
  InputType, EndOutcome, completed, rejected, cancelled, manager_of_requester, role_in_department,
  question, wait_for_approval, submit_ticket, end, Step, WorkflowGraph,
}

pub data WorkflowPattern : Type 0 where
  simple_ticket manager_approval_ticket security_approval_ticket : WorkflowPattern
  finance_approval_ticket info_only : WorkflowPattern

pub record SeedOption : Type 0 where
  pub value : String
  pub label : String

pub record SeedQuestion : Type 0 where
  pub field_key : String
  pub label : String
  pub input_type : InputType
  pub required : Bool
  pub options : List SeedOption

abbrev pub end_label : EndOutcome → String
end_label completed = "Request completed"
end_label rejected = "Request not approved"
end_label cancelled = "Request cancelled"

module _ {V : Type 0} where
  unfoldable pub end_step : String → EndOutcome → Step V
  end_step id outcome = record { id = id; label = end_label outcome; kind = end outcome }

  abbrev pub rejected_step : Option String → List (Step V)
  rejected_step none = []
  rejected_step (some id) =
      (record { id = id; label = "Request not approved"; kind = end rejected }) ∷ []

  unfoldable pub push_submit_and_ends :
      List (Step V) → String → String → Option String → List (Step V)
  unfolding end_step
  push_submit_and_ends steps submit_id completed_id rejected_id =
      steps
      ++ (record { id = submit_id; label = "Submit ticket"; kind = submit_ticket completed_id })
        ∷ end_step completed_id completed
        ∷ rejected_step rejected_id

  abbrev pub manager_approval : String → Step V
  manager_approval on_approve = record {
    id = "manager_approval";
    label = "Manager approval";
    kind = wait_for_approval manager_of_requester on_approve "end_rejected" none;
  }

  -- From the first step on; without a step the function panics.
  abbrev pub from_first : List (Step V) → Option (WorkflowGraph V)
  from_first [] = none
  from_first (s ∷ steps) = some (record { entry_step_id = s.id; steps = s ∷ steps })

-- `decimal` is the display of a number.
module _ (decimal : ℕ → String) where
  -- `format!("q{}", n)`
  abbrev pub question_id : ℕ → String
  question_id n = joined "q" (decimal n)

  -- The id of the step behind the question of index `i`, whose later questions are given.
  abbrev pub next_of : ℕ → List SeedQuestion → String → String
  next_of i [] next_after = next_after
  next_of i (q ∷ later) next_after = question_id (i + 2)

module _ {V : Type 0} (decimal : ℕ → String) where
  -- The loop of `append_questions` from the index `i` on.
  unfoldable pub question_steps : ℕ → List SeedQuestion → String → List (Step V)
  question_steps i [] next_after = []
  question_steps i (q ∷ later) next_after =
      (record {
        id = question_id decimal (i + 1);
        label = q.label;
        kind =
            question q.field_key q.input_type q.required
              (map (λ o. record { value = o.value; label = o.label }) q.options)
              (next_of decimal i later next_after);
      })
      ∷ question_steps (i + 1) later next_after

  unfoldable pub append_questions : List (Step V) → List SeedQuestion → String → List (Step V)
  unfolding question_steps
  append_questions steps questions next_after = steps ++ question_steps 0 questions next_after

  -- The arm that the security and the finance pattern share.
  unfoldable pub two_approvals : List SeedQuestion → String → String → List (Step V)
  unfolding append_questions push_submit_and_ends
  two_approvals questions second_id second_label =
      push_submit_and_ends
        (append_questions [] questions "manager_approval"
          ++ manager_approval second_id
            ∷ (record {
              id = second_id;
              label = second_label;
              kind =
                  wait_for_approval (role_in_department Role.approver) "submit" "end_rejected" none;
            })
            ∷ [])
        "submit" "end_completed" (some "end_rejected")

  unfoldable pub pattern_steps : WorkflowPattern → List SeedQuestion → List (Step V)
  unfolding append_questions push_submit_and_ends end_step two_approvals
  pattern_steps simple_ticket questions =
      push_submit_and_ends (append_questions [] questions "submit") "submit" "end_completed" none
  pattern_steps info_only questions =
      append_questions [] questions "end_completed" ++ end_step "end_completed" completed ∷ []
  pattern_steps manager_approval_ticket questions =
      push_submit_and_ends
        (append_questions [] questions "manager_approval" ++ manager_approval "submit" ∷ [])
        "submit" "end_completed" (some "end_rejected")
  pattern_steps security_approval_ticket questions =
      two_approvals questions "security_approval"
        "Security approval (placeholder: routes to any \"Approver\"-role user in the requester's department -- reassign this step once your organization's real security approver/team is set up)"
  pattern_steps finance_approval_ticket questions =
      two_approvals questions "finance_approval"
        "Finance approval (placeholder: routes to any \"Approver\"-role user in the requester's department -- reassign this step once your organization's real finance approver/team is set up)"

  unfoldable pub build_graph : WorkflowPattern → List SeedQuestion → Option (WorkflowGraph V)
  unfolding pattern_steps
  build_graph pattern questions = from_first (pattern_steps pattern questions)
