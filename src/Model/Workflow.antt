-- ===== src/Model/Workflow.antt =====
-- crates/model/src/workflow.rs. The JSON values in a condition are a type parameter.
use servcat.Prelude.{String, ◌=ₛ◌, Bool, Option, List, find}
use servcat.Prelude.Int.{ℤ}
use servcat.Map.{Map}
use servcat.Model.User.{Uuid, Timestamp, Role}

pub data TargetSystem : Type 0 where
  jira glpi freshservice webhook : TargetSystem

pub data EndOutcome : Type 0 where
  completed rejected cancelled : EndOutcome

pub data InputType : Type 0 where
  text text_area number boolean select multi_select date : InputType

pub record QuestionOption : Type 0 where
  pub value : String
  pub label : String

pub data ApproverResolution : Type 0 where
  static : Uuid → ApproverResolution
  manager_of_requester : ApproverResolution
  role_in_department : Role → ApproverResolution

mutual
  pub data Condition (V : Type 0) : Type 0 where
    equals not_equals : String → V → Condition V
    exists : String → Condition V
    is_in : String → List V → Condition V
    all_of any_of : Conditions V → Condition V
    negated : Condition V → Condition V

  -- `Vec<Condition>`
  pub data Conditions (V : Type 0) : Type 0 where
    nil : Conditions V
    cons : Condition V → Conditions V → Conditions V

-- The fields of each variant, in the order of the source.
pub data StepKind (V : Type 0) : Type 0 where
  question : String → InputType → Bool → List QuestionOption → String → StepKind V
  branch : Condition V → String → String → StepKind V
  wait_for_approval : ApproverResolution → String → String → Option ℤ → StepKind V
  submit_ticket : String → StepKind V
  end : EndOutcome → StepKind V

pub record Step (V : Type 0) : Type 0 where
  pub id : String
  pub label : String
  pub kind : StepKind V

pub record WorkflowGraph (V : Type 0) : Type 0 where
  pub entry_step_id : String
  pub steps : List (Step V)

unfoldable pub step : {V : Type 0} → WorkflowGraph V → String → Option (Step V)
step g id = find (λ s. s.id =ₛ id) g.steps

-- A `HashMap` of target field to template, in the order in which it is iterated.
abbrev pub FieldMapping : Type 0
FieldMapping = Map String

pub record WorkflowDefinition (V : Type 0) : Type 0 where
  pub id : Uuid
  pub name : String
  pub version : ℤ
  pub graph : WorkflowGraph V
  pub field_mapping : Option FieldMapping
  pub target_system : Option TargetSystem
  pub is_published : Bool
  pub created_by : Option Uuid
  pub created_at : Timestamp
  pub updated_at : Timestamp
