-- ===== src/Server/InWorkflow.antt =====
-- Rows at rest, in the workflow that is stored for them (crates/server/src/orchestrator.rs).
use servcat.Prelude.{◌≡◌, sym, ap, ◌∙◌, subst, some, List, ok, err}
use servcat.Json.{Json}
use servcat.Model.User.{Uuid}
use servcat.Model.Workflow.{WorkflowDefinition}
use servcat.Model.Instance.{WorkflowInstance}
use servcat.Engine.{Answers}
use servcat.Db.Table.{select, select-key}
use servcat.Db.World.{World}
use servcat.History.Evolves.{Evolves}
use servcat.Server.Orchestrator.{Stop}
use servcat.Server.AtRest.{IsAtRest, Ends}
use servcat.Server.Replies.{definition_row, Reply}

some-inj : {A : Type 0} {a b : A} → some a ≡ some b → a ≡ b
some-inj h = cc

module _ {V : Type 0} ⦃json : Json V⦄ where
  -- A row that is stored under its key, and at rest at a step of the graph of the workflow that
  -- `w` has for it.
  abbrev pub RestsInWorkflow : World V → WorkflowInstance V → World V → Type 0
  RestsInWorkflow w row v =
      (d : WorkflowDefinition V) × (answers : Answers V) × (definition_row w
          row.workflow_definition_id
        ≡ some d)
      × IsAtRest d.graph row.id answers row v

  -- The row that a select finds is the one under its own key.
  pub own_key :
      (id : Uuid) (rows : List (WorkflowInstance V)) (row : WorkflowInstance V)
      → select (λ i. i.id) id rows ≡ some row
      → select (λ i. i.id) row.id rows ≡ some row
  own_key id rows row e =
      ap (λ j. select (λ i. i.id) j rows) (select-key (λ i. i.id) id rows row e) ∙ e

  -- The row that is at rest is the stored row `row` later on, and so has the same workflow.
  pub in_workflow :
      (w v : World V) (d : WorkflowDefinition V) (row : WorkflowInstance V) (answers : Answers V)
      (r : Reply V)
      → definition_row w row.workflow_definition_id ≡ some d
      → select (λ i. i.id) row.id v.instances ≡ some row
      → Evolves v r.1
      → Ends (IsAtRest d.graph row.id answers) r
      → Ends (RestsInWorkflow w) r
  in_workflow w v d row answers (err (Stop.api e), u) k stored evolves h = tt
  in_workflow w v d row answers (err Stop.out_of_fuel, u) k stored evolves h = h
  in_workflow w v d row answers (ok later, u) k stored evolves h =
      let (b, there, keeps) = evolves.instances.at row.id row stored in
      let same : b ≡ later = some-inj (sym there ∙ h.stored) in
      let same_workflow : later.workflow_definition_id ≡ row.workflow_definition_id =
        ap (λ i. i.workflow_definition_id) (sym same) ∙ keeps.workflow_definition_id in
      let same_key : later.id ≡ row.id = select-key (λ i. i.id) row.id u.instances later h.stored in
      (
        d,
        answers,
        ap (definition_row w) same_workflow ∙ k,
        subst (λ j. IsAtRest d.graph j answers later u) (sym same_key) h,
      )
