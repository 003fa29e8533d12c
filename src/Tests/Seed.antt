-- ===== src/Tests/Seed.antt =====
-- The theorems of the starter catalog, at an item with two questions (crates/server/src/catalog_seed.rs).
use servcat.Prelude.Int.{pos}
use servcat.Model.Catalog.{TargetUnit}
use servcat.Seed.Run.{SeedItem, create_workflow, run}
use servcat.Seed.Stuck.{HasWorkflow, after_runs, run-fails}
use servcat.Exec.{◌>>=◌, map_error}
use servcat.Db.Table.{select, update_where, insert}
use servcat.Db.World.{World, new_v4}
use servcat.Db.Definitions
use servcat.Server.Error.{internal}
use servcat.Seed.Once.{Seeded, run-Seeded}
use servcat.Prelude.{◌+◌, false, ◌=ₛ◌, ◌≡◌, refl, true, some, List, [], ◌∷◌, err}
use servcat.Json.Sample.{Sample, sample_json}
use servcat.Model.Workflow.{InputType, WorkflowGraph}
use servcat.Seed.Graphs.{SeedQuestion, security_approval_ticket, build_graph}
use servcat.Seed.Valid.{IsSound}
use servcat.Seed.Tickets.{build_graph-IsSound}
use servcat.Tests.Data.{world}

abbrev questions : List SeedQuestion
questions =
    (record {
      field_key = "what";
      label = "What?";
      input_type = InputType.text;
      required = true;
      options = [];
    })
    ∷ (record {
      field_key = "why";
      label = "Why?";
      input_type = InputType.text_area;
      required = true;
      options = [];
    })
    ∷ []

build_graph-IsSound_example :
    (g : WorkflowGraph Sample) × (build_graph (λ n. "n") security_approval_ticket questions
      ≡ some g)
    × IsSound g
build_graph-IsSound_example = build_graph-IsSound (λ n. "n") questions security_approval_ticket

abbrev printer : SeedItem
printer = record {
  slug = "printer";
  name = "Printer";
  category = "Printing";
  icon = "printer";
  summary = "A printer";
  description = "A printer near the desk";
  included = [];
  not_included = [];
  needed = [];
  keywords = "paper" ∷ [];
  approval_label = "None";
  workflow_pattern = security_approval_ticket;
  target_value = pos 3;
  target_unit = TargetUnit.business_days;
  published = false;
  questions = questions;
}

run-Seeded_example :
    Seeded
      (λ a b. a =ₛ b)
      (λ n. "n")
      (λ id. "a UUID")
      2
      (printer ∷ [])
      world
      (run (λ a b. a =ₛ b) (λ n. "n") (λ id. "a UUID") 2 (printer ∷ []) world)
run-Seeded_example = run-Seeded (λ a b. a =ₛ b) (λ n. "n") (λ id. "a UUID") 2 (printer ∷ []) world

-- The first run was cut off once it had created the workflow of the printer.
abbrev cut_off : World Sample
cut_off = (create_workflow (λ a b. a =ₛ b) (λ n. "n") (λ id. "a UUID") 2 printer world).1

cut_off-HasWorkflow : HasWorkflow (λ a b. a =ₛ b) "Printer (starter catalog)" cut_off
unfolding create_workflow Definitions.create Definitions.insert_row Definitions.get_by_id
    Definitions.set_published new_v4 ◌>>=◌ map_error select insert build_graph update_where
cut_off-HasWorkflow = record {
  id = world.uuids world.drawn;
  row = _;
  stored = refl;
  same_name = refl;
  first_version = refl;
}

run-fails_example :
    run
      (λ a b. a =ₛ b)
      (λ n. "n")
      (λ id. "a UUID")
      2
      (printer ∷ [])
      (after_runs (λ a b. a =ₛ b) (λ n. "n") (λ id. "a UUID") 2 (printer ∷ []) 3 cut_off)
    ≡ (err internal, record cut_off { drawn = cut_off.drawn + 4 })
unfolding create_workflow Definitions.create Definitions.insert_row Definitions.get_by_id
    Definitions.set_published new_v4 ◌>>=◌ map_error select insert build_graph update_where
run-fails_example =
    run-fails (λ a b. a =ₛ b) (λ n. "n") (λ id. "a UUID") 2 [] [] printer cut_off tt refl
      cut_off-HasWorkflow 3
