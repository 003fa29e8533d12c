-- ===== src/Db/Definitions.antt =====
-- crates/db/src/repositories/workflow_definitions.rs. The keys are those of the migrations.
use servcat.Prelude.{
  ◌==◌, String, Bool, false, not, ◌&&◌, any, Option, some, ok, err, if◌then◌else◌,
}
use servcat.Prelude.Int.{pos}
use servcat.Model.User.{Uuid}
use servcat.Model.Workflow.{TargetSystem, FieldMapping, WorkflowGraph, WorkflowDefinition}
use servcat.Prelude.{List, keep}
use servcat.Prelude.Int.{leb_ℤ}
use servcat.Prelude.Sorting.{sort_by, then_by}
use servcat.Exec.{Exec, gets, expect, modify, ◌>>=◌, ◌>>◌}
use servcat.Db.Table.{select, update_where, insert, is_taken}
use servcat.Db.World.{DbError, sqlx, not_found, World, new_v4}

pub record NewWorkflowDefinition (V : Type 0) : Type 0 where
  pub name : String
  pub graph : WorkflowGraph V
  pub field_mapping : Option FieldMapping
  pub target_system : Option TargetSystem

module _ {V : Type 0} where
  unfoldable pub get_by_id : Uuid → Exec (World V) DbError (Option (WorkflowDefinition V))
  get_by_id id = gets (λ w. select (λ d. d.id) id w.definitions)

  unfoldable pub set_published : Uuid → Bool → Exec (World V) DbError (Unit {0})
  set_published id is_published = modify λ w. record w {
    definitions =
        update_where (λ d. d.id == id)
          (λ d. record d { is_published = is_published; updated_at = w.now }) w.definitions;
  }

  -- UNIQUE (name, version), with the equality of names in the database
  abbrev pub is_version_taken :
      (String → String → Bool) → WorkflowDefinition V → List (WorkflowDefinition V) → Bool
  is_version_taken same d rows =
      any
        (λ (e : WorkflowDefinition V).
          same e.name d.name && (leb_ℤ e.version d.version && leb_ℤ d.version e.version))
        rows

  -- The `INSERT`: both keys are new, and the author is there.
  unfoldable pub insert_row :
      (String → String → Bool) → Uuid → WorkflowDefinition V → Exec (World V) DbError (Unit {0})
  unfolding leb_ℤ
  insert_row same created_by d w =
      if not (is_taken (λ e. e.id) d.id w.definitions)
        && not (is_version_taken same d w.definitions)
        && is_taken (λ u. u.id) created_by w.users
      then (ok tt, record w { definitions = insert d w.definitions })
      else (err sqlx, w)

  unfoldable pub create :
      (String → String → Bool)
      → NewWorkflowDefinition V
      → Uuid
      → Exec (World V) DbError (WorkflowDefinition V)
  unfolding get_by_id insert_row new_v4
  create same new created_by = do
    id ← new_v4
    now ← gets (λ w. w.now)
    insert_row same created_by (record {
      id = id;
      name = new.name;
      version = pos 1;
      graph = new.graph;
      field_mapping = new.field_mapping;
      target_system = new.target_system;
      is_published = false;
      created_by = some created_by;
      created_at = now;
      updated_at = now;
    })
    row ← get_by_id id
    expect (not_found "workflow_definition" id) row

  -- `ORDER BY name, version DESC`
  unfoldable pub list :
      (String → String → Bool) → Bool → Exec (World V) DbError (List (WorkflowDefinition V))
  list before published_only = gets (λ w.
      sort_by
        (λ (a : WorkflowDefinition V) (b : WorkflowDefinition V).
          then_by (before a.name b.name) (before b.name a.name) (leb_ℤ b.version a.version))
        (if published_only
          then keep (λ (d : WorkflowDefinition V). d.is_published) w.definitions
          else w.definitions))
