-- ===== src/Seed/Stuck.antt =====
-- A run of the seed where the workflow of a missing service is there
-- (crates/server/src/catalog_seed.rs).
use Prim.Native.String.{◌++◌ as joined}
use servcat.Prelude.{
  ℕ, zero, suc, ◌+◌, String, ◌≡◌, refl, ap, ◌∙◌, Bool, true, false, not, ◌&&◌, any, some, List, [],
  ◌∷◌, ◌++◌, All, err, arith,
}
use servcat.Prelude.Int.{pos, leb_ℤ}
use servcat.Model.User.{Uuid}
use servcat.Model.Workflow.{WorkflowDefinition}
use servcat.Exec.{◌>>=◌, map_error}
use servcat.Db.Table.{select}
use servcat.Db.World.{World, new_v4}
use servcat.Db.Definitions
use servcat.Server.Error.{internal, from_db}
use servcat.Seed.Tickets.{build_graph-IsSound}
use servcat.Seed.Run.{
  SeedItem, SeedSummary, slugs_of, contains, create_workflow, load_item, load_items, run,
}

refused : (a b c : Bool) → b ≡ true → (not a && not b && c) ≡ false
refused true b c h = refl
refused false b c h = ground arith

-- The name of the workflow of an item.
abbrev pub workflow_name : SeedItem → String
workflow_name item = joined item.name " (starter catalog)"

module _ {V : Type 0} (same : String → String → Bool) where
  -- The first version of a workflow of this name is there.
  pub record HasWorkflow (name : String) (w : World V) : Type 0 where
    pub id : Uuid
    pub row : WorkflowDefinition V
    pub stored : select (λ d. d.id) id w.definitions ≡ some row
    pub same_name : same row.name name ≡ true
    pub first_version : row.version ≡ pos 1

  version_taken :
      (name : String) (id : Uuid) (row : WorkflowDefinition V) (rows : List (WorkflowDefinition V))
      → select (λ d. d.id) id rows ≡ some row
      → same row.name name ≡ true
      → row.version ≡ pos 1
      → any (λ e. same e.name name && (leb_ℤ e.version (pos 1) && leb_ℤ (pos 1) e.version)) rows
        ≡ true
  unfolding select leb_ℤ
  version_taken name id row [] h e v = cc
  version_taken name id row (r ∷ rows) h e v = ground (arith, version_taken name id row rows)

module _ {V : Type 0} (same : String → String → Bool) (decimal : ℕ → String)
    (uuid_text : Uuid → String) (created_by : Uuid) where
  -- One UUID is drawn.
  abbrev drawn_once : World V → World V
  drawn_once w = record w { drawn = w.drawn + 1 }

  load_item-fails :
      (index : ℕ) (item : SeedItem) (w : World V)
      → HasWorkflow same (workflow_name item) w
      → load_item same decimal uuid_text created_by index item w ≡ (err internal, drawn_once w)
  unfolding load_item create_workflow Definitions.create Definitions.insert_row new_v4 ◌>>=◌
      map_error from_db
  load_item-fails index item w h =
      let (g, built, sound) =
        build_graph-IsSound {V = V} decimal item.questions item.workflow_pattern in
      rw
        (
          built,
          refused _ _ _ (
              version_taken same (workflow_name item) h.id h.row w.definitions h.stored h.same_name
                h.first_version),
        )
        refl

  drawn-HasWorkflow :
      {name : String} (n : ℕ) (w : World V)
      → HasWorkflow same name w
      → HasWorkflow same name (record w { drawn = n })
  drawn-HasWorkflow n w h = record {
    id = h.id;
    row = h.row;
    stored = h.stored;
    same_name = h.same_name;
    first_version = h.first_version;
  }

  -- The state after so many runs.
  abbrev pub after_runs : List SeedItem → ℕ → World V → World V
  after_runs items zero w = w
  after_runs items (suc n) w =
      (run same decimal uuid_text created_by items (after_runs items n w)).1

  module _ (before after : List SeedItem) (item : SeedItem) where
    load_items-fails :
        (existing : List String) (index : ℕ) (known : List SeedItem) (summary : SeedSummary)
        (w : World V)
        → All (λ i. contains existing i.slug ≡ true) known
        → contains existing item.slug ≡ false
        → HasWorkflow same (workflow_name item) w
        → load_items same decimal uuid_text created_by existing index
            (known ++ item ∷ after)
            summary
            w
          ≡ (err internal, drawn_once w)
    unfolding load_items ◌>>=◌
    load_items-fails existing index [] summary w all missing h =
        rw (missing, load_item-fails index item w h) refl
    load_items-fails existing index (i ∷ known) summary w all missing h =
        rw all.0 (load_items-fails existing (index + 1) known _ w all.1 missing h)

    fails_after :
        (w : World V)
        → All (λ i. contains (slugs_of w.items) i.slug ≡ true) before
        → contains (slugs_of w.items) item.slug ≡ false
        → HasWorkflow same (workflow_name item) w
        → (n : ℕ) → after_runs (before ++ item ∷ after) n w ≡ record w { drawn = w.drawn + n }
    unfolding run ◌>>=◌
    fails_after w all missing h zero = ap (λ n. record w { drawn = n }) (omega arith)
    fails_after w all missing h (suc n) =
        ap (λ v. (run same decimal uuid_text created_by (before ++ item ∷ after) v).1)
          (fails_after w all missing h n)
        ∙ ap (λ r. r.1)
            (load_items-fails (slugs_of w.items) 0 before _ (record w { drawn = w.drawn + n }) all
              missing (drawn-HasWorkflow (w.drawn + n) w h))
        ∙ ap (λ n. record w { drawn = n }) (omega arith)

    -- A run of the seed whose first missing service has a name for which the first version of the
    -- starter workflow is stored already fails with an internal error, and so does every run after
    -- it, however many there are: the runs only draw UUIDs, and the service is never loaded.
    pub run-fails :
        (w : World V)
        → All (λ i. contains (slugs_of w.items) i.slug ≡ true) before
        → contains (slugs_of w.items) item.slug ≡ false
        → HasWorkflow same (workflow_name item) w
        → (n : ℕ)
        → run same decimal uuid_text created_by
            (before ++ item ∷ after)
            (after_runs (before ++ item ∷ after) n w)
          ≡ (err internal, record w { drawn = w.drawn + (n + 1) })
    unfolding run ◌>>=◌
    run-fails w all missing h n =
        ap (run same decimal uuid_text created_by (before ++ item ∷ after))
          (fails_after w all missing h n)
        ∙ load_items-fails (slugs_of w.items) 0 before _ (record w { drawn = w.drawn + n }) all
            missing (drawn-HasWorkflow (w.drawn + n) w h)
        ∙ ap (λ n. (err internal, record w { drawn = n })) (omega arith)
