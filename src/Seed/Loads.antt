-- ===== src/Seed/Loads.antt =====
-- The loading of an item and of all items comes to what Seed/Loaded says
-- (crates/server/src/catalog_seed.rs).
use mathlib.Core.List.{append-nil}
use servcat.Prelude.{
  ℕ, ◌+◌, String, ◌≡◌, refl, sym, ap, ◌∙◌, Bool, true, false, not, ◌&&◌, Bool-cases, inl, inr, some,
  List, [], ◌∷◌, ◌++◌, Result, ok, err,
}
use servcat.Prelude.Int.{pos}
use servcat.Model.User.{Uuid}
use servcat.Model.Catalog.{ServiceCatalogItem}
use servcat.Exec.{continue, converted, ◌>>=◌, map_error}
use servcat.Exec.Holds.{Holds, Holds-expect, Holds-map_error, Any, Holds-keeps, Holds-then}
use servcat.Db.Table.{insert, is_taken}
use servcat.Db.World.{DbError, World, new_v4}
use servcat.Db.Catalog
use servcat.Db.Catalog.{deactivated, NewServiceCatalogItem}
use servcat.Db.Definitions
use servcat.Db.Definitions.{NewWorkflowDefinition}
use servcat.Model.Workflow.{WorkflowDefinition}
use servcat.Db.Slugs.{Created, refused, created, first_parts, create_lem, new_row}
use servcat.Server.Error.{ApiError, from_db}
use servcat.Seed.Run.{
  SeedItem, SeedSummary, contains, new_item, db, create_workflow, hide_draft, load_item, load_items,
}
use servcat.Seed.Loaded.{Loaded, update_last, own_slug, Adds, nothing_counted, skip_one, add_one}

module _ {V : Type 0} (same : String → String → Bool) (decimal : ℕ → String)
    (uuid_text : Uuid → String) (created_by : Uuid) where
  abbrev HasRows : List ServiceCatalogItem → World V → Type 0
  HasRows rows v = v.items ≡ rows

  insert_definition-HasRows :
      (rows : List ServiceCatalogItem) (d : WorkflowDefinition V)
      → Holds (HasRows rows) Any (Definitions.insert_row same created_by d)
  unfolding Definitions.insert_row
  insert_definition-HasRows rows d = Holds-keeps _ λ v i.
      elim (Bool-cases (
        not (is_taken (λ e. e.id) d.id v.definitions)
        && not (Definitions.is_version_taken same d v.definitions)
        && is_taken (λ u. u.id) created_by v.users)) [ inl c ↦ rw c i | inr c ↦ rw c i ]

  create_definition-HasRows :
      (rows : List ServiceCatalogItem) (new : NewWorkflowDefinition V)
      → Holds (HasRows rows) Any (Definitions.create same new created_by)
  unfolding Definitions.create Definitions.get_by_id new_v4
  create_definition-HasRows rows new = Holds-then _ _ (Holds-keeps _ (λ v i. i)) λ id.
      Holds-then _ _ (Holds-keeps _ (λ v i. i)) λ now.
        Holds-then _ _
          (insert_definition-HasRows rows (record {
            id = id;
            name = new.name;
            version = pos 1;
            graph = new.graph;
            field_mapping = new.field_mapping;
            target_system = new.target_system;
            is_published = false;
            created_by = some created_by;
            created_at = now;
            updated_at = now;
          }))
          λ u. Holds-then _ _ (Holds-keeps _ (λ v i. i)) λ row. Holds-expect _ row (λ a e. tt)

  create_workflow-HasRows :
      (rows : List ServiceCatalogItem) (item : SeedItem)
      → Holds (HasRows rows) Any (create_workflow same decimal uuid_text created_by item)
  unfolding create_workflow Definitions.set_published
  create_workflow-HasRows rows item = Holds-then _ _ (Holds-expect _ _ (λ a e. tt)) λ graph.
      Holds-then _ _ (Holds-map_error _ _ (create_definition-HasRows rows _)) λ workflow.
        Holds-then _ _ (Holds-map_error _ _ (Holds-keeps _ (λ v i. i)))
          λ u. Holds-keeps _ (λ v i. i)

  -- The run from the reply of the repository on.
  abbrev from_creation :
      Bool → Result DbError ServiceCatalogItem × World V → Result ApiError (Unit {0}) × World V
  from_creation published r =
      let (c, v) = converted (from_db uuid_text) r.0 r.1 in
      continue (hide_draft same decimal uuid_text created_by published) c v

  Created-Adds :
      (new : NewServiceCatalogItem) (slug : String) (w : World V) (published : Bool)
      (r : Result DbError ServiceCatalogItem × World V)
      → new.slug ≡ some slug
      → Created same w new created_by r
      → Adds slug w (from_creation published r)
  unfolding Catalog.deactivate map_error
  Created-Adds new slug w published _ e (refused c) = record {
    extra = [];
    items = sym (append-nil w.items);
    returned = λ h. cc;
  }
  Created-Adds new slug w true _ e (created c slugged) = record {
    extra = new_row same w new created_by ∷ [];
    items = unfold insert in refl;
    returned = λ h. (own_slug new.slug slug e, refl);
  }
  Created-Adds new slug w false _ e (created c slugged) = record {
    extra = deactivated w.now (new_row same w new created_by) ∷ [];
    items =
        unfold deactivated in
        unfold insert in
        update_last (λ i. i.id) (deactivated w.now) (new_row same w new created_by) w.items
          (first_parts _ _ _ _ c).0;
    returned = λ h. (unfold deactivated in own_slug new.slug slug e, refl);
  }

  Adds-from :
      (slug : String) (w v : World V) (r : Result ApiError (Unit {0}) × World V)
      → v.items ≡ w.items
      → Adds slug v r
      → Adds slug w r
  Adds-from slug w v r same_items a = record {
    extra = a.extra;
    items = a.items ∙ ap (λ l. l ++ a.extra) same_items;
    returned = a.returned;
  }

  load_from :
      (index : ℕ) (item : SeedItem) (w : World V) (r : Result ApiError Uuid) (v : World V)
      → v.items ≡ w.items
      → Adds item.slug w (
          continue
            (λ workflow_id.
              db same decimal uuid_text created_by
                (Catalog.create same (new_item index item workflow_id) created_by)
              >>= hide_draft same decimal uuid_text created_by item.published)
            r
            v)
  unfolding ◌>>=◌ map_error
  load_from index item w (err e) v h = record {
    extra = [];
    items = h ∙ sym (append-nil w.items);
    returned = λ k. cc;
  }
  load_from index item w (ok workflow_id) v h = Adds-from item.slug w v _ h (
      Created-Adds (new_item index item workflow_id) item.slug v item.published _ refl
        (create_lem same v (new_item index item workflow_id) created_by))

  load_item-Adds :
      (index : ℕ) (item : SeedItem) (w : World V)
      → Adds item.slug w (load_item same decimal uuid_text created_by index item w)
  unfolding load_item ◌>>=◌
  load_item-Adds index item w =
      load_from index item w (create_workflow same decimal uuid_text created_by item w).0
        (create_workflow same decimal uuid_text created_by item w).1
        ((create_workflow-HasRows w.items item).at w refl).0

  pub load_items-Loaded :
      (existing : List String) (index : ℕ) (items : List SeedItem) (before : SeedSummary)
      (w : World V)
      → Loaded existing items before w
          (load_items same decimal uuid_text created_by existing index items before w)
  unfolding load_items ◌>>=◌
  load_items-Loaded existing index [] before w = record {
    extra = [];
    kept = sym (append-nil w.items);
    known = λ s h. tt;
    counted = λ s h. nothing_counted before s h;
  }
  load_items-Loaded existing index (item ∷ items) before w =
      elim (Bool-cases (contains existing item.slug)) [
        | inl c ↦ rw c (
            skip_one existing item items before w _ c (
              load_items-Loaded existing (index + 1) items
                (record before {
                  skipped = before.skipped + 1;
                  skipped_names = before.skipped_names ++ item.name ∷ [];
                })
                w))
        | inr c ↦ rw c (
            add_one existing item items before w
              (load_items same decimal uuid_text created_by existing (index + 1) items
                (record before { added = before.added + 1 }))
              (load_item same decimal uuid_text created_by index item w).0
              (load_item same decimal uuid_text created_by index item w).1
              (load_item-Adds index item w)
              (λ v.
                load_items-Loaded existing (index + 1) items
                  (record before { added = before.added + 1 }) v))
      ]
