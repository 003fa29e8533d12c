-- ===== src/Server/Dispatched.antt =====
-- What becomes of a ticket (crates/server/src/orchestrator.rs, crates/db/src/repositories/tickets.rs).
use servcat.Prelude.{
  false, ◌≡◌, refl, ◌⊎◌, true, Bool-cases, Option-cases, inl, inr, Option, none, some, Result, ok,
  err, length,
}
use servcat.Json.{Json}
use servcat.Model.User.{Uuid, User}
use servcat.Model.Instance.{WorkflowInstance}
use servcat.Model.Catalog.{ServiceCatalogItem}
use servcat.Model.Workflow.{TargetSystem, FieldMapping, WorkflowDefinition}
use servcat.Model.Ticket.{DispatchStatus}
use servcat.Engine.{Answers}
use servcat.Exec.{Exec, expect, ◌>>=◌, map_error}
use servcat.Db.Table.{select}
use servcat.Db.World.{World}
use servcat.Db.Users
use servcat.Db.Catalog
use servcat.Db.Instances
use servcat.Db.Tickets
use servcat.Db.Tickets.{sent_row, failed_row}
use servcat.Connectors.FieldMapping.{RenderError, TemplateContext, render}
use servcat.Connectors.Dispatch.{ConnectorError, DispatchResult}
use servcat.Server.Env.{Env}
use servcat.Server.NewTicket.{
  HandedOver, fresh_id, is_storable, drawn_world, stored_world, marked_over, create_stored,
  create_refused,
}
use servcat.Server.Error.{ApiError, internal, from_db, from_connector}
use servcat.Server.Orchestrator.{db, send, settle_ticket, dispatch_ticket, rendered, connector}

cases : {E A : Type 0} (r : Result E A) → ((e : E) × (r ≡ err e)) ⊎ ((a : A) × (r ≡ ok a))
cases (ok a) = inr (a, refl)
cases (err e) = inl (e, refl)

module _ {V : Type 0} ⦃json : Json V⦄ (env : Env V) (d : WorkflowDefinition V) (id : Uuid)
    (w : World V) (requester : Uuid) (answers : Answers V) where
  -- What the templates of the workflow are rendered with.
  abbrev pub context : User → ServiceCatalogItem → TemplateContext V
  context user item = record {
    answers = json.object answers;
    requester_email = user.email;
    requester_display_name = user.display_name;
    instance_id = env.uuid_text id;
    catalog_item_name = item.name;
  }

  -- A reason for which no ticket is created.
  pub data Missing : Type 0 where
    no_target : d.target_system ≡ none → Missing
    no_mapping : d.field_mapping ≡ none → Missing
    no_connector :
        (target : TargetSystem)
        → d.target_system ≡ some target
        → env.configured target ≡ false
        → Missing
    no_requester : select (λ u. u.id) requester w.users ≡ none → Missing
    no_instance : select (λ i. i.id) id w.instances ≡ none → Missing
    no_item :
        (i : WorkflowInstance V)
        → select (λ i. i.id) id w.instances ≡ some i
        → select (λ j. j.id) i.catalog_item_id w.items ≡ none
        → Missing
    broken_template :
        (mapping : FieldMapping) (user : User) (item : ServiceCatalogItem) (e : RenderError)
        → d.field_mapping ≡ some mapping
        → render env.one_off mapping (context user item) ≡ err e
        → Missing

  -- The target system and the payload of the ticket.
  pub data Ready (target : TargetSystem) (payload : V) : Type 0 where
    ready :
        (mapping : FieldMapping) (user : User) (i : WorkflowInstance V) (item : ServiceCatalogItem)
        → d.target_system ≡ some target
        → env.configured target ≡ true
        → d.field_mapping ≡ some mapping
        → select (λ u. u.id) requester w.users ≡ some user
        → select (λ i. i.id) id w.instances ≡ some i
        → select (λ j. j.id) i.catalog_item_id w.items ≡ some item
        → render env.one_off mapping (context user item) ≡ ok payload
        → Ready target payload

  pub data Dispatching : Result ApiError (Unit {0}) → World V → Type 0 where
    unprepared : Missing → Dispatching (err internal) w
    not_created :
        (target : TargetSystem) (payload : V)
        → Ready target payload
        → is_storable id w ≡ false
        → Dispatching (err internal) (drawn_world w)
    sent :
        (target : TargetSystem) (payload : V) {u : World V} {result : DispatchResult}
        → Ready target payload
        → is_storable id w ≡ true
        → env.reply target (length w.dispatched) payload ≡ ok result
        → HandedOver (stored_world id w target payload) u target payload (fresh_id w) (λ t.
          record t {
            dispatch_status = DispatchStatus.sent;
            external_ticket_id = some result.external_ticket_id;
            external_ticket_url = result.external_ticket_url;
            last_error = none;
            updated_at = w.now;
          })
        → Dispatching (ok tt) u
    failed :
        (target : TargetSystem) (payload : V) {u : World V} {e : ConnectorError}
        → Ready target payload
        → is_storable id w ≡ true
        → env.reply target (length w.dispatched) payload ≡ err e
        → HandedOver (stored_world id w target payload) u target payload (fresh_id w) (λ t.
          record t {
            dispatch_status = DispatchStatus.failed;
            last_error = some (env.error_text e);
            updated_at = w.now;
          })
        → Dispatching (err internal) u

  -- From the creation of the ticket on.
  abbrev hand_in : TargetSystem → V → Exec (World V) ApiError (Unit {0})
  hand_in target payload = db env (Tickets.create id target payload) >>= λ ticket.
      send env target payload >>= λ reply. settle_ticket env ticket.id reply

  hand_in-Dispatching :
      (target : TargetSystem) (payload : V)
      → Ready target payload
      → Dispatching (hand_in target payload w).0 (hand_in target payload w).1
  unfolding ◌>>=◌ map_error send settle_ticket from_connector from_db Tickets.mark_sent
      Tickets.mark_failed Tickets.update_row
  hand_in-Dispatching target payload h = elim (Bool-cases (is_storable id w)) [
    | inr k ↦ rw (create_refused id w target payload k) (not_created target payload h k)
    | inl k ↦ elim (cases (env.reply target (length w.dispatched) payload)) [
      | inl (e, r) ↦
          rw (create_stored id w target payload k, r)
            (failed target payload h k r (
              marked_over target payload (fresh_id w) (failed_row (env.error_text e)) _
                (stored_world id w target payload) (λ q. unfold failed_row in refl)
                (λ q. unfold failed_row in refl)))
      | inr (result, r) ↦
          rw (create_stored id w target payload k, r)
            (sent target payload h k r (
              marked_over target payload (fresh_id w)
                (sent_row result.external_ticket_id result.external_ticket_url) _
                (stored_world id w target payload) (λ q. unfold sent_row in refl)
                (λ q. unfold sent_row in refl)))
    ]
  ]

  -- From the rendering of the payload on, and from the reads on.
  abbrev render_in : TargetSystem → Result RenderError V → Exec (World V) ApiError (Unit {0})
  render_in target r = (λ v. (rendered env r, v)) >>= λ payload. hand_in target payload

  render_in-Dispatching :
      (target : TargetSystem) (mapping : FieldMapping) (user : User) (i : WorkflowInstance V)
      (item : ServiceCatalogItem) (r : Result RenderError V)
      → d.target_system ≡ some target
      → env.configured target ≡ true
      → d.field_mapping ≡ some mapping
      → select (λ u. u.id) requester w.users ≡ some user
      → select (λ i. i.id) id w.instances ≡ some i
      → select (λ j. j.id) i.catalog_item_id w.items ≡ some item
      → render env.one_off mapping (context user item) ≡ r
      → Dispatching (render_in target r w).0 (render_in target r w).1
  unfolding ◌>>=◌
  render_in-Dispatching target mapping user i item (ok payload) h c m e k j r =
      hand_in-Dispatching target payload (ready mapping user i item h c m e k j r)
  render_in-Dispatching target mapping user i item (err x) h c m e k j r =
      unprepared (broken_template mapping user item x m r)

  abbrev read_in : TargetSystem → FieldMapping → Exec (World V) ApiError (Unit {0})
  read_in target mapping = db env (Users.get_by_id requester) >>= λ requester_row.
      expect internal requester_row >>= λ user.
      db env (Instances.get_by_id id) >>= λ instance_found.
      expect internal instance_found >>= λ instance_row.
      db env (Catalog.get_by_id instance_row.catalog_item_id) >>= λ item_row.
      expect internal item_row >>= λ item.
      render_in target (render env.one_off mapping (context user item))

  read_rows :
      (target : TargetSystem) (mapping : FieldMapping)
      → d.target_system ≡ some target
      → env.configured target ≡ true
      → d.field_mapping ≡ some mapping
      → Dispatching (read_in target mapping w).0 (read_in target mapping w).1
  unfolding ◌>>=◌ map_error Users.get_by_id Instances.get_by_id Catalog.get_by_id
  read_rows target mapping h c m = elim (Option-cases (select (λ u. u.id) requester w.users)) [
    | inl e ↦ rw e (unprepared (no_requester e))
    | inr (u, e) ↦ elim (Option-cases (select (λ i. i.id) id w.instances)) [
      | inl k ↦ rw (e, k) (unprepared (no_instance k))
      | inr (i, k) ↦ elim (Option-cases (select (λ j. j.id) i.catalog_item_id w.items)) [
        | inl j ↦ rw (e, k, j) (unprepared (no_item i k j))
        | inr (item, j) ↦
            rw (e, k, j)
              (render_in-Dispatching target mapping u i item
                (render env.one_off mapping (context u item)) h c m e k j refl)
      ]
    ]
  ]

  prepared :
      (o : Option TargetSystem) (m : Option FieldMapping)
      → d.target_system ≡ o
      → d.field_mapping ≡ m
      → let r =
          (expect internal o >>= λ target. expect internal m >>= λ mapping.
          expect internal (connector env target) >>= λ t. read_in t mapping)
            w in
        Dispatching r.0 r.1
  unfolding ◌>>=◌
  prepared none m e k = unprepared (no_target e)
  prepared (some target) none e k = unprepared (no_mapping k)
  prepared (some target) (some mapping) e k = elim (Bool-cases (env.configured target)) [
    | inl c ↦ rw c (read_rows target mapping e c k)
    | inr c ↦ rw c (unprepared (no_connector target e c))
  ]

  -- `dispatch_ticket` fails internally and changes nothing where the target system, the mapping, a
  -- connector, the requester, the instance or the service is missing, or a template is broken.
  -- Otherwise it creates a pending ticket with the rendered payload. Where the database refuses the
  -- ticket it stops there with an internal error; else it hands the payload over once, and marks
  -- this ticket as sent, with the id and the address of the reply, or as failed, with the error's
  -- text, and then returns an internal error. No other ticket and nothing else changes.
  pub dispatch_ticket_lem :
      Dispatching
        (dispatch_ticket env d id requester answers w).0
        (dispatch_ticket env d id requester answers w).1
  unfolding dispatch_ticket ◌>>=◌ map_error Users.get_by_id Instances.get_by_id Catalog.get_by_id
  dispatch_ticket_lem = prepared d.target_system d.field_mapping refl refl
