-- ===== src/Server/NewTicket.antt =====
-- A new ticket, and what is made of it (crates/db/src/repositories/tickets.rs,
-- crates/server/src/orchestrator.rs).
use servcat.Prelude.{
  ◌+◌, Bool, not, ◌&&◌, false, ◌==◌, ◌≡◌, ◌≢◌, refl, ap, ◌∙◌, true, ◌++◌, none, some, [], ◌∷◌, ok,
  err,
}
use servcat.Model.User.{Uuid}
use servcat.Model.Workflow.{TargetSystem}
use servcat.Model.Ticket.{DispatchStatus, Ticket}
use servcat.Exec.{◌>>=◌}
use servcat.Db.Table.{
  select, update_where, insert, is_taken, select-fresh, select-key, select-update_where, own_row,
  other_row,
}
use servcat.Db.World.{sqlx, World, new_v4}
use servcat.Db.Tickets
use servcat.Db.Tickets.{sent_row, failed_row}

free_part : (a b : Bool) → (not a && b) ≡ true → a ≡ false
free_part true b h = cc
free_part false b h = refl

-- `u` is `v` with one payload handed over, and one ticket's row, if it is there, replaced by the
-- row that is expected for it. The other tickets are as before.
pub record HandedOver {V : Type 0} (v u : World V) (target : TargetSystem) (payload : V) (id : Uuid)
    (expected : Ticket V → Ticket V) : Type 0 where
  pub handed : u.dispatched ≡ v.dispatched ++ (target, payload) ∷ []
  pub marked :
      (t : Ticket V)
      → select (λ t. t.id) id v.tickets ≡ some t
      → select (λ t. t.id) id u.tickets ≡ some (expected t)
  pub other_tickets :
      (j : Uuid) → id ≢ j → select (λ t. t.id) j u.tickets ≡ select (λ t. t.id) j v.tickets
  pub rest : u ≡ record v { dispatched = u.dispatched; tickets = u.tickets }

module _ {V : Type 0} where
  abbrev pub marked_world : TargetSystem → V → Uuid → (Ticket V → Ticket V) → World V → World V
  marked_world target payload ticket change v = record v {
    dispatched = v.dispatched ++ (target, payload) ∷ [];
    tickets =
        update_where (λ t. t.id == ticket) (λ t. record (change t) { updated_at = v.now })
          v.tickets;
  }

  pub marked_over :
      (target : TargetSystem) (payload : V) (ticket : Uuid) (change expected : Ticket V → Ticket V)
      (v : World V)
      → ((t : Ticket V) → (change t).id ≡ t.id)
      → ((t : Ticket V) → record (change t) { updated_at = v.now } ≡ expected t)
      → HandedOver v (marked_world target payload ticket change v) target payload ticket expected
  marked_over target payload ticket change expected v same meets = record {
    handed = refl;
    marked = λ t found.
        rw
          (
            select-update_where (λ t. t.id) (λ t. t.id == ticket)
                (λ t. record (change t) { updated_at = v.now }) same ticket v.tickets,
            found,
          )
          (own_row (λ t. t.id) ticket (λ t. record (change t) { updated_at = v.now }) t
              (select-key (λ t. t.id) ticket v.tickets t found)
            ∙ ap some (meets t));
    other_tickets = λ j ne.
        rw
          (select-update_where (λ t. t.id) (λ t. t.id == ticket)
            (λ t. record (change t) { updated_at = v.now }) same j v.tickets)
          (other_row (λ t. t.id) ticket (λ t. record (change t) { updated_at = v.now }) j
            (select (λ t. t.id) j v.tickets) (select-key (λ t. t.id) j v.tickets) ne);
    rest = refl;
  }

module _ {V : Type 0} (w : World V) where
  abbrev pub fresh_id : Uuid
  fresh_id = w.uuids w.drawn

  abbrev pub drawn_world : World V
  drawn_world = record w { drawn = w.drawn + 1 }

module _ {V : Type 0} (id : Uuid) (w : World V) where
  -- The ticket as it is created.
  abbrev pub new_ticket : TargetSystem → V → Ticket V
  new_ticket target payload = record {
    id = fresh_id w;
    workflow_instance_id = id;
    target_system = target;
    rendered_payload_json = payload;
    external_ticket_id = none;
    external_ticket_url = none;
    dispatch_status = DispatchStatus.pending;
    last_error = none;
    created_at = w.now;
    updated_at = w.now;
  }

  -- The database takes the ticket: its key is new, and its instance is there.
  abbrev pub is_storable : Bool
  is_storable =
      not (is_taken (λ t. t.id) (fresh_id w) w.tickets) && is_taken (λ i. i.id) id w.instances

  abbrev pub stored_world : TargetSystem → V → World V
  stored_world target payload = record (drawn_world w) {
    tickets = insert (new_ticket target payload) w.tickets;
  }

  pub create_stored :
      (target : TargetSystem) (payload : V)
      → is_storable ≡ true
      → Tickets.create id target payload w
        ≡ (ok (new_ticket target payload), stored_world target payload)
  unfolding Tickets.create Tickets.insert_row Tickets.get_by_id new_v4 ◌>>=◌
  create_stored target payload c =
      rw (c, select-fresh (λ t. t.id) (new_ticket target payload) w.tickets (free_part _ _ c)) refl

  pub create_refused :
      (target : TargetSystem) (payload : V)
      → is_storable ≡ false
      → Tickets.create id target payload w ≡ (err sqlx, drawn_world w)
  unfolding Tickets.create Tickets.insert_row Tickets.get_by_id new_v4 ◌>>=◌
  create_refused target payload c = rw c refl
