-- ===== src/Db/Tickets.antt =====
-- crates/db/src/repositories/tickets.rs. The foreign key is that of the migrations.
use servcat.Prelude.{String, ◌==◌, not, ◌&&◌, Option, none, some, ok, err, if◌then◌else◌}
use servcat.Model.User.{Uuid}
use servcat.Model.Workflow.{TargetSystem}
use servcat.Model.Ticket.{DispatchStatus, pending, sent, failed, Ticket}
use servcat.Prelude.{List, [], ◌∷◌, keep}
use servcat.Prelude.Int.{leb_ℤ}
use servcat.Prelude.Sorting.{sort_by}
use servcat.Exec.{Exec, gets, expect, modify, ◌>>=◌, ◌>>◌}
use servcat.Db.Table.{select, update_where, insert, is_taken}
use servcat.Db.World.{DbError, sqlx, not_found, World, new_v4}

module _ {V : Type 0} where
  unfoldable pub get_by_id : Uuid → Exec (World V) DbError (Option (Ticket V))
  get_by_id id = gets (λ w. select (λ t. t.id) id w.tickets)

  unfoldable pub insert_row : Ticket V → Exec (World V) DbError (Unit {0})
  insert_row r w =
      if not (is_taken (λ t. t.id) r.id w.tickets)
        && is_taken (λ i. i.id) r.workflow_instance_id w.instances
      then (ok tt, record w { tickets = insert r w.tickets })
      else (err sqlx, w)

  unfoldable pub create : Uuid → TargetSystem → V → Exec (World V) DbError (Ticket V)
  unfolding get_by_id insert_row new_v4
  create instance_id target_system payload = do
    id ← new_v4
    now ← gets (λ w. w.now)
    insert_row (record {
      id = id;
      workflow_instance_id = instance_id;
      target_system = target_system;
      rendered_payload_json = payload;
      external_ticket_id = none;
      external_ticket_url = none;
      dispatch_status = pending;
      last_error = none;
      created_at = now;
      updated_at = now;
    })
    row ← get_by_id id
    expect (not_found "ticket" id) row

  -- UPDATE tickets SET .. WHERE id = ?
  unfoldable pub update_row : Uuid → (Ticket V → Ticket V) → Exec (World V) DbError (Unit {0})
  update_row id f = modify λ w. record w {
    tickets = update_where (λ t. t.id == id) (λ t. record (f t) { updated_at = w.now }) w.tickets;
  }

  -- The columns that `mark_sent` and `mark_failed` write.
  unfoldable pub sent_row : String → Option String → Ticket V → Ticket V
  sent_row external_id url t = record t {
    dispatch_status = sent;
    external_ticket_id = some external_id;
    external_ticket_url = url;
    last_error = none;
  }

  unfoldable pub failed_row : String → Ticket V → Ticket V
  failed_row error t = record t { dispatch_status = failed; last_error = some error }

  unfoldable pub mark_sent : Uuid → String → Option String → Exec (World V) DbError (Unit {0})
  unfolding update_row
  mark_sent id external_id url = update_row id (sent_row external_id url)

  unfoldable pub mark_failed : Uuid → String → Exec (World V) DbError (Unit {0})
  unfolding update_row
  mark_failed id error = update_row id (failed_row error)

  unfoldable pub set_dispatch_status : Uuid → DispatchStatus → Exec (World V) DbError (Unit {0})
  unfolding update_row
  set_dispatch_status id status = update_row id (λ t. record t { dispatch_status = status })

  abbrev first_of : List (Ticket V) → Option (Ticket V)
  first_of [] = none
  first_of (t ∷ rest) = some t

  -- `ORDER BY created_at DESC LIMIT 1`; of the same second, the first row of the table.
  unfoldable pub get_by_instance_id : Uuid → Exec (World V) DbError (Option (Ticket V))
  get_by_instance_id workflow_instance_id = gets (λ w. first_of (
      sort_by (λ (a : Ticket V) (b : Ticket V). leb_ℤ b.created_at a.created_at)
        (keep (λ (t : Ticket V). t.workflow_instance_id == workflow_instance_id) w.tickets)))
