-- ===== src/History/Repositories.antt =====
-- Every query of the repositories evolves the state (crates/db/src/repositories).
use servcat.Prelude.{
  String, ◌==◌, ◌≡◌, refl, Bool, true, false, Option, ◌+◌, Result, arith, if◌then◌else◌,
}
use servcat.Json.{Json}
use servcat.Model.User.{Uuid, Timestamp, Role}
use servcat.Model.Workflow.{TargetSystem}
use servcat.Model.Instance.{InstanceStatus, WorkflowInstance}
use servcat.Model.Approval.{ApprovalStatus, PendingApproval}
use servcat.Model.Ticket.{Ticket}
use servcat.Exec.{Exec, ◌>>=◌}
use servcat.Exec.Steps.{Steps}
use servcat.Db.Table.{insert, update_where}
use servcat.Db.World.{World, new_v4}
use servcat.Db.Users
use servcat.Db.Catalog
use servcat.Db.Definitions
use servcat.Db.Instances
use servcat.Db.Approvals
use servcat.Db.Tickets
use servcat.History.Rows.{RowsEvolve-insert, RowsEvolve-update_where}
use servcat.History.Evolves.{
  ApprovalKeeps, ApprovalKeeps-refl, InstanceKeeps, InstanceKeeps-refl, TicketKeeps,
  TicketKeeps-refl, Evolves, Evolves-refl,
}
use servcat.History.Writes.{
  evolve_rules, evolve_approvals, evolve_instances, evolve_tickets, evolve_drawn,
}

-- an insert that its constraints refuse changes nothing
insert_if :
    {V E : Type 0} (b : Bool) (w v : World V) (x y : Result E (Unit {0}))
    → Evolves w v
    → let r : Result E (Unit {0}) × World V = if b then (x, v) else (y, w) in Evolves w r.1
insert_if true w v x y h = h
insert_if false w v x y h = Evolves-refl w

decided-Keeps :
    (id : Uuid) (status : ApprovalStatus) (comment : Option String) (now : Timestamp)
    (a : PendingApproval)
    → Approvals.is_open id a ≡ true
    → ApprovalKeeps a (Approvals.decided status comment now a)
unfolding Approvals.is_open Approvals.decided
decided-Keeps id status comment now a h = ground arith

module _ {V : Type 0} where
  abbrev Keeping : {E A : Type 0} → Exec (World V) E A → Type 0
  Keeping m = Steps Evolves m

  new_v4-Evolves : {E : Type 0} → Keeping (new_v4 {E = E})
  unfolding new_v4
  new_v4-Evolves = record { at = λ w. evolve_drawn w (w.drawn + 1) }

  pub Users_get-Evolves : (id : Uuid) → Keeping (Users.get_by_id id)
  unfolding Users.get_by_id
  Users_get-Evolves id = record { at = Evolves-refl }

  pub Users_list-Evolves :
      (before : String → String → Bool) (role : Role) (department : Uuid)
      → Keeping (Users.list_active_by_role_in_department before role department)
  unfolding Users.list_active_by_role_in_department
  Users_list-Evolves before role department = record { at = Evolves-refl }

  pub Catalog_get-Evolves : (id : Uuid) → Keeping (Catalog.get_by_id id)
  unfolding Catalog.get_by_id
  Catalog_get-Evolves id = record { at = Evolves-refl }

  pub Definitions_get-Evolves : (id : Uuid) → Keeping (Definitions.get_by_id id)
  unfolding Definitions.get_by_id
  Definitions_get-Evolves id = record { at = Evolves-refl }

  pub Instances_get-Evolves : (id : Uuid) → Keeping (Instances.get_by_id id)
  unfolding Instances.get_by_id
  Instances_get-Evolves id = record { at = Evolves-refl }

  pub Approvals_get-Evolves : (id : Uuid) → Keeping (Approvals.get_by_id id)
  unfolding Approvals.get_by_id
  Approvals_get-Evolves id = record { at = Evolves-refl }

  pub Approvals_expired-Evolves : Keeping Approvals.list_expired
  unfolding Approvals.list_expired
  Approvals_expired-Evolves = record { at = Evolves-refl }

  Instances_insert-Evolves : (r : WorkflowInstance V) → Keeping (Instances.insert_row r)
  unfolding Instances.insert_row
  Instances_insert-Evolves r = record {
    at = λ w.
        insert_if _ w (record w { instances = insert r w.instances }) _ _
          (evolve_instances w (insert r w.instances)
            (RowsEvolve-insert (λ i. i.id) InstanceKeeps InstanceKeeps-refl r w.instances));
  }

  Approvals_insert-Evolves : (r : PendingApproval) → Keeping (Approvals.insert_row r)
  unfolding Approvals.insert_row
  Approvals_insert-Evolves r = record {
    at = λ w.
        insert_if _ w (record w { approvals = insert r w.approvals }) _ _
          (evolve_approvals w (insert r w.approvals)
            (RowsEvolve-insert (λ a. a.id) ApprovalKeeps ApprovalKeeps-refl r w.approvals));
  }

  Tickets_insert-Evolves : (r : Ticket V) → Keeping (Tickets.insert_row r)
  unfolding Tickets.insert_row
  Tickets_insert-Evolves r = record {
    at = λ w.
        insert_if _ w (record w { tickets = insert r w.tickets }) _ _
          (evolve_tickets w (insert r w.tickets)
            (RowsEvolve-insert (λ t. t.id) TicketKeeps TicketKeeps-refl r w.tickets));
  }

  progressed-Keeps :
      (step : String) (answers : V) (status : InstanceStatus) (now : Timestamp)
      (i : WorkflowInstance V)
      → InstanceKeeps i (Instances.progressed step answers status now i)
  unfolding Instances.progressed
  progressed-Keeps step answers status now i = ground arith

  pub save_progress-Evolves :
      (id : Uuid) (step : String) (answers : V) (status : InstanceStatus)
      → Keeping (Instances.save_progress id step answers status)
  unfolding Instances.save_progress ◌>>=◌
  save_progress-Evolves id step answers status = record {
    at = λ w.
        evolve_instances w
          (update_where (λ i. i.id == id) (Instances.progressed step answers status w.now)
            w.instances)
          (RowsEvolve-update_where (λ i. i.id) InstanceKeeps InstanceKeeps-refl (λ i. i.id == id)
            (Instances.progressed step answers status w.now)
            (λ i. (progressed-Keeps step answers status w.now i).id)
            (λ i _. progressed-Keeps step answers status w.now i) w.instances);
  }

  pub decide-Evolves :
      (id : Uuid) (status : ApprovalStatus) (comment : Option String)
      → Keeping (Approvals.decide id status comment)
  unfolding Approvals.decide
  decide-Evolves id status comment = record {
    at = λ w.
        evolve_approvals w
          (update_where (Approvals.is_open id) (Approvals.decided status comment w.now) w.approvals)
          (RowsEvolve-update_where (λ a. a.id) ApprovalKeeps ApprovalKeeps-refl
            (Approvals.is_open id) (Approvals.decided status comment w.now)
            (λ a. unfold Approvals.decided in refl)
            (λ a open_a. decided-Keeps id status comment w.now a open_a) w.approvals);
  }

  update_ticket-Evolves :
      (id : Uuid) (f : Ticket V → Ticket V)
      → ((t : Ticket V) → TicketKeeps t (f t))
      → Keeping (Tickets.update_row id f)
  unfolding Tickets.update_row
  update_ticket-Evolves id f keeps = record {
    at = λ w.
        evolve_tickets w
          (update_where (λ t. t.id == id) (λ t. record (f t) { updated_at = w.now }) w.tickets)
          (RowsEvolve-update_where (λ t. t.id) TicketKeeps TicketKeeps-refl (λ t. t.id == id)
            (λ t. record (f t) { updated_at = w.now }) (λ t. (keeps t).id)
            (λ t _. stamped t (f t) w.now (keeps t)) w.tickets);
  }
    where
      stamped :
          (t u : Ticket V) (now : Timestamp)
          → TicketKeeps t u
          → TicketKeeps t (record u { updated_at = now })
      stamped t u now k = record {
        id = k.id;
        workflow_instance_id = k.workflow_instance_id;
        target_system = k.target_system;
        rendered_payload_json = k.rendered_payload_json;
        created_at = k.created_at;
      }

  sent_row-Keeps :
      (external_id : String) (url : Option String) (t : Ticket V)
      → TicketKeeps t (Tickets.sent_row external_id url t)
  unfolding Tickets.sent_row
  sent_row-Keeps external_id url t = ground arith

  failed_row-Keeps : (error : String) (t : Ticket V) → TicketKeeps t (Tickets.failed_row error t)
  unfolding Tickets.failed_row
  failed_row-Keeps error t = ground arith

  pub mark_sent-Evolves :
      (id : Uuid) (external_id : String) (url : Option String)
      → Keeping (Tickets.mark_sent id external_id url)
  unfolding Tickets.mark_sent
  mark_sent-Evolves id external_id url =
      update_ticket-Evolves id (Tickets.sent_row external_id url)
        (λ t. sent_row-Keeps external_id url t)

  pub mark_failed-Evolves : (id : Uuid) (error : String) → Keeping (Tickets.mark_failed id error)
  unfolding Tickets.mark_failed
  mark_failed-Evolves id error =
      update_ticket-Evolves id (Tickets.failed_row error) (λ t. failed_row-Keeps error t)

  pub Approvals_create-Evolves :
      (instance_id : Uuid) (step_id : String) (approver : Uuid) (expires_at : Option Timestamp)
      → Keeping (Approvals.create instance_id step_id approver expires_at)
  unfolding Approvals.create
  Approvals_create-Evolves instance_id step_id approver expires_at =
      search (evolve_rules, new_v4-Evolves, Approvals_insert-Evolves)

  pub Tickets_create-Evolves :
      (instance_id : Uuid) (target : TargetSystem) (payload : V)
      → Keeping (Tickets.create instance_id target payload)
  unfolding Tickets.create
  Tickets_create-Evolves instance_id target payload =
      search (evolve_rules, new_v4-Evolves, Tickets_insert-Evolves) depth 7

pub Instances_create-Evolves :
    {V : Type 0} ⦃json : Json V⦄ (definition item requester : Uuid) (entry_step_id : String)
    → Steps Evolves (Instances.create ⦃json = json⦄ definition item requester entry_step_id)
unfolding Instances.create
Instances_create-Evolves definition item requester entry_step_id =
    search (evolve_rules, new_v4-Evolves, Instances_insert-Evolves) depth 7
