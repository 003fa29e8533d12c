-- ===== src/History/Evolves.antt =====
-- The state of the server before and after: what of it stays (crates/db/src, crates/server/src).
use mathlib.Core.List.{append_assoc, append-nil}
use servcat.Prelude.{◌≡◌, refl, sym, ◌∙◌, ap, false, List, [], ◌∷◌, ◌++◌, arith}
use servcat.Model.Instance.{WorkflowInstance}
use servcat.Model.Approval.{PendingApproval, is_pending}
use servcat.Model.Ticket.{Ticket}
use servcat.Exec.Steps.{IsPreorder}
use servcat.Db.World.{World}
use servcat.History.Rows.{RowsEvolve, RowsEvolve-refl, RowsEvolve-trans}

-- An approval keeps whom, what and until when it asks; once decided it keeps everything.
pub record ApprovalKeeps (a b : PendingApproval) : Type 0 where
  pub id : b.id ≡ a.id
  pub workflow_instance_id : b.workflow_instance_id ≡ a.workflow_instance_id
  pub step_id : b.step_id ≡ a.step_id
  pub approver_user_id : b.approver_user_id ≡ a.approver_user_id
  pub expires_at : b.expires_at ≡ a.expires_at
  pub created_at : b.created_at ≡ a.created_at
  pub final : is_pending a.status ≡ false → b ≡ a

pub record InstanceKeeps {V : Type 0} (a b : WorkflowInstance V) : Type 0 where
  pub id : b.id ≡ a.id
  pub workflow_definition_id : b.workflow_definition_id ≡ a.workflow_definition_id
  pub catalog_item_id : b.catalog_item_id ≡ a.catalog_item_id
  pub requester_user_id : b.requester_user_id ≡ a.requester_user_id
  pub created_at : b.created_at ≡ a.created_at

pub record TicketKeeps {V : Type 0} (a b : Ticket V) : Type 0 where
  pub id : b.id ≡ a.id
  pub workflow_instance_id : b.workflow_instance_id ≡ a.workflow_instance_id
  pub target_system : b.target_system ≡ a.target_system
  pub rendered_payload_json : b.rendered_payload_json ≡ a.rendered_payload_json
  pub created_at : b.created_at ≡ a.created_at

-- A log that only grows.
pub record Extends {A : Type 0} (xs ys : List A) : Type 0 where
  pub more : List A
  pub grown : ys ≡ xs ++ more

pub record Evolves {V : Type 0} (w v : World V) : Type 0 where
  pub now : v.now ≡ w.now
  pub users : v.users ≡ w.users
  pub items : v.items ≡ w.items
  pub definitions : v.definitions ≡ w.definitions
  pub approvals : RowsEvolve (λ a. a.id) ApprovalKeeps w.approvals v.approvals
  pub instances : RowsEvolve (λ i. i.id) InstanceKeeps w.instances v.instances
  pub tickets : RowsEvolve (λ t. t.id) TicketKeeps w.tickets v.tickets
  pub notified : Extends w.notified v.notified
  pub dispatched : Extends w.dispatched v.dispatched

pub ApprovalKeeps-refl : (a : PendingApproval) → ApprovalKeeps a a
ApprovalKeeps-refl a = ground arith

pub ApprovalKeeps-trans :
    (a b c : PendingApproval) → ApprovalKeeps a b → ApprovalKeeps b c → ApprovalKeeps a c
ApprovalKeeps-trans a b c h k = record {
  id = k.id ∙ h.id;
  workflow_instance_id = k.workflow_instance_id ∙ h.workflow_instance_id;
  step_id = k.step_id ∙ h.step_id;
  approver_user_id = k.approver_user_id ∙ h.approver_user_id;
  expires_at = k.expires_at ∙ h.expires_at;
  created_at = k.created_at ∙ h.created_at;
  final =
      λ closed. k.final (ap (λ x. is_pending x.status) (h.final closed) ∙ closed) ∙ h.final closed;
}

module _ {V : Type 0} where
  pub InstanceKeeps-refl : (a : WorkflowInstance V) → InstanceKeeps a a
  InstanceKeeps-refl a = ground arith

  pub InstanceKeeps-trans :
      (a b c : WorkflowInstance V) → InstanceKeeps a b → InstanceKeeps b c → InstanceKeeps a c
  InstanceKeeps-trans a b c h k = record {
    id = k.id ∙ h.id;
    workflow_definition_id = k.workflow_definition_id ∙ h.workflow_definition_id;
    catalog_item_id = k.catalog_item_id ∙ h.catalog_item_id;
    requester_user_id = k.requester_user_id ∙ h.requester_user_id;
    created_at = k.created_at ∙ h.created_at;
  }

  pub TicketKeeps-refl : (a : Ticket V) → TicketKeeps a a
  TicketKeeps-refl a = ground arith

  pub TicketKeeps-trans : (a b c : Ticket V) → TicketKeeps a b → TicketKeeps b c → TicketKeeps a c
  TicketKeeps-trans a b c h k = record {
    id = k.id ∙ h.id;
    workflow_instance_id = k.workflow_instance_id ∙ h.workflow_instance_id;
    target_system = k.target_system ∙ h.target_system;
    rendered_payload_json = k.rendered_payload_json ∙ h.rendered_payload_json;
    created_at = k.created_at ∙ h.created_at;
  }

module _ {A : Type 0} where
  pub Extends-refl : (xs : List A) → Extends xs xs
  Extends-refl xs = record { more = []; grown = sym (append-nil xs) }

  pub Extends-snoc : (xs : List A) (x : A) → Extends xs (xs ++ x ∷ [])
  Extends-snoc xs x = record { more = x ∷ []; grown = refl }

  pub Extends-trans : (xs ys zs : List A) → Extends xs ys → Extends ys zs → Extends xs zs
  Extends-trans xs ys zs h k = record {
    more = h.more ++ k.more;
    grown = k.grown ∙ ap (λ l. l ++ k.more) h.grown ∙ append_assoc xs h.more k.more;
  }

module _ {V : Type 0} where
  pub Evolves-refl : (w : World V) → Evolves w w
  Evolves-refl w = record {
    now = refl;
    users = refl;
    items = refl;
    definitions = refl;
    approvals = RowsEvolve-refl (λ a. a.id) ApprovalKeeps ApprovalKeeps-refl w.approvals;
    instances = RowsEvolve-refl (λ i. i.id) InstanceKeeps InstanceKeeps-refl w.instances;
    tickets = RowsEvolve-refl (λ t. t.id) TicketKeeps TicketKeeps-refl w.tickets;
    notified = Extends-refl w.notified;
    dispatched = Extends-refl w.dispatched;
  }

  pub Evolves-trans : (u v w : World V) → Evolves u v → Evolves v w → Evolves u w
  Evolves-trans u v w h k = record {
    now = k.now ∙ h.now;
    users = k.users ∙ h.users;
    items = k.items ∙ h.items;
    definitions = k.definitions ∙ h.definitions;
    approvals =
        RowsEvolve-trans (λ a. a.id) ApprovalKeeps ApprovalKeeps-trans u.approvals v.approvals
          w.approvals h.approvals k.approvals;
    instances =
        RowsEvolve-trans (λ i. i.id) InstanceKeeps InstanceKeeps-trans u.instances v.instances
          w.instances h.instances k.instances;
    tickets =
        RowsEvolve-trans (λ t. t.id) TicketKeeps TicketKeeps-trans u.tickets v.tickets w.tickets
          h.tickets k.tickets;
    notified = Extends-trans u.notified v.notified w.notified h.notified k.notified;
    dispatched = Extends-trans u.dispatched v.dispatched w.dispatched h.dispatched k.dispatched;
  }

  pub Evolves-order : IsPreorder (Evolves {V = V})
  Evolves-order = record { reflexive = Evolves-refl; transitive = Evolves-trans }
