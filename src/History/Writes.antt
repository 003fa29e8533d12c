-- ===== src/History/Writes.antt =====
-- What one single write does to the state of the server, and the rules by which runs evolve it
-- (crates/db/src/repositories).
use servcat.Prelude.{ℕ, Bool, Option, List, [], ◌∷◌, ◌++◌, Result, if◌then◌else◌}
use servcat.Model.Workflow.{TargetSystem}
use servcat.Model.Instance.{WorkflowInstance}
use servcat.Model.Approval.{PendingApproval}
use servcat.Model.Ticket.{Ticket}
use servcat.Exec.{Exec, pure, fail, gets, expect, ◌>>=◌, map_error, catch}
use servcat.Exec.Steps.{
  Steps, Steps-pure, Steps-fail, Steps-gets, Steps-expect, Steps-if, Steps-bind, Steps-map_error,
  Steps-catch,
}
use servcat.Db.World.{Notification, World}
use servcat.History.Rows.{RowsEvolve}
use servcat.History.Evolves.{
  ApprovalKeeps, InstanceKeeps, TicketKeeps, Evolves, Extends-snoc, Evolves-refl, Evolves-order,
}

module _ {V : Type 0} (w : World V) where
  -- A write to one part of the state evolves it as that part does.
  pub evolve_approvals :
      (rows : List PendingApproval)
      → RowsEvolve (λ a. a.id) ApprovalKeeps w.approvals rows
      → Evolves w (record w { approvals = rows })
  evolve_approvals rows h = record {
    now = kept.now;
    users = kept.users;
    items = kept.items;
    definitions = kept.definitions;
    approvals = h;
    instances = kept.instances;
    tickets = kept.tickets;
    notified = kept.notified;
    dispatched = kept.dispatched;
  }
    where
      kept : Evolves w w
      kept = Evolves-refl w

  pub evolve_instances :
      (rows : List (WorkflowInstance V))
      → RowsEvolve (λ i. i.id) InstanceKeeps w.instances rows
      → Evolves w (record w { instances = rows })
  evolve_instances rows h = record {
    now = kept.now;
    users = kept.users;
    items = kept.items;
    definitions = kept.definitions;
    approvals = kept.approvals;
    instances = h;
    tickets = kept.tickets;
    notified = kept.notified;
    dispatched = kept.dispatched;
  }
    where
      kept : Evolves w w
      kept = Evolves-refl w

  pub evolve_tickets :
      (rows : List (Ticket V))
      → RowsEvolve (λ t. t.id) TicketKeeps w.tickets rows
      → Evolves w (record w { tickets = rows })
  evolve_tickets rows h = record {
    now = kept.now;
    users = kept.users;
    items = kept.items;
    definitions = kept.definitions;
    approvals = kept.approvals;
    instances = kept.instances;
    tickets = h;
    notified = kept.notified;
    dispatched = kept.dispatched;
  }
    where
      kept : Evolves w w
      kept = Evolves-refl w

  pub evolve_notified :
      (n : Notification) → Evolves w (record w { notified = w.notified ++ n ∷ [] })
  evolve_notified n = record {
    now = kept.now;
    users = kept.users;
    items = kept.items;
    definitions = kept.definitions;
    approvals = kept.approvals;
    instances = kept.instances;
    tickets = kept.tickets;
    notified = Extends-snoc w.notified n;
    dispatched = kept.dispatched;
  }
    where
      kept : Evolves w w
      kept = Evolves-refl w

  pub evolve_dispatched :
      (d : TargetSystem × V) → Evolves w (record w { dispatched = w.dispatched ++ d ∷ [] })
  evolve_dispatched d = record {
    now = kept.now;
    users = kept.users;
    items = kept.items;
    definitions = kept.definitions;
    approvals = kept.approvals;
    instances = kept.instances;
    tickets = kept.tickets;
    notified = kept.notified;
    dispatched = Extends-snoc w.dispatched d;
  }
    where
      kept : Evolves w w
      kept = Evolves-refl w

  pub evolve_drawn : (n : ℕ) → Evolves w (record w { drawn = n })
  evolve_drawn n = record {
    now = kept.now;
    users = kept.users;
    items = kept.items;
    definitions = kept.definitions;
    approvals = kept.approvals;
    instances = kept.instances;
    tickets = kept.tickets;
    notified = kept.notified;
    dispatched = kept.dispatched;
  }
    where
      kept : Evolves w w
      kept = Evolves-refl w

-- The rules of `Steps` at this relation.
module _ {V : Type 0} where
  pub pure-Evolves : {E A : Type 0} (a : A) → Steps (Evolves {V = V}) (pure {E = E} a)
  pure-Evolves = Steps-pure Evolves-order

  pub fail-Evolves : {E A : Type 0} (e : E) → Steps (Evolves {V = V}) (fail {A = A} e)
  fail-Evolves = Steps-fail Evolves-order

  pub gets-Evolves : {E A : Type 0} (f : World V → A) → Steps Evolves (gets {E = E} f)
  gets-Evolves = Steps-gets Evolves-order

  pub expect-Evolves : {E A : Type 0} (e : E) (o : Option A) → Steps (Evolves {V = V}) (expect e o)
  expect-Evolves = Steps-expect Evolves-order

  pub lift-Evolves : {E A : Type 0} (r : Result E A) → Steps (Evolves {V = V}) (λ w. (r, w))
  lift-Evolves r = record { at = Evolves-refl }

  pub if-Evolves :
      {E A : Type 0} (b : Bool) (m n : Exec (World V) E A)
      → Steps Evolves m
      → Steps Evolves n
      → Steps Evolves (if b then m else n)
  if-Evolves = Steps-if Evolves-order

  pub bind-Evolves :
      {E A B : Type 0} (m : Exec (World V) E A) (f : A → Exec (World V) E B)
      → Steps Evolves m
      → ((a : A) → Steps Evolves (f a))
      → Steps Evolves (m >>= f)
  bind-Evolves = Steps-bind Evolves-order

  pub map_error-Evolves :
      {E F A : Type 0} (f : E → F) (m : Exec (World V) E A)
      → Steps Evolves m
      → Steps Evolves (map_error f m)
  map_error-Evolves = Steps-map_error Evolves-order

  pub catch-Evolves :
      {E F A : Type 0} (m : Exec (World V) E A) (h : E → Exec (World V) F A)
      → Steps Evolves m
      → ((e : E) → Steps Evolves (h e))
      → Steps Evolves (catch m h)
  catch-Evolves = Steps-catch Evolves-order

pub ruleset evolve_rules = (
  pure-Evolves, fail-Evolves, gets-Evolves, expect-Evolves, lift-Evolves, if-Evolves, bind-Evolves,
  map_error-Evolves, catch-Evolves,
)
